-- ===== src/Auth/Password.antt =====
-- The change of a password.
use najva_messenger.Base.{
  ◌≢◌, ℕ, ◌≡◌, refl, sym, ◌∙◌, ap, inl, inr, true, false, Option, none, some, List, [], ◌∷◌, ok,
  find, update, map_option, Bool-cases, ok-inj, if◌then◌else◌, arith, ◌⊎◌,
}
use najva_messenger.Base.Tables.Laws.{find-exists}
use najva_messenger.Store.{Text, World, User, Session, falsy}
use najva_messenger.Services.{Services}
use najva_messenger.Session.{has_id, revoke_all_for_user}
use najva_messenger.Session.Effects.{IsUnique, has_socket}
use najva_messenger.Session.Frame.{revoke_all_for_user-frame}
use najva_messenger.Session.Revocation.{is_other_of, revoke_all_for_user_exact}
use najva_messenger.Reset.{has_user_id, update_user, or_default}
use najva_messenger.Auth.{ChangeData, change_password, with_password, rewrapped, is_change, text_of}

-- A user's row after an update by its identifier.
pub find-update_user :
    (id : Text) (f : User → User) (us : List User)
    → ((u : User) → (f u).id ≡ u.id)
    → find (has_user_id id) (update (has_user_id id) f us) ≡ map_option f (find (has_user_id id) us)
unfolding find update
find-update_user id f [] keep = refl
find-update_user id f (u ∷ us) keep = ground (arith, keep u, find-update_user id f us keep)

pub update_user-ok :
    (id : Text) (f : User → User) (w : World) (u : User)
    → find (has_user_id id) w.users ≡ some u
    → update_user id f w ≡ (ok tt, record w { users = update (has_user_id id) f w.users })
unfolding update_user
update_user-ok id f w u there = rw (find-exists (has_user_id id) w.users u there) refl

with_password-cases :
    (o : Option User)
    → (with_password o ≡ none) ⊎ ((u : User) × (o ≡ some u) × (with_password o ≡ some u))
with_password-cases none = inl refl
with_password-cases (some u) = elim (Bool-cases (falsy u.password_hash)) [
  | inl bare ↦ rw bare (inl refl)
  | inr hashed ↦ rw hashed (inr (u, refl, refl))
]

pub find-update_other_user :
    (id other : Text) (f : User → User) (us : List User)
    → ((u : User) → (f u).id ≡ u.id)
    → other ≢ id
    → find (has_user_id other) (update (has_user_id id) f us) ≡ find (has_user_id other) us
unfolding find update
find-update_other_user id other f [] keep ne = refl
find-update_other_user id other f (u ∷ us) keep ne =
    ground (arith, keep u, find-update_other_user id other f us keep ne)

-- The given number of iterations, or 600000.
abbrev pub iterations_of : Option ℕ → ℕ
iterations_of none = 600000
iterations_of (some n) = n

pub or_default-iterations_of : (o : Option ℕ) → or_default o ≡ iterations_of o
or_default-iterations_of none = refl
or_default-iterations_of (some n) = refl

-- The account after a change of the password.
abbrev pub after_change : Text → ChangeData → User → User
after_change hash d u = record u {
  password_hash = hash;
  kek_salt = d.new_kek_salt;
  kek_iterations = iterations_of d.new_kek_iterations;
  mk_password_wrapped = d.new_mk_password_wrapped;
}

rewrapped-after_change :
    (hash : Text) (d : ChangeData) (u : User) → rewrapped hash d u ≡ after_change hash d u
rewrapped-after_change hash d u =
    ap (λ n. record (after_change hash d u) { kek_iterations = n })
      (or_default-iterations_of d.new_kek_iterations)

-- What `changePassword` ensures where it returns, session identifiers being unique: the account is
-- there and the current login key was right; the account has the hash of the new password, the new
-- salt, iterations and wrapped master key, and its other columns as before, and no other user's row
-- changes; every session of the user that was not revoked, but for the caller's own, is revoked now
-- and has no live socket; every other session keeps its row and its sockets.
pub change_password_exact :
    (c : Services) (user : Text) (current : Option Text) (d : ChangeData) (salt : Text) (now : ℕ)
    (w w' : World)
    → IsUnique w.sessions
    → change_password c user current d salt now w ≡ (ok tt, w')
    → ((u : User) × (find (has_user_id user) w.users ≡ some u)
        × (c.bcrypt_compare (text_of d.current_login_key) u.password_hash ≡ true)
        × (find (has_user_id user) w'.users
            ≡ some (after_change (c.bcrypt_hash salt (text_of d.new_login_key)) d u)))
      × ((other : Text)
          → other ≢ user
          → find (has_user_id other) w'.users ≡ find (has_user_id other) w.users)
      × ((sid : Text)
          → find (has_id sid) w'.sessions
            ≡ map_option
                (λ s. if is_other_of user current s then record s { revoked_at = some now } else s)
                (find (has_id sid) w.sessions))
      × ((sid : Text) (s : Session)
          → find (has_id sid) w.sessions ≡ some s
          → has_socket sid w'.sockets
            ≡ (if is_other_of user current s then false else has_socket sid w.sockets))
unfolding change_password
change_password_exact c user current d salt now w w' unique e = elim (Bool-cases (is_change d)) [
  | inr invalid ↦ absurd (cc (rw invalid at e))
  | inl valid ↦ elim (with_password-cases (find (has_user_id user) w.users)) [
    | inl missing ↦ absurd (cc (rw (valid, missing) at e))
    | inr (u, there, hashed) ↦
        elim (Bool-cases (c.bcrypt_compare (text_of d.current_login_key) u.password_hash)) [
          | inr wrong ↦ absurd (cc (rw (valid, hashed, wrong) at e))
          | inl right ↦
              let f : User → User = rewrapped (c.bcrypt_hash salt (text_of d.new_login_key)) d in
              let w1 : World = record w { users = update (has_user_id user) f w.users } in
              let frame = revoke_all_for_user-frame user current now w1 in
              let done =
                (ok-inj
                  (rw (valid, hashed, right, update_user-ok user f w u there, frame.4) at e)).1 in
              let exact = revoke_all_for_user_exact user current now w1 unique in
              let last : (revoke_all_for_user user current now w1).1 ≡ w' =
                ap (λ p. p.1) frame.4 ∙ done in
              (
                (
                  u,
                  there,
                  right,
                  ap (λ (v : World). find (has_user_id user) v.users) (sym done)
                      ∙ find-update_user user f w.users (λ x. refl)
                      ∙ ap (map_option f) there
                      ∙ ap some (rewrapped-after_change _ d u),
                ),
                λ other ne.
                    ap (λ (v : World). find (has_user_id other) v.users) (sym done)
                    ∙ find-update_other_user user other f w.users (λ x. refl) ne,
                λ sid. ap (λ (v : World). find (has_id sid) v.sessions) (sym last) ∙ exact.1 sid,
                λ sid s h.
                    ap (λ (v : World). has_socket sid v.sockets) (sym last) ∙ exact.2 sid s h,
              )
        ]
  ]
]
