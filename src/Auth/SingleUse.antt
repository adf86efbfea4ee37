-- ===== src/Auth/SingleUse.antt =====
-- A recovery token is good once, and so is a recovery code.
use mathlib.Core.Path.{subst}
use najva_messenger.Base.{
  ℕ, ◌≡◌, refl, sym, ◌∙◌, ap, inl, inr, ◌⊎◌, true, false, Option, none, some, List, [], ◌∷◌, ok,
  err, thrown, find, exists, update, map_option, Bool-cases, Option-cases, end-cases, ok-inj,
  if◌then◌else◌, arith,
}
use najva_messenger.Base.Tables.Laws.{find-exists, none-exists}
use najva_messenger.Store.{Text, World, User, RecoveryCode, RecoverGrant, falsy}
use najva_messenger.Store.Redis.{get, del, find-del}
use najva_messenger.Services.{Services}
use najva_messenger.Session.{SessionMeta, Tokens}
use najva_messenger.Session.Frame.{revoke_all_for_user-frame, create_lem}
use najva_messenger.Reset.{has_user_id, update_user}
use najva_messenger.Auth.{Drawn, text_of}
use najva_messenger.Auth.Password.{find-update_user, iterations_of, or_default-iterations_of}
use najva_messenger.Auth.Recovery.{
  RecoverData, is_recovery, recovered, is_spendable, consume_code, swap_password, recover_complete,
}

exists-spent :
    (code user : Text) (now : ℕ) (ks : List RecoveryCode)
    → exists
        (is_spendable code user)
        (update (is_spendable code user) (λ k. record k { used_at = some now }) ks)
      ≡ false
unfolding exists update
exists-spent code user now [] = refl
exists-spent code user now (k ∷ ks) = elim (Bool-cases (is_spendable code user k)) [
  | inr kept ↦ rw (kept, exists-spent code user now ks) (ground arith)
  | inl hit ↦ rw (hit, exists-spent code user now ks) (ground arith)
]

-- The code of a grant was good before, and is used up after.
abbrev pub Spends : Option Text → Text → World → World → Type 0
Spends none user w w' = Unit {0}
Spends (some code) user w w' =
    if falsy code
    then Unit {0}
    else (exists (is_spendable code user) w.recovery_codes ≡ true)
      × (exists (is_spendable code user) w'.recovery_codes ≡ false)

Spends-codes :
    (code : Option Text) (user : Text) (w v v' : World)
    → v'.recovery_codes ≡ v.recovery_codes
    → Spends code user w v
    → Spends code user w v'
Spends-codes none user w v v' e h = tt
Spends-codes (some code) user w v v' e h = elim (Bool-cases (falsy code)) [
  | inl empty ↦ rw empty tt
  | inr named ↦ let h' = rw named at h in rw named (h'.0, rw e h'.1)
]

Spends-before :
    (code : Option Text) (user : Text) (w v w' : World)
    → v.recovery_codes ≡ w.recovery_codes
    → Spends code user w w'
    → Spends code user v w'
Spends-before none user w v w' e h = tt
Spends-before (some code) user w v w' e h = elim (Bool-cases (falsy code)) [
  | inl empty ↦ rw empty tt
  | inr named ↦ let h' = rw named at h in rw named (rw e h'.0, h'.1)
]

some_inj : {A : Type 0} {a b : A} → some a ≡ some b → a ≡ b
some_inj e = cc e

-- The account after a recovery.
abbrev pub after_recovery : Text → RecoverData → User → User
after_recovery hash d u = record u {
  password_hash = hash;
  kek_salt = d.kek_salt;
  kek_iterations = iterations_of d.kek_iterations;
  mk_password_wrapped = d.mk_password_wrapped;
  totp_enabled = false;
  totp_secret = none;
}

recovered-after_recovery :
    (hash : Text) (d : RecoverData) (u : User) → recovered hash d u ≡ after_recovery hash d u
recovered-after_recovery hash d u =
    ap (λ n. record (after_recovery hash d u) { kek_iterations = n })
      (or_default-iterations_of d.kek_iterations)

module _ (c : Services) where
  consume_code-cases :
      (code : Option Text) (user : Text) (now : ℕ) (w : World)
      → ((ks : List RecoveryCode) × (consume_code code user now w
            ≡ (ok tt, record w { recovery_codes = ks }))
          × Spends code user w (record w { recovery_codes = ks }))
        ⊎ (consume_code code user now w ≡ (err (thrown "Invalid or expired recovery token" 401), w))
  unfolding consume_code
  consume_code-cases none user now w = inl (w.recovery_codes, refl, tt)
  consume_code-cases (some code) user now w = elim (Bool-cases (falsy code)) [
    | inl empty ↦ rw empty (inl (w.recovery_codes, refl, tt))
    | inr named ↦ elim (Bool-cases (exists (is_spendable code user) w.recovery_codes)) [
      | inr spent ↦ rw (named, spent) (inr refl)
      | inl good ↦
          rw (named, good)
            (inl (
              update (is_spendable code user) (λ k. record k { used_at = some now })
                  w.recovery_codes,
              refl,
              (refl, exists-spent code user now w.recovery_codes),
            ))
    ]
  ]

  -- What `swap_password` has written, where it returns.
  swap_password-ok :
      (d : RecoverData) (salt : Text) (grant : RecoverGrant) (now : ℕ) (w w' : World)
      → swap_password c d salt grant now w ≡ (ok tt, w')
      → ((ks : List RecoveryCode) × (us : List User) × (w'
            ≡ record w { recovery_codes = ks; users = us }))
        × Spends grant.code_id grant.user_id w w'
        × ((u : User) × (find (has_user_id grant.user_id) w.users ≡ some u)
            × (find (has_user_id grant.user_id) w'.users
                ≡ some (recovered (c.bcrypt_hash salt (text_of d.new_login_key)) d u)))
  unfolding swap_password update_user
  swap_password-ok d salt grant now w w' e =
      elim (consume_code-cases grant.code_id grant.user_id now w) [
        | inr refused ↦ absurd (cc (rw refused at e))
        | inl (ks, done, spends) ↦ elim (Option-cases (find (has_user_id grant.user_id) w.users)) [
          | inl missing ↦
              absurd (cc (rw (done, none-exists (has_user_id grant.user_id) w.users missing) at e))
          | inr (u, there) ↦
              let f : User → User = recovered (c.bcrypt_hash salt (text_of d.new_login_key)) d in
              let last =
                (ok-inj
                  (rw (done, find-exists (has_user_id grant.user_id) w.users u there) at e)).1 in
              (
                (ks, update (has_user_id grant.user_id) f w.users, sym last),
                subst (Spends grant.code_id grant.user_id w) last
                    (Spends-codes grant.code_id grant.user_id w _ _ refl spends),
                (
                  u,
                  there,
                  ap (λ (v : World). find (has_user_id grant.user_id) v.users) (sym last)
                      ∙ find-update_user grant.user_id f w.users (λ x. refl)
                      ∙ ap (map_option f) there,
                ),
              )
        ]
      ]

  -- The end of a recovery, after the password is swapped.
  recover_complete-ok :
      (d : RecoverData) (meta : SessionMeta) (r : Drawn) (now : ℕ) (w w' : World) (t : Tokens)
      → recover_complete c d meta r now w ≡ (ok t, w')
      → (grant : RecoverGrant) × (get (text_of d.recovery_token) now w.recover_tokens ≡ some grant)
        × (s : World) × (swap_password c d r.salt grant now
              (record w { recover_tokens = del (text_of d.recovery_token) w.recover_tokens })
            ≡ (ok tt, s))
        × (w'.recovery_codes ≡ s.recovery_codes)
        × (w'.users ≡ s.users)
        × (w'.recover_tokens ≡ s.recover_tokens)
  unfolding recover_complete
  recover_complete-ok d meta r now w w' t e = elim (Bool-cases (is_recovery d)) [
    | inr invalid ↦ absurd (cc (rw invalid at e))
    | inl valid ↦ elim (Option-cases (get (text_of d.recovery_token) now w.recover_tokens)) [
      | inl missing ↦ absurd (cc (rw (valid, missing) at e))
      | inr (grant, there) ↦
          elim (end-cases (
            swap_password c d r.salt grant now
              (record w { recover_tokens = del (text_of d.recovery_token) w.recover_tokens }))) [
                | inl (x, s, bad) ↦ absurd (cc (rw (valid, there, bad) at e))
                | inr (s, done) ↦
                    let frame = revoke_all_for_user-frame grant.user_id none now s in
                    let last =
                      (ok-inj (
                        rw
                          (
                            valid,
                            there,
                            done,
                            frame.4,
                            create_lem c grant.user_id meta now r.session_id r.jti _,
                          )
                          at e)).1 in
                    (
                      grant,
                      there,
                      s,
                      done,
                      ap (λ (v : World). v.recovery_codes) (sym last),
                      ap (λ (v : World). v.users) (sym last),
                      ap (λ (v : World). v.recover_tokens) (sym last),
                    )
              ]
    ]
  ]

  -- What `recoverComplete` ensures where it returns: the token was in the store and cannot be read
  -- at any later time; the code that it stands for, if any, was unused and is used now; and the
  -- account has the hash of the new password, the new salt, iterations and wrapped master key, the
  -- second factor off and without a secret, and its other columns as before.
  pub recover_complete-Spends :
      (d : RecoverData) (meta : SessionMeta) (r : Drawn) (now : ℕ) (w w' : World) (t : Tokens)
      → recover_complete c d meta r now w ≡ (ok t, w')
      → (grant : RecoverGrant) × (get (text_of d.recovery_token) now w.recover_tokens ≡ some grant)
        × ((later : ℕ) → get (text_of d.recovery_token) later w'.recover_tokens ≡ none)
        × Spends grant.code_id grant.user_id w w'
        × ((u : User) × (find (has_user_id grant.user_id) w.users ≡ some u)
            × (find (has_user_id grant.user_id) w'.users
                ≡ some (after_recovery (c.bcrypt_hash r.salt (text_of d.new_login_key)) d u)))
  recover_complete-Spends d meta r now w w' t e =
      let run = recover_complete-ok d meta r now w w' t e in
      let grant = run.0 in
      let rest = record w { recover_tokens = del (text_of d.recovery_token) w.recover_tokens } in
      let swapped = swap_password-ok d r.salt grant now rest run.2 run.3 in
      (
        grant,
        run.1,
        λ later. rw (
          run.6,
          ap (λ (v : World). v.recover_tokens) swapped.0.2,
          find-del (text_of d.recovery_token) later w.recover_tokens,
        ),
        Spends-codes grant.code_id grant.user_id w run.2 w' run.4
            (Spends-before grant.code_id grant.user_id rest w run.2 refl swapped.1),
        (
          swapped.2.0,
          swapped.2.1,
          ap (find (has_user_id grant.user_id)) run.5
              ∙ swapped.2.2
              ∙ ap some (
                  recovered-after_recovery (c.bcrypt_hash r.salt (text_of d.new_login_key)) d
                    swapped.2.0),
        ),
      )

  -- Once a recovery by a code has returned, every other token for that code is refused: a call of
  -- `recoverComplete` with it throws "Invalid or expired recovery token", and no user's row and no
  -- session changes.
  pub recovery_code_once :
      (d d' : RecoverData) (meta meta' : SessionMeta) (r r' : Drawn) (now later : ℕ) (w w1 : World)
      (t : Tokens) (grant grant' : RecoverGrant) (code : Text)
      → recover_complete c d meta r now w ≡ (ok t, w1)
      → get (text_of d.recovery_token) now w.recover_tokens ≡ some grant
      → grant.code_id ≡ some code
      → falsy code ≡ false
      → is_recovery d' ≡ true
      → get (text_of d'.recovery_token) later w1.recover_tokens ≡ some grant'
      → grant' ≡ grant
      → let (out, w2) = recover_complete c d' meta' r' later w1 in
        (out ≡ err (thrown "Invalid or expired recovery token" 401))
        × (w2.users ≡ w1.users)
        × (w2.sessions ≡ w1.sessions)
  unfolding recover_complete swap_password consume_code
  recovery_code_once d d' meta meta' r r' now later w w1 t grant grant' code e there named filled
        valid there' same =
      let run = recover_complete-Spends d meta r now w w1 t e in
      let is_grant : run.0 ≡ grant = some_inj (sym run.1 ∙ there) in
      let spent = subst (λ (g : RecoverGrant). Spends g.code_id g.user_id w w1) is_grant run.3 in
      let gone : exists (is_spendable code grant.user_id) w1.recovery_codes ≡ false =
        (rw (named, filled) at spent).1 in
      rw (valid, there', same, named, filled, gone) (refl, refl, refl)
