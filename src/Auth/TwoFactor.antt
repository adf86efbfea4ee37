-- ===== src/Auth/TwoFactor.antt =====
-- server/src/services/auth.service.ts: setting up, turning on and turning off the second factor.
use najva_messenger.Base.{
  ◌≡◌, ◌≢◌, refl, ap, ◌∙◌, map_option, inl, inr, Bool-cases, Option-cases, ℕ, true, false, not,
  Option, none, some, Action, Result, ok, err, thrown, ◌>>=◌, ◌>>◌, pure, gets, or_throw, throw_if,
  find, if◌then◌else◌,
}
use najva_messenger.Store.{Text, World, User, falsy}
use najva_messenger.Services.{Services}
use najva_messenger.Reset.{has_user_id, update_user, is_sealed}
use najva_messenger.Auth.{check_totp}
use najva_messenger.Auth.Password.{update_user-ok, find-update_user, find-update_other_user}

abbrev pub set_secret : Text → User → User
set_secret secret u = record u { totp_secret = some secret }

abbrev pub turn_on : User → User
turn_on u = record u { totp_enabled = true }

abbrev pub turn_off : User → User
turn_off u = record u { totp_enabled = false; totp_secret = none }

-- `secret` is the fresh secret, which is returned with a URL for it.
pub setup_2fa : Text → (secret : Text) → Action World Text
setup_2fa user secret = update_user user (set_secret secret) >> pure secret

-- `!user || !user.totpSecret`
abbrev pub with_secret : Option User → Option User
with_secret none = none
with_secret (some u) = if is_sealed u.totp_secret then some u else none

module _ (c : Services) where
  pub verify_2fa : Text → Text → ℕ → Action World (Unit {0})
  verify_2fa user code now = do
    u ← or_throw (with_secret (← gets (λ w. find (has_user_id user) w.users))) "2FA not setup" 400
    valid ← check_totp c u code now
    throw_if (not valid) "Invalid 2FA code" 400
    update_user user turn_on

  pub disable_2fa : Text → Text → ℕ → Action World (Unit {0})
  disable_2fa user code now = do
    u ← or_throw (with_secret (← gets (λ w. find (has_user_id user) w.users))) "2FA not setup" 400
    valid ← check_totp c u code now
    throw_if (not valid) "Invalid 2FA code" 400
    update_user user turn_off

  -- What a call does to an account with a secret: the row of the user is changed by `f` where the
  -- code is right, and nothing else is.
  abbrev pub Proven :
      (User → User)
      → Text
      → Text
      → ℕ
      → World
      → User
      → (secret : Text) → Result (Unit {0}) × World
      → Type 0
  Proven f user code now w u secret (r, w') =
      if c.verify_totp now secret code u.username
      then (r ≡ ok tt)
        × (find (has_user_id user) w'.users ≡ some (f u))
        × ((other : Text)
            → other ≢ user
            → find (has_user_id other) w'.users ≡ find (has_user_id other) w.users)
        × (w' ≡ record w { users = w'.users })
      else (r ≡ err (thrown "Invalid 2FA code" 400)) × (w' ≡ w)

  -- What a call with a code does, by `f`, for an account and its secret.
  abbrev pub WithCode :
      (User → User)
      → Text
      → Text
      → ℕ
      → World
      → Option User
      → Option Text
      → Result (Unit {0}) × World
      → Type 0
  WithCode f user code now w (some u) (some secret) out =
      if falsy secret
      then (out ≡ (err (thrown "2FA not setup" 400), w))
      else Proven f user code now w u secret out
  WithCode f user code now w _ _ out = out ≡ (err (thrown "2FA not setup" 400), w)

  abbrev pub secret_of : Option User → Option Text
  secret_of none = none
  secret_of (some u) = u.totp_secret

  update_user-Proven :
      (f : User → User) (user code : Text) (now : ℕ) (w : World) (u : User) (secret : Text)
      → ((x : User) → (f x).id ≡ x.id)
      → find (has_user_id user) w.users ≡ some u
      → c.verify_totp now secret code u.username ≡ true
      → Proven f user code now w u secret (update_user user f w)
  update_user-Proven f user code now w u secret keep there right =
      rw (right, update_user-ok user f w u there)
        (
          refl,
          find-update_user user f w.users keep ∙ ap (map_option f) there,
          λ other ne. find-update_other_user user other f w.users keep ne,
          refl,
        )

  Proven-WithCode :
      (f : User → User) (user code : Text) (now : ℕ) (w : World) (u : User) (secret : Text)
      (o : Option User) (kept : Option Text) (out : Result (Unit {0}) × World)
      → o ≡ some u
      → kept ≡ some secret
      → falsy secret ≡ false
      → Proven f user code now w u secret out
      → WithCode f user code now w o kept out
  Proven-WithCode f user code now w u secret o kept out p q sealed proven = rw (p, q, sealed) proven

  -- Turning the second factor on and off: an account that is missing or has no secret gets
  -- "2FA not setup", and a code that the secret does not verify gets "Invalid 2FA code"; both change
  -- nothing. With a right code the account's second factor is on, or it is off and the secret is
  -- gone; the other columns of its row, all other users and the rest of the store are as they were.
  pub two_factor_exact :
      (user code : Text) (now : ℕ) (w : World)
      → WithCode
          (λ u. record u { totp_enabled = true })
          user
          code
          now
          w
          (find (has_user_id user) w.users)
          (secret_of (find (has_user_id user) w.users))
          (verify_2fa user code now w)
        × WithCode
            (λ u. record u { totp_enabled = false; totp_secret = none })
            user
            code
            now
            w
            (find (has_user_id user) w.users)
            (secret_of (find (has_user_id user) w.users))
            (disable_2fa user code now w)
  unfolding verify_2fa disable_2fa check_totp
  two_factor_exact user code now w = elim (Option-cases (find (has_user_id user) w.users)) [
    | inl missing ↦ rw missing (refl, refl)
    | inr (u, there) ↦ elim (Option-cases u.totp_secret) [
      | inl bare ↦ rw (there, bare) (refl, refl)
      | inr (secret, kept) ↦ elim (Bool-cases (falsy secret)) [
        | inl empty ↦ rw (there, kept, empty) (refl, refl)
        | inr sealed ↦ elim (Bool-cases (c.verify_totp now secret code u.username)) [
          | inr wrong ↦ rw (there, kept, sealed, wrong) ((refl, refl), (refl, refl))
          | inl right ↦
              let ran_on : verify_2fa user code now w ≡ update_user user turn_on w =
                rw (there, kept, sealed, right) refl in
              let ran_off : disable_2fa user code now w ≡ update_user user turn_off w =
                rw (there, kept, sealed, right) refl in
              let has : secret_of (find (has_user_id user) w.users) ≡ some secret =
                ap secret_of there ∙ kept in
              (
                Proven-WithCode turn_on user code now w u secret _ _ _ there has sealed (
                    rw ran_on (
                      update_user-Proven turn_on user code now w u secret (λ x. refl) there right)),
                Proven-WithCode turn_off user code now w u secret _ _ _ there has sealed (
                    rw ran_off (
                      update_user-Proven turn_off user code now w u secret (λ x. refl) there
                        right)),
              )
        ]
      ]
    ]
  ]
