-- ===== src/Auth/Login.antt =====
-- Who is logged in.
use najva_messenger.Base.{
  Error, ◌⊎◌, ℕ, ◌≡◌, refl, inl, inr, Bool, true, false, ◌&&◌, ◌||◌, not, Option, none, some, ◌∷◌,
  Result, ok, err, type_error, find, Bool-cases, Option-cases, if◌then◌else◌, thrown,
}
use najva_messenger.Store.{Text, World, User, falsy}
use najva_messenger.Services.{Services}
use najva_messenger.Session.{SessionMeta, new_session, generate_tokens}
use najva_messenger.Session.Frame.{create_lem}
use najva_messenger.Reset.{has_username, is_sealed}
use najva_messenger.Auth.{
  LoginData, LoginResult, Drawn, is_barred, text_of, check_totp, check_code, second_factor, login,
  login_of, open_session,
}

module _ (c : Services) where
  abbrev pub proves_totp : ℕ → User → Option Text → Bool
  proves_totp now u none = false
  proves_totp now u (some code) = not (falsy code) && elim u.totp_secret [
    | none ↦ false
    | some secret ↦ c.verify_totp now secret code u.username
  ]

  -- An account with a password that is not barred, its login key, and its second factor where it
  -- has one.
  abbrev pub may_log_in : ℕ → LoginData → Option User → Bool
  may_log_in now d none = false
  may_log_in now d (some u) =
      not (falsy u.password_hash)
      && is_sealed u.kek_salt
      && c.bcrypt_compare (text_of d.login_key) u.password_hash
      && not (is_barred u)
      && (not u.totp_enabled || proves_totp now u d.totp_code)

  abbrev pub user_of : Option Text → World → Option User
  user_of none w = none
  user_of (some name) w = find (has_username name) w.users

  abbrev pub is_login : Result LoginResult → Bool
  is_login (ok (LoginResult.logged_in tokens session)) = true
  is_login (ok LoginResult.requires_2fa) = false
  is_login (err e) = false

  abbrev pub LoggedIn :
      LoginData
      → SessionMeta
      → Drawn
      → ℕ
      → World
      → Option User
      → Result LoginResult × World
      → Type 0
  LoggedIn d meta r now w none (out, w') = (is_login out ≡ false) × (w' ≡ w)
  LoggedIn d meta r now w (some u) (out, w') =
      let tokens = generate_tokens c u.id r.session_id now r.jti in
      if may_log_in now d (some u)
      then (out ≡ ok (LoginResult.logged_in tokens r.session_id))
        × (w'.sessions ≡ new_session c u.id meta now r.session_id tokens ∷ w.sessions)
        × (w'.users ≡ w.users)
      else (is_login out ≡ false) × (w' ≡ w)

  abbrev passes : ℕ → User → Option Text → Bool
  passes now u code = not u.totp_enabled || proves_totp now u code

  -- The second factor asks, refuses or is passed, and writes nothing.
  abbrev SecondFactor : ℕ → User → Option Text → World → Result Bool × World → Type 0
  SecondFactor now u code w out =
      ((passes now u code ≡ true) × (out ≡ (ok false, w)))
      ⊎ ((passes now u code ≡ false) × ((out ≡ (ok true, w)) ⊎ ((e : Error) × (out ≡ (err e, w)))))

  second_factor-cases :
      (now : ℕ) (u : User) (code : Option Text) (w : World)
      → SecondFactor now u code w (second_factor c code u now w)
  unfolding second_factor check_code check_totp
  second_factor-cases now u none w = elim (Bool-cases u.totp_enabled) [
    | inr off ↦ rw off (inl (refl, refl))
    | inl on ↦ rw on (inr (refl, inl refl))
  ]
  second_factor-cases now u (some code) w = elim (Bool-cases u.totp_enabled) [
    | inr off ↦ rw off (inl (refl, refl))
    | inl on ↦ elim (Bool-cases (falsy code)) [
      | inl empty ↦ rw (on, empty) (inr (refl, inl refl))
      | inr given ↦ elim (Option-cases u.totp_secret) [
        | inl missing ↦ rw (on, given, missing) (inr (refl, inr (type_error, refl)))
        | inr (secret, there) ↦ elim (Bool-cases (c.verify_totp now secret code u.username)) [
          | inl right ↦ rw (on, given, there, right) (inl (refl, refl))
          | inr wrong ↦
              rw (on, given, there, wrong) (inr (refl, inr (thrown "Invalid 2FA code" 401, refl)))
        ]
      ]
    ]
  ]

  account :
      (d : LoginData) (meta : SessionMeta) (r : Drawn) (now : ℕ) (w : World) (name : Text)
      (u : User)
      → find (has_username name) w.users ≡ some u
      → LoggedIn d meta r now w
          (find (has_username name) w.users)
          (login_of c (some name) d meta r now w)
  unfolding login_of open_session
  account d meta r now w name u there = elim (Bool-cases (falsy u.password_hash)) [
    | inl bare ↦ rw (there, bare) (refl, refl)
    | inr hashed ↦ elim (Bool-cases (is_sealed u.kek_salt)) [
      | inr unsalted ↦ rw (there, hashed, unsalted) (refl, refl)
      | inl salted ↦ elim (Bool-cases (c.bcrypt_compare (text_of d.login_key) u.password_hash)) [
        | inr wrong ↦ rw (there, hashed, salted, wrong) (refl, refl)
        | inl right ↦ elim (Bool-cases (is_barred u)) [
          | inl barred ↦ rw (there, hashed, salted, right, barred) (refl, refl)
          | inr free ↦ elim (second_factor-cases now u d.totp_code w) [
            | inl (pass, done) ↦
                rw
                  (
                    there,
                    hashed,
                    salted,
                    right,
                    free,
                    pass,
                    done,
                    create_lem c u.id meta now r.session_id r.jti w,
                  )
                  (refl, refl, refl)
            | inr (fails, inl asks) ↦
                rw (there, hashed, salted, right, free, fails, asks) (refl, refl)
            | inr (fails, inr (e, thrown_there)) ↦
                rw (there, hashed, salted, right, free, fails, thrown_there) (refl, refl)
          ]
        ]
      ]
    ]
  ]

  -- `login` in every case. It gives tokens exactly where the account is there with a password and
  -- its key salt, the login key matches, the account is neither blocked nor suspended, and the
  -- second factor is off or proven by a code; then it opens one session for them. In every other
  -- case it throws or asks for the second factor, and writes nothing.
  pub login_exact :
      (d : LoginData) (meta : SessionMeta) (r : Drawn) (now : ℕ) (w : World)
      → LoggedIn d meta r now w (user_of d.username w) (login c d meta r now w)
  unfolding login login_of open_session
  login_exact d meta r now w = elim (Option-cases d.username) [
    | inl missing ↦ rw missing (refl, refl)
    | inr (name, given) ↦ elim (Option-cases (find (has_username name) w.users)) [
      | inl absent ↦ rw (given, absent) (refl, refl)
      | inr (u, there) ↦ rw given (account d meta r now w name u there)
    ]
  ]
