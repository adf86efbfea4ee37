-- ===== src/Auth/Tests.antt =====
-- Concrete inputs for the theorems on logins, passwords, recovery and the second factor.
use najva_messenger.Base.{
  if◌then◌else◌, ◌==◌, ◌≡◌, refl, ◌∷◌, [], some, none, err, thrown, find, select, exists, update,
  true, false, not, replicate, length, inl, arith,
}
use najva_messenger.Store.{Text, World, User, RecoveryCode, RecoverGrant}
use najva_messenger.Store.Redis.{get}
use najva_messenger.Session.{
  disconnect_session, has_id, generate_tokens, hash_token, create, revoke_all_for_user,
  revoke_targets,
}
use najva_messenger.Session.Tests.{services, row}
use najva_messenger.Conversation.Tests.{office, user}
use najva_messenger.Reset.{update_user}
use najva_messenger.Reset.Tests.{no_meta}
use najva_messenger.Auth.{LoginData, ChangeData, Drawn, login, change_password}
use najva_messenger.Auth.Login.{LoggedIn, user_of, login_exact}
use najva_messenger.Auth.Password.{change_password_exact}
use najva_messenger.Auth.Recovery.{
  Hex, RecoverData, recover_complete, recover_verify, swap_password, consume_code,
}
use najva_messenger.Auth.SingleUse.{recover_complete-Spends, recovery_code_once}
use najva_messenger.Auth.Verify.{is_ok, recover_verify_accepts, malformed_accepts_anybody}
use najva_messenger.Auth.TwoFactor.{disable_2fa, WithCode, two_factor_exact}

-- User 7 has the login key 5, an enabled second factor whose code is 9, and one recovery code.
abbrev ada : User
ada = record (user 7) {
  password_hash = 5;
  kek_salt = some 6;
  totp_secret = some 9;
  totp_enabled = true;
}

abbrev stored_code : RecoveryCode
stored_code = record {
  id = 31;
  user_id = 7;
  verifier_hash = 3;
  wrapped_mk = 32;
  wrap_salt = 33;
  used_at = none;
}

abbrev code_grant : RecoverGrant
code_grant = record { user_id = 7; code_id = some 31 }

abbrev home : World
home = record office {
  users = ada ∷ user 8 ∷ [];
  sessions = row 1 7 51 ∷ row 2 7 61 ∷ [];
  recovery_codes = stored_code ∷ [];
  recover_tokens =
      record { key = 90; value = code_grant; expires_at = 600000 }
      ∷ record { key = 91; value = code_grant; expires_at = 600000 }
      ∷ [];
}

abbrev drawn : Drawn
drawn = record {
  user_id = 70;
  conversation_id = 71;
  salt = 72;
  session_id = 4;
  jti = 84;
  recovery_token = 92;
}

abbrev asked : LoginData
asked = record { username = some 7; login_key = some 5; totp_code = some 9 }

login_exact_example :
    LoggedIn services asked no_meta drawn 100 home
      (user_of services (some 7) home)
      (login services asked no_meta drawn 100 home)
login_exact_example = login_exact services asked no_meta drawn 100 home

abbrev change : ChangeData
change = record {
  current_login_key = some 5;
  new_login_key = some 15;
  new_kek_salt = some 16;
  new_kek_iterations = none;
  new_mk_password_wrapped = some 17;
}

change_password_exact_example :
    find (has_id 1) (change_password services 7 (some 2) change 73 100 home).1.sessions
    ≡ some (record (row 1 7 51) { revoked_at = some 100 })
unfolding change_password update_user find update exists select revoke_all_for_user revoke_targets
    disconnect_session
change_password_exact_example =
    let run =
      change_password_exact services 7 (some 2) change 73 100 home
        (change_password services 7 (some 2) change 73 100 home).1 (refl, (refl, tt)) refl in
    run.2 1

abbrev recovery : Text → RecoverData
recovery token = record {
  recovery_token = some token;
  new_login_key = some 25;
  kek_salt = some 26;
  kek_iterations = none;
  mk_password_wrapped = some 27;
}

recover_complete-Spends_example :
    get 90 500 (recover_complete services (recovery 90) no_meta drawn 100 home).1.recover_tokens
    ≡ none
unfolding recover_complete swap_password consume_code update_user find update exists select
    revoke_all_for_user revoke_targets disconnect_session create generate_tokens hash_token
recover_complete-Spends_example =
    (recover_complete-Spends services (recovery 90) no_meta drawn 100 home
        (recover_complete services (recovery 90) no_meta drawn 100 home).1
        (generate_tokens services 7 4 100 84) refl).2
      500

recovery_code_once_example :
    (recover_complete services
      (recovery 91)
      no_meta
      drawn
      200
      (recover_complete services (recovery 90) no_meta drawn 100 home).1).0
    ≡ err (thrown "Invalid or expired recovery token" 401)
unfolding recover_complete swap_password consume_code update_user find update exists select
    revoke_all_for_user revoke_targets disconnect_session create generate_tokens hash_token
recovery_code_once_example =
    (recovery_code_once services (recovery 90) (recovery 91) no_meta no_meta drawn drawn 100 200
      home (recover_complete services (recovery 90) no_meta drawn 100 home).1
      (generate_tokens services 7 4 100 84) code_grant code_grant 31 refl refl refl refl refl refl
      refl).0

-- A text is 32 times its number, but the text 3 has one digit only.
abbrev digits : Hex
digits = record {
  bytes = λ t. if t == 3 then 3 ∷ [] else replicate 32 t;
  is_hex64 = λ t. not (t == 3);
}

-- The code of user 7 as it should be stored.
abbrev stored_well : World
stored_well = record home { recovery_codes = record stored_code { verifier_hash = 8 } ∷ [] }

digits-length : (t : Text) → digits.is_hex64 t ≡ true → length (digits.bytes t) ≡ 32
digits-length t e = ground arith

recover_verify_accepts_example :
    is_ok (recover_verify digits (some 7) (some 8) drawn 100 stored_well).0 ≡ true
unfolding find
recover_verify_accepts_example =
    (recover_verify_accepts digits digits-length (some 7) (some 8) drawn 100 stored_well
        ((refl, λ e. absurd (cc e)), tt)).1
      (
        ada,
        record stored_code { verifier_hash = 8 },
        refl,
        inl refl,
        refl,
        refl,
        (8, refl, refl, refl),
      )

malformed_accepts_anybody_example :
    is_ok (recover_verify digits (some 7) none drawn 100 home).0 ≡ true
unfolding find exists
malformed_accepts_anybody_example =
    malformed_accepts_anybody digits (some 7) drawn 100 home ada refl refl

two_factor_exact_example :
    WithCode services
      (λ u. record u { totp_enabled = false; totp_secret = none })
      7
      9
      100
      home
      (some ada)
      (some 9)
      (disable_2fa services 7 9 100 home)
unfolding find
two_factor_exact_example = (two_factor_exact services 7 9 100 home).1
