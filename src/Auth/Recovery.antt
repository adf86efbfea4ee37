-- ===== src/Auth/Recovery.antt =====
-- server/src/services/auth.service.ts: recovery of an account by one of its codes, and the
-- replacement of the codes.
use najva_messenger.Base.{
  ℕ, ◌+◌, ◌*◌, Bool, true, false, ◌&&◌, not, Option, none, some, List, [], ◌∷◌, Action, ok, err,
  thrown, ◌>>=◌, ◌>>◌, pure, gets, modify, or_throw, throw_if, transaction, find, select, exists,
  update, length, replicate, ◌==◌, if◌then◌else◌, is_some, is_none,
}
use najva_messenger.Store.{Text, World, User, RecoveryCode, RecoverGrant, falsy}
use najva_messenger.Store.Redis.{get, del, set}
use najva_messenger.Services.{Services}
use najva_messenger.Session.{SessionMeta, Tokens, create, revoke_all_for_user}
use najva_messenger.Reset.{or_default, is_sealed, has_user_id, update_user, first_tokens}
use najva_messenger.Auth.Codes.{
  RecoveryCodeInput, has_eight, is_bad_code, codes_of, create_codes, delete_codes,
}
use najva_messenger.Auth.{Drawn, text_of, find_by_name, with_password, check_totp}

abbrev pub recovery_token_ttl_seconds : ℕ
recovery_token_ttl_seconds = 5 * 60

-- How hexadecimal texts are read: the bytes of one, and the test for 64 digits.
pub record Hex : Type 0 where
  pub bytes : Text → List ℕ
  pub is_hex64 : Text → Bool

unfoldable pub same_bytes : List ℕ → List ℕ → Bool
same_bytes [] [] = true
same_bytes [] (b ∷ bs) = false
same_bytes (a ∷ as') [] = false
same_bytes (a ∷ as') (b ∷ bs) = a == b && same_bytes as' bs

abbrev pub is_unused_of : Text → RecoveryCode → Bool
is_unused_of user k = k.user_id == user && is_none k.used_at

abbrev pub has_code_id : Text → RecoveryCode → Bool
has_code_id id k = k.id == id

module _ (h : Hex) where
  -- `safeHex`: 32 zero bytes for what is not 32 bytes.
  abbrev pub safe_hex : Text → List ℕ
  safe_hex t = if length (h.bytes t) == 32 then h.bytes t else replicate 32 0

  abbrev pub submitted : Option Text → Option (List ℕ)
  submitted none = none
  submitted (some t) = if h.is_hex64 t then some (h.bytes t) else none

  -- What a stored code is compared with: zero bytes where nothing fitting was submitted.
  abbrev pub compared : Option (List ℕ) → List ℕ → List ℕ
  compared none stored = replicate (length stored) 0
  compared (some a) stored = if length a == length stored then a else replicate (length stored) 0

  abbrev pub matches : Option Text → RecoveryCode → Bool
  matches verifier k =
      same_bytes (compared (submitted verifier) (safe_hex k.verifier_hash))
        (safe_hex k.verifier_hash)

  -- The loop without an early return: the last code that matches.
  unfoldable pub last_match :
      Option Text → List RecoveryCode → Option RecoveryCode → Option RecoveryCode
  last_match verifier [] found = found
  last_match verifier (k ∷ ks) found =
      last_match verifier ks (if matches verifier k then some k else found)

pub record RecoverView : Type 0 where
  pub wrapped_mk : Text
  pub wrap_salt : Text
  pub encrypted_private_keys : Option Text
  pub recovery_token : Text

abbrev codes_for : Option User → World → List RecoveryCode
codes_for none w = []
codes_for (some u) w = select (is_unused_of u.id) w.recovery_codes

-- `!user || matchedId === null`
abbrev pair_of : Option User → Option RecoveryCode → Option (User × RecoveryCode)
pair_of (some u) (some k) = some (u, k)
pair_of _ _ = none

abbrev grant_code : User × RecoveryCode → Text → ℕ → World → World
grant_code (u, k) token now w = record w {
  recover_tokens =
      set token (record { user_id = u.id; code_id = some k.id })
        (now + 1000 * recovery_token_ttl_seconds) w.recover_tokens;
}

abbrev recover_view : User × RecoveryCode → Text → RecoverView
recover_view (u, k) token = record {
  wrapped_mk = k.wrapped_mk;
  wrap_salt = k.wrap_salt;
  encrypted_private_keys = u.encrypted_private_keys;
  recovery_token = token;
}

-- Where the user is unknown or has no unused code, random bytes are compared and never match.
unfoldable pub recover_verify :
    Hex → (username verifier : Option Text) → Drawn → ℕ → Action World RecoverView
recover_verify h username verifier r now = do
  user ← gets (find_by_name username)
  codes ← gets (codes_for user)
  found ← or_throw (pair_of user (last_match h verifier codes none)) "Invalid recovery attempt" 401
  modify (grant_code found r.recovery_token now)
  pure (recover_view found r.recovery_token)

pub record RecoverData : Type 0 where
  pub recovery_token : Option Text
  pub new_login_key : Option Text
  pub kek_salt : Option Text
  pub kek_iterations : Option ℕ
  pub mk_password_wrapped : Option Text

abbrev pub is_recovery : RecoverData → Bool
is_recovery d =
    is_some d.recovery_token
    && is_some d.new_login_key
    && is_sealed d.kek_salt
    && is_sealed d.mk_password_wrapped

abbrev pub recovered : Text → RecoverData → User → User
recovered hash d u = record u {
  password_hash = hash;
  kek_salt = d.kek_salt;
  kek_iterations = or_default d.kek_iterations;
  mk_password_wrapped = d.mk_password_wrapped;
  totp_enabled = false;
  totp_secret = none;
}

-- `{ id: codeId, userId, usedAt: null }`
abbrev pub is_spendable : Text → Text → RecoveryCode → Bool
is_spendable code user k = has_code_id code k && is_unused_of user k

abbrev spend : Text → Text → ℕ → World → World
spend code user now w = record w {
  recovery_codes =
      update (is_spendable code user) (λ k. record k { used_at = some now }) w.recovery_codes;
}

-- A token from a code uses the code up; one from a passkey has none.
unfoldable pub consume_code : Option Text → Text → ℕ → Action World (Unit {0})
consume_code none user now w = (ok tt, w)
consume_code (some code) user now w =
    if falsy code
    then (ok tt, w)
    else (if exists (is_spendable code user) w.recovery_codes
        then (ok tt, spend code user now w)
        else (err (thrown "Invalid or expired recovery token" 401), w))

pub record RegenerateData : Type 0 where
  pub login_key : Option Text
  pub totp_code : Option Text
  pub recovery_codes : Option (List RecoveryCodeInput)

module _ (c : Services) where
  unfoldable pub swap_password : RecoverData → Text → RecoverGrant → ℕ → Action World (Unit {0})
  unfolding consume_code
  swap_password d salt grant now = transaction (do
    consume_code grant.code_id grant.user_id now
    update_user grant.user_id (recovered (c.bcrypt_hash salt (text_of d.new_login_key)) d))

  unfoldable pub recover_complete : RecoverData → SessionMeta → Drawn → ℕ → Action World Tokens
  recover_complete d meta r now = do
    throw_if (not (is_recovery d)) "Invalid recovery payload" 400
    granted ← gets (λ w. get (text_of d.recovery_token) now w.recover_tokens)
    modify (λ w. record w { recover_tokens = del (text_of d.recovery_token) w.recover_tokens })
    grant ← or_throw granted "Invalid or expired recovery token" 401
    swap_password d r.salt grant now
    revoked ← revoke_all_for_user grant.user_id none now
    made ← create c grant.user_id meta now r.session_id r.jti
    pure (first_tokens made)

  -- `!totpCode || !verifyTOTP(…)`
  prove_totp : Option Text → User → ℕ → Action World (Unit {0})
  prove_totp none u now w = (err (thrown "Invalid 2FA code" 401), w)
  prove_totp (some code) u now w =
      if falsy code
      then (err (thrown "Invalid 2FA code" 401), w)
      else (check_totp c u code now >>= λ valid. throw_if (not valid) "Invalid 2FA code" 401) w

  pub regenerate_recovery_codes : Text → RegenerateData → ℕ → Action World (Unit {0})
  unfolding prove_totp
  regenerate_recovery_codes user d now = do
    throw_if (not (has_eight d.recovery_codes)) "Exactly 8 recovery codes are required" 400
    throw_if (exists is_bad_code (codes_of d.recovery_codes)) "Invalid recovery code payload" 400
    u ←
        or_throw (with_password (← gets (λ w. find (has_user_id user) w.users)))
          "Invalid credentials" 401
    throw_if (not (c.bcrypt_compare (text_of d.login_key) u.password_hash)) "Invalid credentials"
        401
    (if u.totp_enabled then prove_totp d.totp_code u now else pure tt)
    transaction (modify (delete_codes user) >> create_codes user (codes_of d.recovery_codes))
