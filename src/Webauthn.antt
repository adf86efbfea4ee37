-- ===== src/Webauthn.antt =====
-- server/src/services/webauthn.service.ts: passkeys. The ceremonies are checked by a library; the
-- challenges, salts and identifiers that a call draws are arguments.
pub mod Challenges
pub mod Ceremony
mod Tests
use najva_messenger.Base.{
  ℕ, ◌+◌, ◌*◌, ◌≡◌, String, Bool, true, false, ◌&&◌, ◌||◌, not, Option, none, some, List, [], ◌∷◌,
  map, Action, Result, ok, err, thrown, record_not_found, unique_violation, type_error, ◌>>=◌, ◌>>◌,
  pure, gets, modify, or_throw, throw_if, raise_if, find, select, exists, update, ltb, leb, ◌==◌,
  if◌then◌else◌, is_some,
}
use najva_messenger.Base.Order.{order_desc}
use najva_messenger.Store.{
  Entry, Text, World, User, Credential, RegistrationStash, RecoverGrant, falsy,
}
use najva_messenger.Store.Redis.{get, del, set}
use najva_messenger.Services.{Services}
use najva_messenger.Session.{SessionMeta, Tokens, create}
use najva_messenger.Reset.{has_user_id, is_sealed, first_tokens}
use najva_messenger.Auth.{text_of, with_password, is_barred}

abbrev pub challenge_ttl_seconds : ℕ
challenge_ttl_seconds = 5 * 60

abbrev pub recovery_token_ttl_seconds : ℕ
recovery_token_ttl_seconds = 5 * 60

-- What a verified registration says of the new credential, as it is stored.
pub record RegistrationInfo : Type 0 where
  pub credential_id : Text
  pub public_key : Text
  pub counter : ℕ
  pub transports : Option Text

-- @simplewebauthn/server, whose checks fail with `none` where they throw or do not verify, for the
-- configured origin; `credential_of` is the identifier that a response names, and `clean_name` a
-- name that is trimmed and cut to 64 characters.
pub record Ceremonies : Type 0 where
  pub verify_registration : (response challenge : Text) → Option RegistrationInfo
  pub verify_authentication : (response challenge : Text) → Credential → Option ℕ
  pub credential_of : (response : Text) → Text
  pub clean_name : Text → Text

abbrev pub is_credential : Text → Credential → Bool
is_credential id k = k.credential_id == id

-- `{ id, userId }` or `{ credentialId, userId }`
abbrev is_own : (Credential → Text) → Text → Text → Credential → Bool
is_own key id user k = key k == id && k.user_id == user

abbrev pub has_row_id : Text → Credential → Bool
has_row_id id k = k.id == id

abbrev update_row : Text → (Credential → Credential) → World → World
update_row id f w = record w { credentials = update (has_row_id id) f w.credentials }

-- Returns the salt with the options of the ceremony.
pub registration_options : Text → (challenge prf_salt : Text) → ℕ → Action World Text
registration_options user challenge prf_salt now = do
  modify (λ w. record w {
    registrations =
        set user (record { challenge = challenge; prf_salt = prf_salt })
          (now + 1000 * challenge_ttl_seconds) w.registrations;
  })
  pure prf_salt

pub record RegistrationData : Type 0 where
  pub response : Option Text
  pub device_name : Option Text
  pub wrapped_mk : Option Text

abbrev name_of : (Text → Text) → Option Text → Option Text
name_of clean none = none
name_of clean (some name) = if falsy (clean name) then none else some (clean name)

abbrev harvested : Option Text → Option Text
harvested none = none
harvested (some mk) = if falsy mk then none else some mk

abbrev new_credential :
    Ceremonies
    → Text
    → RegistrationData
    → RegistrationStash
    → RegistrationInfo
    → ℕ
    → Text
    → Credential
new_credential e user d stash info now id = record {
  id = id;
  user_id = user;
  credential_id = info.credential_id;
  public_key = info.public_key;
  counter = info.counter;
  transports = info.transports;
  device_name = name_of e.clean_name d.device_name;
  prf_supported = is_some (harvested d.wrapped_mk);
  prf_salt = some stash.prf_salt;
  wrapped_mk = harvested d.wrapped_mk;
  created_at = now;
  last_used_at = none;
}

-- The challenge is taken out of the store before the response is checked.
pub registration_verify : Ceremonies → Text → RegistrationData → ℕ → Text → Action World Credential
registration_verify e user d now id = do
  response ← or_throw d.response "Missing registration response" 400
  stashed ← gets (λ w. get user now w.registrations)
  modify (λ w. record w { registrations = del user w.registrations })
  stash ← or_throw stashed "Registration challenge expired" 400
  info ← or_throw (e.verify_registration response stash.challenge) "Passkey registration failed" 400
  taken ← gets (λ w. exists (is_credential info.credential_id) w.credentials)
  raise_if taken unique_violation
  modify (λ w. record w { credentials = new_credential e user d stash info now id ∷ w.credentials })
  pure (new_credential e user d stash info now id)

pub set_credential_prf : Text → (credential_id wrapped_mk : Option Text) → Action World (Unit {0})
set_credential_prf user credential_id wrapped_mk = do
  throw_if (not (is_some credential_id && is_sealed wrapped_mk)) "Invalid PRF payload" 400
  k ←
      or_throw
        (← gets
          (λ w. find (is_own (λ x. x.credential_id) (text_of credential_id) user) w.credentials))
        "Credential not found" 404
  modify (update_row k.id (λ x. record x { prf_supported = true; wrapped_mk = wrapped_mk }))

-- The two uses of an assertion, whose challenges are kept apart.
pub data Purpose : Type 0 where
  logging_in recovering : Purpose

abbrev pub challenges : Purpose → World → List (Entry Text)
challenges Purpose.logging_in w = w.login_challenges
challenges Purpose.recovering w = w.recover_challenges

abbrev pub with_challenges : Purpose → List (Entry Text) → World → World
with_challenges Purpose.logging_in es w = record w { login_challenges = es }
with_challenges Purpose.recovering es w = record w { recover_challenges = es }

pub auth_options : Purpose → (challenge challenge_id : Text) → ℕ → Action World Text
auth_options purpose challenge challenge_id now = do
  modify (λ w.
      with_challenges purpose
        (set challenge_id challenge (now + 1000 * challenge_ttl_seconds) (challenges purpose w)) w)
  pure challenge_id

pub record AssertionData : Type 0 where
  pub challenge_id : Option Text
  pub response : Option Text

pub record Asserted : Type 0 where
  pub cred : Credential
  pub new_counter : ℕ

-- `cred.counter > 0n && newCounter <= cred.counter`
abbrev pub is_regression : Credential → ℕ → Bool
is_regression k new = ltb 0 k.counter && leb new k.counter

unfoldable pub assert_credential : Ceremonies → Purpose → AssertionData → ℕ → Action World Asserted
assert_credential e purpose d now = do
  throw_if (not (is_some d.challenge_id && is_some d.response)) "Invalid assertion payload" 400
  kept ← gets (λ w. get (text_of d.challenge_id) now (challenges purpose w))
  modify (λ w. with_challenges purpose (del (text_of d.challenge_id) (challenges purpose w)) w)
  challenge ← or_throw kept "Login challenge expired" 400
  k ←
      or_throw
        (← gets (λ w. find (is_credential (e.credential_of (text_of d.response))) w.credentials))
        "Passkey not recognized" 401
  counter ←
      or_throw (e.verify_authentication (text_of d.response) challenge k)
        "Passkey verification failed" 401
  throw_if (is_regression k counter) "Passkey counter regression detected" 401
  pure (record { cred = k; new_counter = counter })

abbrev pub used : ℕ → ℕ → Credential → Credential
used counter now k = record k { counter = counter; last_used_at = some now }

-- The owner's row, which the foreign key keeps there.
abbrev owner_of : Credential → World → Option User
owner_of k w = find (has_user_id k.user_id) w.users

unfoldable pub login_verify :
    Services
    → Ceremonies
    → AssertionData
    → SessionMeta
    → (session_id jti : Text) → ℕ
    → Action World Tokens
login_verify c e d meta session_id jti now = do
  a ← assert_credential e Purpose.logging_in d now
  user ← or_throw (← gets (owner_of a.cred)) "Passkey not recognized" 401
  throw_if (is_barred user) "Account is blocked or suspended" 403
  modify (update_row a.cred.id (used a.new_counter now))
  made ← create c user.id meta now session_id jti
  pure (first_tokens made)

abbrev pub can_recover : Credential → Bool
can_recover k = k.prf_supported && is_sealed k.wrapped_mk && is_sealed k.prf_salt

-- Returns the token with the material of the credential.
pub recover_verify : Ceremonies → AssertionData → (token : Text) → ℕ → Action World Text
recover_verify e d token now = do
  a ← assert_credential e Purpose.recovering d now
  throw_if (not (can_recover a.cred)) "This passkey cannot recover your account" 400
  modify (update_row a.cred.id (used a.new_counter now))
  modify (λ w. record w {
    recover_tokens =
        set token (record { user_id = a.cred.user_id; code_id = none })
          (now + 1000 * recovery_token_ttl_seconds) w.recover_tokens;
  })
  pure token

pub record CredentialView : Type 0 where
  pub id : Text
  pub device_name : Option Text
  pub prf_supported : Bool
  pub created_at : ℕ
  pub last_used_at : Option ℕ

abbrev credential_view : Credential → CredentialView
credential_view k = record {
  id = k.id;
  device_name = k.device_name;
  prf_supported = k.prf_supported;
  created_at = k.created_at;
  last_used_at = k.last_used_at;
}

pub list_credentials : Text → World → List CredentialView
list_credentials user w =
    map credential_view
      (order_desc (λ k. k.created_at) (select (λ k. k.user_id == user) w.credentials))

pub rename_credential :
    Ceremonies → Text → Text → (device_name : Option Text) → Action World (Unit {0})
rename_credential e user id device_name = do
  name ← or_throw (name_of e.clean_name device_name) "A name is required" 400
  k ←
      or_throw (← gets (λ w. find (is_own (λ x. x.id) id user) w.credentials))
        "Credential not found" 404
  modify (update_row k.id (λ x. record x { device_name = some name }))

pub delete_credential : Services → Text → Text → (login_key : Option Text) → Action World (Unit {0})
delete_credential c user id login_key = do
  u ←
      or_throw (with_password (← gets (λ w. find (has_user_id user) w.users))) "Invalid credentials"
        401
  throw_if (not (c.bcrypt_compare (text_of login_key) u.password_hash)) "Invalid credentials" 401
  k ←
      or_throw (← gets (λ w. find (is_own (λ x. x.id) id user) w.credentials))
        "Credential not found" 404
  modify (λ w. record w { credentials = select (λ x. not (has_row_id k.id x)) w.credentials })
