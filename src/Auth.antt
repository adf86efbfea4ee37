-- ===== src/Auth.antt =====
-- server/src/services/auth.service.ts: registration, login, key material and the change of the
-- password. Recovery by a code is in Auth/Recovery, the second factor in Auth/TwoFactor. The salts,
-- tokens and identifiers that a call draws are arguments.
pub mod Codes
pub mod Login
pub mod Password
pub mod Recovery
pub mod SingleUse
pub mod Verify
pub mod TwoFactor
mod Tests
use najva_messenger.Base.{
  ℕ, ◌≡◌, String, Bool, true, false, ◌&&◌, ◌||◌, not, Option, none, some, List, [], ◌∷◌, map,
  Action, Result, ok, err, thrown, type_error, ◌>>=◌, ◌>>◌, pure, gets, modify, or_throw, throw_if,
  raise, raise_if, transaction, find, exists, update, ◌==◌, if◌then◌else◌, is_some, is_none,
}
use najva_messenger.Store.{
  Text, World, User, UserStatus, Conversation, ConversationMember, ConversationKey,
  ConversationType, MemberRole, falsy,
}
use najva_messenger.Services.{Services}
use najva_messenger.Session.{SessionMeta, Tokens, create, revoke_all_for_user}
use najva_messenger.Conversation.Rows.{new_member}
use najva_messenger.Reset.{
  default_kek_iterations, or_default, is_sealed, has_user_id, has_username, update_user,
}
use najva_messenger.Auth.Codes.{RecoveryCodeInput, has_eight, codes_of, create_codes}

-- The random values and identifiers of a call.
pub record Drawn : Type 0 where
  pub user_id : Text
  pub conversation_id : Text
  pub salt : Text
  pub session_id : Text
  pub jti : Text
  pub recovery_token : Text

pub record RegisterData : Type 0 where
  pub username : Option Text
  pub display_name : Option Text
  pub login_key : Option Text
  pub kek_salt : Option Text
  pub kek_iterations : Option ℕ
  pub mk_password_wrapped : Option Text
  pub encrypted_private_keys : Option Text
  pub identity_key_public : Option Text
  pub identity_signing_public : Option Text
  pub recovery_codes : Option (List RecoveryCodeInput)
  pub saved_messages_key : Option Text

abbrev pub text_of : Option Text → Text
text_of none = 0
text_of (some t) = t

abbrev pub is_registration : RegisterData → Bool
is_registration d =
    is_sealed d.username
    && is_some d.login_key
    && is_sealed d.kek_salt
    && is_sealed d.mk_password_wrapped
    && is_sealed d.encrypted_private_keys
    && is_sealed d.identity_key_public
    && has_eight d.recovery_codes
    && is_sealed d.saved_messages_key

-- `displayName || username`
abbrev shown_name : Option Text → Text → Text
shown_name none name = name
shown_name (some shown) name = if falsy shown then name else shown

-- The columns that the request does not name have the defaults of the schema; `language` and
-- `theme` are the texts "fa" and "dark".
pub record Defaults : Type 0 where
  pub language : Text
  pub theme : Text
  pub saved_name : Text

abbrev pub new_user : Defaults → RegisterData → Text → Text → User
new_user defaults d hash id = record {
  id = id;
  username = text_of d.username;
  password_hash = hash;
  display_name = some (shown_name d.display_name (text_of d.username));
  avatar_url = none;
  status = UserStatus.offline;
  storage_limit = 524288000;
  storage_used = 0;
  is_blocked = false;
  is_suspended = false;
  suspend_reason = none;
  is_admin = false;
  totp_secret = none;
  totp_enabled = false;
  kek_salt = d.kek_salt;
  kek_iterations = or_default d.kek_iterations;
  mk_password_wrapped = d.mk_password_wrapped;
  encrypted_private_keys = d.encrypted_private_keys;
  mk_version = 1;
  identity_key_public = d.identity_key_public;
  identity_signing_public = d.identity_signing_public;
  signed_pre_key_public = none;
  signed_pre_key_signature = none;
  signed_pre_key_id = none;
  language = defaults.language;
  theme = defaults.theme;
  bio = none;
  last_seen = none;
}

abbrev saved_conversation : Text → Text → ℕ → Text → Conversation
saved_conversation saved_name user now id = record {
  id = id;
  type = ConversationType.saved_messages;
  name = some saved_name;
  avatar_url = none;
  created_by_id = user;
  current_key_version = 1;
  updated_at = now;
  pinned_message_ids = none;
}

abbrev saved_key : Text → Text → Text → ConversationKey
saved_key conversation user wrapped = record {
  conversation_id = conversation;
  user_id = user;
  version = 1;
  wrapped_key = wrapped;
  wrapped_by_id = user;
}

-- The account, its codes and its saved messages, in one transaction.
unfoldable pub insert_account : Defaults → RegisterData → Text → Drawn → ℕ → Action World (Unit {0})
insert_account defaults d hash r now = transaction (do
  modify (λ w. record w { users = new_user defaults d hash r.user_id ∷ w.users })
  create_codes r.user_id (codes_of d.recovery_codes)
  modify (λ w. record w {
    conversations =
        saved_conversation defaults.saved_name r.user_id now r.conversation_id ∷ w.conversations;
    members = new_member r.conversation_id r.user_id MemberRole.admin ∷ w.members;
    keys = saved_key r.conversation_id r.user_id (text_of d.saved_messages_key) ∷ w.keys;
  }))

pub record LoginData : Type 0 where
  pub username : Option Text
  pub login_key : Option Text
  pub totp_code : Option Text

-- A login gives tokens and the identifier of their session, or asks for the second factor.
pub data LoginResult : Type 0 where
  requires_2fa : LoginResult
  logged_in : Tokens → Text → LoginResult

-- `!user || !user.passwordHash || !user.kekSalt`
abbrev pub with_credentials : Option User → Option User
with_credentials none = none
with_credentials (some u) =
    if falsy u.password_hash || not (is_sealed u.kek_salt) then none else some u

abbrev pub as_session : Tokens × Text → LoginResult
as_session (tokens, session) = logged_in tokens session

abbrev pub is_barred : User → Bool
is_barred u = u.is_blocked || u.is_suspended

pub record KekParams : Type 0 where
  pub kek_salt : Text
  pub kek_iterations : ℕ

abbrev params_of : (Text → Text) → Option Text → Option User → KekParams
params_of fake name none = record {
  kek_salt = fake (text_of name);
  kek_iterations = default_kek_iterations;
}
params_of fake name (some u) =
    if is_sealed u.kek_salt
    then record { kek_salt = text_of u.kek_salt; kek_iterations = u.kek_iterations }
    else record { kek_salt = fake (text_of name); kek_iterations = default_kek_iterations }

abbrev pub find_by_name : Option Text → World → Option User
find_by_name none w = none
find_by_name (some name) w = if falsy name then none else find (has_username name) w.users

-- `fake` is the first half of the keyed hash of the name, in base64.
pub get_params : (fake : Text → Text) → Option Text → World → KekParams
get_params fake name w = params_of fake name (find_by_name name w)

pub record KeyMaterial : Type 0 where
  pub mk_password_wrapped : Option Text
  pub kek_salt : Option Text
  pub kek_iterations : ℕ
  pub encrypted_private_keys : Option Text

abbrev with_material : Option User → Option User
with_material none = none
with_material (some u) =
    if is_sealed u.mk_password_wrapped && is_sealed u.kek_salt && is_sealed u.encrypted_private_keys
    then some u
    else none

pub get_key_material : Text → Action World KeyMaterial
get_key_material user = do
  u ← or_throw (with_material (← gets (λ w. find (has_user_id user) w.users))) "No key material" 404
  pure (record {
    mk_password_wrapped = u.mk_password_wrapped;
    kek_salt = u.kek_salt;
    kek_iterations = u.kek_iterations;
    encrypted_private_keys = u.encrypted_private_keys;
  })

pub record ChangeData : Type 0 where
  pub current_login_key : Option Text
  pub new_login_key : Option Text
  pub new_kek_salt : Option Text
  pub new_kek_iterations : Option ℕ
  pub new_mk_password_wrapped : Option Text

abbrev pub is_change : ChangeData → Bool
is_change d =
    is_some d.current_login_key
    && is_some d.new_login_key
    && is_sealed d.new_kek_salt
    && is_sealed d.new_mk_password_wrapped

-- `!user || !user.passwordHash`
abbrev pub with_password : Option User → Option User
with_password none = none
with_password (some u) = if falsy u.password_hash then none else some u

abbrev pub rewrapped : Text → ChangeData → User → User
rewrapped hash d u = record u {
  password_hash = hash;
  kek_salt = d.new_kek_salt;
  kek_iterations = or_default d.new_kek_iterations;
  mk_password_wrapped = d.new_mk_password_wrapped;
}

module _ (c : Services) where
  -- The result is the tokens and the identifier of the first session.
  pub register : Defaults → RegisterData → SessionMeta → Drawn → ℕ → Action World (Tokens × Text)
  register defaults d meta r now = do
    throw_if (not (is_registration d)) "Invalid registration payload" 400
    existing ← gets (λ w. find (has_username (text_of d.username)) w.users)
    throw_if (is_some existing) "Username already exists" 400
    insert_account defaults d (c.bcrypt_hash r.salt (text_of d.login_key)) r now
    create c r.user_id meta now r.session_id r.jti

  -- `verifyTOTP(user.totpSecret!, code, user.username)`, which throws where there is no secret.
  unfoldable pub check_totp : User → Text → ℕ → Action World Bool
  check_totp u code now w = elim u.totp_secret [
    | none ↦ (err type_error, w)
    | some secret ↦ (ok (c.verify_totp now secret code u.username), w)
  ]

  check_code : Option Text → User → ℕ → Action World Bool
  unfolding check_totp
  check_code none u now w = (ok true, w)
  check_code (some code) u now w =
      if falsy code
      then (ok true, w)
      else (check_totp u code now >>= λ valid.
            throw_if (not valid) "Invalid 2FA code" 401 >>= λ _. pure false)
          w

  -- Whether the second factor is still asked for.
  pub second_factor : Option Text → User → ℕ → Action World Bool
  unfolding check_code
  second_factor code u now w =
      let checked = check_code code u now w in if u.totp_enabled then checked else (ok false, w)

  open_session : Bool → User → SessionMeta → Drawn → ℕ → Action World LoginResult
  open_session true u meta r now = pure requires_2fa
  open_session false u meta r now =
      create c u.id meta now r.session_id r.jti >>= λ made. pure (as_session made)

  login_of : Option Text → LoginData → SessionMeta → Drawn → ℕ → Action World LoginResult
  unfolding second_factor open_session
  login_of none d meta r now = raise type_error
  login_of (some name) d meta r now = do
    u ←
        or_throw (with_credentials (← gets (λ w. find (has_username name) w.users)))
          "Invalid credentials" 401
    throw_if (not (c.bcrypt_compare (text_of d.login_key) u.password_hash)) "Invalid credentials"
        401
    throw_if (is_barred u) "Account is blocked or suspended" 403
    asks ← second_factor d.totp_code u now
    open_session asks u meta r now

  -- The database client throws where the name is missing.
  pub login : LoginData → SessionMeta → Drawn → ℕ → Action World LoginResult
  unfolding login_of
  login d meta r now = login_of d.username d meta r now

  -- The new password, and every other session revoked.
  unfoldable pub change_password :
      Text → Option Text → ChangeData → Text → ℕ → Action World (Unit {0})
  change_password user current d salt now = do
    throw_if (not (is_change d)) "Invalid password change payload" 400
    u ←
        or_throw (with_password (← gets (λ w. find (has_user_id user) w.users)))
          "Invalid credentials" 401
    throw_if (not (c.bcrypt_compare (text_of d.current_login_key) u.password_hash))
        "Invalid credentials" 401
    update_user user (rewrapped (c.bcrypt_hash salt (text_of d.new_login_key)) d)
    revoked ← revoke_all_for_user user current now
    pure tt
