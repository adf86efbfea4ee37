-- ===== src/Reset/Lost.antt =====
-- server/src/services/reset.service.ts: the reset of an account whose keys are lost. An admin
-- issues a token that is good once, for a day (`authorizeReset`), and `completeLost` replaces all
-- key material with it.
use najva_messenger.Base.{
  ℕ, ◌+◌, ◌*◌, Bool, false, ◌&&◌, not, Option, none, some, List, ◌++◌, map, Action, ◌>>=◌, ◌>>◌,
  pure, gets, modify, or_throw, throw_if, transaction, find, select, exists, update, ◌==◌, is_some,
  if◌then◌else◌,
}
use najva_messenger.Store.{Text, World, User, Emit, falsy}
use najva_messenger.Auth.Codes.{
  RecoveryCodeInput, has_eight, is_bad_code, codes_of, create_codes, delete_codes,
}
use najva_messenger.Services.{Services}
use najva_messenger.Session.{SessionMeta, Tokens, create, revoke_all_for_user}
use najva_messenger.Store.Redis.{get, del, set}
use najva_messenger.Reset.{or_default, is_sealed, has_user_id, update_user, Fresh, first_tokens}

abbrev pub lost_token_ttl_seconds : ℕ
lost_token_ttl_seconds = 24 * 60 * 60

pub authorize_reset : Text → (token : Text) → ℕ → Action World Text
authorize_reset target token now = do
  user ← or_throw (find (has_user_id target) (← gets (λ w. w.users))) "User not found" 404
  modify (λ w. record w {
    lost_tokens = set token target (now + 1000 * lost_token_ttl_seconds) w.lost_tokens;
  })
  pure token

pub record LostData : Type 0 where
  pub authorization_token : Option Text
  pub username : Option Text
  pub login_key : Option Text
  pub kek_salt : Option Text
  pub kek_iterations : Option ℕ
  pub mk_password_wrapped : Option Text
  pub encrypted_private_keys : Option Text
  pub identity_key_public : Option Text
  pub identity_signing_public : Option Text
  pub recovery_codes : Option (List RecoveryCodeInput)

abbrev pub is_complete : LostData → Bool
is_complete d =
    is_some d.authorization_token
    && is_some d.login_key
    && is_sealed d.kek_salt
    && is_sealed d.mk_password_wrapped
    && is_sealed d.encrypted_private_keys
    && is_sealed d.identity_key_public
    && has_eight d.recovery_codes

abbrev text_of : Option Text → Text
text_of none = 0
text_of (some t) = t

-- `typeof username === 'string' && username && user.username !== username`
abbrev is_other_name : Option Text → User → Bool
is_other_name none u = false
is_other_name (some name) u = not (falsy name) && not (u.username == name)

abbrev named : Option Text → Option User → Option User
named name none = none
named name (some u) = if is_other_name name u then none else some u

abbrev pub new_keys : Text → LostData → User → User
new_keys hash d u = record u {
  password_hash = hash;
  kek_salt = d.kek_salt;
  kek_iterations = or_default d.kek_iterations;
  mk_password_wrapped = d.mk_password_wrapped;
  encrypted_private_keys = d.encrypted_private_keys;
  identity_key_public = d.identity_key_public;
  identity_signing_public = d.identity_signing_public;
  totp_enabled = false;
  totp_secret = none;
  mk_version = u.mk_version + 1;
}

-- Everything that wrapped the old master key goes.
abbrev pub wipe : Text → World → World
wipe user w = record w {
  credentials =
      update (λ k. k.user_id == user) (λ k. record k { wrapped_mk = none; prf_supported = false })
        w.credentials;
  keys = select (λ k. not (k.user_id == user)) w.keys;
}

abbrev memberships : Text → World → List Text
memberships user w = map (λ m. m.conversation_id) (select (λ m. m.user_id == user) w.members)

module _ (c : Services) where
  -- The token is taken out of the store before it is known whether the rest is good. Returns the
  -- tokens and `conversationIds`.
  pub complete_lost : LostData → SessionMeta → Fresh → ℕ → Action World (Tokens × List Text)
  complete_lost d meta r now = do
    throw_if (not (is_complete d)) "Invalid reset payload" 400
    throw_if (exists is_bad_code (codes_of d.recovery_codes)) "Invalid recovery code payload" 400
    grant ← gets (λ w. get (text_of d.authorization_token) now w.lost_tokens)
    modify (λ w. record w { lost_tokens = del (text_of d.authorization_token) w.lost_tokens })
    user_id ← or_throw grant "Invalid or expired authorization token" 401
    user ←
        or_throw (named d.username (← gets (λ w. find (has_user_id user_id) w.users)))
          "Invalid or expired authorization token" 401
    ids ← gets (memberships user.id)
    transaction (do
      update_user user.id (new_keys (c.bcrypt_hash r.salt (text_of d.login_key)) d)
      modify (delete_codes user.id)
      create_codes user.id (codes_of d.recovery_codes)
      modify (wipe user.id))
    revoked ← revoke_all_for_user user.id none now
    modify (λ w. record w {
      emitted = map (λ conv. Emit.member_key_reset conv user.id) ids ++ w.emitted;
    })
    made ← create c user.id meta now r.session_id r.jti
    pure (first_tokens made, ids)
