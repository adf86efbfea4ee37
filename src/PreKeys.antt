-- ===== src/PreKeys.antt =====
-- server/src/services/key.service.ts: the public keys of a user, and the one-time pre-keys.
pub mod OneTime
mod Tests
use najva_messenger.Base.{
  ℕ, Bool, true, false, ◌&&◌, not, Option, none, some, List, [], ◌∷◌, ◌++◌, map, Action, ok, err,
  record_not_found, ◌>>=◌, ◌>>◌, pure, gets, or_throw, throw_if, find, select, exists, update, ◌==◌,
  if◌then◌else◌,
}
use najva_messenger.Base.Order.{order_asc}
use najva_messenger.Store.{Text, World, User, PreKey, falsy}

-- A pre-key of the request, with the identifier of its row.
pub record PreKeyData : Type 0 where
  pub id : Text
  pub key_id : ℕ
  pub public_key : Text

pub record BundleData : Type 0 where
  pub identity_key : Option Text
  pub signed_pre_key : Option Text
  pub signed_pre_key_signature : Option Text
  pub signed_pre_key_id : Option ℕ
  pub pre_keys : List PreKeyData

abbrev pub has_user_id : Text → User → Bool
has_user_id id u = u.id == id

-- A missing field leaves the column as it is.
abbrev given : {A : Type 0} → Option A → Option A → Option A
given none old = old
given (some new) old = some new

abbrev new_bundle : BundleData → User → User
new_bundle d u = record u {
  identity_key_public = given d.identity_key u.identity_key_public;
  signed_pre_key_public = given d.signed_pre_key u.signed_pre_key_public;
  signed_pre_key_signature = given d.signed_pre_key_signature u.signed_pre_key_signature;
  signed_pre_key_id = given d.signed_pre_key_id u.signed_pre_key_id;
}

abbrev pub pre_key_row : Text → PreKeyData → PreKey
pre_key_row user k = record {
  id = k.id;
  user_id = user;
  key_id = k.key_id;
  public_key = k.public_key;
  used = false;
}

-- No column but the random identifier is unique, so `skipDuplicates` skips nothing.
pub upload_bundle : Text → BundleData → Action World (Unit {0})
upload_bundle user d w =
    if exists (has_user_id user) w.users
    then (
      ok tt,
      record w {
        users = update (has_user_id user) (new_bundle d) w.users;
        pre_keys = map (pre_key_row user) d.pre_keys ++ w.pre_keys;
      },
    )
    else (err record_not_found, w)

abbrev has_identity : Option Text → Bool
has_identity none = false
has_identity (some key) = not (falsy key)

pub get_bundle : Text → Action World User
get_bundle user = do
  row ← or_throw (← gets (λ w. find (has_user_id user) w.users)) "User not found" 404
  throw_if (not (has_identity row.identity_key_public)) "Keys not uploaded" 404
  pure row

abbrev pub is_unused : Text → PreKey → Bool
is_unused user k = k.user_id == user && not k.used

abbrev pub has_pre_key_id : Text → PreKey → Bool
has_pre_key_id id k = k.id == id

-- The unused key with the least number.
abbrev pub first_of : List PreKey → Option PreKey
first_of [] = none
first_of (k ∷ ks) = some k

abbrev pub next_pre_key : Text → World → Option PreKey
next_pre_key user w = first_of (order_asc (λ k. k.key_id) (select (is_unused user) w.pre_keys))

abbrev use_up : Option PreKey → World → World
use_up none w = w
use_up (some k) w = record w {
  pre_keys = update (has_pre_key_id k.id) (λ x. record x { used = true }) w.pre_keys;
}

-- The key that is handed out is used from then on.
pub get_pre_key : Text → Action World (Option PreKey)
get_pre_key user w = (ok (next_pre_key user w), use_up (next_pre_key user w) w)
