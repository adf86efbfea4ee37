-- ===== src/Users.antt =====
-- server/src/services/user.service.ts: profiles and settings of users, and the older change of the
-- password.
use najva_messenger.Base.{
  ℕ, Bool, false, ◌||◌, not, Option, none, some, List, [], map, Action, type_error, ◌>>=◌, ◌>>◌,
  pure, gets, or_throw, throw_if, raise, find, select, take, ◌==◌, if◌then◌else◌,
}
use najva_messenger.Store.{Text, World, User, UserStatus, falsy}
use najva_messenger.Services.{Services}
use najva_messenger.Reset.{has_user_id, has_username, update_user}

pub record ProfileView : Type 0 where
  pub id : Text
  pub username : Text
  pub display_name : Option Text
  pub avatar_url : Option Text
  pub bio : Option Text
  pub status : UserStatus
  pub last_seen : Option ℕ
  pub totp_enabled : Bool

abbrev pub profile_of : User → ProfileView
profile_of u = record {
  id = u.id;
  username = u.username;
  display_name = u.display_name;
  avatar_url = u.avatar_url;
  bio = u.bio;
  status = u.status;
  last_seen = u.last_seen;
  totp_enabled = u.totp_enabled;
}

abbrev pub names : (contains : Text → Text → Bool) → Text → User → Bool
names contains query u =
    contains query u.username || elim u.display_name [ none ↦ false | some n ↦ contains query n ]

-- `contains` is the test of the database that takes no account of case.
pub search_users : (contains : Text → Text → Bool) → Text → World → List ProfileView
search_users contains query w =
    if falsy query then [] else map profile_of (take 20 (select (names contains query) w.users))

pub get_user_profile : Text → Action World ProfileView
get_user_profile id = do
  u ← or_throw (← gets (λ w. find (has_user_id id) w.users)) "User not found" 404
  pure (profile_of u)

-- A field that the request does not have is left as it is; `null` empties it.
pub record ProfileData : Type 0 where
  pub username : Option Text
  pub display_name : Option (Option Text)
  pub avatar_url : Option (Option Text)
  pub bio : Option (Option Text)

abbrev pub patched : {A : Type 0} → Option A → A → A
patched none old = old
patched (some new) old = new

abbrev pub with_profile : ProfileData → User → User
with_profile d u = record u {
  username = patched d.username u.username;
  display_name = patched d.display_name u.display_name;
  avatar_url = patched d.avatar_url u.avatar_url;
  bio = patched d.bio u.bio;
}

abbrev is_taken : Text → Option Text → World → Bool
is_taken user none w = false
is_taken user (some name) w = elim (find (has_username name) w.users) [
  | none ↦ false
  | some u ↦ not (u.id == user)
]

pub update_profile : Text → ProfileData → Action World (Unit {0})
update_profile user d = do
  taken ← gets (is_taken user d.username)
  throw_if taken "Username already taken" 400
  update_user user (with_profile d)

pub record SettingsData : Type 0 where
  pub language : Option Text
  pub theme : Option Text

pub update_settings : Text → SettingsData → Action World (Unit {0})
update_settings user d =
    update_user user
      (λ u. record u { language = patched d.language u.language; theme = patched d.theme u.theme })

abbrev given_text : {S : Type 0} → Option Text → Action S Text
given_text none = raise type_error
given_text (some t) = pure t

-- Only the hash changes. The hash functions throw where a text is missing.
pub change_password :
    Services
    → Text
    → (current_password new_password : Option Text) → (salt : Text) → Action World (Unit {0})
change_password c user current_password new_password salt = do
  u ← or_throw (← gets (λ w. find (has_user_id user) w.users)) "User not found" 404
  current ← given_text current_password
  throw_if (not (c.bcrypt_compare current u.password_hash)) "Invalid current password" 400
  new ← given_text new_password
  update_user user (λ x. record x { password_hash = c.bcrypt_hash salt new })
