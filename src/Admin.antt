-- ===== src/Admin.antt =====
-- server/src/services/admin.service.ts: what an admin changes of a user's row.
use najva_messenger.Users.{names}
use najva_messenger.Base.{
  List, map, select, take, drop, length, ◌-◌, ◌*◌, if◌then◌else◌, ℕ, true, false, none, some,
  Action, err, ok, record_not_found, exists, update, ◌==◌, if◌then◌else◌, Option, Bool,
}
use najva_messenger.Store.{falsy, Text, World, User}
use najva_messenger.Services.{Services}

-- `prisma.user.update`
abbrev change_user : Text → (User → User) → Action World (Unit {0})
change_user id f w =
    if exists (λ (u : User). u.id == id) w.users
    then (ok tt, record w { users = update (λ u. u.id == id) f w.users })
    else (err record_not_found, w)

pub block_user : Text → Action World (Unit {0})
block_user id = change_user id (λ u. record u { is_blocked = true })

pub unblock_user : Text → Action World (Unit {0})
unblock_user id = change_user id (λ u. record u { is_blocked = false })

pub suspend_user : Text → Text → Action World (Unit {0})
suspend_user id reason =
    change_user id (λ u. record u { is_suspended = true; suspend_reason = some reason })

pub unsuspend_user : Text → Action World (Unit {0})
unsuspend_user id = change_user id (λ u. record u { is_suspended = false; suspend_reason = none })

pub set_storage_limit : Text → ℕ → Action World (Unit {0})
set_storage_limit id limit = change_user id (λ u. record u { storage_limit = limit })

-- `salt` is the random salt of the hash.
pub reset_password : Services → Text → (password salt : Text) → Action World (Unit {0})
reset_password c id password salt =
    change_user id (λ u. record u { password_hash = c.bcrypt_hash salt password })

pub record AccountView : Type 0 where
  pub id : Text
  pub username : Text
  pub display_name : Option Text
  pub is_blocked : Bool
  pub is_suspended : Bool
  pub storage_used : ℕ
  pub storage_limit : ℕ

abbrev account_of : User → AccountView
account_of u = record {
  id = u.id;
  username = u.username;
  display_name = u.display_name;
  is_blocked = u.is_blocked;
  is_suspended = u.is_suspended;
  storage_used = u.storage_used;
  storage_limit = u.storage_limit;
}

pub record AccountPage : Type 0 where
  pub users : List AccountView
  pub total : ℕ

abbrev found_users : (contains : Text → Text → Bool) → Text → World → List User
found_users contains search w =
    if falsy search then w.users else select (names contains search) w.users

-- Pages are counted from 1.
pub list_users :
    (contains : Text → Text → Bool) → (page limit : ℕ) → (search : Text) → World → AccountPage
list_users contains page limit search w = record {
  users = map account_of (take limit (drop ((page - 1) * limit) (found_users contains search w)));
  total = length (found_users contains search w);
}
