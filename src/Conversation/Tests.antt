-- ===== src/Conversation/Tests.antt =====
-- Concrete inputs for the theorems on conversations.
use najva_messenger.Base.{
  arith, select, dedup, ◌≡◌, refl, ℕ, ◌∷◌, [], map, some, none, true, false, ok, find, exists,
  includes, ◌+◌, ◌↔◌,
}
use najva_messenger.Store.{
  UserStatus, ConversationKey, Text, World, User, Conversation, ConversationType, MemberRole,
  empty_world,
}
use najva_messenger.Conversation.Rows.{
  require_admin, require_users, create_keys, find_member, new_member, find_conversation,
}
use najva_messenger.Conversation.ShareSet.{RawWrap, assert_share_set, read_wrap}
use najva_messenger.Conversation.ShareSet.Exact.{Covers, assert_share_set_iff}
use najva_messenger.Conversation.Groups.{
  rotate_out, insert_members, insert_group, remove_member, add_members, key_row,
}
use najva_messenger.Conversation.Groups.Removal.{remove_member_rotates}
use najva_messenger.Conversation.Groups.Addition.{add_members_exact}
use najva_messenger.Conversation.Direct.{insert_direct, get_or_create_dm}
use najva_messenger.Conversation.Direct.Unique.{DmCall, run_calls, get_or_create_dm_once}
use najva_messenger.Conversation.Settings.Own.{
  Setting, effect, Changes, run_setting, run_setting_exact,
}

abbrev pub user : Text → User
user id = record {
  id = id;
  username = id;
  password_hash = 0;
  display_name = none;
  avatar_url = none;
  status = UserStatus.offline;
  storage_limit = 100;
  storage_used = 0;
  is_blocked = false;
  is_suspended = false;
  suspend_reason = none;
  is_admin = false;
  totp_secret = none;
  totp_enabled = false;
  kek_salt = none;
  kek_iterations = 0;
  mk_password_wrapped = none;
  encrypted_private_keys = none;
  mk_version = 1;
  identity_key_public = none;
  identity_signing_public = none;
  signed_pre_key_public = none;
  signed_pre_key_signature = none;
  signed_pre_key_id = none;
  language = 1;
  theme = 1;
  bio = none;
  last_seen = none;
}

abbrev pub conversation : Text → ConversationType → Conversation
conversation id type = record {
  id = id;
  type = type;
  name = none;
  avatar_url = none;
  created_by_id = 7;
  current_key_version = 1;
  updated_at = 0;
  pinned_message_ids = none;
}

abbrev wrap_for : Text → RawWrap
wrap_for id = record { user_id = some id; wrapped_key = some (50 + id) }

abbrev stored : Text → Text → ℕ → ConversationKey
stored conv id version = key_row conv version 7 (record { user_id = id; wrapped_key = 50 + id })

-- Users 7, 8 and 9; the group 20 of all three, where 7 is the admin, and the direct chat 30 of 7
-- and 8.
abbrev pub office : World
office = record empty_world {
  users = user 7 ∷ user 8 ∷ user 9 ∷ user 10 ∷ [];
  conversations =
      conversation 20 ConversationType.group ∷ conversation 30 ConversationType.direct ∷ [];
  members =
      new_member 20 7 MemberRole.admin
      ∷ new_member 20 8 MemberRole.member
      ∷ new_member 20 9 MemberRole.member
      ∷ new_member 30 7 MemberRole.admin
      ∷ new_member 30 8 MemberRole.admin
      ∷ [];
  keys = stored 20 7 1 ∷ stored 20 8 1 ∷ stored 20 9 1 ∷ stored 30 7 1 ∷ stored 30 8 1 ∷ [];
}

assert_share_set_iff_example :
    (assert_share_set (some (wrap_for 8 ∷ wrap_for 7 ∷ [])) (7 ∷ 8 ∷ [])
      ≡ ok (
          record { user_id = 8; wrapped_key = 58 } ∷ record { user_id = 7; wrapped_key = 57 } ∷ []))
    ↔ ((map read_wrap (wrap_for 8 ∷ wrap_for 7 ∷ [])
          ≡ map some (
              record { user_id = 8; wrapped_key = 58 }
              ∷ record { user_id = 7; wrapped_key = 57 }
              ∷ []))
        × Covers
            (record { user_id = 8; wrapped_key = 58 }
              ∷ record { user_id = 7; wrapped_key = 57 }
              ∷ [])
            (7 ∷ 8 ∷ []))
assert_share_set_iff_example =
    assert_share_set_iff (wrap_for 8 ∷ wrap_for 7 ∷ []) (7 ∷ 8 ∷ [])
      (record { user_id = 8; wrapped_key = 58 } ∷ record { user_id = 7; wrapped_key = 57 } ∷ [])

remove_member_rotates_example :
    find_conversation 20 (remove_member 20 7 9 (some (wrap_for 7 ∷ wrap_for 8 ∷ [])) 60 office).1
    ≡ some (record (conversation 20 ConversationType.group) {
      current_key_version = 2;
      updated_at = 60;
    })
unfolding remove_member find exists assert_share_set includes read_wrap select dedup require_admin
    rotate_out require_users create_keys
remove_member_rotates_example =
    (remove_member_rotates 20 7 9 (wrap_for 7 ∷ wrap_for 8 ∷ []) 60 office
      (remove_member 20 7 9 (some (wrap_for 7 ∷ wrap_for 8 ∷ [])) 60 office).1
      (record { new_version = 2; removed_user_id = 9; remaining_member_ids = 7 ∷ 8 ∷ [] })
      (conversation 20 ConversationType.group) refl refl refl).2

add_members_exact_example :
    find_member 20 10 (add_members 20 7 (some (wrap_for 10 ∷ [])) office).1
    ≡ some (new_member 20 10 MemberRole.member)
unfolding add_members find exists read_wrap require_admin insert_members require_users includes
add_members_exact_example =
    (add_members_exact 20 7 (some (wrap_for 10 ∷ [])) office
        (add_members 20 7 (some (wrap_for 10 ∷ [])) office).1 (10 ∷ [])
        (conversation 20 ConversationType.group) refl refl).1
      10

-- User 8 asks for a chat with user 10 in between.
abbrev between : DmCall
between = record {
  user = 8;
  target = 10;
  raws = some (wrap_for 8 ∷ wrap_for 10 ∷ []);
  now = 6;
  id = 33;
}

get_or_create_dm_once_example :
    (get_or_create_dm 9 8 none 7 32 (
      run_calls
        (between ∷ [])
        (get_or_create_dm 8 9 (some (wrap_for 8 ∷ wrap_for 9 ∷ [])) 5 31 office).1)).0
    ≡ ok (
      record (conversation 31 ConversationType.direct) { created_by_id = 8; updated_at = 5 },
      false,
    )
unfolding get_or_create_dm find exists assert_share_set includes read_wrap dedup insert_direct
    insert_group require_users create_keys
get_or_create_dm_once_example =
    (get_or_create_dm_once 8 9 (some (wrap_for 8 ∷ wrap_for 9 ∷ [])) 5 31 office
      (get_or_create_dm 8 9 (some (wrap_for 8 ∷ wrap_for 9 ∷ [])) 5 31 office).1
      (record (conversation 31 ConversationType.direct) { created_by_id = 8; updated_at = 5 }) true
      (λ e. absurd (omega (arith, e))) refl (between ∷ []) ((refl, refl), tt) none 7 32).1

run_setting_exact_example :
    Changes 20 8
      (effect (Setting.hide true 40))
      office
      (run_setting (Setting.hide true 40) 20 8 office)
run_setting_exact_example = run_setting_exact (Setting.hide true 40) 20 8 office
