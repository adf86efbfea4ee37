-- ===== src/Conversation/Groups.antt =====
-- Groups and channels: their members, and the conversation keys sealed to them.
pub mod Removal
pub mod Addition
use najva_messenger.Base.{
  ℕ, ◌+◌, ◌≡◌, String, Bool, true, false, ◌&&◌, ◌||◌, not, Option, none, some, List, [], ◌∷◌, ◌++◌,
  map, Action, Result, ok, err, thrown, ◌>>=◌, ◌>>◌, pure, gets, modify, or_throw, throw_if, throw,
  lift, transaction, find, select, exists, update, dedup, ◌==◌, if◌then◌else◌, get_or_nil,
}
use najva_messenger.Base.Order.{order_desc, order_asc}
use najva_messenger.Store.{
  Text, World, Conversation, ConversationMember, ConversationKey, ConversationType, MemberRole,
}
use najva_messenger.Conversation.Rows.{
  has_id, is_member_row, find_member, find_conversation, update_member, update_conversation,
  require_admin, require_member, require_users, new_member, add_members_skip, add_keys_skip,
  create_keys,
}
use najva_messenger.Conversation.ShareSet.{
  cons_wrap, RawWrap, CkWrap, read_wrap, assert_share_set, users_of,
}

abbrev pub key_row : Text → ℕ → Text → CkWrap → ConversationKey
key_row conversation version by v = record {
  conversation_id = conversation;
  user_id = v.user_id;
  version = version;
  wrapped_key = v.wrapped_key;
  wrapped_by_id = by;
}

pub record GroupData : Type 0 where
  pub name : Text
  pub member_ids : List Text
  pub is_channel : Bool
  pub wrapped_keys : Option (List RawWrap)

abbrev creator_role : Text → Text → MemberRole
creator_role user id = if id == user then MemberRole.admin else MemberRole.member

abbrev new_group : Text → GroupData → ℕ → Text → Conversation
new_group user data' now id = record {
  id = id;
  type = if data'.is_channel then ConversationType.channel else ConversationType.group;
  name = some data'.name;
  avatar_url = none;
  created_by_id = user;
  current_key_version = 1;
  updated_at = now;
  pinned_message_ids = none;
}

-- The rows of the new conversation, written together.
unfoldable pub insert_group :
    Conversation → List ConversationMember → List ConversationKey → Action World (Unit {0})
insert_group conv members keys = transaction (do
  require_users (map (λ m. m.user_id) members)
  modify (λ w. record w { conversations = conv ∷ w.conversations; members = members ++ w.members })
  create_keys keys)

-- `id` is the new conversation's fresh identifier.
pub create_group : Text → GroupData → ℕ → Text → Action World Conversation
unfolding insert_group
create_group user data' now id = do
  let all_members = dedup (user ∷ data'.member_ids)
  wraps ← lift (assert_share_set data'.wrapped_keys all_members)
  insert_group (new_group user data' now id)
      (map (λ m. new_member id m (creator_role user m)) all_members) (map (key_row id 1 user) wraps)
  pure (new_group user data' now id)

-- The conversations shown to a user: those with a row of theirs that is neither removed nor hidden,
-- last changed first.
pub list_user_conversations : Text → World → List Conversation
list_user_conversations user w =
    order_desc (λ c. c.updated_at)
      (select
        (λ c.
          exists (λ m. is_member_row c.id user m && not m.is_removed && not m.is_hidden) w.members)
        w.conversations)

pub get_conversation : Text → Text → Action World Conversation
get_conversation conversation user = do
  found ← gets (λ w.
      find
        (λ c.
          c.id == conversation
          && exists (λ m. is_member_row c.id user m && not m.is_removed) w.members)
        w.conversations)
  or_throw found "Conversation not found" 404

-- A field of the request that is missing leaves the column as it is.
abbrev given : Option Text → Option Text → Option Text
given none old = old
given (some new) old = some new

pub update_group : Text → Text → (name avatar_url : Option Text) → ℕ → Action World (Unit {0})
unfolding require_admin update_conversation
update_group conversation user name avatar_url now = do
  require_admin conversation user
  update_conversation conversation (λ c. record c {
    name = given name c.name;
    avatar_url = given avatar_url c.avatar_url;
    updated_at = now;
  })

abbrev read_next : Option CkWrap → Result (List CkWrap) → Result (List CkWrap)
read_next none rest = err (thrown "Each added member needs a conversation-key wrap" 400)
read_next (some v) rest = cons_wrap v rest

-- The check of `addMembers`, the first bad wrap first.
abbrev pub read_wraps : List RawWrap → Result (List CkWrap)
read_wraps [] = ok []
read_wraps (r ∷ rs) = read_next (read_wrap r) (read_wraps rs)

-- `createMany` twice, with `skipDuplicates`, in one transaction.
unfoldable pub insert_members : Text → Text → ℕ → List CkWrap → Action World (Unit {0})
insert_members conversation by version ws = transaction (do
  require_users (users_of ws)
  modify (λ w. record w {
    members = add_members_skip conversation (users_of ws) w.members;
    keys = add_keys_skip (map (key_row conversation version by) ws) w.keys;
  }))

abbrev no_members : Option (List RawWrap) → Bool
no_members none = true
no_members (some []) = true
no_members (some (r ∷ rs)) = false

-- Returns `addedUserIds`.
unfoldable pub add_members : Text → Text → Option (List RawWrap) → Action World (List Text)
add_members conversation user new_members = do
  require_admin conversation user
  throw_if (no_members new_members) "No members to add" 400
  ws ← lift (read_wraps (get_or_nil new_members))
  conv ← or_throw (← gets (find_conversation conversation)) "Conversation not found" 404
  insert_members conversation user conv.current_key_version ws
  pure (users_of ws)

pub record Rotation : Type 0 where
  pub new_version : ℕ
  pub removed_user_id : Text
  pub remaining_member_ids : List Text

-- The members that are left, in the order of their rows.
abbrev pub remaining : Text → Text → World → List Text
remaining conversation target w =
    map (λ m. m.user_id)
      (select
        (λ m. m.conversation_id == conversation && not m.is_removed && not (m.user_id == target))
        w.members)

-- Removal, the new wraps and the new version, in one transaction.
unfoldable pub rotate_out : Text → Text → Text → ℕ → List CkWrap → ℕ → Action World (Unit {0})
unfolding update_member update_conversation
rotate_out conversation by target version wraps now = transaction (do
  update_member conversation target (λ m. record m { is_removed = true })
  require_users (users_of wraps)
  create_keys (map (key_row conversation version by) wraps)
  update_conversation conversation
      (λ c. record c { current_key_version = version; updated_at = now }))

unfoldable pub remove_member :
    Text → Text → Text → Option (List RawWrap) → ℕ → Action World Rotation
remove_member conversation by target keys now = do
  require_admin conversation by
  conv ← or_throw (← gets (find_conversation conversation)) "Conversation not found" 404
  rest ← gets (remaining conversation target)
  wraps ← lift (assert_share_set keys rest)
  rotate_out conversation by target (conv.current_key_version + 1) wraps now
  pure (record {
    new_version = conv.current_key_version + 1;
    removed_user_id = target;
    remaining_member_ids = rest;
  })

pub get_conversation_keys : Text → Text → Action World (List ConversationKey)
unfolding require_member
get_conversation_keys conversation user = do
  require_member conversation user
  gets (λ w.
      order_asc (λ k. k.version)
        (select (λ k. k.conversation_id == conversation && k.user_id == user) w.keys))

pub leave_group : Text → Text → Action World (Unit {0})
unfolding update_member
leave_group conversation user =
    update_member conversation user (λ m. record m { is_removed = true })
