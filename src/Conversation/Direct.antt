-- ===== src/Conversation/Direct.antt =====
-- Direct chats, the support channel and saved messages.
mod Found
pub mod Unique
use najva_messenger.Base.{
  ℕ, ◌≡◌, String, Bool, true, false, ◌&&◌, ◌||◌, not, Option, none, some, List, [], ◌∷◌, ◌++◌, map,
  Action, Result, ok, err, thrown, unique_violation, ◌>>=◌, ◌>>◌, pure, gets, modify, lift,
  raise_if, transaction, find, exists, update, dedup, ◌==◌, if◌then◌else◌,
}
use najva_messenger.Store.{
  Text, World, Conversation, ConversationMember, ConversationKey, ConversationType, MemberRole,
}
use najva_messenger.Conversation.Rows.{
  is_member_row, find_member, new_member, require_users, create_keys, update_member,
}
use najva_messenger.Conversation.ShareSet.{RawWrap, CkWrap, assert_share_set}
use najva_messenger.Conversation.Groups.{key_row, insert_group}

abbrev is_direct : ConversationType → Bool
is_direct ConversationType.direct = true
is_direct _ = false

abbrev is_saved : ConversationType → Bool
is_saved ConversationType.saved_messages = true
is_saved _ = false

abbrev pub is_dm_of : List ConversationMember → Text → Text → Conversation → Bool
is_dm_of members user target c =
    is_direct c.type
    && (exists (is_member_row c.id user) members && exists (is_member_row c.id target) members)

pub find_dm : Text → Text → World → Option Conversation
find_dm user target w = find (is_dm_of w.members user target) w.conversations

abbrev pub new_direct : Text → ℕ → Text → Conversation
new_direct user now id = record {
  id = id;
  type = ConversationType.direct;
  name = none;
  avatar_url = none;
  created_by_id = user;
  current_key_version = 1;
  updated_at = now;
  pinned_message_ids = none;
}

-- The rows of a new direct chat; two rows for one user break the key of the member table.
unfoldable pub insert_direct :
    Text → Text → Conversation → List ConversationKey → Action World (Unit {0})
insert_direct user target conv keys = do
  raise_if (user == target) unique_violation
  insert_group conv
      (new_member conv.id user MemberRole.admin ∷ new_member conv.id target MemberRole.admin ∷ [])
      keys

abbrev system_dm_of : Option Conversation → Text → Text → ℕ → Text → Action World Conversation
system_dm_of (some existing) user target now id = pure existing
system_dm_of none user target now id =
    insert_direct user target (new_direct user now id) [] >> pure (new_direct user now id)

pub get_or_create_system_dm : Text → Text → ℕ → Text → Action World Conversation
get_or_create_system_dm user target now id w =
    system_dm_of (find_dm user target w) user target now id w

abbrev is_hidden_member : Option ConversationMember → Bool
is_hidden_member none = false
is_hidden_member (some m) = m.is_hidden

abbrev unhide : ConversationMember → ConversationMember
unhide m = record m { is_hidden = false }

-- An existing chat that the user had hidden is shown again; a new one needs the wraps of its key.
dm_of :
    Option Conversation
    → Text
    → Text
    → Option (List RawWrap)
    → ℕ
    → Text
    → Action World (Conversation × Bool)
dm_of (some existing) user target raws now id = do
  mine ← gets (find_member existing.id user)
  (if is_hidden_member mine then update_member existing.id user unhide else pure tt)
  pure (existing, false)
dm_of none user target raws now id = do
  wraps ← lift (assert_share_set raws (dedup (user ∷ target ∷ [])))
  insert_direct user target (new_direct user now id) (map (key_row id 1 user) wraps)
  pure (new_direct user now id, true)

unfoldable pub get_or_create_dm :
    Text → Text → Option (List RawWrap) → ℕ → Text → Action World (Conversation × Bool)
unfolding dm_of find_dm
get_or_create_dm user target raws now id w = dm_of (find_dm user target w) user target raws now id w

-- `saved_name` is the text "Saved Messages".
abbrev new_saved : Text → Text → ℕ → Text → Conversation
new_saved saved_name user now id = record {
  id = id;
  type = ConversationType.saved_messages;
  name = some saved_name;
  avatar_url = none;
  created_by_id = user;
  current_key_version = 1;
  updated_at = now;
  pinned_message_ids = none;
}

abbrev saved_of : Option Conversation → Text → Text → ℕ → Text → Action World Conversation
saved_of (some existing) saved_name user now id = pure existing
saved_of none saved_name user now id = do
  insert_group (new_saved saved_name user now id) (new_member id user MemberRole.admin ∷ []) []
  pure (new_saved saved_name user now id)

abbrev pub is_saved_of : Text → Conversation → Bool
is_saved_of user c = is_saved c.type && c.created_by_id == user

pub get_saved_messages : Text → Text → ℕ → Text → Action World Conversation
get_saved_messages saved_name user now id w =
    saved_of (find (is_saved_of user) w.conversations) saved_name user now id w
