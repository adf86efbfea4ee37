-- ===== src/Conversation/Settings.antt =====
-- A member's own settings of a chat, its deletion, its history and its pinned messages.
pub mod Own
pub mod Deletion
use najva_messenger.Base.{
  ℕ, ◌≡◌, String, Bool, true, false, ◌&&◌, ◌||◌, not, Option, none, some, List, [], ◌∷◌, ◌++◌, map,
  Action, Result, ok, err, thrown, ◌>>=◌, ◌>>◌, pure, gets, modify, or_throw, throw_if, find,
  select, exists, update, includes, ◌==◌, if◌then◌else◌,
}
use najva_messenger.Store.{
  Text, World, Conversation, ConversationMember, ConversationKey, ConversationType, Message,
  Attachment, falsy,
}
use najva_messenger.Conversation.Rows.{
  has_id, is_member_row, find_member, find_conversation, update_member, update_conversation,
  require_member,
}

-- `requireMember`, then an update of the caller's own row.
unfoldable pub set_own :
    (ConversationMember → ConversationMember) → Text → Text → Action World (Unit {0})
set_own f conversation user = do require_member conversation user; update_member conversation user f

abbrev pub muted : Bool → ConversationMember → ConversationMember
muted b m = record m { is_muted = b }

abbrev pub blocked : Bool → ConversationMember → ConversationMember
blocked b m = record m { is_blocked = b }

pub mute_conversation : Text → Text → Action World (Unit {0})
mute_conversation = set_own (muted true)

pub unmute_conversation : Text → Text → Action World (Unit {0})
unmute_conversation = set_own (muted false)

pub block_conversation : Text → Text → Action World (Unit {0})
block_conversation = set_own (blocked true)

pub unblock_conversation : Text → Text → Action World (Unit {0})
unblock_conversation = set_own (blocked false)

abbrev pub is_direct : ConversationType → Bool
is_direct ConversationType.direct = true
is_direct _ = false

unfoldable pub members_of : Text → World → List Text
members_of id w = map (λ m. m.user_id) (select (λ m. m.conversation_id == id) w.members)

abbrev pub in_conversation : Text → Message → Bool
in_conversation id m = m.conversation_id == id

abbrev pub message_ids : Text → World → List Text
message_ids id w = map (λ m. m.id) (select (in_conversation id) w.messages)

abbrev pub hangs_on : List Text → Attachment → Bool
hangs_on ids a = elim a.message_id [ none ↦ false | some m ↦ includes m ids ]

-- `prisma.conversation.delete`: members, keys, messages and their attachments go by the schema's
-- cascades.
pub cascade_delete : Text → World → World
cascade_delete id w = record w {
  conversations = select (λ c. not (has_id id c)) w.conversations;
  members = select (λ m. not (m.conversation_id == id)) w.members;
  keys = select (λ k. not (k.conversation_id == id)) w.keys;
  messages = select (λ m. not (in_conversation id m)) w.messages;
  attachments = select (λ a. not (hangs_on (message_ids id w) a)) w.attachments;
}

unfoldable pub hard_delete : Text → Action World (List Text)
unfolding cascade_delete members_of
hard_delete id = do
  conv ← or_throw (← gets (find_conversation id)) "Conversation not found" 404
  throw_if (not (is_direct conv.type)) "Only direct chats can be deleted for everyone" 400
  members ← gets (members_of id)
  modify (cascade_delete id)
  pure members

abbrev pub hidden : Bool → ℕ → ConversationMember → ConversationMember
hidden true now m = record m { is_hidden = true; cleared_at = some now }
hidden false now m = record m { is_hidden = true }

-- Returns the members of a chat deleted for everyone, and `none` where it is only hidden.
unfoldable pub delete_conversation :
    Text → Text → (delete_history for_everyone : Bool) → ℕ → Action World (Option (List Text))
delete_conversation conversation user delete_history true now = do
  require_member conversation user
  members ← hard_delete conversation
  pure (some members)
delete_conversation conversation user delete_history false now = do
  set_own (hidden delete_history now) conversation user
  pure none

abbrev pub cleared : ℕ → ConversationMember → ConversationMember
cleared now m = record m { cleared_at = some now }

clear_for_everyone : Text → ℕ → Action World (List Text)
unfolding members_of
clear_for_everyone id now = do
  conv ← or_throw (← gets (find_conversation id)) "Conversation not found" 404
  throw_if (not (is_direct conv.type)) "Only direct chats can be cleared for everyone" 400
  members ← gets (members_of id)
  modify (λ w. record w { members = update (λ m. m.conversation_id == id) (cleared now) w.members })
  pure members

pub clear_history : Text → Text → (for_everyone : Bool) → ℕ → Action World (Option (List Text))
unfolding clear_for_everyone
clear_history conversation user true now = do
  require_member conversation user
  members ← clear_for_everyone conversation now
  pure (some members)
clear_history conversation user false now = do set_own (cleared now) conversation user; pure none

-- How the column of pinned messages is read and written: `JSON.parse` of an array of texts, which
-- fails with `none`, `split(',')` without empty parts, and `JSON.stringify`.
pub record PinCodec : Type 0 where
  pub parse : Text → Option (List Text)
  pub split : Text → List Text
  pub stringify : List Text → Text

pub data PinAction : Type 0 where
  pin unpin : PinAction

module _ (codec : PinCodec) where
  read_parsed : Option (List Text) → Text → List Text
  read_parsed none stored = codec.split stored
  read_parsed (some ids) stored = ids

  pub read_pinned : Option Text → List Text
  unfolding read_parsed
  read_pinned none = []
  read_pinned (some stored) = if falsy stored then [] else read_parsed (codec.parse stored) stored

  pub change_pinned : PinAction → Text → List Text → List Text
  change_pinned PinAction.pin message ids =
      if includes message ids then ids else ids ++ (message ∷ [])
  change_pinned PinAction.unpin message ids = select (λ id. not (id == message)) ids

  pub pin_message : Text → Text → Text → PinAction → ℕ → Action World Text
  unfolding read_pinned change_pinned
  pin_message conversation user message action now = do
    require_member conversation user
    conv ← or_throw (← gets (find_conversation conversation)) "Conversation not found" 404
    let stored =
        codec.stringify (change_pinned action message (read_pinned conv.pinned_message_ids))
    update_conversation conversation
        (λ c. record c { pinned_message_ids = some stored; updated_at = now })
    pure stored
