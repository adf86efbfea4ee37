-- ===== src/Messages.antt =====
-- server/src/services/message.service.ts: reading, sending, editing, deleting and forwarding the
-- messages of a conversation. The message's fresh identifier and the clock are arguments.
pub mod Posting
mod Page
pub mod Reading
mod Tests
use najva_messenger.Base.{
  ℕ, ◌≡◌, String, Bool, true, false, ◌&&◌, ◌||◌, not, Option, none, some, List, [], ◌∷◌, map,
  Action, Result, ok, err, thrown, foreign_key_violation, ◌>>=◌, ◌>>◌, pure, gets, modify, or_throw,
  throw_if, raise_if, transaction, find, select, exists, update, includes, ltb, ◌==◌, if◌then◌else◌,
  take, drop, is_none,
}
use najva_messenger.Base.Order.{order_desc}
use najva_messenger.Store.{
  Text, World, Conversation, ConversationMember, ConversationType, Message, MessageType, MemberRole,
  Attachment, falsy,
}
use najva_messenger.Conversation.Rows.{
  has_id, is_member_row, find_member, find_conversation, update_member, update_conversation,
  require_member, require_users, is_admin,
}

-- The request of `sendMessage`; `attachment_ids` is empty where the field is missing.
pub record SendData : Type 0 where
  pub type : MessageType
  pub encrypted_content : Text
  pub iv : Option Text
  pub ephemeral_key : Option Text
  pub sender_key_version : Option ℕ
  pub reply_to_id : Option Text
  pub attachment_ids : List Text

abbrev pub has_message_id : Text → Message → Bool
has_message_id id m = m.id == id

abbrev pub find_message : Text → World → Option Message
find_message id w = find (has_message_id id) w.messages

-- `deletedAt: null` and `createdAt: { gt: member.clearedAt }`
abbrev pub is_after : Option ℕ → ℕ → Bool
is_after none t = true
is_after (some cleared) t = ltb cleared t

abbrev pub is_visible : Text → Option ℕ → Message → Bool
is_visible conversation cleared m =
    m.conversation_id == conversation && is_none m.deleted_at && is_after cleared m.created_at

-- `if (cursor)`
abbrev pub cursor_of : Option Text → Option Text
cursor_of none = none
cursor_of (some id) = if falsy id then none else some id

abbrev pub cleared_of : Option ConversationMember → Option ℕ
cleared_of none = none
cleared_of (some m) = m.cleared_at

module _ (start_at : Text → List Message → List Message) where
  -- `start_at` is what a query's cursor does to the ordered rows; `skip` is then 1.
  unfoldable pub page : Option Text → ℕ → List Message → List Message
  page none limit ms = take limit ms
  page (some id) limit ms = take limit (drop 1 (start_at id ms))

  unfoldable pub mark_read : Option Text → Text → Text → List Message → Action World (Unit {0})
  mark_read (some cursor) conversation user ms = pure tt
  mark_read none conversation user [] = pure tt
  mark_read none conversation user (m ∷ ms) =
      update_member conversation user (λ r. record r { last_read_message_id = some m.id })

  -- The newest messages first, at most `limit`, which is not negative here; reading the newest page marks the conversation as read.
  unfoldable pub get_messages : Text → Text → Option Text → ℕ → Action World (List Message)
  unfolding page mark_read
  get_messages conversation user cursor limit = do
    require_member conversation user
    member ← gets (find_member conversation user)
    rows ← gets (λ w. w.messages)
    let ms =
        page (cursor_of cursor) limit (
          order_desc (λ m. m.created_at)
            (select (is_visible conversation (cleared_of member)) rows))
    mark_read (cursor_of cursor) conversation user ms
    pure ms

abbrev pub is_direct : ConversationType → Bool
is_direct ConversationType.direct = true
is_direct _ = false

abbrev pub is_channel : ConversationType → Bool
is_channel ConversationType.channel = true
is_channel _ = false

-- `conversation.members.some(m => m.isBlocked)`
abbrev pub has_block : Text → World → Bool
has_block conversation w = exists (λ m. m.conversation_id == conversation && m.is_blocked) w.members

abbrev pub new_message : Text → Text → SendData → ℕ → Text → Message
new_message conversation user data' now id = record {
  id = id;
  conversation_id = conversation;
  sender_id = user;
  type = data'.type;
  encrypted_content = data'.encrypted_content;
  iv = data'.iv;
  ephemeral_key = data'.ephemeral_key;
  sender_key_version = data'.sender_key_version;
  reply_to_id = data'.reply_to_id;
  is_forwarded = false;
  is_system_plaintext = false;
  created_at = now;
  deleted_at = none;
}

-- A reply refers to a message that is there.
abbrev pub replies_to : Option Text → World → Bool
replies_to none w = true
replies_to (some id) w = exists (has_message_id id) w.messages

-- `prisma.message.create`, with the references of the new row.
unfoldable pub create_message : Message → Action World (Unit {0})
create_message m w =
    if exists (has_id m.conversation_id) w.conversations
      && exists (λ u. u.id == m.sender_id) w.users
      && replies_to m.reply_to_id w
    then (ok tt, record w { messages = m ∷ w.messages })
    else (err foreign_key_violation, w)

abbrev pub attach : Text → List Text → World → World
attach message ids w = record w {
  attachments =
      update (λ a. includes a.id ids) (λ a. record a { message_id = some message }) w.attachments;
}

-- The conversation has changed, and nobody hides it any more.
unfoldable pub surface : Text → ℕ → Action World (Unit {0})
surface conversation now = transaction (do
  update_conversation conversation (λ c. record c { updated_at = now })
  modify (λ w. record w {
    members =
        update (λ m. m.conversation_id == conversation && m.is_hidden)
          (λ m. record m { is_hidden = false }) w.members;
  }))

pub send_message : Text → Text → SendData → ℕ → Text → Action World (Option Message)
send_message user conversation data' now id = do
  require_member conversation user
  member ← gets (find_member conversation user)
  conv ← or_throw (← gets (find_conversation conversation)) "Conversation not found" 404
  blocked ← gets (has_block conversation)
  throw_if (is_direct conv.type && blocked) "Blocked" 403
  throw_if (is_channel conv.type && not (is_admin member)) "Only channel admins can post" 403
  create_message (new_message conversation user data' now id)
  modify (attach id data'.attachment_ids)
  surface conversation now
  gets (find_message id)

abbrev pub update_message : Text → (Message → Message) → World → World
update_message id f w = record w { messages = update (has_message_id id) f w.messages }

-- `...(iv ? { iv } : {})`
abbrev pub new_iv : Option Text → Option Text → Option Text
new_iv none old = old
new_iv (some iv) old = if falsy iv then old else some iv

pub edit_message : Text → Text → Text → Option Text → Action World (Unit {0})
edit_message id user content iv = do
  message ← or_throw (← gets (find_message id)) "Message not found" 404
  throw_if (not (message.sender_id == user)) "Unauthorized" 403
  modify (update_message id (λ m. record m { encrypted_content = content; iv = new_iv iv m.iv }))

pub delete_message : Text → Text → ℕ → Action World (Unit {0})
delete_message id user now = do
  message ← or_throw (← gets (find_message id)) "Message not found" 404
  throw_if (not (message.sender_id == user)) "Unauthorized" 403
  modify (update_message id (λ m. record m { deleted_at = some now }))

-- The request of `forwardMessage`.
pub record ForwardData : Type 0 where
  pub type : MessageType
  pub encrypted_content : Text
  pub iv : Option Text
  pub sender_key_version : Option ℕ

abbrev pub forwarded : Text → Text → ForwardData → ℕ → Text → Message
forwarded conversation user data' now id = record {
  id = id;
  conversation_id = conversation;
  sender_id = user;
  type = data'.type;
  encrypted_content = data'.encrypted_content;
  iv = data'.iv;
  ephemeral_key = none;
  sender_key_version = data'.sender_key_version;
  reply_to_id = none;
  is_forwarded = true;
  is_system_plaintext = false;
  created_at = now;
  deleted_at = none;
}

pub forward_message : Text → Text → ForwardData → ℕ → Text → Action World Message
forward_message user conversation data' now id = do
  require_member conversation user
  create_message (forwarded conversation user data' now id)
  pure (forwarded conversation user data' now id)
