-- ===== src/Chats/Tests.antt =====
-- The chat 20 is not open, and the message 1 is there already.
use najva_messenger.Base.{◌≡◌, refl, true, none, some, [], ◌∷◌, ◌==◌, if◌then◌else◌, exists}
use najva_messenger.Store.{Text}
use najva_messenger.Chats.{Chat, ChatType, ChatState, Message, MessageStatus}
use najva_messenger.Chats.Delivery.{deliver, fresh, deliver_exact, with_unread}

abbrev message : Text → Message
message id = record {
  id = id;
  chat_id = 20;
  sender_id = 7;
  text = 0;
  timestamp = 0;
  status = MessageStatus.sent;
  is_encrypted = true;
  undecryptable = none;
  type = none;
  deleted = none;
  key_version = none;
  attachment = none;
  reply_to_id = none;
}

abbrev chat : Chat
chat = record {
  id = 20;
  type = ChatType.direct;
  name = none;
  participants = [];
  last_message = none;
  unread_count = 4;
  current_key_version = none;
  role = none;
  muted = none;
  blocked = none;
  member_count = none;
  peer_id = none;
  peer_status = none;
  peer_last_seen = none;
  last_read_message_id = none;
  pinned_message_ids = none;
}

abbrev two_chats : ChatState
two_chats = record {
  chats = λ i. if i == 20 then some chat else none;
  messages = λ i. if i == 20 then some (message 1 ∷ []) else none;
  active_chat_id = some 30;
}

deliver_exact_example :
    (deliver 20 (message 2 ∷ message 1 ∷ message 2 ∷ []) two_chats).chats 20
    ≡ some (with_unread 1 chat)
unfolding fresh exists
deliver_exact_example =
    (deliver_exact 20 (message 2 ∷ message 1 ∷ message 2 ∷ []) two_chats chat refl refl).1
