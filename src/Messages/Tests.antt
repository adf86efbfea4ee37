-- ===== src/Messages/Tests.antt =====
-- Concrete inputs for the theorems on messages.
use najva_messenger.Base.Order.{order_desc}
use najva_messenger.Base.{length, ◌≤◌, select, ◌≡◌, refl, ◌∷◌, [], some, none, ok, find, exists}
use najva_messenger.Store.{World, MessageType}
use najva_messenger.Conversation.Rows.{require_member, update_member}
use najva_messenger.Conversation.Tests.{office}
use najva_messenger.Messages.{
  SendData, ForwardData, new_message, forwarded, send_message, forward_message, get_messages,
  edit_message, delete_message, find_message,
}
use najva_messenger.Messages.Posting.{Posted, send_message_exact, forward_message_exact}
use najva_messenger.Messages.Reading.{
  Authored, nonce_after, edit_and_delete_exact, get_messages_visible,
}

abbrev hello : SendData
hello = record {
  type = MessageType.text;
  encrypted_content = 90;
  iv = some 91;
  ephemeral_key = none;
  sender_key_version = some 1;
  reply_to_id = none;
  attachment_ids = [];
}

abbrev copy : ForwardData
copy = record {
  type = MessageType.text;
  encrypted_content = 90;
  iv = none;
  sender_key_version = some 1;
}

abbrev talk : World
talk = record office {
  messages =
      new_message 20 8 hello 5 40 ∷ new_message 20 7 hello 6 41 ∷ new_message 30 7 hello 7 42 ∷ [];
}

send_message_exact_example :
    Posted 20 (new_message 20 8 hello 9 43) 9 talk (send_message 8 20 hello 9 43 talk)
unfolding find exists
send_message_exact_example = send_message_exact 8 20 hello 9 43 talk

forward_message_exact_example : forward_message 9 20 copy 9 44 talk ≡ (
  ok (forwarded 20 9 copy 9 44),
  record talk { messages = forwarded 20 9 copy 9 44 ∷ talk.messages },
)
unfolding find exists
forward_message_exact_example = forward_message_exact 9 20 copy 9 44 talk

edit_and_delete_exact_example :
    Authored 40
      (λ m. record m { encrypted_content = 95; iv = nonce_after (some 96) m.iv })
      talk
      (find_message 40 talk)
      8
      (edit_message 40 8 95 (some 96) talk)
    × Authored 40
        (λ m. record m { deleted_at = some 11 })
        talk
        (find_message 40 talk)
        8
        (delete_message 40 8 11 talk)
edit_and_delete_exact_example = edit_and_delete_exact 40 8 95 (some 96) 11 talk

get_messages_visible_example : length (new_message 20 7 hello 6 41 ∷ []) ≤ 1
unfolding get_messages require_member update_member find order_desc select
get_messages_visible_example =
    (get_messages_visible (λ id ms. ms) (λ P id ms h. h) 20 8 none 1 talk
      (get_messages (λ id ms. ms) 20 8 none 1 talk).1 (new_message 20 7 hello 6 41 ∷ []) refl).0
