-- ===== src/Conversation/Settings/Deletion.antt =====
-- Deleting a direct chat for everyone.
use najva_messenger.Base.{select, none, is_none, ◌≡◌, ◌≢◌, Bool, true, false, some, exists, ◌==◌}
use najva_messenger.Store.{Text, World, Conversation, Attachment}
use najva_messenger.Conversation.Rows.{has_id, find_conversation}
use najva_messenger.Conversation.Settings.{in_conversation}

-- The message is one of the conversation.
abbrev pub holds_message : Text → Text → World → Bool
holds_message id message w = exists (λ m. m.id == message) (select (in_conversation id) w.messages)

abbrev pub hangs_under : Text → Attachment → Bool
hangs_under message a = elim a.message_id [ none ↦ false | some m ↦ m == message ]

-- No row of the conversation is left, nor an attachment of one of its messages; the rows of each
-- other conversation, the attachments of all other messages and those of no message are as they
-- were, in their order, and so is every other table.
abbrev pub Erases : Text → World → World → Type 0
Erases id w w' =
    (exists (has_id id) w'.conversations ≡ false)
    × (exists (λ m. m.conversation_id == id) w'.members ≡ false)
    × (exists (λ k. k.conversation_id == id) w'.keys ≡ false)
    × (exists (in_conversation id) w'.messages ≡ false)
    × ((message : Text)
        → holds_message id message w ≡ true
        → exists (hangs_under message) w'.attachments ≡ false)
    × ((other : Text)
        → other ≢ id
        → (find_conversation other w' ≡ find_conversation other w)
          × (select (λ m. m.conversation_id == other) w'.members
              ≡ select (λ m. m.conversation_id == other) w.members)
          × (select (λ k. k.conversation_id == other) w'.keys
              ≡ select (λ k. k.conversation_id == other) w.keys)
          × (select (in_conversation other) w'.messages
              ≡ select (in_conversation other) w.messages))
    × ((message : Text)
        → holds_message id message w ≡ false
        → select (hangs_under message) w'.attachments ≡ select (hangs_under message) w.attachments)
    × (select (λ a. is_none a.message_id) w'.attachments
        ≡ select (λ a. is_none a.message_id) w.attachments)
    × (w' ≡ record w {
      conversations = w'.conversations;
      members = w'.members;
      keys = w'.keys;
      messages = w'.messages;
      attachments = w'.attachments;
    })
