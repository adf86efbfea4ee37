-- ===== src/Chats.antt =====
-- client/src/store/chatStore.ts: the chats and messages that a client shows. An object that is used
-- as a map is a function, and a patch is a function on the value that it changes.
pub mod Delivery
mod Tests
use najva_messenger.Base.{
  ℕ, ◌+◌, ◌≡◌, Bool, true, false, ◌&&◌, not, Option, none, some, List, [], ◌∷◌, ◌++◌, exists,
  update, ◌==◌, if◌then◌else◌, get_or_nil, map_option, is_some,
}
use najva_messenger.Store.{Text, falsy}

pub data MessageStatus : Type 0 where
  sent delivered read : MessageStatus

pub record Attachment : Type 0 where
  pub id : Text
  pub encrypted_key : Text
  pub mime_type : Text
  pub file_name : Option Text

pub record Message : Type 0 where
  pub id : Text
  pub chat_id : Text
  pub sender_id : Text
  pub text : Text
  pub timestamp : ℕ
  pub status : MessageStatus
  pub is_encrypted : Bool
  pub undecryptable : Option Bool
  pub type : Option Text
  pub deleted : Option Bool
  pub key_version : Option ℕ
  pub attachment : Option Attachment
  pub reply_to_id : Option Text

pub data ChatType : Type 0 where
  direct group channel : ChatType

pub record Chat : Type 0 where
  pub id : Text
  pub type : ChatType
  pub name : Option Text
  pub participants : List Text
  pub last_message : Option Message
  pub unread_count : ℕ
  pub current_key_version : Option ℕ
  pub role : Option Text
  pub muted : Option Bool
  pub blocked : Option Bool
  pub member_count : Option ℕ
  pub peer_id : Option Text
  pub peer_status : Option Text
  pub peer_last_seen : Option Text
  pub last_read_message_id : Option Text
  pub pinned_message_ids : Option Text

pub record ChatState : Type 0 where
  pub chats : Text → Option Chat
  pub messages : Text → Option (List Message)
  pub active_chat_id : Option Text

-- `{ ...map, [key]: value }`
abbrev pub put : {A : Type 0} → Text → Option A → (Text → Option A) → Text → Option A
put key value m i = if i == key then value else m i

abbrev pub has_id : Text → Message → Bool
has_id id m = m.id == id

-- A change of the chat under a key, where there is one.
abbrev pub change_chat : Text → (Chat → Chat) → (Text → Option Chat) → Text → Option Chat
change_chat key f chats = put key (map_option f (chats key)) chats

abbrev opened : Option Text → (Text → Option Chat) → Text → Option Chat
opened none chats = chats
opened (some id) chats =
    if falsy id then chats else change_chat id (λ c. record c { unread_count = 0 }) chats

pub set_active_chat : Option Text → ChatState → ChatState
set_active_chat id s = record s { active_chat_id = id; chats = opened id s.chats }

abbrev put_all : List Chat → (Text → Option Chat) → Text → Option Chat
put_all [] chats = chats
put_all (c ∷ cs) chats = put_all cs (put c.id (some c) chats)

pub set_chats : List Chat → ChatState → ChatState
set_chats chats_list s = record s { chats = put_all chats_list s.chats }

pub update_chat : Text → (Chat → Chat) → ChatState → ChatState
update_chat id patch s = record s { chats = change_chat id patch s.chats }

abbrev is_active : Text → Option Text → Bool
is_active id none = false
is_active id (some active) = active == id

pub remove_chat : Text → ChatState → ChatState
remove_chat id s = record {
  chats = put id none s.chats;
  messages = put id none s.messages;
  active_chat_id = if is_active id s.active_chat_id then none else s.active_chat_id;
}

pub set_messages : Text → List Message → ChatState → ChatState
set_messages id messages_list s = record s { messages = put id (some messages_list) s.messages }

abbrev pub one_more : Chat → Chat
one_more c = record c { unread_count = c.unread_count + 1 }

abbrev pub messages_of : Text → ChatState → List Message
messages_of id s = get_or_nil (s.messages id)

unfoldable pub add_message : Text → Message → ChatState → ChatState
add_message id m s = if exists (has_id m.id) (messages_of id s) then s else record s {
  chats = if is_active id s.active_chat_id then s.chats else change_chat id one_more s.chats;
  messages = put id (some (messages_of id s ++ m ∷ [])) s.messages;
}

pub update_message : Text → Text → (Message → Message) → ChatState → ChatState
update_message id message_id patch s = record s {
  messages = put id (some (update (has_id message_id) patch (messages_of id s))) s.messages;
}

pub update_message_status : Text → Text → MessageStatus → ChatState → ChatState
update_message_status id message_id status s = record s {
  messages =
      put id
        (some (update (has_id message_id) (λ m. record m { status = status }) (messages_of id s)))
        s.messages;
}
