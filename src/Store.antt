-- ===== src/Store.antt =====
-- The state that the server's handlers read and write: the rows of server/prisma/schema.prisma,
-- the entries of the key-value store, the live sockets and what was sent to them.
--
-- A text is its number in an enumeration of all texts that begins with the empty one, so that
-- `falsy t` is the test for the empty text; an identifier, a hash or a key is a text. A time is in
-- milliseconds.
pub mod Redis
use najva_messenger.Base.{ℕ, ◌==◌, Bool, Option, List, []}

abbrev pub Text : Type 0
Text = ℕ

-- `!t` of a text
abbrev pub falsy : Text → Bool
falsy t = t == 0

pub data UserStatus : Type 0 where
  online offline away : UserStatus

pub record User : Type 0 where
  pub id : Text
  pub username : Text
  pub password_hash : Text
  pub display_name : Option Text
  pub avatar_url : Option Text
  pub status : UserStatus
  pub storage_limit : ℕ
  pub storage_used : ℕ
  pub is_blocked : Bool
  pub is_suspended : Bool
  pub suspend_reason : Option Text
  pub is_admin : Bool
  pub totp_secret : Option Text
  pub totp_enabled : Bool
  pub kek_salt : Option Text
  pub kek_iterations : ℕ
  pub mk_password_wrapped : Option Text
  pub encrypted_private_keys : Option Text
  pub mk_version : ℕ
  pub identity_key_public : Option Text
  pub identity_signing_public : Option Text
  pub signed_pre_key_public : Option Text
  pub signed_pre_key_signature : Option Text
  pub signed_pre_key_id : Option ℕ
  pub language : Text
  pub theme : Text
  pub bio : Option Text
  pub last_seen : Option ℕ

pub record Session : Type 0 where
  pub id : Text
  pub user_id : Text
  pub refresh_token_hash : Text
  pub prev_token_hash : Option Text
  pub device_name : Option Text
  pub user_agent : Option Text
  pub ip : Option Text
  pub created_at : ℕ
  pub last_used_at : ℕ
  pub expires_at : ℕ
  pub revoked_at : Option ℕ

pub record RecoveryCode : Type 0 where
  pub id : Text
  pub user_id : Text
  pub verifier_hash : Text
  pub wrapped_mk : Text
  pub wrap_salt : Text
  pub used_at : Option ℕ

pub record Credential : Type 0 where
  pub id : Text
  pub user_id : Text
  pub credential_id : Text
  pub public_key : Text
  pub counter : ℕ
  pub transports : Option Text
  pub device_name : Option Text
  pub prf_supported : Bool
  pub prf_salt : Option Text
  pub wrapped_mk : Option Text
  pub created_at : ℕ
  pub last_used_at : Option ℕ

pub data ConversationType : Type 0 where
  direct group channel saved_messages : ConversationType

pub data MemberRole : Type 0 where
  admin member : MemberRole

pub record Conversation : Type 0 where
  pub id : Text
  pub type : ConversationType
  pub name : Option Text
  pub avatar_url : Option Text
  pub created_by_id : Text
  pub current_key_version : ℕ
  pub updated_at : ℕ
  pub pinned_message_ids : Option Text

pub record ConversationMember : Type 0 where
  pub conversation_id : Text
  pub user_id : Text
  pub role : MemberRole
  pub last_read_message_id : Option Text
  pub is_removed : Bool
  pub is_muted : Bool
  pub is_hidden : Bool
  pub is_blocked : Bool
  pub cleared_at : Option ℕ

pub record ConversationKey : Type 0 where
  pub conversation_id : Text
  pub user_id : Text
  pub version : ℕ
  pub wrapped_key : Text
  pub wrapped_by_id : Text

pub data MessageType : Type 0 where
  text image video file voice video_message emoji system : MessageType

pub record Message : Type 0 where
  pub id : Text
  pub conversation_id : Text
  pub sender_id : Text
  pub type : MessageType
  pub encrypted_content : Text
  pub iv : Option Text
  pub ephemeral_key : Option Text
  pub sender_key_version : Option ℕ
  pub reply_to_id : Option Text
  pub is_forwarded : Bool
  pub is_system_plaintext : Bool
  pub created_at : ℕ
  pub deleted_at : Option ℕ

pub record Attachment : Type 0 where
  pub id : Text
  pub message_id : Option Text
  pub file_size : ℕ
  pub mime_type : Text
  pub encrypted_key : Option Text
  pub thumbnail_path : Option Text

pub record PreKey : Type 0 where
  pub id : Text
  pub user_id : Text
  pub key_id : ℕ
  pub public_key : Text
  pub used : Bool

pub record Contact : Type 0 where
  pub owner_id : Text
  pub contact_id : Text
  pub alias : Option Text
  pub created_at : ℕ

-- A live socket carries the session of its access token.
pub record Socket : Type 0 where
  pub id : Text
  pub user_id : Text
  pub session_id : Text

pub data ResetStatus : Type 0 where
  pending approved : ResetStatus

pub record ResetState : Type 0 where
  pub user_id : Text
  pub ephemeral_pub : Text
  pub otp_hash : Text
  pub reset_secret : Text
  pub status : ResetStatus
  pub sealed_mk : Option Text
  pub attempts : ℕ
  pub user_agent : Option Text
  pub ip : Option Text

-- What a recovery token stands for; only a token from a recovery code names the code.
pub record RecoverGrant : Type 0 where
  pub user_id : Text
  pub code_id : Option Text

-- What a passkey registration is waiting for.
pub record RegistrationStash : Type 0 where
  pub challenge : Text
  pub prf_salt : Text

-- A notification names who triggered it, and never what was written.
pub record Notification : Type 0 where
  pub id : Text
  pub user_id : Text
  pub kind : Text
  pub conversation_id : Option Text
  pub actor_id : Option Text
  pub created_at : ℕ
  pub read_at : Option ℕ

pub record PushSubscription : Type 0 where
  pub id : Text
  pub user_id : Text
  pub endpoint : Text
  pub p256dh : Text
  pub auth : Text

pub record PushDevice : Type 0 where
  pub id : Text
  pub user_id : Text
  pub platform : Text
  pub token : Text

-- An entry of the key-value store, gone at `expires_at`.
pub record Entry (A : Type 0) : Type 0 where
  pub key : Text
  pub value : A
  pub expires_at : ℕ

-- What the server sends to sockets: to one, to all of a user, or to a conversation's room.
pub data Emit : Type 0 where
  session_revoked : (socket session : Text) → Emit
  reset_pending : (user reset_id ephemeral_pub : Text) → Emit
  message_new_user : (user message : Text) → Emit
  message_new_room : (conversation message : Text) → Emit
  member_key_reset : (conversation user : Text) → Emit

pub record World : Type 0 where
  pub users : List User
  pub sessions : List Session
  pub recovery_codes : List RecoveryCode
  pub credentials : List Credential
  pub conversations : List Conversation
  pub members : List ConversationMember
  pub keys : List ConversationKey
  pub messages : List Message
  pub attachments : List Attachment
  pub pre_keys : List PreKey
  pub contacts : List Contact
  pub resets : List (Entry ResetState)
  pub active_resets : List (Entry Text)
  pub lost_tokens : List (Entry Text)
  pub recover_tokens : List (Entry RecoverGrant)
  pub registrations : List (Entry RegistrationStash)
  pub login_challenges : List (Entry Text)
  pub recover_challenges : List (Entry Text)
  pub notifications : List Notification
  pub subscriptions : List PushSubscription
  pub devices : List PushDevice
  pub sockets : List Socket
  pub emitted : List Emit

abbrev pub empty_world : World
empty_world = record {
  users = [];
  sessions = [];
  recovery_codes = [];
  credentials = [];
  conversations = [];
  members = [];
  keys = [];
  messages = [];
  attachments = [];
  pre_keys = [];
  contacts = [];
  resets = [];
  active_resets = [];
  lost_tokens = [];
  recover_tokens = [];
  registrations = [];
  login_challenges = [];
  recover_challenges = [];
  notifications = [];
  subscriptions = [];
  devices = [];
  sockets = [];
  emitted = [];
}
