-- ===== src/Reset.antt =====
-- server/src/services/reset.service.ts: a password reset by the approval of a device that is logged
-- in (`request`, `approve`, `deny`, `status`, `complete`). A reset lives in the key-value store for
-- ten minutes; an entry is gone once its time has come. The clock, the random values of a call and
-- the identifiers of new rows are arguments.
pub mod Codes
pub mod Lost
pub mod Tests
use najva_messenger.Base.{
  ℕ, ◌+◌, ◌-◌, ◌*◌, ◌≡◌, String, Bool, true, false, ◌&&◌, ◌||◌, not, Option, none, some, List, [],
  ◌∷◌, map, Action, Result, ok, err, thrown, record_not_found, ◌>>=◌, ◌>>◌, pure, gets, modify,
  or_throw, throw, throw_if, find, select, exists, update, ltb, leb, ◌==◌, if◌then◌else◌, is_none,
  is_some, map_option,
}
use najva_messenger.Store.Redis.{is_live_entry, get, del, set}
use najva_messenger.Store.{
  Text, World, User, ResetState, ResetStatus, Entry, Emit, Message, MessageType, Conversation,
  falsy,
}
use najva_messenger.Services.{Services}
use najva_messenger.Session.{SessionMeta, Tokens, create, revoke_all_for_user, hash_token}
use najva_messenger.Conversation.Rows.{update_conversation}
use najva_messenger.Conversation.Direct.{get_or_create_system_dm}
use najva_messenger.Messages.{create_message}

abbrev pub default_kek_iterations : ℕ
default_kek_iterations = 600000

abbrev pub reset_ttl_seconds : ℕ
reset_ttl_seconds = 10 * 60

abbrev pub max_otp_attempts : ℕ
max_otp_attempts = 5

-- How texts are read and printed, and what a time to live in milliseconds is in whole seconds.
pub record Formats : Type 0 where
  pub hex_bytes : Text → List ℕ
  pub is_base64_key : Text → Bool
  pub ttl_seconds : ℕ → ℕ
  pub is_fa : Text → Bool
  pub otp_text : (fa : Bool) → (otp : Text) → Text

-- What the support bot is made of: its name, and the row that it gets.
pub record BotData : Type 0 where
  pub username : Text
  pub row : User

same_list : List ℕ → List ℕ → Bool
same_list [] [] = true
same_list [] (b ∷ bs) = false
same_list (a ∷ as') [] = false
same_list (a ∷ as') (b ∷ bs) = a == b && same_list as' bs

abbrev is_nil : List ℕ → Bool
is_nil [] = true
is_nil (x ∷ xs) = false

pub load_state : Option Text → ℕ → World → Option ResetState
load_state none now w = none
load_state (some reset_id) now w = if falsy reset_id then none else get reset_id now w.resets

pub clear_reset : Text → Text → World → World
clear_reset reset_id user w = record w {
  resets = del reset_id w.resets;
  active_resets = del user w.active_resets;
}

abbrev pub has_user_id : Text → User → Bool
has_user_id id u = u.id == id

abbrev pub has_username : Text → User → Bool
has_username name u = u.username == name

-- `prisma.user.update`
unfoldable pub update_user : Text → (User → User) → Action World (Unit {0})
update_user id f w =
    if exists (has_user_id id) w.users
    then (ok tt, record w { users = update (has_user_id id) f w.users })
    else (err record_not_found, w)

bot_of : Option User → BotData → Action World User
bot_of (some bot) data' w = (ok bot, w)
bot_of none data' w = (ok data'.row, record w { users = data'.row ∷ w.users })

pub get_support_bot : BotData → Action World User
unfolding bot_of
get_support_bot data' w = bot_of (find (has_username data'.username) w.users) data' w

abbrev drop_prior : Option Text → World → World
drop_prior none w = w
drop_prior (some prior) w = if falsy prior then w else record w { resets = del prior w.resets }

abbrev is_pending : ResetStatus → Bool
is_pending ResetStatus.pending = true
is_pending ResetStatus.approved = false

abbrev pub is_sealed : Option Text → Bool
is_sealed none = false
is_sealed (some mk) = not (falsy mk)

-- The request of `complete`.
pub record CompleteData : Type 0 where
  pub reset_id : Option Text
  pub reset_secret : Option Text
  pub otp : Option Text
  pub new_login_key : Option Text
  pub kek_salt : Option Text
  pub kek_iterations : Option ℕ
  pub mk_password_wrapped : Option Text

-- The random values and identifiers of a call.
pub record Fresh : Type 0 where
  pub reset_id : Text
  pub reset_secret : Text
  pub otp : Text
  pub conversation_id : Text
  pub message_id : Text
  pub salt : Text
  pub session_id : Text
  pub jti : Text

pub record StatusView : Type 0 where
  pub status : ResetStatus
  pub sealed_mk : Option Text
  pub ephemeral_pub : Text

abbrev pub or_default : Option ℕ → ℕ
or_default none = default_kek_iterations
or_default (some n) = n

-- The only columns that a completed reset changes.
abbrev pub new_password : Text → CompleteData → User → User
new_password hash d u = record u {
  password_hash = hash;
  kek_salt = d.kek_salt;
  kek_iterations = or_default d.kek_iterations;
  mk_password_wrapped = d.mk_password_wrapped;
}

-- The user's row that is read back is there, since it has just been updated.
abbrev pub valid_payload : CompleteData → Bool
valid_payload d = is_some d.new_login_key && is_sealed d.kek_salt && is_sealed d.mk_password_wrapped

abbrev login_key_of : CompleteData → Text
login_key_of d = elim d.new_login_key [ none ↦ 0 | some key ↦ key ]

abbrev pub reset_id_of : CompleteData → Text
reset_id_of d = elim d.reset_id [ none ↦ 0 | some id ↦ id ]

abbrev pub first_tokens : Tokens × Text → Tokens
first_tokens (tokens, session) = tokens

module _ (c : Services) (f : Formats) where
  pub timing_equal_hex : Option Text → Text → Bool
  unfolding same_list
  timing_equal_hex none b = false
  timing_equal_hex (some a) b =
      not (is_nil (f.hex_bytes a)) && same_list (f.hex_bytes a) (f.hex_bytes b)

  -- The mutated state is stored again for the time that it had left.
  abbrev left_until : ℕ → Option (Entry ResetState) → ℕ
  left_until now none = now + 1000
  left_until now (some e) =
      let ttl = f.ttl_seconds (e.expires_at - now) in now + 1000 * (if ltb 0 ttl then ttl else 1)

  pub save_state : Text → ResetState → ℕ → World → World
  save_state reset_id state now w = record w {
    resets =
        set reset_id state (left_until now (find (is_live_entry reset_id now) w.resets)) w.resets;
  }

  abbrev system_message : Text → Text → Text → ℕ → Text → Message
  system_message conversation bot text now id = record {
    id = id;
    conversation_id = conversation;
    sender_id = bot;
    type = MessageType.system;
    encrypted_content = text;
    iv = none;
    ephemeral_key = none;
    sender_key_version = none;
    reply_to_id = none;
    is_forwarded = false;
    is_system_plaintext = true;
    created_at = now;
    deleted_at = none;
  }

  -- The code goes to the user's live devices as a message of the support bot.
  pub deliver_otp : BotData → User → Fresh → ℕ → Action World (Unit {0})
  deliver_otp bot_data user r now = do
    bot ← get_support_bot bot_data
    conv ← get_or_create_system_dm bot.id user.id now r.conversation_id
    update_conversation conv.id (λ x. record x { updated_at = now })
    modify (λ w. record w {
      members =
          update
            (λ m. m.conversation_id == conv.id && (m.user_id == user.id || m.user_id == bot.id))
            (λ m. record m { is_removed = false; is_hidden = false }) w.members;
    })
    create_message
        (system_message conv.id bot.id (f.otp_text (f.is_fa user.language) r.otp) now r.message_id)
    modify (λ w. record w {
      emitted =
          Emit.message_new_room conv.id r.message_id
          ∷ Emit.message_new_user user.id r.message_id
          ∷ w.emitted;
    })

  abbrev pub new_state : User → Text → Fresh → SessionMeta → ResetState
  new_state user ephemeral_pub r meta = record {
    user_id = user.id;
    ephemeral_pub = ephemeral_pub;
    otp_hash = c.sha256 r.otp;
    reset_secret = r.reset_secret;
    status = ResetStatus.pending;
    sealed_mk = none;
    attempts = 0;
    user_agent = meta.user_agent;
    ip = meta.ip;
  }

  abbrev is_request : Option Text → Option Text → Bool
  is_request (some name) (some key) = not (falsy name) && f.is_base64_key key
  is_request _ _ = false

  abbrev text_of : Option Text → Text
  text_of none = 0
  text_of (some t) = t

  -- Returns `resetId` and `resetSecret`.
  pub request :
      BotData
      → (username ephemeral_pub : Option Text) → SessionMeta
      → Fresh
      → ℕ
      → Action World (Text × Text)
  request bot_data username ephemeral_pub meta r now = do
    throw_if (not (is_request username ephemeral_pub)) "Username and ephemeral key are required" 400
    user ←
        or_throw (find (has_username (text_of username)) (← gets (λ w. w.users)))
          "No account found with that username" 404
    modify (λ w. drop_prior (get user.id now w.active_resets) w)
    let until = now + 1000 * reset_ttl_seconds
    modify (λ w. record w {
      resets = set r.reset_id (new_state user (text_of ephemeral_pub) r meta) until w.resets;
      active_resets = set user.id r.reset_id until w.active_resets;
    })
    deliver_otp bot_data user r now
    modify (λ w. record w {
      emitted = Emit.reset_pending user.id r.reset_id (text_of ephemeral_pub) ∷ w.emitted;
    })
    pure (r.reset_id, r.reset_secret)

  -- `!state || state.userId !== userId`
  abbrev of_user : Text → Option ResetState → Option ResetState
  of_user user none = none
  of_user user (some state) = if state.user_id == user then some state else none

  pub approve : Text → (reset_id sealed_mk : Option Text) → ℕ → Action World (Unit {0})
  unfolding save_state load_state
  approve user reset_id sealed_mk now = do
    throw_if (not (is_sealed sealed_mk)) "Sealed key material is required" 400
    state ← or_throw (of_user user (← gets (load_state reset_id now))) "Reset request not found" 404
    throw_if (not (is_pending state.status)) "Reset request is not pending" 409
    modify (
        save_state (text_of reset_id)
          (record state { status = ResetStatus.approved; sealed_mk = sealed_mk }) now)

  abbrev deny_of : Option ResetState → Text → Text → World → World
  deny_of none reset_id user w = w
  deny_of (some state) reset_id user w = clear_reset reset_id user w

  pub deny : Text → Option Text → ℕ → Action World (Unit {0})
  unfolding load_state clear_reset
  deny user reset_id now =
      modify (λ w. deny_of (of_user user (load_state reset_id now w)) (text_of reset_id) user w)

  pub status : Text → Option Text → ℕ → Action World StatusView
  unfolding load_state timing_equal_hex
  status reset_id secret now = do
    state ← or_throw (← gets (load_state (some reset_id) now)) "Reset request not found" 404
    throw_if (not (timing_equal_hex secret state.reset_secret)) "Invalid reset secret" 403
    pure (record {
      status = state.status;
      sealed_mk = if is_pending state.status then none else state.sealed_mk;
      ephemeral_pub = state.ephemeral_pub;
    })

  pub otp_ok : CompleteData → ResetState → Bool
  unfolding timing_equal_hex
  otp_ok d state = timing_equal_hex (map_option c.sha256 d.otp) state.otp_hash

  -- A wrong code counts, and the last one ends the reset.
  pub wrong_code : Text → ResetState → ℕ → Action World (Unit {0})
  unfolding clear_reset save_state
  wrong_code reset_id state now w =
      if leb max_otp_attempts (state.attempts + 1)
      then (
        err (thrown "Too many incorrect codes. Start the reset again." 429),
        clear_reset reset_id state.user_id w,
      )
      else (
        err (thrown "Incorrect verification code" 401),
        save_state reset_id (record state { attempts = state.attempts + 1 }) now w,
      )

  pub check_code : CompleteData → ResetState → ℕ → Action World (Unit {0})
  unfolding otp_ok wrong_code
  check_code d state now w =
      if otp_ok d state then (ok tt, w) else wrong_code (reset_id_of d) state now w

  -- Only the password material changes; every session is revoked, and a new one is given.
  pub complete : CompleteData → SessionMeta → Fresh → ℕ → Action World Tokens
  unfolding check_code load_state timing_equal_hex clear_reset
  complete d meta r now = do
    throw_if (not (valid_payload d)) "Invalid reset payload" 400
    state ← or_throw (← gets (load_state d.reset_id now)) "Invalid or expired reset" 401
    throw_if (not (timing_equal_hex d.reset_secret state.reset_secret)) "Invalid or expired reset"
        401
    throw_if (is_pending state.status || not (is_sealed state.sealed_mk))
        "Reset has not been approved yet" 409
    check_code d state now
    update_user state.user_id (new_password (c.bcrypt_hash r.salt (login_key_of d)) d)
    modify (clear_reset (reset_id_of d) state.user_id)
    revoked ← revoke_all_for_user state.user_id none now
    made ← create c state.user_id meta now r.session_id r.jti
    pure (first_tokens made)
