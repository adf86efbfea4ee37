-- ===== src/Reset/Tests.antt =====
-- Concrete inputs for the theorems on resets: a reset of user 7 that a device has approved.
use najva_messenger.Base.{
  ◌≡◌, refl, ℕ, ◌/◌, ◌∷◌, [], some, none, err, thrown, find, select, exists, update, true,
}
use najva_messenger.Store.{World, ResetState, ResetStatus}
use najva_messenger.Session.{
  SessionMeta, generate_tokens, hash_token, create, revoke_all_for_user, revoke_targets,
}
use najva_messenger.Session.Tests.{services}
use najva_messenger.Conversation.Tests.{office}
use najva_messenger.Reset.{
  Formats, CompleteData, Fresh, complete, load_state, timing_equal_hex, otp_ok, check_code,
  clear_reset, update_user, same_list,
}
use najva_messenger.Reset.Codes.{complete-Proven, complete_wrong_code}

abbrev formats : Formats
formats = record {
  hex_bytes = λ t. t ∷ [];
  is_base64_key = λ t. true;
  ttl_seconds = λ t. t / 1000;
  is_fa = λ t. true;
  otp_text = λ fa otp. otp;
}

abbrev approved : ResetState
approved = record {
  user_id = 7;
  ephemeral_pub = 75;
  otp_hash = 73;
  reset_secret = 71;
  status = ResetStatus.approved;
  sealed_mk = some 74;
  attempts = 4;
  user_agent = none;
  ip = none;
}

abbrev waiting : World
waiting = record office {
  resets = record { key = 70; value = approved; expires_at = 600000 } ∷ [];
  active_resets = record { key = 7; value = 70; expires_at = 600000 } ∷ [];
}

abbrev completion : ℕ → CompleteData
completion otp = record {
  reset_id = some 70;
  reset_secret = some 71;
  otp = some otp;
  new_login_key = some 80;
  kek_salt = some 81;
  kek_iterations = none;
  mk_password_wrapped = some 82;
}

abbrev fresh : Fresh
fresh = record {
  reset_id = 76;
  reset_secret = 77;
  otp = 78;
  conversation_id = 33;
  message_id = 45;
  salt = 83;
  session_id = 4;
  jti = 84;
}

abbrev pub no_meta : SessionMeta
no_meta = record { user_agent = none; ip = none; device_name = none }

complete-Proven_example :
    load_state (some 70) 500 (complete services formats (completion 72) no_meta fresh 100 waiting).1
    ≡ none
unfolding complete check_code otp_ok load_state find select exists update update_user clear_reset
    revoke_all_for_user revoke_targets create generate_tokens hash_token timing_equal_hex same_list
complete-Proven_example =
    (complete-Proven services formats (completion 72) no_meta fresh 100 waiting
        (complete services formats (completion 72) no_meta fresh 100 waiting).1
        (generate_tokens services 7 4 100 84) refl).1
      500

complete_wrong_code_example :
    (complete services formats (completion 79) no_meta fresh 100 waiting).0
    ≡ err (thrown "Too many incorrect codes. Start the reset again." 429)
unfolding otp_ok load_state find timing_equal_hex same_list
complete_wrong_code_example =
    (complete_wrong_code services formats (completion 79) no_meta fresh 100 waiting approved refl
      refl refl refl refl refl).2.0
