-- ===== src/PreKeys/Tests.antt =====
-- A concrete input for the theorem on pre-keys.
use najva_messenger.Base.{
  ◌+◌, ◌≢◌, refl, ℕ, List, ◌∷◌, [], false, none, select, update, exists, arith,
}
use najva_messenger.Base.Order.{order_asc}
use najva_messenger.Store.{World, PreKey, empty_world}
use najva_messenger.Conversation.Tests.{user}
use najva_messenger.PreKeys.{get_pre_key, upload_bundle}
use najva_messenger.PreKeys.OneTime.{Call, run_calls, get_pre_key_once}

abbrev key : ℕ → PreKey
key n = record { id = n; user_id = 7; key_id = n; public_key = 50 + n; used = false }

abbrev stock : World
stock = record empty_world { users = user 7 ∷ []; pre_keys = key 2 ∷ key 1 ∷ [] }

-- User 7 uploads the key 3, and the keys 2 and then 3 are handed out.
abbrev later : List Call
later =
    Call.upload 7 (record {
      identity_key = none;
      signed_pre_key = none;
      signed_pre_key_signature = none;
      signed_pre_key_id = none;
      pre_keys = record { id = 3; key_id = 3; public_key = 53 } ∷ [];
    })
    ∷ Call.fetch 7
    ∷ []

get_pre_key_once_example : (key 3).id ≢ (key 1).id
unfolding get_pre_key select order_asc update upload_bundle run_calls exists
get_pre_key_once_example =
    (get_pre_key_once 7 stock (get_pre_key 7 stock).1 (key 1) later 7 (key 3) refl
      ((λ e. absurd (omega (arith, e)), tt), (tt, tt)) refl).2
