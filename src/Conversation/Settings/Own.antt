-- ===== src/Conversation/Settings/Own.antt =====
-- A member's own settings change that member's row, and nothing else.
use najva_messenger.Base.{
  ℕ, ◌≡◌, ◌≢◌, refl, inl, inr, Bool, true, false, Option, none, some, Action, Result, ok, err,
  thrown, map_option, ◌==◌, if◌then◌else◌, is_none, pure, ◌>>=◌, end-cases, List,
}
use najva_messenger.Store.{Text, World, ConversationMember}
use najva_messenger.Conversation.Rows.{find_member, update_member, is_present}
use najva_messenger.Conversation.Rows.Laws.{
  require_member-cases, find-update_member, find-update_elsewhere,
}
use najva_messenger.Conversation.Settings.{
  set_own, muted, blocked, hidden, cleared, mute_conversation, unmute_conversation,
  block_conversation, unblock_conversation, delete_conversation, clear_history,
}

-- The calls that change the caller's own row.
pub data Setting : Type 0 where
  mute unmute block unblock : Setting
  hide : (delete_history : Bool) (now : ℕ) → Setting
  clear : (now : ℕ) → Setting

abbrev pub run_setting : Setting → Text → Text → Action World (Unit {0})
run_setting Setting.mute c u = mute_conversation c u
run_setting Setting.unmute c u = unmute_conversation c u
run_setting Setting.block c u = block_conversation c u
run_setting Setting.unblock c u = unblock_conversation c u
run_setting (Setting.hide delete_history now) c u =
    delete_conversation c u delete_history false now >>= λ _. pure tt
run_setting (Setting.clear now) c u = clear_history c u false now >>= λ _. pure tt

-- What each call does to the row.
abbrev pub effect : Setting → ConversationMember → ConversationMember
effect Setting.mute m = record m { is_muted = true }
effect Setting.unmute m = record m { is_muted = false }
effect Setting.block m = record m { is_blocked = true }
effect Setting.unblock m = record m { is_blocked = false }
effect (Setting.hide true now) m = record m { is_hidden = true; cleared_at = some now }
effect (Setting.hide false now) m = record m { is_hidden = true }
effect (Setting.clear now) m = record m { cleared_at = some now }

abbrev pub Changes :
    Text
    → Text
    → (ConversationMember → ConversationMember)
    → World
    → Result (Unit {0}) × World
    → Type 0
Changes conversation user f w (r, w') =
    if is_present (find_member conversation user w)
    then (r ≡ ok tt)
      × ((other : Text)
          → find_member conversation other w' ≡ (
              if user == other
              then map_option f (find_member conversation other w)
              else find_member conversation other w))
      × ((elsewhere other : Text)
          → elsewhere ≢ conversation
          → find_member elsewhere other w' ≡ find_member elsewhere other w)
    else (r ≡ err (thrown "Not a member" 403)) × (w' ≡ w)

Keeps : (ConversationMember → ConversationMember) → Type 0
Keeps f =
    (m : ConversationMember)
    → ((f m).conversation_id ≡ m.conversation_id) × ((f m).user_id ≡ m.user_id)

present-found : (o : Option ConversationMember) → is_present o ≡ true → is_none o ≡ false
present-found none h = cc
present-found (some m) h = refl

set_own-Changes :
    (conversation user : Text) (f : ConversationMember → ConversationMember) (w : World)
    → Keeps f
    → Changes conversation user f w (set_own f conversation user w)
unfolding set_own Keeps update_member
set_own-Changes conversation user f w keep = elim (require_member-cases conversation user w) [
  | inr (out, refused) ↦ rw (out, refused) (refl, refl)
  | inl (inside, passed) ↦
      let found = present-found (find_member conversation user w) inside in
      rw (inside, passed, found)
        (
          refl,
          λ other. find-update_member conversation user other f w.members keep,
          λ elsewhere other ne.
              find-update_elsewhere conversation elsewhere user other f w.members keep ne,
        )
]

forget_value :
    {A : Type 0} (m : Action World (Unit {0})) (a : A) (w : World)
    → ((m >>= λ _. pure a) >>= λ _. pure tt) w ≡ m w
forget_value m a w = elim (end-cases (m w)) [ inl (e, s, bad) ↦ rw bad | inr (s, good) ↦ rw good ]

-- Muting, unmuting, blocking, unblocking, hiding (with or without the history) and clearing: a
-- caller with no row in the conversation, or a removed one, gets "Not a member" and nothing
-- changes; else the caller's row gets exactly the flags of the call, no other member's row of the
-- conversation changes, nor any row of another conversation.
pub run_setting_exact :
    (s : Setting) (conversation user : Text) (w : World)
    → Changes conversation user (effect s) w (run_setting s conversation user w)
unfolding mute_conversation unmute_conversation block_conversation unblock_conversation
    delete_conversation clear_history Keeps
run_setting_exact Setting.mute c u w = set_own-Changes c u (muted true) w (λ m. (refl, refl))
run_setting_exact Setting.unmute c u w = set_own-Changes c u (muted false) w (λ m. (refl, refl))
run_setting_exact Setting.block c u w = set_own-Changes c u (blocked true) w (λ m. (refl, refl))
run_setting_exact Setting.unblock c u w = set_own-Changes c u (blocked false) w (λ m. (refl, refl))
run_setting_exact (Setting.hide true now) c u w =
    rw (forget_value {A = Option (List Text)} (set_own (hidden true now) c u) none w)
      (set_own-Changes c u (hidden true now) w (λ m. (refl, refl)))
run_setting_exact (Setting.hide false now) c u w =
    rw (forget_value {A = Option (List Text)} (set_own (hidden false now) c u) none w)
      (set_own-Changes c u (hidden false now) w (λ m. (refl, refl)))
run_setting_exact (Setting.clear now) c u w =
    rw (forget_value {A = Option (List Text)} (set_own (cleared now) c u) none w)
      (set_own-Changes c u (cleared now) w (λ m. (refl, refl)))
