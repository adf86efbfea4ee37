-- ===== src/Conversation/Rows/Laws.antt =====
-- Laws of the rows of a conversation.
use najva_messenger.Base.{
  ℕ, ◌+◌, ◌≡◌, ◌≢◌, refl, ◌⊎◌, inl, inr, Bool, true, false, ◌&&◌, ◌||◌, some, List, [], ◌∷◌, arith,
  ok, err, foreign_key_violation, find, exists, update, map_option, ltb, ◌==◌, if◌then◌else◌,
  Bool-cases, thrown,
}
use najva_messenger.Store.{Text, World, Conversation, ConversationMember, ConversationKey}
use najva_messenger.Conversation.Rows.{
  is_member_row, is_key_row, has_id, find_member, require_users, is_user, add_keys, require_admin,
  require_member, is_admin, is_present, not_admin, gone,
}

-- The batch's references are good, or the call throws; it writes nothing.
pub require_users-cases :
    (ids : List Text) (w : World)
    → (require_users ids w ≡ (ok tt, w)) ⊎ (require_users ids w ≡ (err foreign_key_violation, w))
unfolding require_users
require_users-cases [] w = inl refl
require_users-cases (id ∷ ids) w = elim (Bool-cases (is_user w id)) [
  | inl known ↦ rw known (require_users-cases ids w)
  | inr unknown ↦ rw unknown (inr refl)
]

pub exists-add_keys :
    (q : ConversationKey → Bool) (new ks : List ConversationKey) (all : List ConversationKey)
    → add_keys new ks ≡ some all
    → exists q all ≡ (exists q new || exists q ks)
unfolding add_keys exists
exists-add_keys q [] ks all e = ground arith
exists-add_keys q (k ∷ new) ks all e = ground (arith, exists-add_keys q new (k ∷ ks) all)

-- No key of the conversation has a version above the bound.
abbrev pub is_above : Text → ℕ → ConversationKey → Bool
is_above conversation version k = k.conversation_id == conversation && ltb version k.version

pub exists-above :
    (conversation user : Text) (version : ℕ) (ks : List ConversationKey)
    → exists (is_above conversation version) ks ≡ false
    → exists (is_key_row conversation user (version + 1)) ks ≡ false
unfolding exists
exists-above conversation user version [] h = refl
exists-above conversation user version (k ∷ ks) h =
    ground (arith, exists-above conversation user version ks)

pub exists-above_mono :
    (conversation : Text) (version : ℕ) (ks : List ConversationKey)
    → exists (is_above conversation version) ks ≡ false
    → exists (is_above conversation (version + 1)) ks ≡ false
unfolding exists
exists-above_mono conversation version [] h = refl
exists-above_mono conversation version (k ∷ ks) h =
    ground (arith, exists-above_mono conversation version ks)

-- An update of one member's row: that row changes, and no other.
pub find-update_member :
    (conversation user other : Text) (f : ConversationMember → ConversationMember)
    (ms : List ConversationMember)
    → ((m : ConversationMember)
        → ((f m).conversation_id ≡ m.conversation_id) × ((f m).user_id ≡ m.user_id))
    → find (is_member_row conversation other) (update (is_member_row conversation user) f ms) ≡ (
        if user == other
        then map_option f (find (is_member_row conversation other) ms)
        else find (is_member_row conversation other) ms)
unfolding find update
find-update_member conversation user other f [] keep = ground arith
find-update_member conversation user other f (m ∷ ms) keep =
    ground (arith, keep m, find-update_member conversation user other f ms keep)

pub find-update_conversation :
    (id : Text) (f : Conversation → Conversation) (cs : List Conversation)
    → ((c : Conversation) → (f c).id ≡ c.id)
    → find (has_id id) (update (has_id id) f cs) ≡ map_option f (find (has_id id) cs)
unfolding find update
find-update_conversation id f [] keep = refl
find-update_conversation id f (c ∷ cs) keep =
    ground (arith, keep c, find-update_conversation id f cs keep)

pub require_admin-cases :
    (conversation user : Text) (w : World)
    → ((is_admin (find_member conversation user w) ≡ true)
        × (require_admin conversation user w ≡ (ok tt, w)))
      ⊎ ((is_admin (find_member conversation user w) ≡ false)
          × (require_admin conversation user w ≡ (err (thrown "Not authorized" 403), w)))
unfolding require_admin
require_admin-cases conversation user w =
    elim (Bool-cases (not_admin (find_member conversation user w))) [
      | inl plain ↦ rw plain (inr (refl, refl))
      | inr admin ↦ rw admin (inl (refl, refl))
    ]

pub require_member-cases :
    (conversation user : Text) (w : World)
    → ((is_present (find_member conversation user w) ≡ true)
        × (require_member conversation user w ≡ (ok tt, w)))
      ⊎ ((is_present (find_member conversation user w) ≡ false)
          × (require_member conversation user w ≡ (err (thrown "Not a member" 403), w)))
unfolding require_member
require_member-cases conversation user w =
    elim (Bool-cases (gone (find_member conversation user w))) [
      | inl out ↦ rw out (inr (refl, refl))
      | inr here ↦ rw here (inl (refl, refl))
    ]

pub find-update_elsewhere :
    (conversation elsewhere user other : Text) (f : ConversationMember → ConversationMember)
    (ms : List ConversationMember)
    → ((m : ConversationMember)
        → ((f m).conversation_id ≡ m.conversation_id) × ((f m).user_id ≡ m.user_id))
    → elsewhere ≢ conversation
    → find (is_member_row elsewhere other) (update (is_member_row conversation user) f ms)
      ≡ find (is_member_row elsewhere other) ms
unfolding find update
find-update_elsewhere conversation elsewhere user other f [] keep ne = refl
find-update_elsewhere conversation elsewhere user other f (m ∷ ms) keep ne =
    ground (arith, keep m, find-update_elsewhere conversation elsewhere user other f ms keep ne)
