-- ===== src/Conversation/Direct/Found.antt =====
-- Which direct chat of two users is found, and what a call does to that.
use mathlib.Core.Path.{subst, fun_ext}
use najva_messenger.Base.{
  Error, err, ℕ, ◌≡◌, refl, sym, ap, ◌∙◌, inl, inr, Bool, true, false, Option, none, some, List, [],
  ◌∷◌, ◌++◌, map, arith, ok, find, exists, update, dedup, ◌==◌, is_none, Bool-cases, Option-cases,
  Result-cases, end-cases, ok-inj, ==_refl,
}
use najva_messenger.Store.{
  Text, World, Conversation, ConversationMember, ConversationKey, MemberRole,
}
use najva_messenger.Conversation.Rows.{
  is_member_row, find_member, new_member, create_keys, add_keys, update_member,
}
use najva_messenger.Conversation.Rows.Laws.{require_users-cases}
use najva_messenger.Conversation.ShareSet.{RawWrap, assert_share_set}
use najva_messenger.Conversation.Groups.{insert_group, key_row}
use najva_messenger.Conversation.Direct.{
  is_dm_of, find_dm, new_direct, insert_direct, is_hidden_member, unhide, dm_of, get_or_create_dm,
}

pub insert_group-ok :
    (conv : Conversation) (ms : List ConversationMember) (ks : List ConversationKey) (w w' : World)
    → insert_group conv ms ks w ≡ (ok tt, w')
    → (w'.conversations ≡ conv ∷ w.conversations) × (w'.members ≡ ms ++ w.members)
unfolding insert_group create_keys
insert_group-ok conv ms ks w w' e = elim (require_users-cases (map (λ m. m.user_id) ms) w) [
  | inr unknown ↦ absurd (cc (rw unknown at e))
  | inl known ↦ elim (Option-cases (add_keys ks w.keys)) [
    | inl clash ↦ absurd (cc (rw (known, clash) at e))
    | inr (all, added) ↦
        let done = ok-inj (rw (known, added) at e) in
        (
          ap (λ (v : World). v.conversations) (sym done.1),
          ap (λ (v : World). v.members) (sym done.1),
        )
  ]
]

pub insert_group-err :
    (conv : Conversation) (ms : List ConversationMember) (ks : List ConversationKey) (w s : World)
    (x : Error)
    → insert_group conv ms ks w ≡ (err x, s)
    → s ≡ w
unfolding insert_group create_keys
insert_group-err conv ms ks w s x e = elim (require_users-cases (map (λ m. m.user_id) ms) w) [
  | inr unknown ↦ cc (rw unknown at e)
  | inl known ↦ elim (Option-cases (add_keys ks w.keys)) [
    | inl clash ↦ cc (rw (known, clash) at e)
    | inr (all, added) ↦ absurd (cc (rw (known, added) at e))
  ]
]

exists-unhide :
    (a b c d : Text) (ms : List ConversationMember)
    → exists (is_member_row a b) (update (is_member_row c d) unhide ms)
      ≡ exists (is_member_row a b) ms
unfolding exists update
exists-unhide a b c d [] = refl
exists-unhide a b c d (m ∷ ms) = ground (arith, exists-unhide a b c d ms)

is_dm_of-unhide :
    (user target c d : Text) (ms : List ConversationMember) (conv : Conversation)
    → is_dm_of (update (is_member_row c d) unhide ms) user target conv
      ≡ is_dm_of ms user target conv
is_dm_of-unhide user target c d ms conv =
    rw (exists-unhide conv.id user c d ms, exists-unhide conv.id target c d ms)

is_dm_of_comm :
    (ms : List ConversationMember) (user target : Text) (conv : Conversation)
    → is_dm_of ms user target conv ≡ is_dm_of ms target user conv
is_dm_of_comm ms user target conv = ground arith

pub find_dm_comm : (user target : Text) (w : World) → find_dm user target w ≡ find_dm target user w
unfolding find_dm
find_dm_comm user target w =
    ap (λ p. find p w.conversations) (fun_ext (is_dm_of_comm w.members user target))

new_direct-found :
    (user target : Text) (now : ℕ) (id : Text) (w w' : World)
    → w'.conversations ≡ new_direct user now id ∷ w.conversations
    → w'.members
      ≡ (new_member id user MemberRole.admin ∷ new_member id target MemberRole.admin ∷ [])
        ++ w.members
    → find_dm user target w' ≡ some (new_direct user now id)
unfolding find_dm find exists
new_direct-found user target now id w w' e f =
    rw (e, f) (ground (arith, ==_refl id, ==_refl user, ==_refl target))

pub find_dm-unhide :
    (user target c d : Text) (w : World)
    → find_dm user target (record w { members = update (is_member_row c d) unhide w.members })
      ≡ find_dm user target w
unfolding find_dm
find_dm-unhide user target c d w =
    ap (λ p. find p w.conversations) (fun_ext (is_dm_of-unhide user target c d w.members))

abbrev first_of_pair : Conversation × Bool → Option Conversation
first_of_pair (c, _) = some c

-- The chat that `dm_of` returns is the one that is found then.
pub dm_of-found :
    (user target : Text) (raws : Option (List RawWrap)) (now : ℕ) (id : Text) (w w' : World)
    (c : Conversation) (created : Bool)
    → get_or_create_dm user target raws now id w ≡ (ok (c, created), w')
    → find_dm user target w' ≡ some c
unfolding get_or_create_dm dm_of insert_direct update_member
dm_of-found user target raws now id w w' c created e = elim (Option-cases (find_dm user target w)) [
  | inl absent ↦ elim (Result-cases (assert_share_set raws (dedup (user ∷ target ∷ [])))) [
    | inl (x, bad) ↦ absurd (cc (rw (absent, bad) at e))
    | inr (wraps, good) ↦ elim (Bool-cases (user == target)) [
      | inl same ↦ absurd (cc (rw (absent, good, same) at e))
      | inr apart ↦
          elim (end-cases (
            insert_group (new_direct user now id)
              (new_member id user MemberRole.admin ∷ new_member id target MemberRole.admin ∷ [])
              (map (key_row id 1 user) wraps) w)) [
                | inl (x, s, bad) ↦ absurd (cc (rw (absent, good, apart, bad) at e))
                | inr (s, done) ↦
                    let out = ok-inj (rw (absent, good, apart, done) at e) in
                    let rows = insert_group-ok _ _ _ w s done in
                    subst (λ v. find_dm user target v ≡ some c) out.1
                      (new_direct-found user target now id w s rows.0 rows.1
                        ∙ ap first_of_pair out.0)
              ]
    ]
  ]
  | inr (old, there) ↦ elim (Bool-cases (is_hidden_member (find_member old.id user w))) [
    | inr shown ↦
        let out = ok-inj (rw (there, shown) at e) in
        subst (λ v. find_dm user target v ≡ some c) out.1 (there ∙ ap first_of_pair out.0)
    | inl away ↦ elim (Bool-cases (is_none (find_member old.id user w))) [
      | inl missing ↦ absurd (cc (rw (there, away, update_member, missing) at e))
      | inr here ↦
          let out = ok-inj (rw (there, away, update_member, here) at e) in
          subst (λ v. find_dm user target v ≡ some c) out.1
            (find_dm-unhide user target old.id user w ∙ there ∙ ap first_of_pair out.0)
    ]
  ]
]

pub hidden-found : (o : Option ConversationMember) → is_hidden_member o ≡ true → is_none o ≡ false
hidden-found none h = cc
hidden-found (some m) h = refl

pub again :
    (user target : Text) (raws : Option (List RawWrap)) (now : ℕ) (id : Text) (w : World)
    (c : Conversation)
    → find_dm user target w ≡ some c
    → (get_or_create_dm user target raws now id w).0 ≡ ok (c, false)
unfolding get_or_create_dm dm_of update_member
again user target raws now id w c there =
    elim (Bool-cases (is_hidden_member (find_member c.id user w))) [
      | inr shown ↦ rw (there, shown)
      | inl away ↦
          let here : is_none (find_member c.id user w) ≡ false =
            hidden-found (find_member c.id user w) away in
          rw (there, away, here)
    ]
