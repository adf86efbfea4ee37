-- ===== src/Conversation/Groups/Addition.antt =====
-- `addMembers` and what it does to members that were there before.
use mathlib.Core.Path.{subst}
use najva_messenger.Base.{
  ℕ, ◌≡◌, refl, sym, ◌∙◌, ap, inl, inr, Bool, true, false, Option, none, some, List, [], ◌∷◌, map,
  arith, ok, find, exists, includes, ◌==◌, if◌then◌else◌, Bool-cases, Option-cases, Result-cases,
  ok-inj, get_or_nil, ==_iff,
}
use najva_messenger.Store.{
  Text, World, Conversation, ConversationMember, ConversationKey, MemberRole,
}
use najva_messenger.Conversation.Rows.{
  is_member_row, is_key_row, find_member, find_conversation, add_members_skip, add_keys_skip,
  new_member, is_admin,
}
use najva_messenger.Conversation.Rows.Laws.{require_users-cases, require_admin-cases}
use najva_messenger.Conversation.ShareSet.{RawWrap, CkWrap, users_of}
use najva_messenger.Conversation.Groups.{
  key_row, read_wraps, no_members, insert_members, add_members,
}

abbrev pub or_new : Text → Text → Bool → Option ConversationMember → Option ConversationMember
or_new conversation id added (some m) = some m
or_new conversation id true none = some (new_member conversation id MemberRole.member)
or_new conversation id false none = none

exists-find :
    (conversation id : Text) (ms : List ConversationMember)
    → find (is_member_row conversation id) ms ≡ none
    → exists (is_member_row conversation id) ms ≡ false
unfolding find exists
exists-find conversation id [] e = refl
exists-find conversation id (m ∷ ms) e = ground (arith, exists-find conversation id ms)

find-exists :
    (conversation id : Text) (ms : List ConversationMember) (m : ConversationMember)
    → find (is_member_row conversation id) ms ≡ some m
    → exists (is_member_row conversation id) ms ≡ true
unfolding find exists
find-exists conversation id [] x e = cc
find-exists conversation id (m ∷ ms) x e = ground (arith, find-exists conversation id ms x)

or_new-false :
    (conversation user : Text) (o : Option ConversationMember)
    → or_new conversation user false o ≡ o
or_new-false conversation user none = refl
or_new-false conversation user (some m) = refl

find-add_self :
    (conversation user : Text) (ms : List ConversationMember)
    → find (is_member_row conversation user) (
        if exists (is_member_row conversation user) ms
        then ms
        else new_member conversation user MemberRole.member ∷ ms)
      ≡ or_new conversation user true (find (is_member_row conversation user) ms)
unfolding find
find-add_self conversation user ms =
    elim (Option-cases (find (is_member_row conversation user) ms)) [
      | inl absent ↦ rw (exists-find conversation user ms absent, absent) (ground arith)
      | inr (m, there) ↦ rw (find-exists conversation user ms m there, there)
    ]

-- One insertion that skips a row that is there.
find-add_member :
    (conversation id user : Text) (ms : List ConversationMember)
    → find (is_member_row conversation user) (
        if exists (is_member_row conversation id) ms
        then ms
        else new_member conversation id MemberRole.member ∷ ms)
      ≡ or_new conversation user (id == user) (find (is_member_row conversation user) ms)
unfolding find
find-add_member conversation id user ms = elim (Bool-cases (id == user)) [
  | inl same ↦
      let p : id ≡ user = (==_iff id user).0 same in
      rw (same, p) (find-add_self conversation user ms)
  | inr other ↦ rw other (elim (Bool-cases (exists (is_member_row conversation id) ms)) [
    | inl old ↦ rw old (sym (or_new-false conversation user _))
    | inr new ↦ rw (new, or_new-false conversation user) (ground (arith, other))
  ])
]

find-add_members_skip :
    (conversation user : Text) (ids : List Text) (ms : List ConversationMember)
    → find (is_member_row conversation user) (add_members_skip conversation ids ms)
      ≡ or_new conversation user (includes user ids) (find (is_member_row conversation user) ms)
unfolding add_members_skip includes
find-add_members_skip conversation user [] ms = ground arith
find-add_members_skip conversation user (id ∷ ids) ms =
    rw (find-add_members_skip conversation user ids, find-add_member conversation id user ms)
      (ground arith)

exists-add_keys_skip :
    (q : ConversationKey → Bool) (new ks : List ConversationKey)
    → exists q ks ≡ true
    → exists q (add_keys_skip new ks) ≡ true
unfolding add_keys_skip exists
exists-add_keys_skip q [] ks h = h
exists-add_keys_skip q (k ∷ new) ks h = exists-add_keys_skip q new _ (ground arith)

has_key-head :
    (conversation by : Text) (version : ℕ) (v : CkWrap) (ks : List ConversationKey)
    → exists (is_key_row conversation v.user_id version) (
        if exists (is_key_row conversation v.user_id version) ks
        then ks
        else key_row conversation version by v ∷ ks)
      ≡ true
unfolding exists
has_key-head conversation by version v ks =
    elim (Bool-cases (exists (is_key_row conversation v.user_id version) ks)) [
      | inl old ↦ rw old old
      | inr new ↦ rw new (ground arith)
    ]

-- Every wrap that is handed in has a row afterwards, for its user and at the version.
has_key-add_keys_skip :
    (conversation by user : Text) (version : ℕ) (ws : List CkWrap) (ks : List ConversationKey)
    → includes user (users_of ws) ≡ true
    → exists
        (is_key_row conversation user version)
        (add_keys_skip (map (key_row conversation version by) ws) ks)
      ≡ true
unfolding add_keys_skip exists includes
has_key-add_keys_skip conversation by user version [] ks h = cc
has_key-add_keys_skip conversation by user version (v ∷ vs) ks h =
    elim (Bool-cases (v.user_id == user)) [
      | inl same ↦
          exists-add_keys_skip (is_key_row conversation user version)
            (map (key_row conversation version by) vs) _
            (subst
              (λ i.
                exists (is_key_row conversation i version) (
                  if exists (is_key_row conversation v.user_id version) ks
                  then ks
                  else key_row conversation version by v ∷ ks)
                ≡ true)
              ((==_iff v.user_id user).0 same) (has_key-head conversation by version v ks))
      | inr other ↦ has_key-add_keys_skip conversation by user version vs _ (rw other at h)
    ]

some_value : {c d : Conversation} → some c ≡ some d → c ≡ d
some_value e = cc e

add_members-ok :
    (conversation by : Text) (raws : Option (List RawWrap)) (w w' : World) (added : List Text)
    → add_members conversation by raws w ≡ (ok added, w')
    → (conv : Conversation) × (ws : List CkWrap) × (is_admin (find_member conversation by w) ≡ true)
      × (find_conversation conversation w ≡ some conv)
      × (users_of ws ≡ added)
      × (w'.members ≡ add_members_skip conversation (users_of ws) w.members)
      × (w'.keys ≡ add_keys_skip (map (key_row conversation conv.current_key_version by) ws) w.keys)
unfolding add_members insert_members
add_members-ok conversation by raws w w' added e = elim (require_admin-cases conversation by w) [
  | inr (plain, refused) ↦ absurd (cc (rw refused at e))
  | inl (admin, passed) ↦ elim (Bool-cases (no_members raws)) [
    | inl nobody ↦ absurd (cc (rw (passed, nobody) at e))
    | inr some_there ↦ elim (Result-cases (read_wraps (get_or_nil raws))) [
      | inl (x, bad) ↦ absurd (cc (rw (passed, some_there, bad) at e))
      | inr (ws, good) ↦ elim (Option-cases (find_conversation conversation w)) [
        | inl missing ↦ absurd (cc (rw (passed, some_there, good, missing) at e))
        | inr (conv, there) ↦ elim (require_users-cases (users_of ws) w) [
          | inr unknown ↦ absurd (cc (rw (passed, some_there, good, there, unknown) at e))
          | inl known ↦
              let done = ok-inj (rw (passed, some_there, good, there, known) at e) in
              (
                conv,
                ws,
                admin,
                there,
                done.0,
                ap (λ (v : World). v.members) (sym done.1),
                ap (λ (v : World). v.keys) (sym done.1),
              )
        ]
      ]
    ]
  ]
]

-- What `addMembers` ensures where it returns: an admin asked for it; a user who had a row in the
-- conversation keeps it as it was, also one who had been removed and stays so; of the others, the
-- added ones have a new row of a plain member that is not removed, and nobody else has; and every
-- added user has a wrapped key at the current version.
pub add_members_exact :
    (conversation by : Text) (raws : Option (List RawWrap)) (w w' : World) (added : List Text)
    (conv : Conversation)
    → find_conversation conversation w ≡ some conv
    → add_members conversation by raws w ≡ (ok added, w')
    → (is_admin (find_member conversation by w) ≡ true)
      × ((user : Text)
          → find_member conversation user w'
            ≡ or_new conversation user (includes user added) (find_member conversation user w))
      × ((user : Text)
          → includes user added ≡ true
          → exists (is_key_row conversation user conv.current_key_version) w'.keys ≡ true)
add_members_exact conversation by raws w w' added conv there e =
    let run = add_members-ok conversation by raws w w' added e in
    let same : run.0 ≡ conv = some_value (sym run.3 ∙ there) in
    (
      run.2,
      λ user. rw (run.5, find-add_members_skip conversation user (users_of run.1) w.members, run.4),
      λ user h. rw run.6 (
          subst
            (λ (c : Conversation).
              exists (is_key_row conversation user c.current_key_version) (
                add_keys_skip (map (key_row conversation run.0.current_key_version by) run.1)
                  w.keys)
              ≡ true)
            same
            (has_key-add_keys_skip conversation by user run.0.current_key_version run.1 w.keys
              (rw run.4 h))),
    )
