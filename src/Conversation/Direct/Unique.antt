-- ===== src/Conversation/Direct/Unique.antt =====
-- Two users share one direct chat, also after further calls of getOrCreateDM.
use mathlib.Core.Path.{subst}
use najva_messenger.Base.{
  ℕ, ◌≡◌, ◌≢◌, ◌⊎◌, refl, ap, ◌∙◌, inl, inr, Bool, true, false, Result, Option, none, some, List,
  [], ◌∷◌, ◌++◌, map, arith, ok, find, exists, dedup, ◌==◌, is_none, Bool-cases, Option-cases,
  Result-cases, end-cases,
}
use najva_messenger.Store.{Text, World, Conversation, ConversationMember, MemberRole}
use najva_messenger.Conversation.Rows.{
  has_id, is_member_row, find_member, new_member, update_member,
}
use najva_messenger.Conversation.ShareSet.{RawWrap, assert_share_set}
use najva_messenger.Conversation.Groups.{insert_group, key_row}
use najva_messenger.Conversation.Direct.{
  is_dm_of, find_dm, new_direct, insert_direct, is_hidden_member, dm_of, get_or_create_dm,
}
use najva_messenger.Conversation.Direct.Found.{
  insert_group-ok, insert_group-err, find_dm_comm, find_dm-unhide, dm_of-found, again, hidden-found,
}

-- A call of `getOrCreateDM`.
pub record DmCall : Type 0 where
  pub user : Text
  pub target : Text
  pub raws : Option (List RawWrap)
  pub now : ℕ
  pub id : Text

abbrev pub run_one : DmCall → World → World
run_one d w = (get_or_create_dm d.user d.target d.raws d.now d.id w).1

abbrev pub run_calls : List DmCall → World → World
run_calls [] w = w
run_calls (d ∷ ds) w = run_calls ds (run_one d w)

-- The identifier that a call draws for a new chat is not there yet.
abbrev pub IsFresh : Text → World → Type 0
IsFresh id w =
    (exists (has_id id) w.conversations ≡ false)
    × (exists (λ m. m.conversation_id == id) w.members ≡ false)

abbrev pub AreFresh : List DmCall → World → Type 0
AreFresh [] w = Unit {0}
AreFresh (d ∷ ds) w = IsFresh d.id w × AreFresh ds (run_one d w)

no-rows :
    (id user : Text) (ms : List ConversationMember)
    → exists (λ m. m.conversation_id == id) ms ≡ false
    → exists (is_member_row id user) ms ≡ false
unfolding exists
no-rows id user [] h = refl
no-rows id user (m ∷ ms) h = ground (arith, no-rows id user ms)

abbrev two_members : Text → Text → Text → List ConversationMember
two_members id user target =
    new_member id user MemberRole.admin ∷ new_member id target MemberRole.admin ∷ []

-- The new rows are of no other chat.
is_dm_of-other :
    (id u t user target : Text) (ms : List ConversationMember) (c : Conversation)
    → has_id id c ≡ false
    → is_dm_of (two_members id u t ++ ms) user target c ≡ is_dm_of ms user target c
unfolding exists
is_dm_of-other id u t user target ms c h = ground arith

find-others :
    (id u t user target : Text) (ms : List ConversationMember) (cs : List Conversation)
    → exists (has_id id) cs ≡ false
    → find (is_dm_of (two_members id u t ++ ms) user target) cs ≡ find (is_dm_of ms user target) cs
unfolding exists find
find-others id u t user target ms [] h = refl
find-others id u t user target ms (c ∷ cs) h =
    ground (arith, is_dm_of-other id u t user target ms c, find-others id u t user target ms cs)

-- A new chat of two users is one of `user` and `target` only where these are the two.
new-pair :
    (now : ℕ) (id u t user target : Text) (ms : List ConversationMember)
    → exists (λ m. m.conversation_id == id) ms ≡ false
    → user ≢ target
    → is_dm_of (two_members id u t ++ ms) user target (new_direct u now id) ≡ true
    → ((u ≡ user) × (t ≡ target)) ⊎ ((u ≡ target) × (t ≡ user))
unfolding exists
new-pair now id u t user target ms fresh ne h =
    ground (arith, no-rows id user ms fresh, no-rows id target ms fresh)

new_chat-keeps :
    (user target u t : Text) (now : ℕ) (id : Text) (w s : World) (c : Conversation)
    → user ≢ target
    → IsFresh id w
    → find_dm user target w ≡ some c
    → find_dm u t w ≡ none
    → s.conversations ≡ new_direct u now id ∷ w.conversations
    → s.members ≡ two_members id u t ++ w.members
    → find_dm user target s ≡ some c
unfolding find_dm find
new_chat-keeps user target u t now id w s c ne fresh there absent rows members =
    ap (λ ms. find (is_dm_of ms user target) s.conversations) members
    ∙ ap (λ cs. find (is_dm_of (two_members id u t ++ w.members) user target) cs) rows
    ∙ elim (Bool-cases
        (is_dm_of (two_members id u t ++ w.members) user target (new_direct u now id))) [
          | inr other ↦
              rw other (find-others id u t user target w.members w.conversations fresh.0 ∙ there)
          | inl same ↦ elim (new-pair now id u t user target w.members fresh.1 ne same) [
            | inl p ↦ absurd (cc (there, rw (p.0, p.1) at absent))
            | inr p ↦ absurd (cc (find_dm_comm user target w, there, rw (p.0, p.1) at absent))
          ]
        ]

-- A call of whichever two users leaves the chat of two others to be found.
one-keeps :
    (d : DmCall) (user target : Text) (w s : World) (r : Result (Conversation × Bool))
    (c : Conversation)
    → user ≢ target
    → IsFresh d.id w
    → find_dm user target w ≡ some c
    → get_or_create_dm d.user d.target d.raws d.now d.id w ≡ (r, s)
    → find_dm user target s ≡ some c
unfolding get_or_create_dm dm_of insert_direct update_member
one-keeps d user target w s r c ne fresh there e = elim (Option-cases (find_dm d.user d.target w)) [
  | inl absent ↦ elim (Result-cases (assert_share_set d.raws (dedup (d.user ∷ d.target ∷ [])))) [
    | inl (x, bad) ↦ after w (ap (λ p. p.1) (rw (absent, bad) at e)) there
    | inr (wraps, good) ↦ elim (Bool-cases (d.user == d.target)) [
      | inl same ↦ after w (ap (λ p. p.1) (rw (absent, good, same) at e)) there
      | inr apart ↦
          elim (end-cases (
            insert_group (new_direct d.user d.now d.id) (two_members d.id d.user d.target)
              (map (key_row d.id 1 d.user) wraps) w)) [
                | inl (x, v, bad) ↦
                    after v (ap (λ p. p.1) (rw (absent, good, apart, bad) at e))
                      (rw (insert_group-err _ _ _ w v x bad) there)
                | inr (v, done) ↦
                    let rows = insert_group-ok _ _ _ w v done in
                    after v (ap (λ p. p.1) (rw (absent, good, apart, done) at e)) (
                      new_chat-keeps user target d.user d.target d.now d.id w v c ne fresh there
                        absent rows.0 rows.1)
              ]
    ]
  ]
  | inr (old, known) ↦ elim (Bool-cases (is_hidden_member (find_member old.id d.user w))) [
    | inr shown ↦ after w (ap (λ p. p.1) (rw (known, shown) at e)) there
    | inl away ↦
        let here : is_none (find_member old.id d.user w) ≡ false =
          hidden-found (find_member old.id d.user w) away in
        after _ (ap (λ p. p.1) (rw (known, away, here) at e))
          (find_dm-unhide user target old.id d.user w ∙ there)
  ]
]
  where
    after : (v : World) → v ≡ s → find_dm user target v ≡ some c → find_dm user target s ≡ some c
    after v same found = subst (λ x. find_dm user target x ≡ some c) same found

run_calls-keeps :
    (ds : List DmCall) (user target : Text) (w : World) (c : Conversation)
    → user ≢ target
    → AreFresh ds w
    → find_dm user target w ≡ some c
    → find_dm user target (run_calls ds w) ≡ some c
run_calls-keeps [] user target w c ne fresh there = there
run_calls-keeps (d ∷ ds) user target w c ne fresh there =
    run_calls-keeps ds user target (run_one d w) c ne fresh.1
      (one-keeps d user target w (run_one d w) _ c ne fresh.0 there refl)

-- After a call of `getOrCreateDM` for two different users that returns a chat, and after any further
-- calls of it for whichever users, each of which draws an identifier for a new chat that is not in
-- use, a call by either of the two users returns that chat as an existing one, whatever wraps it
-- sends.
pub get_or_create_dm_once :
    (user target : Text) (raws : Option (List RawWrap)) (now : ℕ) (id : Text) (w w' : World)
    (c : Conversation) (created : Bool)
    → user ≢ target
    → get_or_create_dm user target raws now id w ≡ (ok (c, created), w')
    → (ds : List DmCall) → AreFresh ds w'
    → (raws' : Option (List RawWrap)) (now' : ℕ) (id' : Text)
    → ((get_or_create_dm user target raws' now' id' (run_calls ds w')).0 ≡ ok (c, false))
      × ((get_or_create_dm target user raws' now' id' (run_calls ds w')).0 ≡ ok (c, false))
get_or_create_dm_once user target raws now id w w' c created ne e ds fresh raws' now' id' =
    let last : World = run_calls ds w' in
    let found =
      run_calls-keeps ds user target w' c ne fresh
        (dm_of-found user target raws now id w w' c created e) in
    (
      again user target raws' now' id' last c found,
      again target user raws' now' id' last c (find_dm_comm target user last ∙ found),
    )
