-- ===== src/Messages/Page.antt =====
-- The pages of messages that getMessages reads: what they hold and in which order.
use mathlib.Core.Path.{subst}
use najva_messenger.Base.{
  ◌⊎◌, Among, ◌<◌, ap, false, ◌&&◌, is_none, ==_refl, leb, length, ◌≤◌, arith, ◌≡◌, refl, inl, inr,
  Bool, true, Option, none, some, List, [], ◌∷◌, ℕ, zero, suc, select, take, drop, All, Bool-cases,
  ◌==◌, if◌then◌else◌,
}
use najva_messenger.Base.Tables.Laws.{All-map}
use najva_messenger.Base.Order.{
  order_desc, insert_desc, Below, IsDescending, order_desc-IsDescending,
}
use najva_messenger.Store.{Text, World, ConversationMember, Message, falsy}
use najva_messenger.Conversation.Rows.{is_present}
use najva_messenger.Conversation.Rows.Laws.{}
use najva_messenger.Messages.{cursor_of, is_visible, page, is_after}

module _ {A : Type 0} (P : A → Type 0) where
  All-take : (n : ℕ) (xs : List A) → All P xs → All P (take n xs)
  All-take zero xs h = tt
  All-take (suc n) [] h = tt
  All-take (suc n) (x ∷ xs) h = (h.0, All-take n xs h.1)

  All-drop : (n : ℕ) (xs : List A) → All P xs → All P (drop n xs)
  All-drop zero xs h = h
  All-drop (suc n) [] h = tt
  All-drop (suc n) (x ∷ xs) h = All-drop n xs h.1

  All-insert_desc :
      (key : A → ℕ) (x : A) (xs : List A) → P x → All P xs → All P (insert_desc key x xs)
  unfolding insert_desc
  All-insert_desc key x [] p h = (p, tt)
  All-insert_desc key x (y ∷ ys) p h = elim (Bool-cases (leb (key y) (key x))) [
    | inl before ↦ rw before (p, h)
    | inr after ↦ rw after (h.0, All-insert_desc key x ys p h.1)
  ]

  pub All-order_desc : (key : A → ℕ) (xs : List A) → All P xs → All P (order_desc key xs)
  unfolding order_desc
  All-order_desc key [] h = tt
  All-order_desc key (x ∷ xs) h =
      All-insert_desc key x (order_desc key xs) h.0 (All-order_desc key xs h.1)

All-select : {A : Type 0} (p : A → Bool) (xs : List A) → All (λ x. p x ≡ true) (select p xs)
unfolding select
All-select p [] = tt
All-select p (x ∷ xs) = elim (Bool-cases (p x)) [
  | inl hit ↦ rw hit (hit, All-select p xs)
  | inr miss ↦ rw miss (All-select p xs)
]

-- A time is after the clearing of the history, if there was one.
abbrev pub IsAfter : Option ℕ → ℕ → Type 0
IsAfter none t = Unit {0}
IsAfter (some cleared) t = cleared < t

-- A message that the member may read.
abbrev pub Shown : Text → ConversationMember → Message → Type 0
Shown conversation member m =
    (m.conversation_id ≡ conversation)
    × (m.deleted_at ≡ none)
    × IsAfter member.cleared_at m.created_at

visible_means :
    (conversation : Text) (cleared deleted : Option ℕ) (t id : ℕ)
    → (id == conversation && is_none deleted && is_after cleared t) ≡ true
    → (id ≡ conversation) × (deleted ≡ none) × IsAfter cleared t
visible_means conversation none none t id h = (ground arith, refl, tt)
visible_means conversation (some c) none t id h = (ground arith, refl, ground arith)
visible_means conversation none (some d) t id h = absurd (ground arith)
visible_means conversation (some c) (some d) t id h = absurd (ground arith)

pub visible-Shown :
    (conversation : Text) (member : ConversationMember) (ms : List Message)
    → All (Shown conversation member) (select (is_visible conversation member.cleared_at) ms)
visible-Shown conversation member ms =
    All-map _ _ _
      (λ m h.
        visible_means conversation member.cleared_at m.deleted_at m.created_at m.conversation_id h)
      (All-select (is_visible conversation member.cleared_at) ms)

pub present-row :
    (o : Option ConversationMember)
    → is_present o ≡ true
    → (m : ConversationMember) × (o ≡ some m) × (m.is_removed ≡ false)
present-row none h = absurd (cc h)
present-row (some m) h = (m, refl, ground arith)

length-take : {A : Type 0} (n : ℕ) (xs : List A) → length (take n xs) ≤ n
length-take zero xs = omega arith
length-take (suc n) [] = omega arith
length-take (suc n) (x ∷ xs) = omega (arith, length-take n xs)

module _ {A : Type 0} (key : A → ℕ) where
  Among-insert_desc : (x y : A) (ys : List A) → Among x (y ∷ ys) → Among x (insert_desc key y ys)
  unfolding insert_desc
  Among-insert_desc x y [] m = m
  Among-insert_desc x y (z ∷ zs) m = elim (Bool-cases (leb (key z) (key y))) [
    | inl before ↦ rw before m
    | inr after ↦ rw after (behind m (Among-insert_desc x y zs))
  ]
    where
      behind :
          Among x (y ∷ z ∷ zs)
          → (Among x (y ∷ zs) → Among x (insert_desc key y zs))
          → Among x (z ∷ insert_desc key y zs)
      behind (inl e) ih = inr (ih (inl e))
      behind (inr (inl e)) ih = inl e
      behind (inr (inr there)) ih = inr (ih (inr there))

  Among-order_desc : (x : A) (xs : List A) → Among x xs → Among x (order_desc key xs)
  unfolding order_desc
  Among-order_desc x [] m = m
  Among-order_desc x (y ∷ ys) (inl e) = Among-insert_desc x y (order_desc key ys) (inl e)
  Among-order_desc x (y ∷ ys) (inr m) =
      Among-insert_desc x y (order_desc key ys) (inr (Among-order_desc x ys m))

  Below-take : (n k : ℕ) (xs : List A) → Below key n xs → Below key n (take k xs)
  Below-take n zero xs b = tt
  Below-take n (suc k) [] b = tt
  Below-take n (suc k) (x ∷ xs) b = (b.0, Below-take n k xs b.1)

  take-IsDescending : (k : ℕ) (xs : List A) → IsDescending key xs → IsDescending key (take k xs)
  take-IsDescending zero xs d = tt
  take-IsDescending (suc k) [] d = tt
  take-IsDescending (suc k) (x ∷ xs) d = (Below-take (key x) k xs d.0, take-IsDescending k xs d.1)

take_cases : {A : Type 0} (n : ℕ) (xs : List A) → (length (take n xs) ≡ n) ⊎ (take n xs ≡ xs)
take_cases zero xs = inl refl
take_cases (suc n) [] = inr refl
take_cases (suc n) (x ∷ xs) = elim (take_cases n xs) [
  | inl full ↦ inl (ap suc full)
  | inr whole ↦ inr (ap (λ ys. x ∷ ys) whole)
]

Among-select :
    {A : Type 0} (p : A → Bool) (x : A) (xs : List A)
    → Among x xs
    → p x ≡ true
    → Among x (select p xs)
unfolding select
Among-select p x [] m h = m
Among-select p x (y ∷ ys) (inl e) h = rw (subst (λ z. p z ≡ true) e h) (inl e)
Among-select p x (y ∷ ys) (inr m) h = elim (Bool-cases (p y)) [
  | inl hit ↦ rw hit (inr (Among-select p x ys m h))
  | inr miss ↦ rw miss (Among-select p x ys m h)
]

is_after-IsAfter : (cleared : Option ℕ) (t : ℕ) → IsAfter cleared t → is_after cleared t ≡ true
is_after-IsAfter none t h = refl
is_after-IsAfter (some c) t h = ground arith

Shown-visible :
    (conversation : Text) (member : ConversationMember) (m : Message)
    → Shown conversation member m
    → is_visible conversation member.cleared_at m ≡ true
Shown-visible conversation member m shown =
    rw
      (
        shown.0,
        ==_refl conversation,
        shown.1,
        is_after-IsAfter member.cleared_at m.created_at shown.2,
      )
      refl

-- What a page without a cursor holds: the newest messages first, and all that the member may read
-- where they are fewer than the limit.
abbrev pub IsNewest : ℕ → Text → ConversationMember → World → List Message → Type 0
IsNewest limit conversation member w ms =
    IsDescending (λ m. m.created_at) ms
    × ((length ms ≡ limit)
        ⊎ ((m : Message) → Among m w.messages → Shown conversation member m → Among m ms))

abbrev pub NewestPage : Option Text → ℕ → Text → ConversationMember → World → List Message → Type 0
NewestPage none limit conversation member w ms = IsNewest limit conversation member w ms
NewestPage (some id) limit conversation member w ms =
    if falsy id then IsNewest limit conversation member w ms else Unit {0}

abbrev pub rows_for : Text → ConversationMember → World → List Message
rows_for conversation member w =
    order_desc (λ m. m.created_at) (select (is_visible conversation member.cleared_at) w.messages)

take-IsNewest :
    (limit : ℕ) (conversation : Text) (member : ConversationMember) (w : World)
    → IsNewest limit conversation member w (take limit (rows_for conversation member w))
take-IsNewest limit conversation member w =
    let rows = rows_for conversation member w in
    (
      take-IsDescending (λ m. m.created_at) limit rows (order_desc-IsDescending _ _),
      elim (take_cases limit rows) [
        | inl full ↦ inl full
        | inr whole ↦ inr (λ m there shown. rw whole (
            Among-order_desc _ m _ (
              Among-select (is_visible conversation member.cleared_at) m w.messages there
                (Shown-visible conversation member m shown))))
      ],
    )

module _ (start_at : Text → List Message → List Message) where
  pub page-NewestPage :
      (cursor : Option Text) (limit : ℕ) (conversation : Text) (member : ConversationMember)
      (w : World)
      → NewestPage cursor limit conversation member w
          (page start_at (cursor_of cursor) limit (rows_for conversation member w))
  unfolding page
  page-NewestPage none limit conversation member w = take-IsNewest limit conversation member w
  page-NewestPage (some id) limit conversation member w = elim (Bool-cases (falsy id)) [
    | inl empty ↦ rw empty (take-IsNewest limit conversation member w)
    | inr named ↦ rw named tt
  ]

  pub length-page :
      (cursor : Option Text) (limit : ℕ) (ms : List Message)
      → length (page start_at cursor limit ms) ≤ limit
  unfolding page
  length-page none limit ms = length-take limit ms
  length-page (some id) limit ms = length-take limit (drop 1 (start_at id ms))

  module _
      (keeps : (P : Message → Type 0) (id : Text) (ms : List Message)
        → All P ms
        → All P (start_at id ms)) where
    pub All-page :
        (P : Message → Type 0) (cursor : Option Text) (limit : ℕ) (ms : List Message)
        → All P ms
        → All P (page start_at cursor limit ms)
    unfolding page
    All-page P none limit ms h = All-take P limit ms h
    All-page P (some id) limit ms h =
        All-take P limit (drop 1 (start_at id ms)) (All-drop P 1 (start_at id ms) (keeps P id ms h))
