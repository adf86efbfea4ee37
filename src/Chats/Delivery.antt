-- ===== src/Chats/Delivery.antt =====
-- What a run of incoming messages does to a chat.
use mathlib.Core.Path.{subst}
use najva_messenger.Base.{
  ℕ, ◌+◌, ◌≡◌, refl, sym, ap, ◌∙◌, inl, inr, true, false, some, List, [], ◌∷◌, ◌++◌, length, exists,
  ◌==◌, ==_refl, if◌then◌else◌, Bool-cases, arith,
}
use najva_messenger.Store.{Text}
use najva_messenger.Chats.{Chat, Message, ChatState, has_id, is_active, messages_of, add_message}

-- The messages that are not there yet, each the first time that it comes.
unfoldable pub fresh : List Message → List Message → List Message
fresh seen [] = []
fresh seen (m ∷ ms) =
    if exists (has_id m.id) seen then fresh seen ms else m ∷ fresh (seen ++ m ∷ []) ms

-- Messages as they come in, one after the other.
unfoldable pub deliver : Text → List Message → ChatState → ChatState
deliver id [] s = s
deliver id (m ∷ ms) s = deliver id ms (add_message id m s)

abbrev pub with_unread : ℕ → Chat → Chat
with_unread n c = record c { unread_count = c.unread_count + n }

append-cons : (xs ys : List Message) (m : Message) → (xs ++ m ∷ []) ++ ys ≡ xs ++ m ∷ ys
append-cons [] ys m = refl
append-cons (x ∷ xs) ys m = ap (λ zs. x ∷ zs) (append-cons xs ys m)

append-nil : (xs : List Message) → xs ++ [] ≡ xs
append-nil [] = refl
append-nil (x ∷ xs) = ap (λ zs. x ∷ zs) (append-nil xs)

-- The chat has the new messages behind the old ones and counts them as unread, and all else is as
-- it was.
abbrev pub Delivered : Text → Chat → List Message → ChatState → ChatState → Type 0
Delivered id c new s t =
    (messages_of id t ≡ messages_of id s ++ new)
    × (t.chats id ≡ some (with_unread (length new) c))
    × ((other : Text)
        → (other == id) ≡ false
        → (t.chats other ≡ s.chats other) × (t.messages other ≡ s.messages other))

add_message-seen :
    (id : Text) (m : Message) (s : ChatState)
    → exists (has_id m.id) (messages_of id s) ≡ true
    → add_message id m s ≡ s
unfolding add_message
add_message-seen id m s seen = rw seen refl

add_message-Delivered :
    (id : Text) (m : Message) (s : ChatState) (c : Chat)
    → exists (has_id m.id) (messages_of id s) ≡ false
    → is_active id s.active_chat_id ≡ false
    → s.chats id ≡ some c
    → Delivered id c (m ∷ []) s (add_message id m s)
      × (is_active id (add_message id m s).active_chat_id ≡ false)
unfolding add_message
add_message-Delivered id m s c new closed there =
    rw (new, closed)
      (
        (
          rw (==_refl id) refl,
          rw (==_refl id, there) refl,
          λ other differs. (rw differs refl, rw differs refl),
        ),
        refl,
      )

-- Deliveries, with repetitions and in any order, to a chat that is not the open one: every message
-- is stored once, in the order in which they first came, behind those that were there; the unread
-- count grows by exactly the number of new ones; and no other chat and no other chat's messages
-- change.
pub deliver_exact :
    (id : Text) (ms : List Message) (s : ChatState) (c : Chat)
    → is_active id s.active_chat_id ≡ false
    → s.chats id ≡ some c
    → Delivered id c (fresh (messages_of id s) ms) s (deliver id ms s)
unfolding deliver fresh
deliver_exact id [] s c closed there = (
  sym (append-nil (messages_of id s)),
  there ∙ ap (λ n. some (record c { unread_count = n })) (omega arith),
  λ other differs. (refl, refl),
)
deliver_exact id (m ∷ ms) s c closed there =
    elim (Bool-cases (exists (has_id m.id) (messages_of id s))) [
      | inl seen ↦ rw seen (
          subst (λ t. Delivered id c (fresh (messages_of id s) ms) s (deliver id ms t))
            (sym (add_message-seen id m s seen)) (deliver_exact id ms s c closed there))
      | inr new ↦
          let s1 = add_message id m s in
          let one = add_message-Delivered id m s c new closed there in
          let c1 = with_unread 1 c in
          let rest = fresh (messages_of id s ++ m ∷ []) ms in
          let ih : Delivered id c1 rest s1 (deliver id ms s1) =
            subst (λ seen. Delivered id c1 (fresh seen ms) s1 (deliver id ms s1)) one.0.0
              (deliver_exact id ms s1 c1 one.1 one.0.1) in
          rw new (
            ih.0 ∙ ap (λ xs. xs ++ rest) one.0.0 ∙ append-cons (messages_of id s) rest m,
            ih.1 ∙ ap (λ n. some (record c { unread_count = n })) (omega arith),
            λ other differs. (
              (ih.2 other differs).0 ∙ (one.0.2 other differs).0,
              (ih.2 other differs).1 ∙ (one.0.2 other differs).1,
            ),
          )
    ]
