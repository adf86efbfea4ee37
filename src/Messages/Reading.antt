-- ===== src/Messages/Reading.antt =====
-- What a reader sees, and who may change a message.
use najva_messenger.Messages.Page.{
  Shown, NewestPage, rows_for, visible-Shown, page-NewestPage, length-page, All-page,
  All-order_desc, present-row,
}
use mathlib.Core.Path.{subst, fun_ext}
use najva_messenger.Base.{
  ◌≢◌, ap, ◌∙◌, false, find, update, map_option, ==_refl, length, ◌≤◌, arith, ◌≡◌, refl, inl, inr,
  true, Option, none, some, List, [], ◌∷◌, ℕ, Result, ok, err, thrown, All, Bool-cases,
  Option-cases, end-cases, ok-inj, ◌==◌, if◌then◌else◌,
}
use najva_messenger.Base.Tables.Laws.{}
use najva_messenger.Base.Order.{}
use najva_messenger.Store.{Text, World, ConversationMember, Message, falsy}
use najva_messenger.Conversation.Rows.{find_member}
use najva_messenger.Conversation.Rows.Laws.{require_member-cases}
use najva_messenger.Messages.{
  cursor_of, find_message, page, mark_read, get_messages, update_message, edit_message,
  delete_message, new_iv, has_message_id,
}

-- What an edit or a deletion does, by `f`, to the message with the identifier: the author's call
-- changes its row, no other message and nothing else.
abbrev pub Authored :
    Text → (Message → Message) → World → Option Message → Text → Result (Unit {0}) × World → Type 0
Authored id f w none user (r, w') = (r ≡ err (thrown "Message not found" 404)) × (w' ≡ w)
Authored id f w (some m) user (r, w') =
    if m.sender_id == user
    then (r ≡ ok tt)
      × (find_message id w' ≡ some (f m))
      × ((other : Text) → other ≢ id → find_message other w' ≡ find_message other w)
      × (w' ≡ record w { messages = w'.messages })
    else (r ≡ err (thrown "Unauthorized" 403)) × (w' ≡ w)

find-update_message :
    (id other : Text) (f : Message → Message) (ms : List Message)
    → ((m : Message) → (f m).id ≡ m.id)
    → find (has_message_id other) (update (has_message_id id) f ms) ≡ (
        if id == other
        then map_option f (find (has_message_id other) ms)
        else find (has_message_id other) ms)
unfolding find update
find-update_message id other f [] keep = ground arith
find-update_message id other f (m ∷ ms) keep =
    ground (arith, keep m, find-update_message id other f ms keep)

update_message-Authored :
    (id user : Text) (f : Message → Message) (w : World) (m : Message)
    → ((x : Message) → (f x).id ≡ x.id)
    → find_message id w ≡ some m
    → m.sender_id == user ≡ true
    → Authored id f w (some m) user (ok tt, update_message id f w)
update_message-Authored id user f w m keep there own = rw own (
  refl,
  find-update_message id id f w.messages keep ∙ rw (==_refl id) (ap (map_option f) there),
  λ other ne. find-update_message id other f w.messages keep ∙ ground (arith, ne),
  refl,
)

-- The nonce after an edit: the given one, where it is given and not empty.
abbrev pub nonce_after : Option Text → Option Text → Option Text
nonce_after none old = old
nonce_after (some iv) old = if falsy iv then old else some iv

new_iv-nonce_after : (iv old : Option Text) → new_iv iv old ≡ nonce_after iv old
new_iv-nonce_after none old = refl
new_iv-nonce_after (some iv) old = refl

-- Only the author of a message edits or deletes it: a missing message gives "Message not found",
-- another's "Unauthorized", and both change nothing. An edit replaces the content, and the nonce
-- where a new one is given; a deletion sets the time and keeps the row. No other column and no
-- other message changes, and nothing else in the store.
pub edit_and_delete_exact :
    (id user content : Text) (iv : Option Text) (now : ℕ) (w : World)
    → Authored id
        (λ m. record m { encrypted_content = content; iv = nonce_after iv m.iv })
        w
        (find_message id w)
        user
        (edit_message id user content iv w)
      × Authored id
          (λ m. record m { deleted_at = some now })
          w
          (find_message id w)
          user
          (delete_message id user now w)
unfolding edit_message delete_message
edit_and_delete_exact id user content iv now w = elim (Option-cases (find_message id w)) [
  | inl missing ↦ rw missing ((refl, refl), (refl, refl))
  | inr (m, there) ↦ elim (Bool-cases (m.sender_id == user)) [
    | inr other ↦ rw (there, other) ((refl, refl), (refl, refl))
    | inl own ↦
        let edit : Message → Message =
          λ x. record x { encrypted_content = content; iv = nonce_after iv x.iv } in
        let delete : Message → Message = λ x. record x { deleted_at = some now } in
        let edited = update_message-Authored id user edit w m (λ x. refl) there own in
        let deleted = update_message-Authored id user delete w m (λ x. refl) there own in
        rw (there, own, fun_ext (new_iv-nonce_after iv)) (rw own at edited, rw own at deleted)
  ]
]

module _ (start_at : Text → List Message → List Message)
    (keeps : (P : Message → Type 0) (id : Text) (ms : List Message)
      → All P ms
      → All P (start_at id ms)) where
  -- Where `getMessages` returns, its caller has a row in the conversation that is not removed, at
  -- most `limit` messages come, and each is one of the conversation that is not deleted and is
  -- later than the caller's clearing of the history, if there was one. Where no cursor is given, or
  -- an empty one, the newest come first, and they are `limit` or all such messages. The hypothesis:
  -- a cursor selects among the rows of the query.
  pub get_messages_visible :
      (conversation user : Text) (cursor : Option Text) (limit : ℕ) (w w' : World)
      (ms : List Message)
      → get_messages start_at conversation user cursor limit w ≡ (ok ms, w')
      → (length ms ≤ limit)
        × ((member : ConversationMember) × (find_member conversation user w ≡ some member)
            × (member.is_removed ≡ false)
            × All (Shown conversation member) ms
            × NewestPage cursor limit conversation member w ms)
  unfolding get_messages
  get_messages_visible conversation user cursor limit w w' ms e =
      elim (require_member-cases conversation user w) [
        | inr (out, refused) ↦ absurd (cc (rw refused at e))
        | inl (inside, passed) ↦
            let (member, there, active) = present-row (find_member conversation user w) inside in
            let rows = rows_for conversation member w in
            let shown = page start_at (cursor_of cursor) limit rows in
            let e' = rw (passed, there) at e in
            elim (end-cases (mark_read start_at (cursor_of cursor) conversation user shown w)) [
              | inl (x, s, bad) ↦ absurd (cc (rw bad at e'))
              | inr (s, done) ↦
                  subst
                    (λ l.
                      (length l ≤ limit)
                      × ((m : ConversationMember) × (find_member conversation user w ≡ some m)
                          × (m.is_removed ≡ false)
                          × All (Shown conversation m) l
                          × NewestPage cursor limit conversation m w l))
                    (ok-inj (rw done at e')).0
                    (
                      length-page start_at (cursor_of cursor) limit rows,
                      (
                        member,
                        there,
                        active,
                        All-page start_at keeps _ (cursor_of cursor) limit rows (
                            All-order_desc _ (λ m. m.created_at) _
                              (visible-Shown conversation member w.messages)),
                        page-NewestPage start_at cursor limit conversation member w,
                      ),
                    )
            ]
      ]
