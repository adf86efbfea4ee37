-- ===== src/Messages/Posting.antt =====
-- Who may post a message, and what a post does.
use najva_messenger.Base.{
  ◌≡◌, refl, inl, inr, Bool, false, ◌&&◌, not, Option, none, some, List, [], ◌∷◌, ℕ, Error, Result,
  ok, err, find, exists, update, ◌==◌, if◌then◌else◌, map_option, modify_if, Bool-cases,
  Option-cases, ==_refl, arith, ap,
}
use najva_messenger.Base.Tables.Laws.{find-exists}
use najva_messenger.Store.{Text, World, Conversation, ConversationMember, Message, User}
use najva_messenger.Conversation.Rows.{
  has_id, is_member_row, find_member, find_conversation, is_present, is_admin, update_conversation,
}
use najva_messenger.Conversation.Rows.Laws.{require_member-cases, find-update_conversation}
use najva_messenger.Messages.{
  SendData, ForwardData, is_direct, is_channel, has_block, replies_to, new_message, forwarded,
  create_message, surface, attach, send_message, forward_message,
}

-- A direct chat that nobody blocks, a channel for its admins, and any other conversation.
abbrev pub allows : Option Conversation → (blocked admin : Bool) → Bool
allows none blocked admin = false
allows (some c) blocked admin =
    not (is_direct c.type && blocked) && not (is_channel c.type && not admin)

abbrev pub may_post : Text → Text → Option Text → World → Bool
may_post user conversation reply w =
    is_present (find_member conversation user w)
    && allows (find_conversation conversation w) (has_block conversation w)
        (is_admin (find_member conversation user w))
    && exists (λ (u : User). u.id == user) w.users
    && replies_to reply w

abbrev unhidden : ConversationMember → ConversationMember
unhidden m = record m { is_hidden = false }

abbrev touched : ℕ → Conversation → Conversation
touched now c = record c { updated_at = now }

-- The message is stored and returned, the conversation comes to the top, and none of its members
-- hides it.
abbrev pub Posted : Text → Message → ℕ → World → Result (Option Message) × World → Type 0
Posted conversation m now w (r, w') =
    (r ≡ ok (some m))
    × (w'.messages ≡ m ∷ w.messages)
    × (find_conversation conversation w'
        ≡ map_option (touched now) (find_conversation conversation w))
    × ((id : Text)
        → find_member conversation id w' ≡ map_option unhidden (find_member conversation id w))

unhidden_same : (m : ConversationMember) → m.is_hidden ≡ false → m ≡ unhidden m
unhidden_same m e = ap (λ b. record m { is_hidden = b }) e

cell :
    (conversation : Text) (m : ConversationMember)
    → modify_if (λ r. r.conversation_id == conversation && r.is_hidden) unhidden m
      ≡ modify_if (λ r. r.conversation_id == conversation) unhidden m
cell conversation m = elim (Bool-cases (m.conversation_id == conversation)) [
  | inr apart ↦ rw apart
  | inl same ↦ elim (Bool-cases m.is_hidden) [
    | inl away ↦ ground arith
    | inr shown ↦ ground (arith, unhidden_same m shown)
  ]
]

update-cells :
    (conversation : Text) (ms : List ConversationMember)
    → update (λ m. m.conversation_id == conversation && m.is_hidden) unhidden ms
      ≡ update (λ m. m.conversation_id == conversation) unhidden ms
unfolding update
update-cells conversation [] = refl
update-cells conversation (m ∷ ms) = cc (cell conversation m, update-cells conversation ms)

find-unhide_all :
    (conversation id : Text) (ms : List ConversationMember)
    → find
        (is_member_row conversation id)
        (update (λ m. m.conversation_id == conversation) unhidden ms)
      ≡ map_option unhidden (find (is_member_row conversation id) ms)
unfolding find update
find-unhide_all conversation id [] = refl
find-unhide_all conversation id (m ∷ ms) = ground (arith, find-unhide_all conversation id ms)

surface-ok :
    (conversation : Text) (now : ℕ) (w : World) (c : Conversation)
    → find_conversation conversation w ≡ some c
    → surface conversation now w ≡ (
      ok tt,
      record w {
        conversations = update (has_id conversation) (touched now) w.conversations;
        members = update (λ m. m.conversation_id == conversation && m.is_hidden) unhidden w.members;
      },
    )
unfolding surface update_conversation
surface-ok conversation now w c there = rw there refl

-- `sendMessage` posts exactly where its sender is an active member and a user, the conversation
-- exists and allows it (a direct chat where nobody has blocked the other, a channel for its admins
-- only) and the message replied to exists. Then the message is stored and returned, the
-- conversation has a new time, and it is no longer hidden for any member. In every other case it
-- throws and nothing has changed.
pub send_message_exact :
    (user conversation : Text) (data' : SendData) (now : ℕ) (id : Text) (w : World)
    → if may_post user conversation data'.reply_to_id w
      then Posted conversation
          (new_message conversation user data' now id)
          now
          w
          (send_message user conversation data' now id w)
      else ((e : Error) × (send_message user conversation data' now id w ≡ (err e, w)))
unfolding send_message create_message find
send_message_exact user conversation data' now id w =
    elim (require_member-cases conversation user w) [
      | inr (out, refused) ↦ rw (out, refused) (_, refl)
      | inl (inside, passed) ↦ elim (Option-cases (find_conversation conversation w)) [
        | inl missing ↦ rw (inside, passed, missing) (_, refl)
        | inr (c, there) ↦
            let row = find-exists (has_id conversation) w.conversations c there in
            elim (Bool-cases (is_direct c.type && has_block conversation w)) [
              | inl blocked ↦ rw (inside, passed, there, blocked) (_, refl)
              | inr free ↦
                  elim (Bool-cases
                    (is_channel c.type && not (is_admin (find_member conversation user w)))) [
                      | inl plain ↦ rw (inside, passed, there, free, plain) (_, refl)
                      | inr posts ↦
                          elim (Bool-cases (exists (λ (u : User). u.id == user) w.users)) [
                            | inr nobody ↦
                                rw (inside, passed, there, free, posts, row, nobody) (_, refl)
                            | inl known ↦ elim (Bool-cases (replies_to data'.reply_to_id w)) [
                              | inr gone ↦
                                  rw (inside, passed, there, free, posts, row, known, gone)
                                    (_, refl)
                              | inl target ↦
                                  rw
                                    (
                                      inside,
                                      passed,
                                      there,
                                      free,
                                      posts,
                                      row,
                                      known,
                                      target,
                                      surface-ok conversation now
                                          (attach id data'.attachment_ids (record w {
                                            messages =
                                                new_message conversation user data' now id
                                                ∷ w.messages;
                                          }))
                                          c there,
                                    )
                                    (
                                      rw (==_refl id),
                                      refl,
                                      rw (
                                        find-update_conversation conversation (touched now)
                                            w.conversations (λ x. refl),
                                        there,
                                      ),
                                      λ m.
                                          rw (update-cells conversation w.members)
                                            (find-unhide_all conversation m w.members),
                                    )
                            ]
                          ]
                    ]
            ]
      ]
    ]

-- `forwardMessage` stores a message exactly where its sender is an active member and a user, and
-- the conversation exists. It does not ask whether the conversation allows the sender to post: a
-- blocked direct chat and a channel whose admin the sender is not take the message as well. In
-- every other case it throws and nothing has changed.
pub forward_message_exact :
    (user conversation : Text) (data' : ForwardData) (now : ℕ) (id : Text) (w : World)
    → let m = forwarded conversation user data' now id in
      if is_present (find_member conversation user w)
        && exists (has_id conversation) w.conversations
        && exists (λ (u : User). u.id == user) w.users
      then (forward_message user conversation data' now id w
          ≡ (ok m, record w { messages = m ∷ w.messages }))
      else ((e : Error) × (forward_message user conversation data' now id w ≡ (err e, w)))
unfolding forward_message create_message
forward_message_exact user conversation data' now id w =
    elim (require_member-cases conversation user w) [
      | inr (out, refused) ↦ rw (out, refused) (_, refl)
      | inl (inside, passed) ↦ elim (Bool-cases (exists (has_id conversation) w.conversations)) [
        | inr missing ↦ rw (inside, passed, missing) (_, refl)
        | inl row ↦ elim (Bool-cases (exists (λ (u : User). u.id == user) w.users)) [
          | inr nobody ↦ rw (inside, passed, row, nobody) (_, refl)
          | inl known ↦ rw (inside, passed, row, known) refl
        ]
      ]
    ]
