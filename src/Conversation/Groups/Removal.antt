-- ===== src/Conversation/Groups/Removal.antt =====
-- `removeMember` rotates the conversation key forward.
use najva_messenger.Base.{
  ℕ, ◌+◌, ◌≡◌, refl, sym, ◌∙◌, inl, inr, Bool, true, false, ◌||◌, Option, some, List, [], ◌∷◌, map,
  arith, ok, exists, includes, update, is_none, Bool-cases, Option-cases, ==_refl, ap, ok-inj,
  Result-cases, end-cases, select, ◌&&◌, not, ◌==◌,
}
use najva_messenger.Store.{Text, World, Conversation, ConversationMember}
use najva_messenger.Conversation.Rows.{
  is_member_row, is_key_row, has_id, find_member, find_conversation, update_member,
  update_conversation, add_keys, create_keys, is_admin,
}
use najva_messenger.Conversation.Rows.Laws.{
  require_users-cases, exists-add_keys, is_above, exists-above, exists-above_mono,
  find-update_member, find-update_conversation, require_admin-cases,
}
use najva_messenger.Conversation.ShareSet.{RawWrap, CkWrap, assert_share_set, users_of}
use najva_messenger.Conversation.ShareSet.Exact.{assert_share_set_iff}
use najva_messenger.Conversation.Groups.{key_row, Rotation, remaining, rotate_out, remove_member}

abbrev removed : ConversationMember → ConversationMember
removed m = record m { is_removed = true }

-- What the transaction has written, where it returns.
rotate_out-ok :
    (conversation by target : Text) (version : ℕ) (wraps : List CkWrap) (now : ℕ) (w w' : World)
    → rotate_out conversation by target version wraps now w ≡ (ok tt, w')
    → (is_none (find_member conversation target w) ≡ false)
      × (w'.members ≡ update (is_member_row conversation target) removed w.members)
      × (add_keys (map (key_row conversation version by) wraps) w.keys ≡ some w'.keys)
      × (w'.conversations
          ≡ update
              (has_id conversation)
              (λ c. record c { current_key_version = version; updated_at = now })
              w.conversations)
unfolding rotate_out update_member update_conversation create_keys
rotate_out-ok conversation by target version wraps now w w' e =
    elim (Bool-cases (is_none (find_member conversation target w))) [
      | inl missing ↦ absurd (cc (rw missing at e))
      | inr here ↦
          let w1 : World = record w {
            members = update (is_member_row conversation target) removed w.members;
          } in
          elim (require_users-cases (users_of wraps) w1) [
            | inr bad ↦ absurd (cc (rw (here, bad) at e))
            | inl good ↦
                elim (Option-cases
                  (add_keys (map (key_row conversation version by) wraps) w.keys)) [
                    | inl clash ↦ absurd (cc (rw (here, good, clash) at e))
                    | inr (ks, added) ↦
                        let e' = rw (here, good, added) at e in
                        elim (Bool-cases (is_none (find_conversation conversation w))) [
                          | inl none_there ↦
                              absurd (cc (rw (none_there, update_conversation) at e'))
                          | inr there ↦
                              let e'' = rw (there, update_conversation) at e' in
                              (here, cc e'', cc (added, e''), cc e'')
                        ]
                  ]
          ]
    ]

exists-key_row :
    (conversation by id : Text) (version : ℕ) (ws : List CkWrap)
    → exists (is_key_row conversation id version) (map (key_row conversation version by) ws)
      ≡ includes id (users_of ws)
unfolding exists includes
exists-key_row conversation by id version [] = refl
exists-key_row conversation by id version (v ∷ vs) =
    ground (arith, exists-key_row conversation by id version vs)

-- What `remove_member` has checked, where it returns.
remove_member-ok :
    (conversation by target : Text) (keys : Option (List RawWrap)) (now : ℕ) (w w' : World)
    (rot : Rotation)
    → remove_member conversation by target keys now w ≡ (ok rot, w')
    → (conv : Conversation) × (ws : List CkWrap) × (is_admin (find_member conversation by w) ≡ true)
      × (find_conversation conversation w ≡ some conv)
      × (assert_share_set keys (remaining conversation target w) ≡ ok ws)
      × (rotate_out conversation by target (conv.current_key_version + 1) ws now w ≡ (ok tt, w'))
      × (rot ≡ record {
        new_version = conv.current_key_version + 1;
        removed_user_id = target;
        remaining_member_ids = remaining conversation target w;
      })
unfolding remove_member
remove_member-ok conversation by target keys now w w' rot e =
    elim (require_admin-cases conversation by w) [
      | inr (plain, refused) ↦ absurd (cc (rw refused at e))
      | inl (admin, passed) ↦ elim (Option-cases (find_conversation conversation w)) [
        | inl missing ↦ absurd (cc (rw (passed, missing) at e))
        | inr (conv, there) ↦
            elim (Result-cases (assert_share_set keys (remaining conversation target w))) [
              | inl (x, bad) ↦ absurd (cc (rw (passed, there, bad) at e))
              | inr (ws, covers) ↦
                  elim (end-cases
                    (rotate_out conversation by target (conv.current_key_version + 1) ws now w)) [
                      | inl (x, w1, bad) ↦ absurd (cc (rw (passed, there, covers, bad) at e))
                      | inr (w1, done) ↦
                          let last = ok-inj (rw (passed, there, covers, done) at e) in
                          (
                            conv,
                            ws,
                            admin,
                            there,
                            covers,
                            done ∙ ap (λ v. (ok tt, v)) last.1,
                            sym last.0,
                          )
                    ]
            ]
      ]
    ]

some_value : {c d : Conversation} → some c ≡ some d → c ≡ d
some_value e = cc e

abbrev bump : ℕ → ℕ → Conversation → Conversation
bump version now c = record c { current_key_version = version; updated_at = now }

or_false : (b : Bool) → (b || false) ≡ b
or_false true = refl
or_false false = refl

new-above :
    (conversation by : Text) (version : ℕ) (ws : List CkWrap)
    → exists (is_above conversation version) (map (key_row conversation version by) ws) ≡ false
unfolding exists
new-above conversation by version [] = refl
new-above conversation by version (v ∷ vs) = ground (arith, new-above conversation by version vs)

removed_row :
    (conversation target : Text) (w w' : World)
    → is_none (find_member conversation target w) ≡ false
    → w'.members ≡ update (is_member_row conversation target) removed w.members
    → (m : ConversationMember) × (find_member conversation target w ≡ some m)
      × (find_member conversation target w' ≡ some (removed m))
removed_row conversation target w w' here e =
    elim (Option-cases (find_member conversation target w)) [
      | inl missing ↦ absurd (cc (rw missing at here))
      | inr (m, found) ↦ (
        m,
        found,
        rw (
          e,
          find-update_member conversation target target removed w.members (λ x. (refl, refl)),
          ==_refl target,
          found,
        ),
      )
    ]

-- The remaining members, row by row: active ones, but for the target.
includes-remaining :
    (conversation target id : Text) (ms : List ConversationMember)
    → includes id (
        map
          (λ m. m.user_id)
          (select
            (λ m.
              m.conversation_id == conversation && not m.is_removed && not (m.user_id == target))
            ms))
      ≡ (exists (λ m. is_member_row conversation id m && not m.is_removed) ms && not (id == target))
unfolding includes select exists
includes-remaining conversation target id [] = refl
includes-remaining conversation target id (m ∷ ms) =
    ground (arith, includes-remaining conversation target id ms)

-- What `removeMember` ensures. The versions of the conversation's keys must not exceed the current
-- one; that holds again afterwards. If the call returns, an admin asked for it, the target had a
-- member row and is now removed, and the version has grown by one. At the new version exactly the
-- remaining active members have a wrapped key: everyone of them, and nobody else, so not the
-- target.
pub remove_member_rotates :
    (conversation by target : Text) (raws : List RawWrap) (now : ℕ) (w w' : World) (rot : Rotation)
    (conv : Conversation)
    → find_conversation conversation w ≡ some conv
    → exists (is_above conversation conv.current_key_version) w.keys ≡ false
    → remove_member conversation by target (some raws) now w ≡ (ok rot, w')
    → let version = conv.current_key_version + 1 in
      (is_admin (find_member conversation by w) ≡ true)
      × (rot.new_version ≡ version)
      × (find_conversation conversation w'
          ≡ some (record conv { current_key_version = version; updated_at = now }))
      × ((m : ConversationMember) × (find_member conversation target w ≡ some m)
          × (find_member conversation target w' ≡ some (removed m)))
      × ((id : Text)
          → exists (is_key_row conversation id version) w'.keys ≡ (
              exists (λ m. is_member_row conversation id m && not m.is_removed) w.members
              && not (id == target)))
      × (exists (is_above conversation version) w'.keys ≡ false)
remove_member_rotates conversation by target raws now w w' rot conv there below e =
    let run = remove_member-ok conversation by target (some raws) now w w' rot e in
    let wraps = run.1 in
    let same : run.0 ≡ conv = some_value (sym run.3 ∙ there) in
    let turned =
      rw same at (
        rotate_out-ok conversation by target (run.0.current_key_version + 1) wraps now w w'
          run.5) in
    let version = conv.current_key_version + 1 in
    let covers = ((assert_share_set_iff raws (remaining conversation target w) wraps).0 run.4).1 in
    (
      run.2,
      ap (λ (r : Rotation). r.new_version) run.6
          ∙ ap (λ (c : Conversation). c.current_key_version + 1) same,
      rw (
        turned.3,
        find-update_conversation conversation (bump version now) w.conversations (λ c. refl),
        there,
      ),
      removed_row conversation target w w' turned.0 turned.1,
      λ id.
          exists-add_keys (is_key_row conversation id version)
            (map (key_row conversation version by) wraps) w.keys w'.keys turned.2
          ∙ rw
              (
                exists-key_row conversation by id version wraps,
                exists-above conversation id conv.current_key_version w.keys below,
              )
              (or_false (includes id (users_of wraps))
                ∙ covers.1 id
                ∙ includes-remaining conversation target id w.members),
      exists-add_keys (is_above conversation version) (map (key_row conversation version by) wraps)
            w.keys w'.keys turned.2
          ∙ rw (
            new-above conversation by version wraps,
            exists-above_mono conversation conv.current_key_version w.keys below,
          ),
    )
