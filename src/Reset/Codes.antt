-- ===== src/Reset/Codes.antt =====
-- What a completed reset has shown, and what a wrong code costs.
use najva_messenger.Base.{
  Error, ap, ◌≡◌, refl, sym, ◌∙◌, inl, inr, true, false, Option, none, some, ℕ, ◌+◌, ok, err,
  thrown, find, Bool-cases, Option-cases, end-cases, ok-inj, ==_refl, arith, ltb, leb, ◌==◌,
  if◌then◌else◌, ◌⊎◌, ◌>>=◌, modify, pure, ◌-◌,
}
use najva_messenger.Store.{Text, World, ResetState, Entry}
use najva_messenger.Store.Redis.{is_live_entry, find-del}
use najva_messenger.Services.{Services}
use najva_messenger.Session.{SessionMeta, Tokens, create, revoke_all_for_user}
use najva_messenger.Session.Effects.{revoke_all_for_user-resets, create-resets}
use najva_messenger.Reset.{
  Formats, CompleteData, Fresh, load_state, clear_reset, update_user, timing_equal_hex, save_state,
  otp_ok, wrong_code, check_code, complete, valid_payload, is_sealed, is_pending, reset_id_of,
  max_otp_attempts, new_password, login_key_of, first_tokens, left_until,
}

load_state-cleared :
    (id : Option Text) (user : Text) (later : ℕ) (w : World)
    → load_state id later (clear_reset (elim id [ none ↦ 0 | some i ↦ i ]) user w) ≡ none
unfolding load_state clear_reset
load_state-cleared none user later w = refl
load_state-cleared (some i) user later w = rw (find-del i later w.resets) (ground arith)

load_state-resets :
    (id : Option Text) (later : ℕ) (w w' : World)
    → w'.resets ≡ w.resets
    → load_state id later w' ≡ load_state id later w
unfolding load_state
load_state-resets none later w w' e = refl
load_state-resets (some i) later w w' e = rw e

module _ (c : Services) (f : Formats) where
  -- What a reset that completes has shown: it was there, its secret was presented, its device had
  -- approved it and sealed the master key, and the code was right.
  abbrev pub Proven : CompleteData → ℕ → World → ResetState → Type 0
  Proven d now w state =
      (load_state d.reset_id now w ≡ some state)
      × (timing_equal_hex c f d.reset_secret state.reset_secret ≡ true)
      × (is_pending state.status ≡ false)
      × (is_sealed state.sealed_mk ≡ true)
      × (otp_ok c f d state ≡ true)

  check_code-cases :
      (d : CompleteData) (state : ResetState) (now : ℕ) (w : World)
      → ((otp_ok c f d state ≡ true) × (check_code c f d state now w ≡ (ok tt, w)))
        ⊎ ((e : Error) × (w' : World) × (check_code c f d state now w ≡ (err e, w')))
  unfolding check_code wrong_code
  check_code-cases d state now w = elim (Bool-cases (otp_ok c f d state)) [
    | inl good ↦ inl (good, rw good)
    | inr bad ↦ elim (Bool-cases (leb max_otp_attempts (state.attempts + 1))) [
      | inl last ↦ inr (
        thrown "Too many incorrect codes. Start the reset again." 429,
        clear_reset (reset_id_of d) state.user_id w,
        rw (bad, last),
      )
      | inr more ↦ inr (
        thrown "Incorrect verification code" 401,
        save_state c f (reset_id_of d) (record state { attempts = state.attempts + 1 }) now w,
        rw (bad, more),
      )
    ]
  ]

  -- The end of a reset: it is cleared before the sessions change.
  finished :
      (d : CompleteData) (meta : SessionMeta) (r : Fresh) (now : ℕ) (w w' : World) (t : Tokens)
      (user : Text) (later : ℕ)
      → (update_user user (new_password (c.bcrypt_hash r.salt (login_key_of d)) d) >>= λ _.
            modify (clear_reset (reset_id_of d) user) >>= λ _.
            revoke_all_for_user user none now >>= λ _.
            create c user meta now r.session_id r.jti >>= λ made. pure (first_tokens made))
          w
        ≡ (ok t, w')
      → load_state d.reset_id later w' ≡ none
  finished d meta r now w w' t user later e =
      elim (end-cases
        (update_user user (new_password (c.bcrypt_hash r.salt (login_key_of d)) d) w)) [
          | inl (x, s, bad) ↦ absurd (cc (rw bad at e))
          | inr (s, done) ↦
              let cleared = clear_reset (reset_id_of d) user s in
              let rev = revoke_all_for_user-resets user none now cleared in
              let made = create-resets c user meta now r.session_id r.jti rev.1 in
              let same = (ok-inj (rw (done, rev.2, made.2) at e)).1 in
              load_state-resets d.reset_id later cleared w'
                (sym (ap (λ (v : World). v.resets) same) ∙ made.3 ∙ rev.3)
              ∙ load_state-cleared d.reset_id user later s
        ]

  -- `complete` returns only for a reset that was there, with its secret, approved with a sealed
  -- master key, and with the right code; and the reset is gone after that: it cannot be loaded at
  -- any later time, so it completes once.
  pub complete-Proven :
      (d : CompleteData) (meta : SessionMeta) (r : Fresh) (now : ℕ) (w w' : World) (t : Tokens)
      → complete c f d meta r now w ≡ (ok t, w')
      → ((state : ResetState) × Proven d now w state)
        × ((later : ℕ) → load_state d.reset_id later w' ≡ none)
  unfolding complete
  complete-Proven d meta r now w w' t e = elim (Bool-cases (valid_payload d)) [
    | inr invalid ↦ absurd (cc (rw invalid at e))
    | inl valid ↦ elim (Option-cases (load_state d.reset_id now w)) [
      | inl missing ↦ absurd (cc (rw (valid, missing) at e))
      | inr (state, there) ↦
          elim (Bool-cases (timing_equal_hex c f d.reset_secret state.reset_secret)) [
            | inr stranger ↦ absurd (cc (rw (valid, there, stranger) at e))
            | inl holder ↦ elim (Bool-cases (is_pending state.status)) [
              | inl waits ↦ absurd (cc (rw (valid, there, holder, waits) at e))
              | inr answered ↦ elim (Bool-cases (is_sealed state.sealed_mk)) [
                | inr empty ↦ absurd (cc (rw (valid, there, holder, answered, empty) at e))
                | inl sealed ↦ elim (check_code-cases d state now w) [
                  | inr (x, s, bad) ↦
                      absurd (cc (rw (valid, there, holder, answered, sealed, bad) at e))
                  | inl (right, good) ↦
                      let e' = rw (valid, there, holder, answered, sealed, good) at e in
                      (
                        (state, (there, holder, answered, sealed, right)),
                        λ later. finished d meta r now w w' t state.user_id later e',
                      )
                ]
              ]
            ]
          ]
    ]
  ]

  left_until-later :
      (now : ℕ) (o : Option (Entry ResetState)) → ltb now (left_until c f now o) ≡ true
  left_until-later now none = ground arith
  left_until-later now (some e) = elim (Bool-cases (ltb 0 (f.ttl_seconds (e.expires_at - now)))) [
    | inl some_left ↦ rw some_left (ground (arith, some_left))
    | inr spent ↦ rw spent (ground arith)
  ]

  load_state-save_state :
      (id : Option Text) (old state : ResetState) (now : ℕ) (w : World)
      → load_state id now w ≡ some old
      → load_state id now (save_state c f (elim id [ none ↦ 0 | some i ↦ i ]) state now w)
        ≡ some state
  unfolding load_state save_state find
  load_state-save_state none old state now w e = absurd (cc e)
  load_state-save_state (some i) old state now w e = elim (Bool-cases (i == 0)) [
    | inl empty ↦ absurd (cc (rw empty at e))
    | inr named ↦
        rw (named, ==_refl i, left_until-later now (find (is_live_entry i now) w.resets)) refl
  ]

  -- A wrong code, presented to an approved reset with its secret: the users and the sessions stay
  -- as they are; the fifth one ends the reset, which cannot be loaded again, and an earlier one is
  -- counted in the stored reset.
  pub complete_wrong_code :
      (d : CompleteData) (meta : SessionMeta) (r : Fresh) (now : ℕ) (w : World) (state : ResetState)
      → valid_payload d ≡ true
      → load_state d.reset_id now w ≡ some state
      → timing_equal_hex c f d.reset_secret state.reset_secret ≡ true
      → is_pending state.status ≡ false
      → is_sealed state.sealed_mk ≡ true
      → otp_ok c f d state ≡ false
      → let (out, w') = complete c f d meta r now w in
        (w'.users ≡ w.users)
        × (w'.sessions ≡ w.sessions)
        × (if leb 5 (state.attempts + 1)
            then (out ≡ err (thrown "Too many incorrect codes. Start the reset again." 429))
              × ((later : ℕ) → load_state d.reset_id later w' ≡ none)
            else (out ≡ err (thrown "Incorrect verification code" 401))
              × (load_state d.reset_id now w'
                  ≡ some (record state { attempts = state.attempts + 1 })))
  unfolding complete check_code wrong_code clear_reset save_state
  complete_wrong_code d meta r now w state valid there holder answered sealed bad =
      elim (Bool-cases (leb 5 (state.attempts + 1))) [
        | inl last ↦
            rw (valid, there, holder, answered, sealed, bad, last)
              (refl, refl, (refl, λ later. load_state-cleared d.reset_id state.user_id later w))
        | inr more ↦
            rw (valid, there, holder, answered, sealed, bad, more)
              (
                refl,
                refl,
                (
                  refl,
                  load_state-save_state d.reset_id state
                      (record state { attempts = state.attempts + 1 }) now w there,
                ),
              )
      ]
