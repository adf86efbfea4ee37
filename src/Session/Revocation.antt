-- ===== src/Session/Revocation.antt =====
-- Revoking sessions: all of a user's, or one.
use mathlib.Core.Path.{fun_ext}
use najva_messenger.Base.{
  ap, ◌∙◌, not, ◌&&◌, is_none, ℕ, ◌≡◌, ◌≢◌, refl, sym, is_some, inl, inr, Bool, false, Option, none,
  some, List, [], ◌∷◌, arith, Result, ok, err, thrown, find, select, exists, update, map_option,
  modify_if, length, ◌==◌, if◌then◌else◌, Option-cases, Bool-cases,
}
use najva_messenger.Base.Tables.Laws.{find-holds, find-update}
use najva_messenger.Store.{Text, World, Session, falsy}
use najva_messenger.Session.{
  has_id, ids_of, is_target, revoke_targets, revoke_all_for_user, revoke_row, revoke,
}
use najva_messenger.Session.Effects.{
  IsUnique, has_socket, disconnect_all-sessions, disconnect_all-sockets, select-find,
  find-update_self, find-update_ne, disconnect_session-sessions, disconnect_session-sockets,
}

abbrev pub revoked : ℕ → Session → Session
revoked now s = record s { revoked_at = some now }

abbrev pub in_targets : List Session → Session → Bool
in_targets ss r = exists (λ i. i == r.id) (ids_of ss)

-- What becomes of one session when the selected ones are revoked.
find-revoke_targets :
    (sid now : ℕ) (t : Session → Bool) (xs : List Session)
    → IsUnique xs
    → find (has_id sid) (update (in_targets (select t xs)) (revoked now) xs)
      ≡ map_option (modify_if t (revoked now)) (find (has_id sid) xs)
find-revoke_targets sid now t xs u = elim (Option-cases (find (has_id sid) xs)) [
  | inl e ↦ rw (find-update (has_id sid) (in_targets (select t xs)) (revoked now) xs (λ x. refl), e)
  | inr (r, e) ↦
      rw (find-update (has_id sid) (in_targets (select t xs)) (revoked now) xs (λ x. refl), e)
        (ground (arith, find-holds (has_id sid) xs r e, select-find sid t xs r u e))
]

update-none : (now : ℕ) (xs : List Session) → update (in_targets []) (revoked now) xs ≡ xs
unfolding update exists
update-none now [] = refl
update-none now (x ∷ xs) = ground (arith, update-none now xs)

pub revoke_targets-sessions :
    (ts : List Session) (now : ℕ) (w : World)
    → (revoke_targets ts now w).1.sessions ≡ update (in_targets ts) (revoked now) w.sessions
unfolding revoke_targets
revoke_targets-sessions [] now w = sym (update-none now w.sessions)
revoke_targets-sessions (s ∷ ss) now w = disconnect_all-sessions (s ∷ ss) _

revoke_targets-sockets :
    (ts : List Session) (now sid : ℕ) (w : World)
    → has_socket sid (revoke_targets ts now w).1.sockets
      ≡ (if exists (λ i. i == sid) (ids_of ts) then false else has_socket sid w.sockets)
unfolding revoke_targets exists
revoke_targets-sockets [] now sid w = refl
revoke_targets-sockets (s ∷ ss) now sid w = disconnect_all-sockets sid (s ∷ ss) _

revoke_targets-count :
    (ts : List Session) (now : ℕ) (w : World) → (revoke_targets ts now w).0 ≡ ok (length ts)
unfolding revoke_targets
revoke_targets-count [] now w = refl
revoke_targets-count (s ∷ ss) now w = refl

-- In the terms of the code's own selection.
revoke_all_for_user-targets :
    (user : Text) (except : Option Text) (now : ℕ) (w : World)
    → IsUnique w.sessions
    → let (r, w') = revoke_all_for_user user except now w in
      (r ≡ ok (length (select (is_target user except) w.sessions)))
      × ((sid : Text)
          → find (has_id sid) w'.sessions
            ≡ map_option
                (modify_if (is_target user except) (revoked now))
                (find (has_id sid) w.sessions))
      × ((sid : Text) (s : Session)
          → find (has_id sid) w.sessions ≡ some s
          → has_socket sid w'.sockets
            ≡ (if is_target user except s then false else has_socket sid w.sockets))
unfolding revoke_all_for_user
revoke_all_for_user-targets user except now w u =
    let ts : List Session = select (is_target user except) w.sessions in
    (
      revoke_targets-count ts now w,
      λ sid.
          rw (revoke_targets-sessions ts now w)
            (find-revoke_targets sid now (is_target user except) w.sessions u),
      λ sid s e. rw (
        revoke_targets-sockets ts now sid w,
        select-find sid (is_target user except) w.sessions s u e,
      ),
    )

-- The session that a revocation spares, where one is named.
abbrev pub is_callers : Option Text → Session → Bool
is_callers none s = false
is_callers (some own) s = not (falsy own) && s.id == own

-- A session of the user that is not revoked and is not the spared one.
abbrev pub is_other_of : Text → Option Text → Session → Bool
is_other_of user current s = s.user_id == user && is_none s.revoked_at && not (is_callers current s)

is_target-is_other_of :
    (user : Text) (current : Option Text) (s : Session)
    → is_target user current s ≡ is_other_of user current s
is_target-is_other_of user none s = refl
is_target-is_other_of user (some own) s = ground arith

-- Where session identifiers are unique, `revoke_all_for_user` returns the number of the user's
-- sessions that were not revoked, but for the spared one; each of these is now revoked and has no live
-- socket, and every other session keeps its row and its sockets.
pub revoke_all_for_user_exact :
    (user : Text) (except : Option Text) (now : ℕ) (w : World)
    → IsUnique w.sessions
    → let (r, w') = revoke_all_for_user user except now w in
      (r ≡ ok (length (select (is_other_of user except) w.sessions)))
      × ((sid : Text)
          → find (has_id sid) w'.sessions
            ≡ map_option
                (λ s. if is_other_of user except s then record s { revoked_at = some now } else s)
                (find (has_id sid) w.sessions))
      × ((sid : Text) (s : Session)
          → find (has_id sid) w.sessions ≡ some s
          → has_socket sid w'.sockets
            ≡ (if is_other_of user except s then false else has_socket sid w.sockets))
revoke_all_for_user_exact user except now w unique =
    let exact = revoke_all_for_user-targets user except now w unique in
    let same : ◌≡◌ {A = Session → Bool} (is_target user except) (is_other_of user except) =
      fun_ext (is_target-is_other_of user except) in
    (
      exact.0 ∙ ap (λ (t : Session → Bool). ok (length (select t w.sessions))) same,
      λ sid.
          exact.1 sid
          ∙ ap
              (λ (t : Session → Bool).
                map_option (modify_if t (revoked now)) (find (has_id sid) w.sessions))
              same,
      λ sid s h.
          exact.2 sid s h
          ∙ ap (λ b. if b then false else has_socket sid w.sockets)
              (is_target-is_other_of user except s),
    )

abbrev pub RevokeOutcome :
    Text → Text → ℕ → World → Option Session → Result (Unit {0}) × World → Type 0
RevokeOutcome user sid now w none (r, w') = (r ≡ err (thrown "Session not found" 404)) × (w' ≡ w)
RevokeOutcome user sid now w (some s) (r, w') =
    if s.user_id == user
    then (r ≡ ok tt)
      × (find (has_id sid) w'.sessions ≡ some (if is_some s.revoked_at then s else revoked now s))
      × (has_socket sid w'.sockets ≡ false)
      × ((other : Text)
          → other ≢ sid
          → find (has_id other) w'.sessions ≡ find (has_id other) w.sessions)
    else (r ≡ err (thrown "Session not found" 404)) × (w' ≡ w)

-- The row is marked only where it was not revoked yet.
marked_self :
    (sid now : ℕ) (s : Session) (w : World)
    → find (has_id sid) w.sessions ≡ some s
    → find (has_id sid) (if is_some s.revoked_at then w else revoke_row sid now w).sessions
      ≡ some (if is_some s.revoked_at then s else revoked now s)
unfolding revoke_row
marked_self sid now s w e = elim (Bool-cases (is_some s.revoked_at)) [
  | inl old ↦ rw old e
  | inr new ↦ rw new (rw (find-update_self sid (revoked now) w.sessions (λ x. refl), e))
]

marked_other :
    (sid other now : ℕ) (s : Session) (w : World)
    → other ≢ sid
    → find (has_id other) (if is_some s.revoked_at then w else revoke_row sid now w).sessions
      ≡ find (has_id other) w.sessions
unfolding revoke_row
marked_other sid other now s w ne = elim (Bool-cases (is_some s.revoked_at)) [
  | inl old ↦ rw old
  | inr new ↦ rw new (find-update_ne other sid (revoked now) w.sessions (λ x. refl) ne)
]

-- `revoke` throws "Session not found" and changes nothing where the session is missing or is
-- another user's; else the session is revoked, keeps an earlier revocation's time, and its sockets
-- are cut off. No other session's row changes in either case.
pub revoke_exact :
    (user sid : Text) (now : ℕ) (w : World)
    → RevokeOutcome user sid now w (find (has_id sid) w.sessions) (revoke user sid now w)
unfolding revoke
revoke_exact user sid now w = elim (Option-cases (find (has_id sid) w.sessions)) [
  | inl e ↦ rw e (refl, refl)
  | inr (s, e) ↦ elim (Bool-cases (s.user_id == user)) [
    | inl own ↦
        rw (e, own)
          (
            refl,
            rw (disconnect_session-sessions sid) (marked_self sid now s w e),
            rw (disconnect_session-sockets sid sid) (ground arith),
            λ other ne. rw (disconnect_session-sessions sid) (marked_other sid other now s w ne),
          )
    | inr foreign ↦ rw (e, foreign) (refl, refl)
  ]
]
