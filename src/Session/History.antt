-- ===== src/Session/History.antt =====
-- Histories of calls: a rotated token is good for one use, and a revocation is for ever.
use najva_messenger.Base.Tables.Laws.{find-update, find-holds}
use najva_messenger.Session.Revocation.{revoke_exact, revoked, revoke_targets-sessions, in_targets}
use mathlib.Core.Path.{subst, sym}
use najva_messenger.Base.{
  refl, none, some, map_option, select, Bool-cases, modify_if, Option-cases, err, ok, inl, thrown,
  ◌≤◌, inr, ◌==◌, if◌then◌else◌, ◌+◌, ==_iff,
}
use najva_messenger.Session.Effects.{
  find-own, has_socket, disconnect_session-sessions, disconnect_session-sockets, find-update_self,
}
use najva_messenger.Session.Rotation.{rotate_cases, rotate_valid-Rotates, rotate_ok, rotate_stale}
use najva_messenger.Services.{Services, RefreshPayload}
use najva_messenger.Session.{
  SessionMeta, create, revoke, revoke_all_for_user, rotate, has_id, is_active, Tokens, is_target,
  refresh_ttl_ms, rotate_row, hash_token, revoke_row, disconnect_session,
}
use najva_messenger.Base.{
  ℕ, ◌≡◌, Option, List, ◌∷◌, Bool, ◌≢◌, find, true, false, arith, [], some, is_some,
}
use najva_messenger.Store.{Text, World, Session}

-- The calls of the session service, with the time and the random values of each.
pub data Call : Type 0 where
  creates : (user : Text) (meta : SessionMeta) (now : ℕ) (session_id jti : Text) → Call
  rotates : (token : Text) (now : ℕ) (jti : Text) → Call
  revokes : (user session_id : Text) (now : ℕ) → Call
  revokes_all : (user : Text) (except : Option Text) (now : ℕ) → Call

-- A call that throws leaves behind what it wrote.
pub step : Services → World → Call → World
step c w (Call.creates user meta now session_id jti) = (create c user meta now session_id jti w).1
step c w (Call.rotates token now jti) = (rotate c token now jti w).1
step c w (Call.revokes user session_id now) = (revoke user session_id now w).1
step c w (Call.revokes_all user except now) = (revoke_all_for_user user except now w).1

pub run : Services → World → List Call → World
run c w [] = w
run c w (call ∷ calls) = run c (step c w call) calls

abbrev pub is_revoked_row : Option Session → Bool
is_revoked_row none = false
is_revoked_row (some s) = is_some s.revoked_at

unfoldable pub is_revoked : Text → World → Bool
is_revoked sid w = is_revoked_row (find (has_id sid) w.sessions)

-- No new session is given the identifier.
abbrev pub Avoids : Text → List Call → Type 0
Avoids sid [] = Unit {0}
Avoids sid (Call.creates user meta now session_id jti ∷ calls) =
    (session_id ≢ sid) × Avoids sid calls
Avoids sid (_ ∷ calls) = Avoids sid calls

create-is_revoked :
    (c : Services) (sid user : Text) (meta : SessionMeta) (now : ℕ) (session_id jti : Text)
    (w : World)
    → session_id ≢ sid
    → is_revoked sid w ≡ true
    → is_revoked sid (create c user meta now session_id jti w).1 ≡ true
unfolding create is_revoked find
create-is_revoked c sid user meta now session_id jti w ne h = ground arith

find-is_revoked :
    (sid : Text) (s : Session) (w : World)
    → find (has_id sid) w.sessions ≡ some s
    → is_revoked sid w ≡ is_some s.revoked_at
unfolding is_revoked
find-is_revoked sid s w e = rw e

rotate-is_revoked :
    (c : Services) (sid token : Text) (now : ℕ) (jti : Text) (w : World)
    → is_revoked sid w ≡ true
    → is_revoked sid (rotate c token now jti w).1 ≡ true
rotate-is_revoked c sid token now jti w h =
    rotate_cases c (λ r. is_revoked sid r.1 ≡ true) token now jti w (λ e. h)
      λ d s v e live early.
        let own = find-own d.session_id w.sessions s e in
        let kept = rotate_valid-Rotates c token now jti w s own in
        elim (Bool-cases (s.id == sid)) [
          | inl same ↦
              let p : s.id ≡ sid = (==_iff s.id sid).0 same in
              let own' = subst (λ i. find (has_id i) w.sessions ≡ some s) p own in
              cc (find-is_revoked sid s w own', live, h)
          | inr other ↦ unfold is_revoked in rw (kept.0 sid (ground arith)) h
        ]

stays_revoked :
    (now : ℕ) (s : Session)
    → is_revoked_row (some (if is_some s.revoked_at then s else revoked now s)) ≡ true
stays_revoked now s = ground arith

revoked_row_kept :
    (p : Session → Bool) (now : ℕ) (o : Option Session)
    → is_revoked_row o ≡ true
    → is_revoked_row (map_option (modify_if p (revoked now)) o) ≡ true
revoked_row_kept p now none h = h
revoked_row_kept p now (some s) h = ground arith

revoke-is_revoked :
    (sid user id : Text) (now : ℕ) (w : World)
    → is_revoked sid w ≡ true
    → is_revoked sid (revoke user id now w).1 ≡ true
unfolding is_revoked
revoke-is_revoked sid user id now w h =
    let done = revoke_exact user id now w in
    elim (Option-cases (find (has_id id) w.sessions)) [
      | inl e ↦ rw (rw e at done).1 h
      | inr (s, e) ↦ elim (Bool-cases (s.user_id == user)) [
        | inl own ↦ elim (Bool-cases (sid == id)) [
          | inl same ↦
              let p : id ≡ sid = sym ((==_iff sid id).0 same) in
              subst (λ i. is_revoked_row (find (has_id i) (revoke user id now w).1.sessions) ≡ true)
                p (rw ((rw (e, own) at done).1) (stays_revoked now s))
          | inr other ↦ rw ((rw (e, own) at done).3 sid (ground arith)) h
        ]
        | inr foreign ↦ rw ((rw (e, foreign) at done).1) h
      ]
    ]

revoke_all-is_revoked :
    (sid user : Text) (except : Option Text) (now : ℕ) (w : World)
    → is_revoked sid w ≡ true
    → is_revoked sid (revoke_all_for_user user except now w).1 ≡ true
unfolding revoke_all_for_user is_revoked
revoke_all-is_revoked sid user except now w h =
    let ts : List Session = select (is_target user except) w.sessions in
    rw
      (
        revoke_targets-sessions ts now w,
        find-update (has_id sid) (in_targets ts) (revoked now) w.sessions (λ x. refl),
      )
      (revoked_row_kept (in_targets ts) now (find (has_id sid) w.sessions) h)

step-is_revoked :
    (c : Services) (sid : Text) (w : World) (call : Call)
    → Avoids sid (call ∷ [])
    → is_revoked sid w ≡ true
    → is_revoked sid (step c w call) ≡ true
unfolding step
step-is_revoked c sid w (Call.creates user meta now session_id jti) a h =
    create-is_revoked c sid user meta now session_id jti w a.0 h
step-is_revoked c sid w (Call.rotates token now jti) a h = rotate-is_revoked c sid token now jti w h
step-is_revoked c sid w (Call.revokes user id now) a h = revoke-is_revoked sid user id now w h
step-is_revoked c sid w (Call.revokes_all user except now) a h =
    revoke_all-is_revoked sid user except now w h

Avoids-head :
    (sid : Text) (call : Call) (calls : List Call)
    → Avoids sid (call ∷ calls)
    → Avoids sid (call ∷ []) × Avoids sid calls
Avoids-head sid (Call.creates _ _ _ _ _) calls a = ((a.0, tt), a.1)
Avoids-head sid (Call.rotates _ _ _) calls a = (tt, a)
Avoids-head sid (Call.revokes _ _ _) calls a = (tt, a)
Avoids-head sid (Call.revokes_all _ _ _) calls a = (tt, a)

run-is_revoked :
    (c : Services) (sid : Text) (w : World) (calls : List Call)
    → Avoids sid calls
    → is_revoked sid w ≡ true
    → is_revoked sid (run c w calls) ≡ true
unfolding run
run-is_revoked c sid w [] a h = h
run-is_revoked c sid w (call ∷ calls) a h =
    let parts = Avoids-head sid call calls a in
    run-is_revoked c sid (step c w call) calls parts.1 (step-is_revoked c sid w call parts.0 h)

is_revoked-refused :
    (c : Services) (sid : Text) (w : World)
    → is_revoked sid w ≡ true
    → (now : ℕ) → is_active sid now w ≡ false
unfolding is_revoked is_active
is_revoked-refused c sid w h now = elim (Option-cases (find (has_id sid) w.sessions)) [
  | inl e ↦ rw (e, is_active)
  | inr (s, e) ↦ rw (e, is_active) (ground (arith, (rw e at h)))
]

rotate_revoked :
    (c : Services) (token : Text) (now : ℕ) (jti : Text) (w : World) (d : RefreshPayload)
    → c.verify_refresh now token ≡ some d
    → is_revoked d.session_id w ≡ true
    → rotate c token now jti w ≡ (err (thrown "Session revoked" 401), w)
unfolding rotate is_revoked
rotate_revoked c token now jti w d v h =
    elim (Option-cases (find (has_id d.session_id) w.sessions)) [
      | inl e ↦ absurd (cc (rw e at h))
      | inr (s, e) ↦ rw (v, e, (rw e at h))
    ]

-- A session that is revoked stays so: after any history of calls that gives no new session its
-- identifier, whatever tokens they present, it is not active at any time, and every token that
-- names it throws.
pub run_revoked :
    (c : Services) (sid : Text) (w : World) (calls : List Call)
    → Avoids sid calls
    → is_revoked sid w ≡ true
    → let w' = run c w calls in
      ((now : ℕ) → is_active sid now w' ≡ false)
      × ((token : Text) (now : ℕ) (jti : Text) (d : RefreshPayload)
          → c.verify_refresh now token ≡ some d
          → d.session_id ≡ sid
          → rotate c token now jti w' ≡ (err (thrown "Session revoked" 401), w'))
run_revoked c sid w calls a h =
    let h' = run-is_revoked c sid w calls a h in
    (
      is_revoked-refused c sid _ h',
      λ token now jti d v e.
          rotate_revoked c token now jti _ d v
            (subst (λ i. is_revoked i (run c w calls) ≡ true) (sym e) h'),
    )

revoke_row-is_revoked :
    (sid : Text) (now : ℕ) (s : Session) (w : World)
    → find (has_id sid) w.sessions ≡ some s
    → is_revoked sid (disconnect_session sid (revoke_row sid now w)) ≡ true
unfolding is_revoked revoke_row
revoke_row-is_revoked sid now s w e =
    rw (disconnect_session-sessions sid)
      (rw (find-update_self sid (revoked now) w.sessions (λ x. refl), e))

-- After a successful rotation the same token is good for nothing: within the session's new term it
-- throws "Refresh token reuse detected", and leaves the session revoked and with no live socket;
-- so the new tokens are dead as well. That hashes differ is what a fresh identifier in the new
-- token and a collision-free hash give.
pub rotate_once :
    (c : Services) (token : Text) (now : ℕ) (jti : Text) (w : World) {w1 : World} {tokens : Tokens}
    (d : RefreshPayload) (later : ℕ) (jti' : Text)
    → rotate c token now jti w ≡ (ok tokens, w1)
    → c.verify_refresh now token ≡ some d
    → c.verify_refresh later token ≡ some d
    → later ≤ now + refresh_ttl_ms
    → c.sha256 tokens.refresh_token ≢ c.sha256 token
    → let (r, w2) = rotate c token later jti' w1 in
      (r ≡ err (thrown "Refresh token reuse detected" 401))
      × (is_revoked d.session_id w2 ≡ true)
      × (has_socket d.session_id w2.sockets ≡ false)
rotate_once c token now jti w {w1} {tokens} d later jti' e v v' in_term differ =
    let facts = rotate_ok c token now jti w d e v in
    let s = facts.0 in
    let f : Session → Session =
      rotate_row c (hash_token c token) (hash_token c tokens.refresh_token) now in
    let gone =
      rotate_stale c token later jti' w1 d (f s) v' facts.4 facts.2 (ground arith)
        (unfold hash_token in differ) in
    let same : s.id ≡ d.session_id =
      (==_iff _ _).0 (find-holds (has_id d.session_id) w.sessions s facts.1) in
    let closed =
      subst
        (λ i. rotate c token later jti' w1 ≡ (
          err (thrown "Refresh token reuse detected" 401),
          disconnect_session i (revoke_row i later w1),
        ))
        same gone in
    rw closed (
      refl,
      revoke_row-is_revoked d.session_id later (f s) w1 facts.4,
      rw (disconnect_session-sockets d.session_id d.session_id) (ground arith),
    )
