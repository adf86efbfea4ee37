-- ===== src/Session/Effects.antt =====
-- What disconnecting sockets does to the store, and how rows are found in a table whose
-- identifiers are unique.
use najva_messenger.Base.Tables.Laws.{find-holds}
use mathlib.Core.Path.{subst, sym}
use najva_messenger.Base.{
  ◌≡◌, refl, inl, inr, Bool, false, not, none, some, List, [], ◌∷◌, arith, find, select, exists,
  ◌==◌, if◌then◌else◌, Bool-cases, update, map_option, ◌≢◌, ==_iff, ℕ, Option, ok,
}
use najva_messenger.Store.{Text, World, Session, Socket}
use najva_messenger.Session.{
  has_id, disconnect_session, disconnect_all, ids_of, revoke_targets, revoke_all_for_user, create,
  Services, SessionMeta, is_target, Tokens,
}

-- No two sessions share an identifier, as the primary key ensures.
abbrev pub IsUnique : List Session → Type 0
IsUnique [] = Unit
IsUnique (s ∷ ss) = (find (has_id s.id) ss ≡ none) × IsUnique ss

-- A live socket is bound to the session.
pub has_socket : Text → List Socket → Bool
has_socket sid = exists (λ k. k.session_id == sid)

pub disconnect_session-sessions :
    (id : Text) (w : World) → (disconnect_session id w).sessions ≡ w.sessions
unfolding disconnect_session
disconnect_session-sessions id w = refl

pub disconnect_all-sessions :
    (ss : List Session) (w : World) → (disconnect_all ss w).sessions ≡ w.sessions
unfolding disconnect_all disconnect_session
disconnect_all-sessions [] w = refl
disconnect_all-sessions (s ∷ ss) w = disconnect_all-sessions ss (disconnect_session s.id w)

has_socket-select :
    (sid id : Text) (ks : List Socket)
    → has_socket sid (select (λ k. not (k.session_id == id)) ks)
      ≡ (if id == sid then false else has_socket sid ks)
unfolding has_socket select exists
has_socket-select sid id [] = ground arith
has_socket-select sid id (k ∷ ks) = ground (arith, has_socket-select sid id ks)

pub disconnect_session-sockets :
    (sid id : Text) (w : World)
    → has_socket sid (disconnect_session id w).sockets
      ≡ (if id == sid then false else has_socket sid w.sockets)
unfolding disconnect_session
disconnect_session-sockets sid id w = has_socket-select sid id w.sockets

pub disconnect_all-sockets :
    (sid : Text) (ss : List Session) (w : World)
    → has_socket sid (disconnect_all ss w).sockets
      ≡ (if exists (λ i. i == sid) (ids_of ss) then false else has_socket sid w.sockets)
unfolding disconnect_all exists
disconnect_all-sockets sid [] w = refl
disconnect_all-sockets sid (s ∷ ss) w = ground (
  arith,
  disconnect_all-sockets sid ss (disconnect_session s.id w),
  disconnect_session-sockets sid s.id w,
)

select-absent :
    (sid : Text) (t : Session → Bool) (xs : List Session)
    → find (has_id sid) xs ≡ none
    → exists (λ i. i == sid) (ids_of (select t xs)) ≡ false
unfolding find select exists
select-absent sid t [] e = refl
select-absent sid t (x ∷ xs) e = ground (arith, select-absent sid t xs)

-- A session is among the selected ones exactly when its row passes the test.
pub select-find :
    (sid : Text) (t : Session → Bool) (xs : List Session) (r : Session)
    → IsUnique xs
    → find (has_id sid) xs ≡ some r
    → exists (λ i. i == sid) (ids_of (select t xs)) ≡ t r
unfolding find select exists
select-find sid t [] r u e = cc
select-find sid t (x ∷ xs) r u e = elim (Bool-cases (x.id == sid)) [
  | inl hit ↦ ground (arith, hit, select-absent sid t xs, u.0)
  | inr miss ↦ ground (arith, miss, select-find sid t xs r u.1)
]

-- An update of one row by its identifier: that row changes, and no other.
pub find-update_self :
    (sid : Text) (f : Session → Session) (xs : List Session)
    → ((s : Session) → (f s).id ≡ s.id)
    → find (has_id sid) (update (has_id sid) f xs) ≡ map_option f (find (has_id sid) xs)
unfolding find update
find-update_self sid f [] keep = refl
find-update_self sid f (x ∷ xs) keep = ground (arith, keep x, find-update_self sid f xs keep)

pub find-update_ne :
    (other sid : Text) (f : Session → Session) (xs : List Session)
    → ((s : Session) → (f s).id ≡ s.id)
    → other ≢ sid
    → find (has_id other) (update (has_id sid) f xs) ≡ find (has_id other) xs
unfolding find update
find-update_ne other sid f [] keep ne = refl
find-update_ne other sid f (x ∷ xs) keep ne =
    ground (arith, keep x, find-update_ne other sid f xs keep ne)

-- A row that is found stands under its own identifier.
pub find-own :
    (sid : Text) (xs : List Session) (s : Session)
    → find (has_id sid) xs ≡ some s
    → find (has_id s.id) xs ≡ some s
find-own sid xs s e =
    let same : sid ≡ s.id = sym ((==_iff s.id sid).0 (find-holds (has_id sid) xs s e)) in
    subst (λ i. find (has_id i) xs ≡ some s) same e

-- The resets are no part of what the session service writes.
disconnect_all-resets : (ss : List Session) (w : World) → (disconnect_all ss w).resets ≡ w.resets
unfolding disconnect_all disconnect_session
disconnect_all-resets [] w = refl
disconnect_all-resets (s ∷ ss) w = disconnect_all-resets ss (disconnect_session s.id w)

revoke_targets-resets :
    (ts : List Session) (now : ℕ) (w : World)
    → (n : ℕ) × (w' : World) × (revoke_targets ts now w ≡ (ok n, w')) × (w'.resets ≡ w.resets)
unfolding revoke_targets
revoke_targets-resets [] now w = (_, _, refl, refl)
revoke_targets-resets (s ∷ ss) now w = (_, _, refl, disconnect_all-resets (s ∷ ss) _)

pub revoke_all_for_user-resets :
    (user : Text) (except : Option Text) (now : ℕ) (w : World)
    → (n : ℕ) × (w' : World) × (revoke_all_for_user user except now w ≡ (ok n, w'))
      × (w'.resets ≡ w.resets)
unfolding revoke_all_for_user
revoke_all_for_user-resets user except now w =
    revoke_targets-resets (select (is_target user except) w.sessions) now w

pub create-resets :
    (c : Services) (user : Text) (meta : SessionMeta) (now : ℕ) (session jti : Text) (w : World)
    → (t : Tokens) × (w' : World) × (create c user meta now session jti w ≡ (ok (t, session), w'))
      × (w'.resets ≡ w.resets)
unfolding create
create-resets c user meta now session jti w = (_, _, refl, refl)
