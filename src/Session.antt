-- ===== src/Session.antt =====
-- server/src/services/session.service.ts, with the token pairs of server/src/utils/jwt.ts and
-- `disconnectSession` of server/src/socket/emitter.ts. The clock and the random identifiers are
-- arguments of each operation.

pub mod Effects
pub mod Frame
pub mod Rotation
pub mod Revocation
pub mod History
pub mod Tests
use najva_messenger.Base.{
  ℕ, ◌+◌, ◌*◌, String, Bool, true, false, ◌&&◌, not, Option, none, some, List, [], ◌∷◌, ◌++◌, map,
  Action, Result, ok, err, thrown, ◌>>=◌, ◌>>◌, pure, gets, or_throw, throw, throw_if, modify, find,
  select, exists, update, length, ltb, ◌==◌, if◌then◌else◌, is_some, is_none, is_some_of,
}
use najva_messenger.Store.{Text, World, Session, Socket, Emit}
use najva_messenger.Services.{Services, RefreshPayload}
use najva_messenger.Base.Order.{order_desc}

abbrev pub refresh_ttl_ms : ℕ
refresh_ttl_ms = 7 * 24 * 60 * 60 * 1000

pub record SessionMeta : Type 0 where
  pub user_agent : Option Text
  pub ip : Option Text
  pub device_name : Option Text

pub record Tokens : Type 0 where
  pub access_token : Text
  pub refresh_token : Text

abbrev pub has_id : Text → Session → Bool
has_id id s = s.id == id

-- `disconnectSession`: every socket bound to the session is told and cut off.
unfoldable pub disconnect_session : Text → World → World
disconnect_session session_id w = record w {
  sockets = select (λ k. not (k.session_id == session_id)) w.sockets;
  emitted =
      map (λ k. Emit.session_revoked k.id session_id)
        (select (λ k. k.session_id == session_id) w.sockets)
      ++ w.emitted;
}

-- `for (const s of sessions) disconnectSession(s.id)`
pub disconnect_all : List Session → World → World
disconnect_all [] w = w
disconnect_all (s ∷ ss) w = disconnect_all ss (disconnect_session s.id w)

-- `prisma.session.update({ where: { id }, data: { revokedAt: new Date() } })`
unfoldable pub revoke_row : Text → ℕ → World → World
revoke_row id now w = record w {
  sessions = update (has_id id) (λ s. record s { revoked_at = some now }) w.sessions;
}

abbrev pub is_live : ℕ → Session → Bool
is_live now s = is_none s.revoked_at && ltb now s.expires_at

-- The sessions that `revokeAllForUser` selects.
abbrev pub is_spared : Option Text → Text → Bool
is_spared none id = false
is_spared (some e) id = if e == 0 then false else id == e

abbrev pub is_target : Text → Option Text → Session → Bool
is_target user_id except s =
    s.user_id == user_id && is_none s.revoked_at && not (is_spared except s.id)

abbrev pub ids_of : List Session → List Text
ids_of = map (λ s. s.id)

-- What `list` shows of a session.
pub record SessionView : Type 0 where
  pub id : Text
  pub device_name : Option Text
  pub user_agent : Option Text
  pub ip : Option Text
  pub created_at : ℕ
  pub last_used_at : ℕ
  pub current : Bool

pub view : Option Text → Session → SessionView
view current s = record {
  id = s.id;
  device_name = s.device_name;
  user_agent = s.user_agent;
  ip = s.ip;
  created_at = s.created_at;
  last_used_at = s.last_used_at;
  current = is_some_of current s.id;
}

pub list : Text → Option Text → ℕ → World → List SessionView
list user_id current now w = map (view current) (
    order_desc (λ s. s.last_used_at)
      (select (λ s. s.user_id == user_id && is_live now s) w.sessions))

pub is_active : Text → ℕ → World → Bool
is_active session_id now w = elim (find (has_id session_id) w.sessions) [
  | none ↦ false
  | some s ↦ is_live now s
]

-- `updateMany` on the selected sessions, and their sockets cut off.
unfoldable pub revoke_targets : List Session → ℕ → Action World ℕ
unfolding disconnect_all
revoke_targets [] now w = (ok 0, w)
revoke_targets (s ∷ ss) now w = (
  ok (length (s ∷ ss)),
  disconnect_all (s ∷ ss) (record w {
    sessions =
        update (λ r. exists (λ i. i == r.id) (ids_of (s ∷ ss)))
          (λ r. record r { revoked_at = some now }) w.sessions;
  }),
)

-- Revokes every session of the user that is not revoked yet, but the spared one.
unfoldable pub revoke_all_for_user : Text → Option Text → ℕ → Action World ℕ
unfolding revoke_targets
revoke_all_for_user user_id except now w =
    revoke_targets (select (is_target user_id except) w.sessions) now w

pub revoke : Text → Text → ℕ → Action World (Unit {0})
unfolding disconnect_session revoke_row
revoke user_id session_id now = do
  session ← or_throw (find (has_id session_id) (← gets (λ w. w.sessions))) "Session not found" 404
  throw_if (not (session.user_id == user_id)) "Session not found" 404
  modify (λ w. if is_some session.revoked_at then w else revoke_row session_id now w)
  modify (disconnect_session session_id)

module _ (c : Services) where
  unfoldable pub hash_token : Text → Text
  hash_token = c.sha256

  unfoldable pub generate_tokens : Text → Text → ℕ → Text → Tokens
  generate_tokens user_id session_id now jti = record {
    access_token = c.sign_access now user_id session_id;
    refresh_token =
        c.sign_refresh now (record { user_id = user_id; session_id = session_id; jti = jti });
  }

  abbrev pub new_session : Text → SessionMeta → ℕ → Text → Tokens → Session
  new_session user_id meta now session_id tokens = record {
    id = session_id;
    user_id = user_id;
    refresh_token_hash = hash_token tokens.refresh_token;
    prev_token_hash = none;
    device_name = meta.device_name;
    user_agent = meta.user_agent;
    ip = meta.ip;
    created_at = now;
    last_used_at = now;
    expires_at = now + refresh_ttl_ms;
    revoked_at = none;
  }

  -- `session_id` and `jti` are the fresh random identifiers.
  unfoldable pub create : Text → SessionMeta → ℕ → Text → Text → Action World (Tokens × Text)
  unfolding hash_token generate_tokens
  create user_id meta now session_id jti w =
      let tokens = generate_tokens user_id session_id now jti in
      (
        ok (tokens, session_id),
        record w { sessions = new_session user_id meta now session_id tokens ∷ w.sessions },
      )

  abbrev rotate_row : Text → Text → ℕ → Session → Session
  rotate_row hash new_hash now s = record s {
    prev_token_hash = some hash;
    refresh_token_hash = new_hash;
    last_used_at = now;
    expires_at = now + refresh_ttl_ms;
  }

  -- The session is valid: rotate its current token, or treat any other as reuse.
  pub rotate_valid : Text → Session → ℕ → Text → Action World Tokens
  unfolding hash_token generate_tokens disconnect_session revoke_row
  rotate_valid refresh_token session now jti w =
      let hash = hash_token refresh_token in
      let tokens = generate_tokens session.user_id session.id now jti in
      if session.refresh_token_hash == hash
      then (
        ok tokens,
        record w {
          sessions =
              update (has_id session.id) (rotate_row hash (hash_token tokens.refresh_token) now)
                w.sessions;
        },
      )
      else (
        err (thrown "Refresh token reuse detected" 401),
        disconnect_session session.id (revoke_row session.id now w),
      )

  pub rotate : Text → ℕ → Text → Action World Tokens
  unfolding rotate_valid
  rotate refresh_token now jti = do
    decoded ← or_throw (c.verify_refresh now refresh_token) "Invalid refresh token" 401
    session ←
        or_throw (find (has_id decoded.session_id) (← gets (λ w. w.sessions))) "Invalid session" 401
    throw_if (is_some session.revoked_at) "Session revoked" 401
    throw_if (ltb session.expires_at now) "Session expired" 401
    rotate_valid refresh_token session now jti
