-- ===== src/Session/Frame.antt =====
-- What the session service leaves alone: revoking sessions writes the sessions, the sockets and
-- what is emitted, and nothing else.
use najva_messenger.Base.{length, ℕ, ◌≡◌, refl, ap, List, [], ◌∷◌, Option, ok, select}
use najva_messenger.Store.{Text, World, Session, Socket, Emit}
use najva_messenger.Services.{Services}
use najva_messenger.Session.{
  SessionMeta, disconnect_session, disconnect_all, revoke_targets, revoke_all_for_user, is_target,
  create, new_session, generate_tokens,
}

-- The same but for sessions, sockets and emitted events.
abbrev pub with_sessions : World → List Session → List Socket → List Emit → World
with_sessions w ss ks es = record w { sessions = ss; sockets = ks; emitted = es }

disconnect_all-frame :
    (ss : List Session) (w : World)
    → (ks : List Socket) × (es : List Emit) × (disconnect_all ss w
        ≡ with_sessions w w.sessions ks es)
unfolding disconnect_all disconnect_session
disconnect_all-frame [] w = (w.sockets, w.emitted, refl)
disconnect_all-frame (s ∷ ss) w =
    let rest = disconnect_all-frame ss (disconnect_session s.id w) in (rest.0, rest.1, rest.2)

revoke_targets-frame :
    (ts : List Session) (now : ℕ) (w : World)
    → (n : ℕ) × (ss : List Session) × (ks : List Socket) × (es : List Emit) × (revoke_targets ts now
          w
        ≡ (ok n, with_sessions w ss ks es))
unfolding revoke_targets
revoke_targets-frame [] now w = (0, w.sessions, w.sockets, w.emitted, refl)
revoke_targets-frame (s ∷ ss) now w =
    let rest = disconnect_all-frame (s ∷ ss) _ in
    (_, _, rest.0, rest.1, ap (λ v. (ok (length (s ∷ ss)), v)) rest.2)

pub revoke_all_for_user-frame :
    (user : Text) (except : Option Text) (now : ℕ) (w : World)
    → (n : ℕ) × (ss : List Session) × (ks : List Socket) × (es : List Emit) × (revoke_all_for_user
          user except now w
        ≡ (ok n, with_sessions w ss ks es))
unfolding revoke_all_for_user
revoke_all_for_user-frame user except now w =
    revoke_targets-frame (select (is_target user except) w.sessions) now w

pub create_lem :
    (c : Services) (user : Text) (meta : SessionMeta) (now : ℕ) (session jti : Text) (w : World)
    → let tokens = generate_tokens c user session now jti in
      create c user meta now session jti w ≡ (
        ok (tokens, session),
        record w { sessions = new_session c user meta now session tokens ∷ w.sessions },
      )
unfolding create
create_lem c user meta now session jti w = refl
