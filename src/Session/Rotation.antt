-- ===== src/Session/Rotation.antt =====
-- Refresh rotation with reuse detection.
use mathlib.Core.Path.{subst, ap}
use najva_messenger.Base.{
  ◌+◌, ℕ, ◌≤◌, ◌≡◌, ◌≢◌, refl, sym, inl, inr, false, Option, none, some, arith, Result, ok, err,
  thrown, find, ltb, ◌==◌, ==_refl, is_some, if◌then◌else◌, Bool-cases, Option-cases, Error, ==_iff,
  ◌∙◌,
}
use najva_messenger.Base.Tables.Laws.{find-holds}
use najva_messenger.Store.{Text, World, Session}
use najva_messenger.Services.{Services, RefreshPayload}
use najva_messenger.Session.{
  Tokens, has_id, disconnect_session, revoke_row, hash_token, generate_tokens, rotate_row,
  rotate_valid, rotate,
}
use najva_messenger.Session.Effects.{
  has_socket, disconnect_session-sessions, disconnect_session-sockets, find-update_self,
  find-update_ne, find-own,
}
use najva_messenger.Session.Revocation.{revoked}

-- The four checks before a token is compared, in their order.
pub data Check : Type 0 where
  invalid_token invalid_session session_revoked session_expired : Check
  valid : Session → Check

abbrev session_of : Option RefreshPayload → Text
session_of none = 0
session_of (some d) = d.session_id

module _ (c : Services) where
  abbrev check_row : ℕ → Option Session → Check
  check_row now none = Check.invalid_session
  check_row now (some s) =
      if is_some s.revoked_at
      then Check.session_revoked
      else if ltb s.expires_at now
      then Check.session_expired
      else Check.valid s

  abbrev check_payload : ℕ → World → Option RefreshPayload → Check
  check_payload now w none = Check.invalid_token
  check_payload now w (some d) = check_row now (find (has_id d.session_id) w.sessions)

  abbrev pub check : Text → ℕ → World → Check
  check token now w = check_payload now w (c.verify_refresh now token)

  -- What is promised of a rotation, by the outcome of the checks.
  abbrev pub Rotates : Text → ℕ → Text → World → Check → Result Tokens × World → Type 0
  Rotates token now jti w Check.invalid_token (r, w') =
      (r ≡ err (thrown "Invalid refresh token" 401)) × (w' ≡ w)
  Rotates token now jti w Check.invalid_session (r, w') =
      (r ≡ err (thrown "Invalid session" 401)) × (w' ≡ w)
  Rotates token now jti w Check.session_revoked (r, w') =
      (r ≡ err (thrown "Session revoked" 401)) × (w' ≡ w)
  Rotates token now jti w Check.session_expired (r, w') =
      (r ≡ err (thrown "Session expired" 401)) × (w' ≡ w)
  Rotates token now jti w (Check.valid s) (r, w') =
      ((other : Text)
        → other ≢ s.id
        → find (has_id other) w'.sessions ≡ find (has_id other) w.sessions)
      × (if s.refresh_token_hash == hash_token c token
          then (let tokens = generate_tokens c s.user_id s.id now jti in
              (r ≡ ok tokens)
              × (find (has_id s.id) w'.sessions
                  ≡ some (record s {
                    prev_token_hash = some (c.sha256 token);
                    refresh_token_hash = c.sha256 tokens.refresh_token;
                    last_used_at = now;
                    expires_at = now + 604800000;
                  }))
              × (w'.sockets ≡ w.sockets))
          else ((r ≡ err (thrown "Refresh token reuse detected" 401))
              × (find (has_id s.id) w'.sessions ≡ some (revoked now s))
              × (has_socket s.id w'.sockets ≡ false)
              × ((other : Text)
                  → other ≢ s.id
                  → has_socket other w'.sockets ≡ has_socket other w.sockets)))

  pub rotate_valid-Rotates :
      (token : Text) (now : ℕ) (jti : Text) (w : World) (s : Session)
      → find (has_id s.id) w.sessions ≡ some s
      → Rotates token now jti w (Check.valid s) (rotate_valid c token s now jti w)
  unfolding rotate_valid hash_token
  rotate_valid-Rotates token now jti w s e =
      let f : Session → Session =
        rotate_row c (hash_token c token)
          (hash_token c (generate_tokens c s.user_id s.id now jti).refresh_token) now in
      elim (Bool-cases (s.refresh_token_hash == hash_token c token)) [
        | inl current ↦ rw current (
          λ other ne. find-update_ne other s.id f w.sessions (λ r. refl) ne,
          (refl, rw (find-update_self s.id f w.sessions (λ r. refl), e), refl),
        )
        | inr stale ↦ rw stale (
          λ other ne.
              rw (disconnect_session-sessions s.id)
                (find-update_ne other s.id (revoked now) w.sessions (λ r. refl) ne),
          (
            refl,
            rw (disconnect_session-sessions s.id)
                (rw (find-update_self s.id (revoked now) w.sessions (λ r. refl), e)),
            rw (disconnect_session-sockets s.id s.id) (ground arith),
            λ other ne. rw (disconnect_session-sockets other s.id) (ground (arith, ne)),
          ),
        )
      ]

  -- Every outcome of `rotate`: the checks come in the order token, session, revocation, expiry, and
  -- a failed one throws its error and changes nothing. Then the current token is replaced and moved
  -- to the previous one, with a term of seven days, and any other token revokes the session, cuts off
  -- its sockets, keeps those of other sessions, and throws. In both cases no other session's row
  -- changes.
  pub rotate_outcomes :
      (token : Text) (now : ℕ) (jti : Text) (w : World)
      → Rotates token now jti w (check token now w) (rotate c token now jti w)
  unfolding rotate
  rotate_outcomes token now jti w = elim (Option-cases (c.verify_refresh now token)) [
    | inl e ↦ rw e (refl, refl)
    | inr (d, e) ↦ rw e (elim (Option-cases (find (has_id d.session_id) w.sessions)) [
      | inl e' ↦ rw e' (refl, refl)
      | inr (s, e') ↦ rw e' (elim (Bool-cases (is_some s.revoked_at)) [
        | inl gone ↦ rw gone (refl, refl)
        | inr here ↦ rw here (elim (Bool-cases (ltb s.expires_at now)) [
          | inl late ↦ rw late (refl, refl)
          | inr early ↦
              rw early
                (rotate_valid-Rotates token now jti w s (find-own d.session_id w.sessions s e'))
        ])
      ])
    ])
  ]

  -- A rotation either fails its checks, or goes on with a valid session.
  pub rotate_cases {ℓ} :
      (P : Result Tokens × World → Type ℓ) (token : Text) (now : ℕ) (jti : Text) (w : World)
      → ((e : Error) → P (err e, w))
      → ((d : RefreshPayload) (s : Session)
          → c.verify_refresh now token ≡ some d
          → find (has_id d.session_id) w.sessions ≡ some s
          → is_some s.revoked_at ≡ false
          → ltb s.expires_at now ≡ false
          → P (rotate_valid c token s now jti w))
      → P (rotate c token now jti w)
  unfolding rotate
  rotate_cases P token now jti w failed goes_on = elim (Option-cases (c.verify_refresh now token)) [
    | inl e ↦ rw e (failed _)
    | inr (d, e) ↦ rw e (elim (Option-cases (find (has_id d.session_id) w.sessions)) [
      | inl e' ↦ rw e' (failed _)
      | inr (s, e') ↦ rw e' (elim (Bool-cases (is_some s.revoked_at)) [
        | inl gone ↦ rw gone (failed _)
        | inr here ↦ rw here (elim (Bool-cases (ltb s.expires_at now)) [
          | inl late ↦ rw late (failed _)
          | inr early ↦ rw early (goes_on d s e e' here early)
        ])
      ])
    ])
  ]

  -- A token that verifies, and whose session is there, not revoked and not expired, is accepted
  -- where its hash is the stored one: the result is a new token pair of the session's user.
  pub rotate_accepts :
      (token : Text) (now : ℕ) (jti : Text) (w : World) (d : RefreshPayload) (s : Session)
      → c.verify_refresh now token ≡ some d
      → find (has_id d.session_id) w.sessions ≡ some s
      → is_some s.revoked_at ≡ false
      → now ≤ s.expires_at
      → s.refresh_token_hash ≡ hash_token c token
      → (rotate c token now jti w).0 ≡ ok (generate_tokens c s.user_id s.id now jti)
  unfolding rotate rotate_valid
  rotate_accepts token now jti w d s v e live early same =
      rw (v, e, live) (ground (arith, ==_refl (hash_token c token)))

  -- Any other token of a live session is reuse.
  pub rotate_stale :
      (token : Text) (now : ℕ) (jti : Text) (w : World) (d : RefreshPayload) (s : Session)
      → c.verify_refresh now token ≡ some d
      → find (has_id d.session_id) w.sessions ≡ some s
      → is_some s.revoked_at ≡ false
      → now ≤ s.expires_at
      → s.refresh_token_hash ≢ hash_token c token
      → rotate c token now jti w ≡ (
        err (thrown "Refresh token reuse detected" 401),
        disconnect_session s.id (revoke_row s.id now w),
      )
  unfolding rotate rotate_valid
  rotate_stale token now jti w d s v e live early other = rw (v, e, live) (ground arith)

  rotate_valid_ok :
      (token : Text) (now : ℕ) (jti : Text) (w : World) {w1 : World} {tokens : Tokens} (s : Session)
      → rotate_valid c token s now jti w ≡ (ok tokens, w1)
      → find (has_id s.id) w.sessions ≡ some s
      → (s.refresh_token_hash ≡ hash_token c token)
        × (find (has_id s.id) w1.sessions
            ≡ some (rotate_row c (hash_token c token) (hash_token c tokens.refresh_token) now s))
  unfolding rotate_valid
  rotate_valid_ok token now jti w s good e =
      let f : Session → Session =
        rotate_row c (hash_token c token)
          (hash_token c (generate_tokens c s.user_id s.id now jti).refresh_token) now in
      elim (Bool-cases (s.refresh_token_hash == hash_token c token)) [
        | inl current ↦
            let done = rw current at good in
            (
              (==_iff _ _).0 current,
              ground (arith, done, find-update_self s.id f w.sessions (λ r. refl), e),
            )
        | inr stale ↦ absurd (cc (rw stale at good))
      ]

  -- What a rotation that returns has found and done.
  pub rotate_ok :
      (token : Text) (now : ℕ) (jti : Text) (w : World) {w1 : World} {tokens : Tokens}
      (d : RefreshPayload)
      → rotate c token now jti w ≡ (ok tokens, w1)
      → c.verify_refresh now token ≡ some d
      → (s : Session) × (find (has_id d.session_id) w.sessions ≡ some s)
        × (is_some s.revoked_at ≡ false)
        × (s.refresh_token_hash ≡ hash_token c token)
        × (find (has_id d.session_id) w1.sessions
            ≡ some (rotate_row c (hash_token c token) (hash_token c tokens.refresh_token) now s))
  rotate_ok token now jti w {w1} {tokens} d e v =
      rotate_cases
        (λ r.
          r ≡ (ok tokens, w1)
          → (s : Session) × (find (has_id d.session_id) w.sessions ≡ some s)
            × (is_some s.revoked_at ≡ false)
            × (s.refresh_token_hash ≡ hash_token c token)
            × (find (has_id d.session_id) w1.sessions
                ≡ some
                    (rotate_row c (hash_token c token) (hash_token c tokens.refresh_token) now s)))
        token now jti w (λ x bad. absurd (cc bad))
        (λ d' s v' e' live early good.
          let same : s.id ≡ d.session_id =
            (==_iff _ _).0 (find-holds (has_id d'.session_id) w.sessions s e')
            ∙ ap (λ o. session_of o) (sym v' ∙ v) in
          let own = find-own d'.session_id w.sessions s e' in
          let done = rotate_valid_ok token now jti w s good own in
          (
            s,
            subst (λ i. find (has_id i) w.sessions ≡ some s) same own,
            live,
            done.0,
            subst
                (λ i.
                  find (has_id i) w1.sessions
                  ≡ some
                      (rotate_row c (hash_token c token) (hash_token c tokens.refresh_token) now s))
                same done.1,
          ))
        e
