-- ===== src/Webauthn/Ceremony.antt =====
-- A login by a passkey: what it has shown, and that its challenge is good once.
use mathlib.Core.Path.{subst}
use najva_messenger.Base.{
  All, exists, out-cases, ℕ, ◌≡◌, refl, sym, ◌∙◌, ap, inl, inr, true, false, Option, none, some,
  List, [], ◌∷◌, ok, err, thrown, find, update, map_option, is_some, Bool-cases, Option-cases,
  ok-inj, arith, ◌==◌, if◌then◌else◌,
}
use najva_messenger.Store.{Text, World, User, Credential}
use najva_messenger.Store.Redis.{get, del}
use najva_messenger.Services.{Services}
use najva_messenger.Session.{SessionMeta, Tokens, generate_tokens}
use najva_messenger.Session.Frame.{create_lem}
use najva_messenger.Reset.{has_user_id}
use najva_messenger.Auth.{text_of, is_barred}
use najva_messenger.Webauthn.Challenges.{
  Call, Avoids, run_calls, del-taken, taken-get, run_calls-IsTaken,
}
use najva_messenger.Webauthn.{
  Asserted, Ceremonies, Purpose, AssertionData, is_credential, has_row_id, is_regression, used,
  assert_credential, login_verify,
}

-- A row's counter and time of use after the use of the credential with an identifier.
abbrev pub after_use : Text → ℕ → ℕ → Text → Credential → Credential
after_use used_id n now id k =
    if used_id == id then record k { counter = n; last_used_at = some now } else k

find-used :
    (used_id id : Text) (n now : ℕ) (ks : List Credential)
    → find (has_row_id id) (update (has_row_id used_id) (used n now) ks)
      ≡ map_option (after_use used_id n now id) (find (has_row_id id) ks)
unfolding find update
find-used used_id id n now [] = refl
find-used used_id id n now (k ∷ ks) = ground (arith, find-used used_id id n now ks)

module _ (c : Services) (e : Ceremonies) where
  -- What an accepted assertion has shown of its challenge and its credential.
  abbrev pub Shown : AssertionData → ℕ → World → Text → Credential → ℕ → Type 0
  Shown d now w challenge k n =
      (get (text_of d.challenge_id) now w.login_challenges ≡ some challenge)
      × (find (is_credential (e.credential_of (text_of d.response))) w.credentials ≡ some k)
      × (e.verify_authentication (text_of d.response) challenge k ≡ some n)
      × (is_regression k n ≡ false)

  -- What an accepted assertion has shown, and the store that it leaves.
  assert_credential-ok :
      (d : AssertionData) (now : ℕ) (w w1 : World) (a : Asserted)
      → assert_credential e Purpose.logging_in d now w ≡ (ok a, w1)
      → (is_some d.challenge_id ≡ true)
        × ((challenge : Text) × Shown d now w challenge a.cred a.new_counter)
        × (w1 ≡ record w { login_challenges = del (text_of d.challenge_id) w.login_challenges })
  unfolding assert_credential
  assert_credential-ok d now w w1 a p = elim (Bool-cases (is_some d.challenge_id)) [
    | inr bare ↦ absurd (cc (rw bare at p))
    | inl named ↦ elim (Bool-cases (is_some d.response)) [
      | inr empty ↦ absurd (cc (rw (named, empty) at p))
      | inl filled ↦ elim (Option-cases (get (text_of d.challenge_id) now w.login_challenges)) [
        | inl expired ↦ absurd (cc (rw (named, filled, expired) at p))
        | inr (challenge, kept) ↦
            let p' = rw (named, filled, kept) at p in
            elim (Option-cases
              (find (is_credential (e.credential_of (text_of d.response))) w.credentials)) [
                | inl stranger ↦ absurd (cc (rw stranger at p'))
                | inr (k, known) ↦
                    elim (Option-cases (e.verify_authentication (text_of d.response) challenge k)) [
                      | inl bad ↦ absurd (cc (rw (known, bad) at p'))
                      | inr (n, good) ↦ elim (Bool-cases (is_regression k n)) [
                        | inl back ↦ absurd (cc (rw (known, good, back) at p'))
                        | inr forth ↦
                            let out = ok-inj (rw (known, good, forth) at p') in
                            (
                              named,
                              subst
                                  (λ (x : Asserted).
                                    (y : Text) × Shown d now w y x.cred x.new_counter)
                                  out.0 (challenge, (kept, known, good, forth)),
                              sym out.1,
                            )
                      ]
                    ]
              ]
      ]
    ]
  ]

  -- An assertion for a challenge that is not waiting.
  login_verify-expired :
      (id : Option Text) (response : Text) (meta : SessionMeta) (session jti : Text) (later : ℕ)
      (w : World)
      → is_some id ≡ true
      → get (text_of id) later w.login_challenges ≡ none
      → (login_verify c e
          (record { challenge_id = id; response = some response })
          meta
          session
          jti
          later
          w).0
        ≡ err (thrown "Login challenge expired" 400)
  unfolding login_verify assert_credential
  login_verify-expired id response meta session jti later w named gone = rw (named, gone) refl

  -- What `loginVerify` ensures where it returns: the challenge was waiting, the credential that the
  -- response names is known and the response verifies for it, its counter has not gone back, and
  -- the owner is neither blocked nor suspended; the tokens are the owner's, and the row of the
  -- credential has the new counter and time of use, while every other credential's row is as it was.
  -- After any further calls that issue or take challenges, none of which issues one for logins under
  -- the same identifier, a login for that challenge gets "Login challenge expired".
  pub login_verify_sound :
      (d : AssertionData) (meta : SessionMeta) (session jti : Text) (now : ℕ) (w w' : World)
      (t : Tokens) (calls : List Call) (response : Text) (meta' : SessionMeta)
      (session' jti' : Text) (later : ℕ)
      → login_verify c e d meta session jti now w ≡ (ok t, w')
      → All (Avoids (text_of d.challenge_id)) calls
      → ((challenge : Text) × (k : Credential) × (n : ℕ) × (u : User) × Shown d now w challenge k n
          × (find (has_user_id k.user_id) w.users ≡ some u)
          × (is_barred u ≡ false)
          × (t ≡ generate_tokens c u.id session now jti)
          × ((id : Text)
              → find (has_row_id id) w'.credentials
                ≡ map_option (after_use k.id n now id) (find (has_row_id id) w.credentials)))
        × ((login_verify c e
              (record { challenge_id = d.challenge_id; response = some response })
              meta'
              session'
              jti'
              later
              (run_calls c e calls w')).0
            ≡ err (thrown "Login challenge expired" 400))
  unfolding login_verify
  login_verify_sound d meta session jti now w w' t calls response meta' session' jti' later p
        avoids =
      elim (out-cases (assert_credential e Purpose.logging_in d now w)) [
        | inl (x, s, bad) ↦ absurd (cc (rw bad at p))
        | inr (a, w1, good) ↦
            let shown = assert_credential-ok d now w w1 a good in
            let p' = rw (good, shown.2) at p in
            elim (Option-cases (find (has_user_id a.cred.user_id) w.users)) [
              | inl orphan ↦ absurd (cc (rw orphan at p'))
              | inr (u, owner) ↦ elim (Bool-cases (is_barred u)) [
                | inl barred ↦ absurd (cc (rw (owner, barred) at p'))
                | inr free ↦
                    let out =
                      ok-inj (rw (owner, free, create_lem c u.id meta now session jti _) at p') in
                    (
                      (
                        shown.1.0,
                        a.cred,
                        a.new_counter,
                        u,
                        shown.1.1,
                        owner,
                        free,
                        sym out.0,
                        λ id.
                            ap (λ (v : World). find (has_row_id id) v.credentials) (sym out.1)
                            ∙ find-used a.cred.id id a.new_counter now w.credentials,
                      ),
                      login_verify-expired d.challenge_id response meta' session' jti' later
                          (run_calls c e calls w') shown.0
                          (taken-get (text_of d.challenge_id) later
                            (run_calls c e calls w').login_challenges
                            (run_calls-IsTaken c e (text_of d.challenge_id) calls w' avoids (
                              ap
                                (λ (v : World).
                                  exists (λ x. x.key == text_of d.challenge_id) v.login_challenges)
                                (sym out.1)
                              ∙ del-taken (text_of d.challenge_id) w.login_challenges))),
                    )
              ]
            ]
      ]
