-- ===== src/Webauthn/Challenges.antt =====
-- server/src/services/webauthn.service.ts: sequences of its calls that read or write the challenges
-- of logins.
use najva_messenger.Base.{
  All, ℕ, ◌≡◌, ◌≢◌, refl, inl, inr, ◌⊎◌, false, none, List, [], ◌∷◌, arith, find, select, exists,
  ◌==◌, is_some, Bool-cases, Option-cases, out-cases,
}
use najva_messenger.Store.{Text, World, Entry}
use najva_messenger.Store.Redis.{get, del, set}
use najva_messenger.Services.{Services}
use najva_messenger.Session.{SessionMeta}
use najva_messenger.Session.Frame.{create_lem}
use najva_messenger.Reset.{has_user_id}
use najva_messenger.Auth.{text_of, is_barred}
use najva_messenger.Webauthn.{
  Ceremonies, Purpose, AssertionData, challenges, with_challenges, is_credential, is_regression,
  can_recover, auth_options, assert_credential, login_verify, recover_verify,
}

-- The calls that issue a challenge or take one.
pub data Call : Type 0 where
  options : Purpose → (challenge challenge_id : Text) → (now : ℕ) → Call
  login : AssertionData → SessionMeta → (session jti : Text) → (now : ℕ) → Call
  recover : AssertionData → (token : Text) → (now : ℕ) → Call

-- A call does not issue a challenge for logins under the identifier.
abbrev pub Avoids : Text → Call → Type 0
Avoids id (Call.options Purpose.logging_in challenge challenge_id now) = challenge_id ≢ id
Avoids id _ = Unit {0}

-- No challenge for a login is kept under the identifier.
abbrev pub IsTaken : Text → World → Type 0
IsTaken id w = exists (λ x. x.key == id) w.login_challenges ≡ false

pub del-taken : (id : Text) (es : List (Entry Text)) → exists (λ x. x.key == id) (del id es) ≡ false
unfolding exists select
del-taken id [] = refl
del-taken id (x ∷ es) = ground (arith, del-taken id es)

del-stays :
    (id other : Text) (es : List (Entry Text))
    → exists (λ x. x.key == id) es ≡ false
    → exists (λ x. x.key == id) (del other es) ≡ false
unfolding exists select
del-stays id other [] h = refl
del-stays id other (x ∷ es) h = ground (arith, del-stays id other es)

set-stays :
    (id other challenge expires : Text) (es : List (Entry Text))
    → other ≢ id
    → exists (λ x. x.key == id) es ≡ false
    → exists (λ x. x.key == id) (set other challenge expires es) ≡ false
unfolding exists
set-stays id other challenge expires es ne h = ground (arith, del-stays id other es h)

pub taken-get :
    (id : Text) (now : ℕ) (es : List (Entry Text))
    → exists (λ x. x.key == id) es ≡ false
    → get id now es ≡ none
unfolding exists find
taken-get id now [] h = refl
taken-get id now (x ∷ es) h = ground (arith, taken-get id now es)

module _ (c : Services) (e : Ceremonies) where
  unfoldable pub run_calls : List Call → World → World
  run_calls [] w = w
  run_calls (Call.options purpose challenge challenge_id now ∷ cs) w =
      run_calls cs (auth_options purpose challenge challenge_id now w).1
  run_calls (Call.login d meta session jti now ∷ cs) w =
      run_calls cs (login_verify c e d meta session jti now w).1
  run_calls (Call.recover d token now ∷ cs) w = run_calls cs (recover_verify e d token now w).1

  -- An assertion leaves the store as it is, or takes the challenge that it names.
  assert_credential-store :
      (purpose : Purpose) (d : AssertionData) (now : ℕ) (w : World)
      → ((assert_credential e purpose d now w).1 ≡ w)
        ⊎ ((assert_credential e purpose d now w).1
            ≡ with_challenges purpose (del (text_of d.challenge_id) (challenges purpose w)) w)
  unfolding assert_credential
  assert_credential-store purpose d now w = elim (Bool-cases (is_some d.challenge_id)) [
    | inr bare ↦ rw bare (inl refl)
    | inl named ↦ elim (Bool-cases (is_some d.response)) [
      | inr empty ↦ rw (named, empty) (inl refl)
      | inl filled ↦ elim (Option-cases (get (text_of d.challenge_id) now (challenges purpose w))) [
        | inl expired ↦ rw (named, filled, expired) (inr refl)
        | inr (challenge, kept) ↦
            let w1 : World =
              with_challenges purpose (del (text_of d.challenge_id) (challenges purpose w)) w in
            elim (Option-cases
              (find (is_credential (e.credential_of (text_of d.response))) w1.credentials)) [
                | inl stranger ↦ rw (named, filled, kept, stranger) (inr refl)
                | inr (k, known) ↦
                    elim (Option-cases (e.verify_authentication (text_of d.response) challenge k)) [
                      | inl bad ↦ rw (named, filled, kept, known, bad) (inr refl)
                      | inr (n, good) ↦ elim (Bool-cases (is_regression k n)) [
                        | inl back ↦ rw (named, filled, kept, known, good, back) (inr refl)
                        | inr forth ↦ rw (named, filled, kept, known, good, forth) (inr refl)
                      ]
                    ]
              ]
      ]
    ]
  ]

  IsTaken-stays :
      (id : Text) (d : AssertionData) (w s : World)
      → IsTaken id w
      → (s ≡ w)
        ⊎ (s
            ≡ with_challenges Purpose.logging_in
                (del (text_of d.challenge_id) (challenges Purpose.logging_in w))
                w)
      → IsTaken id s
  IsTaken-stays id d w s h (inl same) = rw same h
  IsTaken-stays id d w s h (inr taken) =
      rw taken (del-stays id (text_of d.challenge_id) w.login_challenges h)

  login-IsTaken :
      (id : Text) (d : AssertionData) (meta : SessionMeta) (session jti : Text) (now : ℕ)
      (w : World)
      → IsTaken id w
      → IsTaken id (login_verify c e d meta session jti now w).1
  unfolding login_verify
  login-IsTaken id d meta session jti now w h =
      let store = assert_credential-store Purpose.logging_in d now w in
      elim (out-cases (assert_credential e Purpose.logging_in d now w)) [
        | inl (x, s, bad) ↦ rw bad (IsTaken-stays id d w s h (rw bad at store))
        | inr (a, s, good) ↦
            let kept = IsTaken-stays id d w s h (rw good at store) in
            elim (Option-cases (find (has_user_id a.cred.user_id) s.users)) [
              | inl orphan ↦ rw (good, orphan) kept
              | inr (u, owner) ↦ elim (Bool-cases (is_barred u)) [
                | inl barred ↦ rw (good, owner, barred) kept
                | inr free ↦ rw (good, owner, free, create_lem c u.id meta now session jti _) kept
              ]
            ]
      ]

  recover-IsTaken :
      (id : Text) (d : AssertionData) (token : Text) (now : ℕ) (w : World)
      → IsTaken id w
      → IsTaken id (recover_verify e d token now w).1
  unfolding recover_verify
  recover-IsTaken id d token now w h =
      let store = assert_credential-store Purpose.recovering d now w in
      elim (out-cases (assert_credential e Purpose.recovering d now w)) [
        | inl (x, s, bad) ↦ rw bad (unread s (rw bad at store))
        | inr (a, s, good) ↦
            let kept = unread s (rw good at store) in
            elim (Bool-cases (can_recover a.cred)) [
              | inr weak ↦ rw (good, weak) kept
              | inl strong ↦ rw (good, strong) kept
            ]
      ]
    where
      unread :
          (s : World)
          → (s ≡ w)
            ⊎ (s
                ≡ with_challenges Purpose.recovering
                    (del (text_of d.challenge_id) (challenges Purpose.recovering w))
                    w)
          → IsTaken id s
      unread s (inl same) = rw same h
      unread s (inr taken) = rw taken h

  pub run_calls-IsTaken :
      (id : Text) (cs : List Call) (w : World)
      → All (Avoids id) cs
      → IsTaken id w
      → IsTaken id (run_calls cs w)
  unfolding run_calls auth_options
  run_calls-IsTaken id [] w a h = h
  run_calls-IsTaken id (Call.options Purpose.logging_in challenge other now ∷ cs) w a h =
      run_calls-IsTaken id cs (auth_options Purpose.logging_in challenge other now w).1 a.1
        (set-stays id other challenge _ w.login_challenges a.0 h)
  run_calls-IsTaken id (Call.options Purpose.recovering challenge other now ∷ cs) w a h =
      run_calls-IsTaken id cs (auth_options Purpose.recovering challenge other now w).1 a.1 h
  run_calls-IsTaken id (Call.login d meta session jti now ∷ cs) w a h =
      run_calls-IsTaken id cs (login_verify c e d meta session jti now w).1 a.1
        (login-IsTaken id d meta session jti now w h)
  run_calls-IsTaken id (Call.recover d token now ∷ cs) w a h =
      run_calls-IsTaken id cs (recover_verify e d token now w).1 a.1
        (recover-IsTaken id d token now w h)
