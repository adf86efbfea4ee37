-- ===== src/Auth/Verify.antt =====
-- Which submissions `recoverVerify` accepts.
use najva_messenger.Base.Tables.Laws.{All-Among, exists-Among, Among-exists}
use najva_messenger.Base.{
  true-both, arith, All, Among, sym, ◌≢◌, ◌↔◌, ==_iff, is_none, replicate, ℕ, ◌≡◌, refl, ◌∙◌, inl,
  inr, Bool, true, false, not, ◌&&◌, ◌||◌, Option, none, some, List, [], ◌∷◌, Result, ok, err,
  exists, select, length, is_some, Bool-cases, Option-cases, ◌==◌, ==_refl,
}
use najva_messenger.Store.{Text, World, User, RecoveryCode}
use najva_messenger.Auth.{Drawn, find_by_name}
use najva_messenger.Auth.Recovery.{
  Hex, same_bytes, safe_hex, is_unused_of, matches, last_match, recover_verify,
}

both-true : (a b : Bool) → a ≡ true → b ≡ true → (a && b) ≡ true
both-true a b p q = rw (p, q) refl

same_bytes_refl : (a : List ℕ) → same_bytes a a ≡ true
unfolding same_bytes
same_bytes_refl [] = refl
same_bytes_refl (x ∷ xs) = rw (==_refl x, same_bytes_refl xs)

same_bytes_sound : (a b : List ℕ) → same_bytes a b ≡ true → a ≡ b
unfolding same_bytes
same_bytes_sound [] [] e = refl
same_bytes_sound [] (y ∷ ys) e = absurd (cc e)
same_bytes_sound (x ∷ xs) [] e = absurd (cc e)
same_bytes_sound (x ∷ xs) (y ∷ ys) e =
    let parts = true-both (x == y) (same_bytes xs ys) e in
    cc ((==_iff x y).0 parts.0, same_bytes_sound xs ys parts.1)

code-unused :
    (u : User) (k : RecoveryCode)
    → is_unused_of u.id k ≡ true
    → (k.user_id ≡ u.id) × (k.used_at ≡ none)
code-unused u k e =
    let parts = true-both (k.user_id == u.id) (is_none k.used_at) e in
    ((==_iff k.user_id u.id).0 parts.0, none-of k.used_at parts.1)
  where
    none-of : (o : Option ℕ) → is_none o ≡ true → o ≡ none
    none-of none e = refl
    none-of (some t) e = absurd (cc e)

unused-code :
    (u : User) (k : RecoveryCode) → k.user_id ≡ u.id → k.used_at ≡ none → is_unused_of u.id k ≡ true
unused-code u k owner unused = rw (owner, unused) (ground arith)

abbrev pub is_ok : {A : Type 0} → Result A → Bool
is_ok (ok a) = true
is_ok (err e) = false

module _ (h : Hex) where
  last_match-is_some :
      (verifier : Option Text) (ks : List RecoveryCode) (found : Option RecoveryCode)
      → is_some (last_match h verifier ks found) ≡ (is_some found || exists (matches h verifier) ks)
  unfolding last_match exists
  last_match-is_some verifier [] none = refl
  last_match-is_some verifier [] (some k) = refl
  last_match-is_some verifier (k ∷ ks) found = elim (Bool-cases (matches h verifier k)) [
    | inl hit ↦ rw (hit, last_match-is_some verifier ks (some k)) (or_true (is_some found))
    | inr miss ↦ rw (miss, last_match-is_some verifier ks found)
  ]
    where
      or_true : (b : Bool) → true ≡ (b || true)
      or_true true = refl
      or_true false = refl

  exists-unused :
      (verifier : Option Text) (user : Text) (ks : List RecoveryCode)
      → exists (matches h verifier) (select (is_unused_of user) ks)
        ≡ exists (λ k. is_unused_of user k && matches h verifier k) ks
  unfolding exists select
  exists-unused verifier user [] = refl
  exists-unused verifier user (k ∷ ks) = elim (Bool-cases (is_unused_of user k)) [
    | inl unused ↦ rw (unused, exists-unused verifier user ks)
    | inr used ↦ rw (used, exists-unused verifier user ks)
  ]

  abbrev pub has_match : Option Text → Option User → World → Bool
  has_match verifier none w = false
  has_match verifier (some u) w =
      exists (λ k. is_unused_of u.id k && matches h verifier k) w.recovery_codes

  -- Acceptance by the comparison of the code.
  accepts-has_match :
      (username verifier : Option Text) (r : Drawn) (now : ℕ) (w : World)
      → is_ok (recover_verify h username verifier r now w).0
        ≡ has_match verifier (find_by_name username w) w
  unfolding recover_verify
  accepts-has_match username verifier r now w = elim (Option-cases (find_by_name username w)) [
    | inl missing ↦ rw missing refl
    | inr (u, there) ↦
        let codes = select (is_unused_of u.id) w.recovery_codes in
        let counted =
          last_match-is_some verifier codes none ∙ exists-unused verifier u.id w.recovery_codes in
        elim (Option-cases (last_match h verifier codes none)) [
          | inl nothing ↦ rw (there, nothing) (rw nothing at counted)
          | inr (k, hit) ↦ rw (there, hit) (rw hit at counted)
        ]
  ]

  -- A stored hash is 32 bytes, not all of them zero.
  abbrev pub IsSound : RecoveryCode → Type 0
  IsSound k = (length (h.bytes k.verifier_hash) ≡ 32) × (h.bytes k.verifier_hash ≢ replicate 32 0)

  -- What was submitted is the text of 32 bytes that are the stored hash.
  abbrev pub Genuine : Option Text → RecoveryCode → Type 0
  Genuine verifier k =
      (t : Text) × (verifier ≡ some t)
      × (h.is_hex64 t ≡ true)
      × (h.bytes t ≡ h.bytes k.verifier_hash)

  safe_hex_sound :
      (k : RecoveryCode) → IsSound k → safe_hex h k.verifier_hash ≡ h.bytes k.verifier_hash
  safe_hex_sound k sound = rw (sound.0) refl

  module _ (digits : (t : Text) → h.is_hex64 t ≡ true → length (h.bytes t) ≡ 32) where
    zeros-differ :
        (k : RecoveryCode)
        → IsSound k
        → same_bytes (replicate 32 0) (h.bytes k.verifier_hash) ≢ true
    zeros-differ k sound e = sound.1 (sym (same_bytes_sound _ _ e))

    matches-Genuine :
        (verifier : Option Text) (k : RecoveryCode)
        → IsSound k
        → matches h verifier k ≡ true
        → Genuine verifier k
    matches-Genuine none k sound e =
        absurd (zeros-differ k sound (rw (safe_hex_sound k sound, sound.0) at e))
    matches-Genuine (some t) k sound e = elim (Bool-cases (h.is_hex64 t)) [
      | inr other ↦ absurd (zeros-differ k sound (rw (other, safe_hex_sound k sound, sound.0) at e))
      | inl fits ↦ (
        t,
        refl,
        fits,
        same_bytes_sound _ _ (rw (fits, safe_hex_sound k sound, sound.0, digits t fits) at e),
      )
    ]

    Genuine-matches :
        (verifier : Option Text) (k : RecoveryCode)
        → IsSound k
        → Genuine verifier k
        → matches h verifier k ≡ true
    Genuine-matches verifier k sound (t, given, fits, equal) =
        rw (given, fits, safe_hex_sound k sound, sound.0, digits t fits, equal)
          (same_bytes_refl (h.bytes k.verifier_hash))

    -- Where every stored hash is 32 bytes that are not all zero, and a text of 64 hexadecimal digits
    -- is 32 bytes, `recoverVerify` accepts exactly where the user is there, has an unused code, and
    -- the text of that code's stored hash was submitted; used codes, other users' codes and other
    -- submissions never count.
    pub recover_verify_accepts :
        (username verifier : Option Text) (r : Drawn) (now : ℕ) (w : World)
        → All IsSound w.recovery_codes
        → (is_ok (recover_verify h username verifier r now w).0 ≡ true) ↔ (
            (u : User) × (k : RecoveryCode) × (find_by_name username w ≡ some u)
            × Among k w.recovery_codes
            × (k.user_id ≡ u.id)
            × (k.used_at ≡ none)
            × Genuine verifier k)
    recover_verify_accepts username verifier r now w sound = (
      λ e.
          accepted (find_by_name username w) refl
            (sym (accepts-has_match username verifier r now w) ∙ e),
      λ (u, k, there, among, owner, unused, genuine).
          accepts-has_match username verifier r now w
          ∙ rw there (
              Among-exists (λ x. is_unused_of u.id x && matches h verifier x) w.recovery_codes k
                among
                (both-true _ _ (unused-code u k owner unused) (
                  Genuine-matches verifier k (All-Among IsSound w.recovery_codes k sound among)
                    genuine))),
    )
      where
        accepted :
            (o : Option User)
            → find_by_name username w ≡ o
            → has_match verifier o w ≡ true
            → (u : User) × (k : RecoveryCode) × (find_by_name username w ≡ some u)
              × Among k w.recovery_codes
              × (k.user_id ≡ u.id)
              × (k.used_at ≡ none)
              × Genuine verifier k
        accepted none there e = absurd (cc e)
        accepted (some u) there e =
            let (k, among, holds) =
              exists-Among (λ x. is_unused_of u.id x && matches h verifier x) w.recovery_codes e in
            let parts = true-both _ _ holds in
            let owned = code-unused u k parts.0 in
            (
              u,
              k,
              there,
              among,
              owned.0,
              owned.1,
              matches-Genuine verifier k (All-Among IsSound w.recovery_codes k sound among) parts.1,
            )

  -- A code whose stored hash is not 32 bytes in hexadecimal.
  abbrev pub is_malformed : RecoveryCode → Bool
  is_malformed k = not (length (h.bytes k.verifier_hash) == 32)

  malformed-matches : (k : RecoveryCode) → is_malformed k ≡ true → matches h none k ≡ true
  unfolding same_bytes
  malformed-matches k bad = elim (Bool-cases (length (h.bytes k.verifier_hash) == 32)) [
    | inl well ↦ absurd (cc (rw well at bad))
    | inr ill ↦ rw ill refl
  ]

  exists-malformed :
      (user : Text) (ks : List RecoveryCode)
      → exists (λ k. is_unused_of user k && is_malformed k) ks ≡ true
      → exists (λ k. is_unused_of user k && matches h none k) ks ≡ true
  unfolding exists
  exists-malformed user [] e = cc
  exists-malformed user (k ∷ ks) e = elim (Bool-cases (is_unused_of user k)) [
    | inr used ↦ rw used (exists-malformed user ks (rw used at e))
    | inl unused ↦ elim (Bool-cases (is_malformed k)) [
      | inl bad ↦ rw (unused, malformed-matches k bad) refl
      | inr well ↦ rw unused (or_right _ _ (exists-malformed user ks (rw (unused, well) at e)))
    ]
  ]
    where
      or_right : (a b : Bool) → b ≡ true → (a || b) ≡ true
      or_right true b e = refl
      or_right false b e = e

  -- Where one of a user's unused codes was stored with a hash that is not 32 bytes, `recoverVerify`
  -- accepts a request with no verifier at all, and so gives the account's recovery away.
  pub malformed_accepts_anybody :
      (username : Option Text) (r : Drawn) (now : ℕ) (w : World) (u : User)
      → find_by_name username w ≡ some u
      → exists (λ k. is_unused_of u.id k && is_malformed k) w.recovery_codes ≡ true
      → is_ok (recover_verify h username none r now w).0 ≡ true
  malformed_accepts_anybody username r now w u there bad =
      accepts-has_match username none r now w
      ∙ rw there (exists-malformed u.id w.recovery_codes bad)
