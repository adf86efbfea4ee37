-- ===== src/Content/Envelope.antt =====
-- client/src/lib/crypto/envelope.ts over the sealed boxes of primitives.ts: wrapped keys as texts.
use najva_messenger.Base.{
  ℕ, zero, suc, ◌+◌, ◌≤◌, ◌≡◌, refl, ap, ◌∙◌, Bool, true, false, not, Option, none, some, [], ◌∷◌,
  ◌++◌, Result, ok, err, thrown, type_error, length, take, drop, ltb, ◌==◌, if◌then◌else◌, arith,
  String,
}
use najva_messenger.Ratchet.KeyName.{Bytes}
use najva_messenger.Ratchet.{KeyPair}
use najva_messenger.Polyfill.Hkdf.{length-append}
use najva_messenger.Content.{Text, Aead}

pub data Alg : Type 0 where
  a256gcm sealbox : Alg

pub record EnvelopeV1 : Type 0 where
  pub v : ℕ
  pub alg : Alg
  pub iv : Option Text
  pub ct : Text

-- tweetnacl's boxes, and JSON; opening and reading fail with `none`.
pub record Boxes : Type 0 where
  pub box : (message nonce public secret : Bytes) → Bytes
  pub box_open : (box nonce public secret : Bytes) → Option Bytes
  pub overhead_length : ℕ
  pub stringify : EnvelopeV1 → Text
  pub parse : Text → Option EnvelopeV1

abbrev same_alg : Alg → Alg → Bool
same_alg Alg.a256gcm Alg.a256gcm = true
same_alg Alg.sealbox Alg.sealbox = true
same_alg _ _ = false

abbrev fail : {A : Type 0} → String → Result A
fail message = err (thrown message 0)

abbrev or_reject : {A : Type 0} → Option A → Result A
or_reject none = err type_error
or_reject (some a) = ok a

abbrev bind_result : {A B : Type 0} → Result A → (A → Result B) → Result B
bind_result (ok a) f = f a
bind_result (err e) f = err e

module _ (b : Boxes) (a : Aead) where
  -- `eph` and `nonce` are drawn.
  unfoldable pub seal_to : (recipient message : Bytes) → (eph : KeyPair) → (nonce : Bytes) → Bytes
  seal_to recipient message eph nonce =
      eph.public_key ++ (nonce ++ b.box message nonce recipient eph.secret_key)

  abbrev opened_box : Option Bytes → Result Bytes
  opened_box none = fail "sealed box: decryption failed"
  opened_box (some message) = ok message

  unfoldable pub open_sealed : (secret blob : Bytes) → Result Bytes
  open_sealed secret blob =
      if ltb (length blob) (56 + b.overhead_length)
      then fail "sealed box too short"
      else opened_box (b.box_open (drop 56 blob) (take 24 (drop 32 blob)) (take 32 blob) secret)

  -- The messages name the version and the algorithm that were found.
  parsed_as : Alg → Option EnvelopeV1 → Result EnvelopeV1
  parsed_as alg none = fail "envelope: not valid JSON"
  parsed_as alg (some env) =
      if not (env.v == 1)
      then fail "envelope: unsupported version"
      else (if same_alg env.alg alg then ok env else fail "envelope: unexpected alg")

  parse_envelope : Text → Alg → Result EnvelopeV1
  unfolding parsed_as
  parse_envelope envelope expected_alg = parsed_as expected_alg (b.parse envelope)

  -- `aad ? utf8(aad) : undefined`
  abbrev aad_of : Option Text → Option Bytes
  aad_of none = none
  aad_of (some []) = none
  aad_of (some (c ∷ cs)) = some (c ∷ cs)

  pub wrap_bytes : (key plaintext iv : Bytes) → Option Text → Text
  wrap_bytes key plaintext iv aad = b.stringify (record {
    v = 1;
    alg = Alg.a256gcm;
    iv = some (a.btoa iv);
    ct = a.btoa (a.aes_gcm_encrypt key plaintext iv (aad_of aad));
  })

  abbrev unwrap_with : Bytes → Option Text → Text → Option Text → Result Bytes
  unwrap_with key aad ct none = fail "envelope: missing iv"
  unwrap_with key aad ct (some []) = fail "envelope: missing iv"
  unwrap_with key aad ct (some (c ∷ cs)) = bind_result (or_reject (a.atob ct)) (λ ciphertext.
      bind_result (or_reject (a.atob (c ∷ cs)))
        (λ iv. or_reject (a.aes_gcm_decrypt key ciphertext iv (aad_of aad))))

  pub unwrap_bytes : (key : Bytes) → Text → Option Text → Result Bytes
  unfolding parse_envelope
  unwrap_bytes key envelope aad =
      bind_result (parse_envelope envelope Alg.a256gcm) (λ env. unwrap_with key aad env.ct env.iv)

  pub seal_envelope : (recipient message : Bytes) → (eph : KeyPair) → (nonce : Bytes) → Text
  seal_envelope recipient message eph nonce = b.stringify (record {
    v = 1;
    alg = Alg.sealbox;
    iv = none;
    ct = a.btoa (seal_to recipient message eph nonce);
  })

  pub open_envelope : (secret : Bytes) → Text → Result Bytes
  unfolding parse_envelope
  open_envelope secret envelope =
      bind_result (parse_envelope envelope Alg.sealbox)
        (λ env. bind_result (or_reject (a.atob env.ct)) (open_sealed secret))

  take-append : (n : ℕ) (xs ys : Bytes) → length xs ≡ n → take n (xs ++ ys) ≡ xs
  take-append zero [] ys e = refl
  take-append zero (x ∷ xs) ys e = absurd (omega arith)
  take-append (suc n) [] ys e = absurd (omega arith)
  take-append (suc n) (x ∷ xs) ys e = ap (λ zs. x ∷ zs) (take-append n xs ys (omega arith))

  drop-append :
      (n k m : ℕ) (xs ys : Bytes) → length xs ≡ n → m ≡ n + k → drop m (xs ++ ys) ≡ drop k ys
  drop-append zero k m [] ys e f = let same : m ≡ k = omega arith in ap (λ i. drop i ys) same
  drop-append zero k m (x ∷ xs) ys e f = absurd (omega arith)
  drop-append (suc n) k m [] ys e f = absurd (omega arith)
  drop-append (suc n) k zero (x ∷ xs) ys e f = absurd (omega arith)
  drop-append (suc n) k (suc m) (x ∷ xs) ys e f =
      drop-append n k m xs ys (omega arith) (omega arith)

  -- What was sealed to a public key is opened by its secret key, where the box of the drawn key pair
  -- opens, its parts have their lengths, and base64 and JSON read back what they wrote.
  pub open_envelope-seal_envelope :
      (recipient eph : KeyPair) (message nonce : Bytes)
      → length eph.public_key ≡ 32
      → length nonce ≡ 24
      → b.overhead_length ≤ length (b.box message nonce recipient.public_key eph.secret_key)
      → b.box_open
          (b.box message nonce recipient.public_key eph.secret_key)
          nonce
          eph.public_key
          recipient.secret_key
        ≡ some message
      → ((x : Bytes) → a.atob (a.btoa x) ≡ some x)
      → ((x : EnvelopeV1) → b.parse (b.stringify x) ≡ some x)
      → open_envelope recipient.secret_key (seal_envelope recipient.public_key message eph nonce)
        ≡ ok message
  unfolding open_envelope seal_envelope seal_to open_sealed parse_envelope parsed_as
  open_envelope-seal_envelope recipient eph message nonce of_key of_nonce long opens b64 json =
      let box = b.box message nonce recipient.public_key eph.secret_key in
      let rest = nonce ++ box in
      let blob = eph.public_key ++ rest in
      let size : length blob ≡ 56 + length box =
        length-append eph.public_key rest
        ∙ rw (of_key, length-append nonce box, of_nonce) (omega arith) in
      let whole : ltb (length blob) (56 + b.overhead_length) ≡ false =
        rw size (ground (arith, long)) in
      let parsed : b.parse (seal_envelope recipient.public_key message eph nonce)
          ≡ some (record { v = 1; alg = Alg.sealbox; iv = none; ct = a.btoa blob }) =
        json (record { v = 1; alg = Alg.sealbox; iv = none; ct = a.btoa blob }) in
      rw
        (
          parsed,
          b64 blob,
          whole,
          drop-append 32 24 56 eph.public_key rest of_key refl,
          drop-append 24 0 24 nonce box of_nonce refl,
          drop-append 32 0 32 eph.public_key rest of_key refl,
          take-append 24 nonce box of_nonce,
          take-append 32 eph.public_key rest of_key,
          opens,
        )
        refl
