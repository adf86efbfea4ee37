-- ===== src/Polyfill/Hkdf.antt =====
-- How much the derivations of keys give.
use najva_messenger.Base.{
  ℕ, zero, suc, ◌+◌, ◌-◌, ◌*◌, ◌%◌, ◌≤◌, ◌≡◌, refl, sym, ap, ◌∙◌, some, [], ◌∷◌, ◌++◌, length, take,
  ltb, if◌then◌else◌, inl, inr, Bool-cases, arith,
}
use najva_messenger.Ratchet.KeyName.{Bytes}
use najva_messenger.Polyfill.Sha256.{length-sha256}
use najva_messenger.Polyfill.Aes.{xor_all}
use najva_messenger.Polyfill.Kdf.{
  salt_or_zeros, stir, block_of, hmac_sha256, expand, hkdf_sha256, block_count, blocks_from,
  pbkdf2_sha256,
}

length-take : (n : ℕ) (xs : Bytes) → n ≤ length xs → length (take n xs) ≡ n
length-take zero xs h = refl
length-take (suc n) [] h = omega arith
length-take (suc n) (x ∷ xs) h = ap (λ k. suc k) (length-take n xs (omega arith))

pub length-append : (xs ys : Bytes) → length (xs ++ ys) ≡ length xs + length ys
length-append [] ys = omega arith
length-append (x ∷ xs) ys = rw (length-append xs ys) (omega arith)

pub length-hmac_sha256 : (key input : Bytes) → length (hmac_sha256 key input) ≡ 32
unfolding hmac_sha256
length-hmac_sha256 key input = length-sha256 _

-- The bytes of the next turn of the loop.
expand_returns :
    (fuel : ℕ) (prk info last : Bytes) (offset step len : ℕ)
    → len ≤ offset + fuel
    → (t : Bytes) × (expand fuel prk info last offset step len ≡ some t) × (length t ≡ len - offset)
unfolding expand
expand_returns zero prk info last offset step len h = elim (Bool-cases (ltb offset len)) [
  | inl more ↦ absurd (ground arith)
  | inr done ↦ rw done ([], refl, ground arith)
]
expand_returns (suc fuel) prk info last offset step len h = elim (Bool-cases (ltb offset len)) [
  | inr done ↦ rw done ([], refl, ground arith)
  | inl more ↦
      let last' = hmac_sha256 prk (last ++ info ++ (step % 256) ∷ []) in
      let chunk = if ltb 32 (len - offset) then 32 else len - offset in
      let fits : chunk ≤ 32 = ground arith in
      let on : (1 ≤ chunk) × (offset + chunk ≤ len) = (ground arith, ground arith) in
      let (r, found, size) =
        expand_returns fuel prk info last' (offset + chunk) (step + 1) len (omega arith) in
      let cut =
        length-take chunk last'
          (rw (length-hmac_sha256 prk (last ++ info ++ (step % 256) ∷ [])) fits) in
      rw (more, found)
        (
          take chunk last' ++ r,
          refl,
          length-append (take chunk last') r ∙ rw (cut, size) (omega arith),
        )
]

hkdf_sha256_returns :
    (ikm salt info : Bytes) (len : ℕ)
    → (t : Bytes) × (hkdf_sha256 ikm salt info len ≡ some t) × (length t ≡ len)
unfolding hkdf_sha256
hkdf_sha256_returns ikm salt info len =
    let (t, found, size) =
      expand_returns len (hmac_sha256 (salt_or_zeros salt) ikm) info [] 0 1 len (omega arith) in
    (t, found, size ∙ omega arith)

length-xor_all : (xs ys : Bytes) → length xs ≡ 32 → length ys ≡ 32 → length (xor_all xs ys) ≡ 32
length-xor_all xs ys h k = same xs ys (h ∙ sym k) ∙ h
  where
    same : (xs ys : Bytes) → length xs ≡ length ys → length (xor_all xs ys) ≡ length xs
    same [] ys h = refl
    same (x ∷ xs) [] h = absurd (omega arith)
    same (x ∷ xs) (y ∷ ys) h = ap (λ k. suc k) (same xs ys (omega arith))

length-stir :
    (count : ℕ) (password u t : Bytes) → length t ≡ 32 → length (stir count password u t) ≡ 32
unfolding stir
length-stir zero password u t h = h
length-stir (suc n) password u t h =
    let u' = hmac_sha256 password u in
    length-stir n password u' (xor_all t u') (length-xor_all t u' h (length-hmac_sha256 password u))

pub length-take_upto : (n : ℕ) (xs : Bytes) → length xs ≤ n → length (take n xs) ≡ length xs
length-take_upto zero [] h = refl
length-take_upto zero (x ∷ xs) h = absurd (omega arith)
length-take_upto (suc n) [] h = refl
length-take_upto (suc n) (x ∷ xs) h = ap (λ k. suc k) (length-take_upto n xs (omega arith))

length-blocks_from :
    (count block : ℕ) (password salt : Bytes) (iterations left : ℕ)
    → left ≤ 32 * count
    → 32 * count ≤ left + 31
    → length (blocks_from count block password salt iterations left) ≡ left
unfolding blocks_from
length-blocks_from zero block password salt iterations left h k = omega arith
length-blocks_from (suc n) block password salt iterations left h k =
    let x = block_of password salt iterations block in
    let first : length x ≡ 32 =
      length-stir (iterations - 1) password _ _ (length-hmac_sha256 password _) in
    let rest = blocks_from n (block + 1) password salt iterations (left - 32) in
    let ih =
      length-blocks_from n (block + 1) password salt iterations (left - 32) (omega arith)
        (omega arith) in
    length-append (take left x) rest ∙ elim (Bool-cases (ltb left 32)) [
      | inl short ↦ rw (length-take left x (ground (arith, first)), ih) (ground arith)
      | inr long ↦ rw (length-take_upto left x (ground (arith, first)), first, ih) (ground arith)
    ]

length-pbkdf2_sha256 :
    (password salt : Bytes) (iterations key_len : ℕ)
    → length (pbkdf2_sha256 password salt iterations key_len) ≡ key_len
unfolding pbkdf2_sha256
length-pbkdf2_sha256 password salt iterations key_len =
    length-blocks_from (block_count key_len) 1 password salt iterations key_len (omega arith)
      (omega arith)

-- Both derivations of keys end and give exactly as many bytes as they are asked for: HKDF, whose
-- loop runs on fuel of one turn a byte, never runs out, and PBKDF2 for every number of iterations.
pub derived_sizes :
    (secret salt : Bytes) (iterations len : ℕ)
    → ((info : Bytes)
        → (t : Bytes) × (hkdf_sha256 secret salt info len ≡ some t) × (length t ≡ len))
      × (length (pbkdf2_sha256 secret salt iterations len) ≡ len)
derived_sizes secret salt iterations len = (
  λ info. hkdf_sha256_returns secret salt info len,
  length-pbkdf2_sha256 secret salt iterations len,
)
