-- ===== src/Polyfill/Tamper.antt =====
-- What `decrypt` gives for what `encrypt` made, and for what it did not.
use najva_messenger.Base.{
  ℕ, zero, suc, ◌+◌, ◌-◌, ◌≤◌, ◌≡◌, refl, sym, ap, ◌∙◌, ◌⊎◌, inl, inr, [], ◌∷◌, ◌++◌, length, take,
  drop, replicate, leb, Bool-cases, arith,
}
use najva_messenger.Ratchet.KeyName.{Bytes, IsBytes}
use najva_messenger.Polyfill.Bits.{xor8, xor_xor, xor_swap}
use najva_messenger.Polyfill.Aes.{aes256_encrypt_block}
use najva_messenger.Polyfill.Hkdf.{length-append}
use najva_messenger.Polyfill.Gcm.{
  Algorithm, mix, ctr, next_counter, start_counter, aes256_ctr_transform, encrypt, decrypt,
  text_end,
}

length-mix : (xs ks : Bytes) → length (mix xs ks) ≡ length xs
length-mix [] ks = refl
length-mix (a ∷ xs) [] = refl
length-mix (a ∷ xs) (k ∷ ks) = ap (λ n. suc n) (length-mix xs ks)

mix_nil : (xs : Bytes) → mix xs [] ≡ xs
mix_nil [] = refl
mix_nil (x ∷ xs) = refl

mix-mix : (xs ks : Bytes) → IsBytes xs → mix (mix xs ks) ks ≡ xs
mix-mix [] ks h = refl
mix-mix (a ∷ xs) [] h = refl
mix-mix (a ∷ xs) (k ∷ ks) h = rw (xor_xor 8 a k h.0, mix-mix xs ks h.1) refl

mix_swap : (xs ks ds : Bytes) → mix (mix xs ks) ds ≡ mix (mix xs ds) ks
mix_swap [] ks ds = refl
mix_swap (a ∷ xs) [] ds = sym (mix_nil (mix (a ∷ xs) ds))
mix_swap (a ∷ xs) (k ∷ ks) [] = refl
mix_swap (a ∷ xs) (k ∷ ks) (d ∷ ds) = rw (xor_swap 8 a k d, mix_swap xs ks ds) refl

take-mix : (n : ℕ) (xs ds : Bytes) → take n (mix xs ds) ≡ mix (take n xs) (take n ds)
take-mix zero xs ds = refl
take-mix (suc n) [] ds = refl
take-mix (suc n) (a ∷ xs) [] = refl
take-mix (suc n) (a ∷ xs) (d ∷ ds) = ap (λ ys. xor8 a d ∷ ys) (take-mix n xs ds)

drop-mix : (n : ℕ) (xs ds : Bytes) → drop n (mix xs ds) ≡ mix (drop n xs) (drop n ds)
drop-mix zero xs ds = refl
drop-mix (suc n) [] ds = refl
drop-mix (suc n) (a ∷ xs) [] = sym (mix_nil (drop n xs))
drop-mix (suc n) (a ∷ xs) (d ∷ ds) = drop-mix n xs ds

-- A chunk and what follows it: the chunk is full, or it is the last one.
abbrev Chunked : ℕ → Bytes → Bytes → Type 0
Chunked n u v = (length u ≡ n) ⊎ ((length u ≤ n) × (v ≡ []))

take-Chunked : (n : ℕ) (u v : Bytes) → Chunked n u v → take n (u ++ v) ≡ u
take-Chunked zero [] v h = refl
take-Chunked zero (a ∷ u) v (inl h) = absurd (omega arith)
take-Chunked zero (a ∷ u) v (inr h) = absurd (omega (arith, h.0))
take-Chunked (suc n) [] v (inl h) = absurd (omega arith)
take-Chunked (suc n) [] v (inr h) = rw h.1 refl
take-Chunked (suc n) (a ∷ u) v (inl h) = ap (λ ys. a ∷ ys) (take-Chunked n u v (inl (omega arith)))
take-Chunked (suc n) (a ∷ u) v (inr h) =
    ap (λ ys. a ∷ ys) (take-Chunked n u v (inr (omega (arith, h.0), h.1)))

drop-Chunked : (n : ℕ) (u v : Bytes) → Chunked n u v → drop n (u ++ v) ≡ v
drop-Chunked zero [] v h = refl
drop-Chunked zero (a ∷ u) v (inl h) = absurd (omega arith)
drop-Chunked zero (a ∷ u) v (inr h) = absurd (omega (arith, h.0))
drop-Chunked (suc n) [] v (inl h) = absurd (omega arith)
drop-Chunked (suc n) [] v (inr h) = rw h.1 refl
drop-Chunked (suc n) (a ∷ u) v (inl h) = drop-Chunked n u v (inl (omega arith))
drop-Chunked (suc n) (a ∷ u) v (inr h) = drop-Chunked n u v (inr (omega (arith, h.0), h.1))

mix-Chunked :
    (n : ℕ) (u v ds : Bytes)
    → Chunked n u v
    → mix (u ++ v) ds ≡ mix u (take n ds) ++ mix v (drop n ds)
mix-Chunked zero [] v ds h = refl
mix-Chunked zero (a ∷ u) v ds (inl h) = absurd (omega arith)
mix-Chunked zero (a ∷ u) v ds (inr h) = absurd (omega (arith, h.0))
mix-Chunked (suc n) [] v ds (inl h) = absurd (omega arith)
mix-Chunked (suc n) [] v ds (inr h) = rw h.1 refl
mix-Chunked (suc n) (a ∷ u) v [] h = ap (λ ys. a ∷ u ++ ys) (sym (mix_nil v))
mix-Chunked (suc n) (a ∷ u) v (d ∷ ds) (inl h) =
    ap (λ ys. xor8 a d ∷ ys) (mix-Chunked n u v ds (inl (omega arith)))
mix-Chunked (suc n) (a ∷ u) v (d ∷ ds) (inr h) =
    ap (λ ys. xor8 a d ∷ ys) (mix-Chunked n u v ds (inr (omega (arith, h.0), h.1)))

ctr_nil : (n : ℕ) (key counter : Bytes) → ctr n key counter [] ≡ []
unfolding ctr
ctr_nil zero key counter = refl
ctr_nil (suc n) key counter = refl

module _ (key : Bytes) where
  abbrev stream : Bytes → Bytes
  stream counter = aes256_encrypt_block key counter

  ctr_step :
      (n : ℕ) (counter xs : Bytes)
      → ctr (suc n) key counter xs
        ≡ mix (take 16 xs) (stream counter) ++ ctr n key (next_counter counter) (drop 16 xs)
  unfolding ctr
  ctr_step n counter [] = sym (ctr_nil n key (next_counter counter))
  ctr_step n counter (x ∷ xs) = refl

  chunk_is :
      (n : ℕ) (counter xs : Bytes)
      → Chunked 16
          (mix (take 16 xs) (stream counter))
          (ctr n key (next_counter counter) (drop 16 xs))
  chunk_is n counter xs = elim (full_or_last 16 xs) [
    | inl full ↦ inl (length-mix (take 16 xs) (stream counter) ∙ full)
    | inr last ↦ inr (
      rw (length-mix (take 16 xs) (stream counter)) last.0,
      ap (ctr n key (next_counter counter)) last.1 ∙ ctr_nil n key (next_counter counter),
    )
  ]
    where
      full_or_last : (k : ℕ) (xs : Bytes) → Chunked k (take k xs) (drop k xs)
      full_or_last zero xs = inl refl
      full_or_last (suc k) [] = inr (omega arith, refl)
      full_or_last (suc k) (x ∷ xs) = elim (full_or_last k xs) [
        | inl full ↦ inl (ap (λ n. suc n) full)
        | inr last ↦ inr (omega (arith, last.0), last.1)
      ]

  take-drop : (k : ℕ) (xs : Bytes) → take k xs ++ drop k xs ≡ xs
  take-drop zero xs = refl
  take-drop (suc k) [] = refl
  take-drop (suc k) (x ∷ xs) = ap (λ ys. x ∷ ys) (take-drop k xs)

  take-IsBytes : (k : ℕ) (xs : Bytes) → IsBytes xs → IsBytes (take k xs)
  take-IsBytes zero xs h = tt
  take-IsBytes (suc k) [] h = tt
  take-IsBytes (suc k) (x ∷ xs) h = (h.0, take-IsBytes k xs h.1)

  drop-IsBytes : (k : ℕ) (xs : Bytes) → IsBytes xs → IsBytes (drop k xs)
  drop-IsBytes zero xs h = h
  drop-IsBytes (suc k) [] h = tt
  drop-IsBytes (suc k) (x ∷ xs) h = drop-IsBytes k xs h.1

  length-drop : (k : ℕ) (xs : Bytes) → length (drop k xs) ≡ length xs - k
  length-drop zero xs = omega arith
  length-drop (suc k) [] = omega arith
  length-drop (suc k) (x ∷ xs) = length-drop k xs ∙ omega arith

  empty : (xs : Bytes) → length xs ≤ 0 → xs ≡ []
  empty [] h = refl
  empty (x ∷ xs) h = absurd (omega arith)

  -- The stream cancels itself.
  ctr-ctr :
      (n : ℕ) (counter xs : Bytes)
      → IsBytes xs
      → length xs ≤ n
      → ctr n key counter (ctr n key counter xs) ≡ xs
  ctr-ctr zero counter xs h k = rw (empty xs k, ctr_nil 0 key counter) (ctr_nil 0 key counter)
  ctr-ctr (suc n) counter xs h k =
      let u = mix (take 16 xs) (stream counter) in
      let v = ctr n key (next_counter counter) (drop 16 xs) in
      let chunked = chunk_is n counter xs in
      ap (ctr (suc n) key counter) (ctr_step n counter xs)
      ∙ ctr_step n counter (u ++ v)
      ∙ rw
          (
            take-Chunked 16 u v chunked,
            drop-Chunked 16 u v chunked,
            mix-mix (take 16 xs) (stream counter) (take-IsBytes 16 xs h),
            ctr-ctr n (next_counter counter) (drop 16 xs) (drop-IsBytes 16 xs h)
                (rw (length-drop 16 xs) (omega arith)),
          )
          (take-drop 16 xs)

  -- A change of the text goes through the stream.
  ctr-mix :
      (n : ℕ) (counter xs ds : Bytes)
      → ctr n key counter (mix xs ds) ≡ mix (ctr n key counter xs) ds
  unfolding ctr
  ctr-mix zero counter xs ds = refl
  ctr-mix (suc n) counter xs ds =
      let u = mix (take 16 xs) (stream counter) in
      let v = ctr n key (next_counter counter) (drop 16 xs) in
      ctr_step n counter (mix xs ds)
      ∙ rw
          (
            take-mix 16 xs ds,
            drop-mix 16 xs ds,
            mix_swap (take 16 xs) (take 16 ds) (stream counter),
            ctr-mix n (next_counter counter) (drop 16 xs) (drop 16 ds),
            ctr_step n counter xs,
            mix-Chunked 16 u v ds (chunk_is n counter xs),
          )
          refl

  length-ctr :
      (n : ℕ) (counter xs : Bytes) → length xs ≤ n → length (ctr n key counter xs) ≡ length xs
  length-ctr zero counter xs h = rw (empty xs h, ctr_nil 0 key counter) refl
  length-ctr (suc n) counter xs h =
      let u = mix (take 16 xs) (stream counter) in
      let v = ctr n key (next_counter counter) (drop 16 xs) in
      rw
        (
          ctr_step n counter xs,
          length-append u v,
          length-mix (take 16 xs) (stream counter),
          length-ctr n (next_counter counter) (drop 16 xs) (rw (length-drop 16 xs) (omega arith)),
          sym (length-append (take 16 xs) (drop 16 xs)),
          take-drop 16 xs,
        )
        refl

  cut_tag :
      (ct tag : Bytes) → length tag ≡ 16 → take (text_end (length (ct ++ tag))) (ct ++ tag) ≡ ct
  cut_tag ct tag h =
      rw (length-append ct tag, h)
        (elim (Bool-cases (leb 16 (length ct + 16))) [
          | inl fits ↦ rw fits (
              ap (λ n. take n (ct ++ tag)) (the_end (length ct))
              ∙ take-Chunked (length ct) ct tag (inl refl))
          | inr short ↦ absurd (ground arith)
        ])
    where
      the_end : (n : ℕ) → n + 16 - 16 ≡ n
      the_end n = omega arith

  -- `decrypt` reads neither the tag nor the additional data, and passes changes of the text on:
  -- where a text of bytes was encrypted, and bytes `ds` are mixed into the ciphertext and any tag of
  -- 16 bytes is put after it, the decryption under the same key and nonce gives the text with `ds`
  -- mixed in, whatever the additional data.
  pub decrypt_unauthenticated :
      (sealed opened : Algorithm) (xs ds tag : Bytes)
      → opened.iv ≡ sealed.iv
      → IsBytes xs
      → length tag ≡ 16
      → decrypt opened key (mix (aes256_ctr_transform key sealed.iv xs) ds ++ tag) ≡ mix xs ds
  unfolding decrypt aes256_ctr_transform
  decrypt_unauthenticated sealed opened xs ds tag same bytes size =
      let counter = start_counter sealed.iv in
      let ct = ctr (length xs) key counter xs in
      let all : length (mix ct ds) ≡ length xs =
        length-mix ct ds ∙ length-ctr (length xs) counter xs (omega arith) in
      rw
        (
          same,
          cut_tag (mix ct ds) tag size,
          all,
          ctr-mix (length xs) counter ct ds,
          ctr-ctr (length xs) counter xs bytes (omega arith),
        )
        refl

  -- `decrypt` gives back what `encrypt` was given under the same key and nonce, where it was bytes.
  pub decrypt-encrypt :
      (sealed opened : Algorithm) (xs : Bytes)
      → opened.iv ≡ sealed.iv
      → IsBytes xs
      → decrypt opened key (encrypt sealed key xs) ≡ xs
  unfolding encrypt
  decrypt-encrypt sealed opened xs same bytes =
      let ct = aes256_ctr_transform key sealed.iv xs in
      ap (λ c. decrypt opened key (c ++ replicate 16 0)) (sym (mix_nil ct))
      ∙ decrypt_unauthenticated sealed opened xs [] (replicate 16 0) same bytes refl
      ∙ mix_nil xs
