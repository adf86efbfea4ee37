-- ===== src/Polyfill/Gcm.antt =====
-- webCryptoPolyfill.ts: the transformation of a text with the stream of a counter, and `encrypt`
-- and `decrypt`.
use najva_messenger.Base.{
  ℕ, zero, suc, ◌+◌, ◌-◌, ◌%◌, Bool, true, false, Option, [], ◌∷◌, ◌++◌, length, take, drop,
  replicate, ◌==◌, leb, if◌then◌else◌,
}
use najva_messenger.Ratchet.KeyName.{Bytes}
use najva_messenger.Polyfill.Bits.{xor8}
use najva_messenger.Polyfill.Aes.{aes256_encrypt_block}

-- `input[i] ^ keystream[i]`; what is past the end of the stream counts as 0.
abbrev pub mix : Bytes → Bytes → Bytes
mix [] ks = []
mix (a ∷ as') [] = a ∷ as'
mix (a ∷ as') (k ∷ ks) = xor8 a k ∷ mix as' ks

-- The counter starts at 2.
abbrev pub start_counter : Bytes → Bytes
start_counter iv12 = take 15 (iv12 ++ replicate 15 0) ++ 2 ∷ []

abbrev carry_into : ℕ → Bool × Bytes → Bool × Bytes
carry_into b (true, bs) = ((b + 1) % 256 == 0, (b + 1) % 256 ∷ bs)
carry_into b (false, bs) = (false, b ∷ bs)

-- One more, from the last byte on as long as a byte becomes 0.
increment : Bytes → Bool × Bytes
increment [] = (true, [])
increment (b ∷ bs) = carry_into b (increment bs)

pub next_counter : Bytes → Bytes
unfolding increment
next_counter counter = take 12 counter ++ (increment (drop 12 counter)).1

-- The loop over the chunks, on fuel.
unfoldable pub ctr : (fuel : ℕ) → (key counter input : Bytes) → Bytes
ctr zero key counter input = []
ctr (suc fuel) key counter [] = []
ctr (suc fuel) key counter (b ∷ bs) =
    let input = b ∷ bs in
    mix (take 16 input) (aes256_encrypt_block key counter)
    ++ ctr fuel key (next_counter counter) (drop 16 input)

unfoldable pub aes256_ctr_transform : (key iv12 input : Bytes) → Bytes
aes256_ctr_transform key iv12 input = ctr (length input) key (start_counter iv12) input

pub record Algorithm : Type 0 where
  pub iv : Bytes
  pub additional_data : Option Bytes

unfoldable pub encrypt : Algorithm → (key input : Bytes) → Bytes
encrypt algorithm key input =
    let ct = aes256_ctr_transform key algorithm.iv input in
    let dummy_tag = replicate 16 0 in ct ++ dummy_tag

-- The end of `subarray(0, length - 16)`, which counts from the end where it is negative.
abbrev pub text_end : ℕ → ℕ
text_end n = if leb 16 n then n - 16 else n + n - 16

unfoldable pub decrypt : Algorithm → (key input : Bytes) → Bytes
decrypt algorithm key cipher_and_tag =
    let ciphertext = take (text_end (length cipher_and_tag)) cipher_and_tag in
    aes256_ctr_transform key algorithm.iv ciphertext
