-- ===== src/Polyfill/Kdf.antt =====
-- webCryptoPolyfill.ts: HMAC, PBKDF2 and HKDF over SHA-256. The output is concatenated and cut, where
-- the source writes it into a buffer of the size that is asked for.
use najva_messenger.Base.{
  ℕ, zero, suc, ◌+◌, ◌-◌, ◌/◌, ◌%◌, Option, none, some, [], ◌∷◌, ◌++◌, map, length, take, replicate,
  ltb, if◌then◌else◌, map_option,
}
use najva_messenger.Ratchet.KeyName.{Bytes}
use najva_messenger.Polyfill.Bits.{xor8, word_bytes}
use najva_messenger.Polyfill.Sha256.{sha256}
use najva_messenger.Polyfill.Aes.{xor_all}

abbrev key_block : Bytes → Bytes
key_block k = take 64 (k ++ replicate (64 - length k) 0)

abbrev short_key : Bytes → Bytes
short_key key = if ltb 64 (length key) then sha256 key else key

unfoldable pub hmac_sha256 : (key input : Bytes) → Bytes
hmac_sha256 key input =
    let k = key_block (short_key key) in
    let inner_hash = sha256 (map (λ kb. xor8 kb 54) k ++ input) in
    sha256 (map (λ kb. xor8 kb 92) k ++ inner_hash)

-- The loop from the second iteration on: `u` is hashed again and mixed into `t`.
unfoldable pub stir : (count : ℕ) → (password u t : Bytes) → Bytes
stir zero password u t = t
stir (suc n) password u t = let u' = hmac_sha256 password u in stir n password u' (xor_all t u')

abbrev pub block_of : (password salt : Bytes) → (iterations block : ℕ) → Bytes
block_of password salt iterations block =
    let u = hmac_sha256 password (salt ++ word_bytes block) in stir (iterations - 1) password u u

-- The blocks from a number on, of which the last is cut.
unfoldable pub blocks_from :
    (count block : ℕ) → (password salt : Bytes) → (iterations left : ℕ) → Bytes
unfolding stir
blocks_from zero block password salt iterations left = []
blocks_from (suc n) block password salt iterations left =
    take left (block_of password salt iterations block)
    ++ blocks_from n (block + 1) password salt iterations (left - 32)

-- `Math.ceil(keyLen / 32)`
abbrev pub block_count : ℕ → ℕ
block_count key_len = (key_len + 31) / 32

unfoldable pub pbkdf2_sha256 : (password salt : Bytes) → (iterations key_len : ℕ) → Bytes
pbkdf2_sha256 password salt iterations key_len =
    blocks_from (block_count key_len) 1 password salt iterations key_len

abbrev pub salt_or_zeros : Bytes → Bytes
salt_or_zeros [] = replicate 32 0
salt_or_zeros (b ∷ bs) = b ∷ bs

-- The loop that writes the output from `offset` on, on fuel. `step` is written to a byte.
unfoldable pub expand : (fuel : ℕ) → (prk info last : Bytes) → (offset step len : ℕ) → Option Bytes
expand zero prk info last offset step len = if ltb offset len then none else some []
expand (suc fuel) prk info last offset step len =
    let last' = hmac_sha256 prk (last ++ info ++ (step % 256) ∷ []) in
    let chunk = if ltb 32 (len - offset) then 32 else len - offset in
    let rest = expand fuel prk info last' (offset + chunk) (step + 1) len in
    if ltb offset len then map_option (λ r. take chunk last' ++ r) rest else some []

-- One turn of the loop for each byte is more than it takes.
unfoldable pub hkdf_sha256 : (ikm salt info : Bytes) → (len : ℕ) → Option Bytes
hkdf_sha256 ikm salt info len = expand len (hmac_sha256 (salt_or_zeros salt) ikm) info [] 0 1 len
