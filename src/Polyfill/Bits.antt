-- ===== src/Polyfill/Bits.antt =====
-- The operators on bits of webCryptoPolyfill.ts, and their laws.
use najva_messenger.Base.{
  ℕ, zero, suc, ◌+◌, ◌-◌, ◌*◌, ◌/◌, ◌%◌, ◌<◌, ◌≡◌, refl, List, [], ◌∷◌, arith,
}
use najva_messenger.Ratchet.KeyName.{Bytes}

abbrev pub pow2 : ℕ → ℕ
pow2 zero = 1
pow2 (suc w) = 2 * pow2 w

-- An operator on the bits of two numbers of a width.
unfoldable pub bitwise : (bit : ℕ → ℕ → ℕ) → (width : ℕ) → ℕ → ℕ → ℕ
bitwise bit zero a b = 0
bitwise bit (suc w) a b = bit (a % 2) (b % 2) + 2 * bitwise bit w (a / 2) (b / 2)

abbrev pub xor_bit : ℕ → ℕ → ℕ
xor_bit a b = (a + b) % 2

abbrev pub and_bit : ℕ → ℕ → ℕ
and_bit a b = (a + b) / 2

abbrev pub or_bit : ℕ → ℕ → ℕ
or_bit a b = (a + b + 1) / 2

-- `^` on bytes.
abbrev pub xor8 : ℕ → ℕ → ℕ
xor8 a b = bitwise xor_bit 8 a b

abbrev pub xor32 : ℕ → ℕ → ℕ
xor32 a b = bitwise xor_bit 32 a b

abbrev pub and32 : ℕ → ℕ → ℕ
and32 a b = bitwise and_bit 32 a b

-- `~`
abbrev pub not32 : ℕ → ℕ
not32 a = 4294967295 - a

-- `… | 0`
abbrev pub word : ℕ → ℕ
word a = a % 4294967296

-- `(x >>> n) | (x << (32 - n))`
abbrev pub rotr : ℕ → ℕ → ℕ
rotr n x = bitwise or_bit 32 (x / pow2 n) (word (x * pow2 (32 - n)))

-- The item at an index, and 0 past the end.
abbrev pub at : ℕ → List ℕ → ℕ
at i [] = 0
at zero (x ∷ xs) = x
at (suc i) (x ∷ xs) = at i xs

-- A word as its four bytes, the highest first.
abbrev pub word_bytes : ℕ → Bytes
word_bytes n = n / 16777216 % 256 ∷ n / 65536 % 256 ∷ n / 256 % 256 ∷ n % 256 ∷ []

pub xor_xor : (w a b : ℕ) → a < pow2 w → bitwise xor_bit w (bitwise xor_bit w a b) b ≡ a
unfolding bitwise
xor_xor zero a b h = omega arith
xor_xor (suc w) a b h =
    let y = bitwise xor_bit w (a / 2) (b / 2) in
    let half : (xor_bit (a % 2) (b % 2) + 2 * y) / 2 ≡ y = omega arith in
    let ih = xor_xor w (a / 2) (b / 2) (omega arith) in rw (half, ih) (omega arith)

pub xor_swap :
    (w a b d : ℕ)
    → bitwise xor_bit w (bitwise xor_bit w a b) d ≡ bitwise xor_bit w (bitwise xor_bit w a d) b
unfolding bitwise
xor_swap zero a b d = refl
xor_swap (suc w) a b d =
    let y = bitwise xor_bit w (a / 2) (b / 2) in
    let z = bitwise xor_bit w (a / 2) (d / 2) in
    let half : (xor_bit (a % 2) (b % 2) + 2 * y) / 2 ≡ y = omega arith in
    let other : (xor_bit (a % 2) (d % 2) + 2 * z) / 2 ≡ z = omega arith in
    rw (half, other, xor_swap w (a / 2) (b / 2) (d / 2)) (omega arith)
