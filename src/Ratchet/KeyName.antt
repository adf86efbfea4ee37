-- ===== src/Ratchet/KeyName.antt =====
-- The text under which a skipped key is kept: the public key in hexadecimal, a bar, and the number
-- of the message in decimal.
use najva_messenger.Base.{
  ℕ, zero, suc, ◌+◌, ◌-◌, ◌*◌, ◌/◌, ◌%◌, ◌<◌, ◌≡◌, ◌≢◌, ◌↔◌, refl, sym, ap, ◌∙◌, inl, inr, Bool,
  true, false, ◌&&◌, List, [], ◌∷◌, arith, ltb, ◌==◌, if◌then◌else◌, All, Bool-cases,
}

abbrev pub Bytes : Type 0
Bytes = List ℕ

-- `sameKey` of two arrays, the loop over their bytes.
pub same_bytes : Bytes → Bytes → Bool
same_bytes [] [] = true
same_bytes [] (b ∷ bs) = false
same_bytes (a ∷ as') [] = false
same_bytes (a ∷ as') (b ∷ bs) = (a == b) && same_bytes as' bs

pub same_bytes_iff : (a b : Bytes) → (same_bytes a b ≡ true) ↔ (a ≡ b)
unfolding same_bytes
same_bytes_iff [] [] = ground arith
same_bytes_iff [] (b ∷ bs) = ground arith
same_bytes_iff (a ∷ as') [] = ground arith
same_bytes_iff (a ∷ as') (b ∷ bs) = ground (arith, same_bytes_iff as' bs)

hex_digit : ℕ → ℕ
hex_digit d = if ltb d 10 then b'0' + d else b'a' + (d - 10)

-- `b.toString(16).padStart(2, '0')` of a byte
hex_byte : ℕ → Bytes → Bytes
unfolding hex_digit
hex_byte b rest = hex_digit (b / 16) ∷ hex_digit (b % 16) ∷ rest

hex : Bytes → Bytes → Bytes
unfolding hex_byte
hex [] rest = rest
hex (b ∷ bs) rest = hex_byte b (hex bs rest)

-- The decimal digits of a number in front of a text; `fuel` above the number is enough.
unfoldable pub decimal : ℕ → ℕ → Bytes → Bytes
decimal zero n rest = rest
decimal (suc fuel) n rest =
    let more = decimal fuel (n / 10) ((b'0' + n % 10) ∷ rest) in
    if ltb n 10 then (b'0' + n) ∷ rest else more

unfoldable pub b64_key : Bytes → ℕ → Bytes
unfolding hex decimal
b64_key dh_pub n = hex dh_pub (b'|' ∷ decimal (n + 1) n [])

abbrev pub IsBytes : Bytes → Type 0
IsBytes = All (λ b. b < 256)

-- The value of a text of digits, after a number read so far.
value : ℕ → Bytes → ℕ
value acc [] = acc
value acc (d ∷ ds) = value (acc * 10 + (d - b'0')) ds

value-decimal :
    (fuel n : ℕ) (rest : Bytes) → n < fuel → value 0 (decimal fuel n rest) ≡ value n rest
unfolding decimal value
value-decimal zero n rest h = elim h [ ]
value-decimal (suc fuel) n rest h = elim (Bool-cases (ltb n 10)) [
  | inl last ↦ rw last (ap (λ m. value m rest) (omega arith))
  | inr more ↦ rw more (
      value-decimal fuel (n / 10) ((b'0' + n % 10) ∷ rest) (ground arith)
      ∙ ap (λ m. value m rest) (omega arith))
]

hex_digit_inj : (a b : ℕ) → a < 16 → b < 16 → hex_digit a ≡ hex_digit b → a ≡ b
unfolding hex_digit
hex_digit_inj a b h k e = ground arith

hex_digit-ne-bar : (a : ℕ) → a < 16 → hex_digit a ≢ b'|'
unfolding hex_digit
hex_digit-ne-bar a h e = ground arith

same_byte :
    (x y : ℕ)
    → x < 256
    → y < 256
    → hex_digit (x / 16) ≡ hex_digit (y / 16)
    → hex_digit (x % 16) ≡ hex_digit (y % 16)
    → x ≡ y
same_byte x y hx hy high low =
    let e = hex_digit_inj (x / 16) (y / 16) (omega arith) (omega arith) high in
    let f = hex_digit_inj (x % 16) (y % 16) (omega arith) (omega arith) low in omega arith

hex_inj :
    (a b r s : Bytes)
    → IsBytes a
    → IsBytes b
    → hex a (b'|' ∷ r) ≡ hex b (b'|' ∷ s)
    → (a ≡ b) × (r ≡ s)
unfolding hex
hex_inj [] [] r s ha hb e = (refl, cc)
hex_inj [] (y ∷ b) r s ha hb e = absurd (hex_digit-ne-bar (y / 16) (omega arith) (cc))
hex_inj (x ∷ a) [] r s ha hb e = absurd (hex_digit-ne-bar (x / 16) (omega arith) (cc))
hex_inj (x ∷ a) (y ∷ b) r s ha hb e =
    let same = same_byte x y ha.0 hb.0 (cc) (cc) in
    let rest = hex_inj a b r s ha.1 hb.1 (cc) in (cc (same, rest.0), rest.1)

pub decimal_inj : (n m : ℕ) → decimal (n + 1) n [] ≡ decimal (m + 1) m [] → n ≡ m
unfolding value
decimal_inj n m e =
    sym (value-decimal (n + 1) n [] (omega arith))
    ∙ ap (value 0) e
    ∙ value-decimal (m + 1) m [] (omega arith)

-- The text is collision-free: two byte arrays and message numbers share it only if both are equal.
pub b64_key_inj :
    (a b : Bytes) (n m : ℕ) → IsBytes a → IsBytes b → b64_key a n ≡ b64_key b m → (a ≡ b) × (n ≡ m)
unfolding b64_key
b64_key_inj a b n m ha hb e =
    let parts = hex_inj a b (decimal (n + 1) n []) (decimal (m + 1) m []) ha hb e in
    (parts.0, decimal_inj n m parts.1)
