-- ===== src/Polyfill/Aes.antt =====
-- webCryptoPolyfill.ts: AES-256 on one block.
use najva_messenger.Base.{
  ℕ, zero, suc, ◌+◌, ◌-◌, ◌*◌, ◌/◌, ◌%◌, List, [], ◌∷◌, ◌++◌, map, length, take, drop, replicate,
  ◌==◌, leb, if◌then◌else◌,
}
use najva_messenger.Ratchet.KeyName.{Bytes}
use najva_messenger.Polyfill.Bits.{xor8, at}

abbrev s_table : Bytes
s_table =
    99 ∷ 124 ∷ 119 ∷ 123 ∷ 242 ∷ 107 ∷ 111 ∷ 197 ∷ 48 ∷ 1 ∷ 103 ∷ 43 ∷ 254 ∷ 215 ∷ 171 ∷ 118 ∷ 202
    ∷ 130 ∷ 201 ∷ 125 ∷ 250 ∷ 89 ∷ 71 ∷ 240 ∷ 173 ∷ 212 ∷ 162 ∷ 175 ∷ 156 ∷ 164 ∷ 114 ∷ 192 ∷ 183
    ∷ 253 ∷ 147 ∷ 38 ∷ 54 ∷ 63 ∷ 247 ∷ 204 ∷ 52 ∷ 165 ∷ 229 ∷ 241 ∷ 113 ∷ 216 ∷ 49 ∷ 21 ∷ 4 ∷ 199
    ∷ 35 ∷ 195 ∷ 24 ∷ 150 ∷ 5 ∷ 154 ∷ 7 ∷ 18 ∷ 128 ∷ 226 ∷ 235 ∷ 39 ∷ 178 ∷ 117 ∷ 9 ∷ 131 ∷ 44 ∷ 26
    ∷ 27 ∷ 110 ∷ 90 ∷ 160 ∷ 82 ∷ 59 ∷ 214 ∷ 179 ∷ 41 ∷ 227 ∷ 47 ∷ 132 ∷ 83 ∷ 209 ∷ 0 ∷ 237 ∷ 32
    ∷ 252 ∷ 177 ∷ 91 ∷ 106 ∷ 203 ∷ 190 ∷ 57 ∷ 74 ∷ 76 ∷ 88 ∷ 207 ∷ 208 ∷ 239 ∷ 170 ∷ 251 ∷ 67 ∷ 77
    ∷ 51 ∷ 133 ∷ 69 ∷ 249 ∷ 2 ∷ 127 ∷ 80 ∷ 60 ∷ 159 ∷ 168 ∷ 81 ∷ 163 ∷ 64 ∷ 143 ∷ 146 ∷ 157 ∷ 56
    ∷ 245 ∷ 188 ∷ 182 ∷ 218 ∷ 33 ∷ 16 ∷ 255 ∷ 243 ∷ 210 ∷ 205 ∷ 12 ∷ 19 ∷ 236 ∷ 95 ∷ 151 ∷ 68 ∷ 23
    ∷ 196 ∷ 167 ∷ 126 ∷ 61 ∷ 100 ∷ 93 ∷ 25 ∷ 115 ∷ 96 ∷ 129 ∷ 79 ∷ 220 ∷ 34 ∷ 42 ∷ 144 ∷ 136 ∷ 70
    ∷ 238 ∷ 184 ∷ 20 ∷ 222 ∷ 94 ∷ 11 ∷ 219 ∷ 224 ∷ 50 ∷ 58 ∷ 10 ∷ 73 ∷ 6 ∷ 36 ∷ 92 ∷ 194 ∷ 211 ∷ 172
    ∷ 98 ∷ 145 ∷ 149 ∷ 228 ∷ 121 ∷ 231 ∷ 200 ∷ 55 ∷ 109 ∷ 141 ∷ 213 ∷ 78 ∷ 169 ∷ 108 ∷ 86 ∷ 244
    ∷ 234 ∷ 101 ∷ 122 ∷ 174 ∷ 8 ∷ 186 ∷ 120 ∷ 37 ∷ 46 ∷ 28 ∷ 166 ∷ 180 ∷ 198 ∷ 232 ∷ 221 ∷ 116 ∷ 31
    ∷ 75 ∷ 189 ∷ 139 ∷ 138 ∷ 112 ∷ 62 ∷ 181 ∷ 102 ∷ 72 ∷ 3 ∷ 246 ∷ 14 ∷ 97 ∷ 53 ∷ 87 ∷ 185 ∷ 134
    ∷ 193 ∷ 29 ∷ 158 ∷ 225 ∷ 248 ∷ 152 ∷ 17 ∷ 105 ∷ 217 ∷ 142 ∷ 148 ∷ 155 ∷ 30 ∷ 135 ∷ 233 ∷ 206
    ∷ 85 ∷ 40 ∷ 223 ∷ 140 ∷ 161 ∷ 137 ∷ 13 ∷ 191 ∷ 230 ∷ 66 ∷ 104 ∷ 65 ∷ 153 ∷ 45 ∷ 15 ∷ 176 ∷ 84
    ∷ 187 ∷ 22 ∷ []

abbrev rcon : Bytes
rcon = 0 ∷ 1 ∷ 2 ∷ 4 ∷ 8 ∷ 16 ∷ 32 ∷ 64 ∷ 128 ∷ 27 ∷ 54 ∷ []

abbrev sub : ℕ → ℕ
sub b = at b s_table

-- Bytes combined one by one, up to the end of the shorter list.
abbrev pub xor_all : Bytes → Bytes → Bytes
xor_all [] bs = []
xor_all (a ∷ as') [] = []
xor_all (a ∷ as') (b ∷ bs) = xor8 a b ∷ xor_all as' bs

abbrev rotated : Bytes → Bytes
rotated [] = []
rotated (t ∷ ts) = ts ++ t ∷ []

abbrev with_first : (ℕ → ℕ) → Bytes → Bytes
with_first f [] = []
with_first f (t ∷ ts) = f t ∷ ts

-- What the word before is turned into, for the word `i`.
abbrev temp_of : ℕ → Bytes → Bytes
temp_of i temp =
    if i % 8 == 0
    then with_first (λ t. xor8 t (at (i / 8) rcon)) (map sub (rotated temp))
    else (if i % 8 == 4 then map sub temp else temp)

abbrev word_at : ℕ → List Bytes → Bytes
word_at i [] = []
word_at zero (x ∷ xs) = x
word_at (suc i) (x ∷ xs) = word_at i xs

-- The words of the key from the word `i` on; they are kept with the last one first.
expand_from : (count i : ℕ) → List Bytes → List Bytes
expand_from zero i w = w
expand_from (suc n) i w =
    expand_from n (i + 1) (xor_all (word_at 7 w) (temp_of i (word_at 0 w)) ∷ w)

-- The first words, of four bytes each, onto those before.
key_words : (count : ℕ) → Bytes → List Bytes → List Bytes
key_words zero key acc = acc
key_words (suc n) key acc = key_words n (drop 4 key) (take 4 key ∷ acc)

abbrev flat_onto : List Bytes → Bytes → Bytes
flat_onto [] acc = acc
flat_onto (x ∷ xs) acc = flat_onto xs (x ++ acc)

-- The 240 bytes `w`; a key of less than 32 bytes has zeros after it.
unfoldable pub key_schedule : Bytes → Bytes
unfolding expand_from key_words
key_schedule key =
    flat_onto (expand_from 52 8 (key_words 8 (take 32 (key ++ replicate (32 - length key) 0)) []))
      []

abbrev add_round_key : (w : Bytes) → ℕ → Bytes → Bytes
add_round_key w r state = xor_all state (take 16 (drop (r * 16) w))

abbrev sub_bytes : Bytes → Bytes
sub_bytes state = map sub state

abbrev shift_rows : Bytes → Bytes
shift_rows state =
    map (λ i. at i state) (0 ∷ 5 ∷ 10 ∷ 15 ∷ 4 ∷ 9 ∷ 14 ∷ 3 ∷ 8 ∷ 13 ∷ 2 ∷ 7 ∷ 12 ∷ 1 ∷ 6 ∷ 11 ∷ [])

gmul_from : (count a b p : ℕ) → ℕ
gmul_from zero a b p = p
gmul_from (suc n) a b p =
    let p' = if b % 2 == 0 then p else xor8 p a in
    let doubled = a * 2 % 256 in
    gmul_from n (if leb 128 a then xor8 doubled 27 else doubled) (b / 2) p'

unfoldable pub gmul : ℕ → ℕ → ℕ
unfolding gmul_from
gmul a b = gmul_from 8 a b 0

mix_column : ℕ → ℕ → ℕ → ℕ → Bytes → Bytes
mix_column a0 a1 a2 a3 r =
    xor8 (xor8 (xor8 (gmul a0 2) (gmul a1 3)) a2) a3
    ∷ xor8 (xor8 (xor8 a0 (gmul a1 2)) (gmul a2 3)) a3
    ∷ xor8 (xor8 (xor8 a0 a1) (gmul a2 2)) (gmul a3 3)
    ∷ xor8 (xor8 (xor8 (gmul a0 3) a1) a2) (gmul a3 2)
    ∷ r

mix_columns : Bytes → Bytes
unfolding mix_column
mix_columns (a0 ∷ a1 ∷ a2 ∷ a3 ∷ r) = mix_column a0 a1 a2 a3 (mix_columns r)
mix_columns r = []

round_from : (w : Bytes) (count r : ℕ) → Bytes → Bytes
unfolding mix_columns
round_from w zero r state = state
round_from w (suc n) r state =
    round_from w n (r + 1) (add_round_key w r (mix_columns (shift_rows (sub_bytes state))))

unfoldable pub aes256_encrypt_block : Bytes → Bytes → Bytes
unfolding round_from
aes256_encrypt_block key block =
    let w = key_schedule key in
    let state = round_from w 13 1 (add_round_key w 0 block) in
    add_round_key w 14 (shift_rows (sub_bytes state))
