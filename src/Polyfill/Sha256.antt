-- ===== src/Polyfill/Sha256.antt =====
-- webCryptoPolyfill.ts: SHA-256.
use najva_messenger.Base.{
  ℕ, zero, suc, ◌+◌, ◌-◌, ◌*◌, ◌/◌, ◌≡◌, refl, List, [], ◌∷◌, ◌++◌, length, take, drop, replicate,
}
use najva_messenger.Ratchet.KeyName.{Bytes}
use najva_messenger.Polyfill.Bits.{pow2, xor32, and32, not32, word, rotr, at, word_bytes}

abbrev k_table : List ℕ
k_table =
    1116352408 ∷ 1899447441 ∷ 3049323471 ∷ 3921009573 ∷ 961987163 ∷ 1508970993 ∷ 2453635748
    ∷ 2870763221 ∷ 3624381080 ∷ 310598401 ∷ 607225278 ∷ 1426881987 ∷ 1925078388 ∷ 2162078206
    ∷ 2614888103 ∷ 3248222580 ∷ 3835390401 ∷ 4022224774 ∷ 264347078 ∷ 604807628 ∷ 770255983
    ∷ 1249150122 ∷ 1555081692 ∷ 1996064986 ∷ 2554220882 ∷ 2821834349 ∷ 2952996808 ∷ 3210313671
    ∷ 3336571891 ∷ 3584528711 ∷ 113926993 ∷ 338241895 ∷ 666307205 ∷ 773529912 ∷ 1294757372
    ∷ 1396182291 ∷ 1695183700 ∷ 1986661051 ∷ 2177026350 ∷ 2456956037 ∷ 2730485921 ∷ 2820302411
    ∷ 3259730800 ∷ 3345764771 ∷ 3516065817 ∷ 3600352804 ∷ 4094571909 ∷ 275423344 ∷ 430227734
    ∷ 506948616 ∷ 659060556 ∷ 883997877 ∷ 958139571 ∷ 1322822218 ∷ 1537002063 ∷ 1747873779
    ∷ 1955562222 ∷ 2024104815 ∷ 2227730452 ∷ 2361852424 ∷ 2428436474 ∷ 2756734187 ∷ 3204031479
    ∷ 3329325298 ∷ []

-- `numBlocks`
abbrev pub num_blocks : ℕ → ℕ
num_blocks l = (l + 9 + 63) / 64

-- The blocks that are zero but for the data, the byte after it and the number of bits at the end.
abbrev pub padded : Bytes → Bytes
padded bin =
    let l = length bin in
    bin ++ 128 ∷ replicate (num_blocks l * 64 - l - 5) 0 ++ word_bytes (word (l * 8))

-- `getInt32` at each fourth byte.
abbrev words_of : Bytes → List ℕ
words_of (a ∷ b ∷ c ∷ d ∷ r) = (a * 16777216 + b * 65536 + c * 256 + d) ∷ words_of r
words_of r = []

-- The words are kept with the last one first.
abbrev next_word : List ℕ → ℕ
next_word w =
    let x = at 14 w in
    let y = at 1 w in
    let s0 = xor32 (xor32 (rotr 7 x) (rotr 18 x)) (x / pow2 3) in
    let s1 = xor32 (xor32 (rotr 17 y) (rotr 19 y)) (y / pow2 10) in
    word (at 15 w + s0 + at 6 w + s1)

extend : ℕ → List ℕ → List ℕ
extend zero w = w
extend (suc n) w = extend n (next_word w ∷ w)

abbrev rev_onto : List ℕ → List ℕ → List ℕ
rev_onto [] acc = acc
rev_onto (x ∷ xs) acc = rev_onto xs (x ∷ acc)

pub schedule : Bytes → List ℕ
unfolding extend
schedule block = rev_onto (extend 48 (rev_onto (words_of (take 64 block)) [])) []

pub record Hash : Type 0 where
  pub a : ℕ
  pub b : ℕ
  pub c : ℕ
  pub d : ℕ
  pub e : ℕ
  pub f : ℕ
  pub g : ℕ
  pub h : ℕ

abbrev round : (k w : ℕ) → Hash → Hash
round k w v =
    let s1 = xor32 (xor32 (rotr 6 v.e) (rotr 11 v.e)) (rotr 25 v.e) in
    let ch = xor32 (and32 v.e v.f) (and32 (not32 v.e) v.g) in
    let temp1 = word (v.h + s1 + ch + k + w) in
    let s0 = xor32 (xor32 (rotr 2 v.a) (rotr 13 v.a)) (rotr 22 v.a) in
    let maj = xor32 (xor32 (and32 v.a v.b) (and32 v.a v.c)) (and32 v.b v.c) in
    let temp2 = word (s0 + maj) in
    record {
      a = word (temp1 + temp2);
      b = v.a;
      c = v.b;
      d = v.c;
      e = word (v.d + temp1);
      f = v.e;
      g = v.f;
      h = v.g;
    }

rounds : (ks ws : List ℕ) → Hash → Hash
rounds [] ws v = v
rounds (k ∷ ks) [] v = v
rounds (k ∷ ks) (w ∷ ws) v = rounds ks ws (round k w v)

abbrev add_hash : Hash → Hash → Hash
add_hash u v = record {
  a = word (u.a + v.a);
  b = word (u.b + v.b);
  c = word (u.c + v.c);
  d = word (u.d + v.d);
  e = word (u.e + v.e);
  f = word (u.f + v.f);
  g = word (u.g + v.g);
  h = word (u.h + v.h);
}

pub compress : Bytes → Hash → Hash
unfolding rounds schedule
compress block u = add_hash u (rounds k_table (schedule block) u)

-- The blocks, 64 bytes each.
compress_all : (count : ℕ) → Bytes → Hash → Hash
unfolding compress
compress_all zero blocks u = u
compress_all (suc n) blocks u = compress_all n (drop 64 blocks) (compress blocks u)

abbrev start : Hash
start = record {
  a = 1779033703;
  b = 3144134277;
  c = 1013904242;
  d = 2773480762;
  e = 1359893119;
  f = 2600822924;
  g = 528734635;
  h = 1541459225;
}

abbrev pub hash_bytes : Hash → Bytes
hash_bytes v =
    word_bytes v.a
    ++ word_bytes v.b
    ++ word_bytes v.c
    ++ word_bytes v.d
    ++ word_bytes v.e
    ++ word_bytes v.f
    ++ word_bytes v.g
    ++ word_bytes v.h

unfoldable pub sha256 : Bytes → Bytes
unfolding compress_all
sha256 bin = hash_bytes (compress_all (num_blocks (length bin)) (padded bin) start)

pub length-sha256 : (bin : Bytes) → length (sha256 bin) ≡ 32
unfolding sha256
length-sha256 bin = refl
