-- ===== src/Polyfill/Tests.antt =====
-- Concrete inputs for the theorems on the cryptography in plain JavaScript.
use najva_messenger.Base.{[], ◌∷◌, ◌++◌, ◌≡◌, refl, none, some, replicate, length, arith}
use najva_messenger.Polyfill.Aes.{key_schedule, gmul, aes256_encrypt_block}
use najva_messenger.Polyfill.Bits.{bitwise}
use najva_messenger.Polyfill.Kdf.{pbkdf2_sha256}
use najva_messenger.Polyfill.Hkdf.{derived_sizes}
use najva_messenger.Polyfill.Gcm.{Algorithm, mix, aes256_ctr_transform, decrypt}
use najva_messenger.Polyfill.Tamper.{decrypt_unauthenticated}

-- The example of FIPS 197, C.3.
aes256_encrypt_block-text :
    aes256_encrypt_block
      (0 ∷ 1 ∷ 2 ∷ 3 ∷ 4 ∷ 5 ∷ 6 ∷ 7 ∷ 8 ∷ 9 ∷ 10 ∷ 11 ∷ 12 ∷ 13 ∷ 14 ∷ 15 ∷ 16 ∷ 17 ∷ 18 ∷ 19 ∷ 20
        ∷ 21 ∷ 22 ∷ 23 ∷ 24 ∷ 25 ∷ 26 ∷ 27 ∷ 28 ∷ 29 ∷ 30 ∷ 31 ∷ [])
      (0 ∷ 17 ∷ 34 ∷ 51 ∷ 68 ∷ 85 ∷ 102 ∷ 119 ∷ 136 ∷ 153 ∷ 170 ∷ 187 ∷ 204 ∷ 221 ∷ 238 ∷ 255 ∷ [])
    ≡ 142 ∷ 162 ∷ 183 ∷ 202 ∷ 81 ∷ 103 ∷ 69 ∷ 191 ∷ 234 ∷ 252 ∷ 73 ∷ 144 ∷ 75 ∷ 73 ∷ 96 ∷ 137 ∷ []
unfolding aes256_encrypt_block key_schedule gmul bitwise
aes256_encrypt_block-text = refl

abbrev sealing : Algorithm
sealing = record { iv = replicate 12 1; additional_data = some (1 ∷ []) }

abbrev opening : Algorithm
opening = record { iv = replicate 12 1; additional_data = none }

decrypt_unauthenticated_example :
    decrypt opening (replicate 32 9) (
      mix (aes256_ctr_transform (replicate 32 9) (replicate 12 1) (104 ∷ 105 ∷ [])) (1 ∷ [])
      ++ replicate 16 7)
    ≡ 105 ∷ 105 ∷ []
unfolding bitwise
decrypt_unauthenticated_example =
    decrypt_unauthenticated (replicate 32 9) sealing opening (104 ∷ 105 ∷ []) (1 ∷ [])
      (replicate 16 7) refl (omega arith, (omega arith, tt)) refl

derived_sizes_example : length (pbkdf2_sha256 (5 ∷ []) (6 ∷ []) 600000 32) ≡ 32
derived_sizes_example = (derived_sizes (5 ∷ []) (6 ∷ []) 600000 32).1
