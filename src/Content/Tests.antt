-- ===== src/Content/Tests.antt =====
-- A message of the conversation "a" at version 2. A ciphertext has its additional data in front.
use najva_messenger.Base.{
  ◌+◌, ◌≡◌, ◌≢◌, refl, Option, none, some, [], ◌∷◌, replicate, ◌==◌, ==_refl, if◌then◌else◌, arith,
  Bool-cases, inl, inr,
}
use najva_messenger.Ratchet.KeyName.{Bytes}
use najva_messenger.Content.{
  Aead, Keys, EncryptedContent, sealed_under, encrypt_content, decrypt_content,
}
use najva_messenger.Content.Binding.{content_bound, stored_at, placeholder}

put_data : Bytes → Bytes → Bytes
put_data [] r = 0 ∷ r
put_data (x ∷ xs) r = (x + 1) ∷ put_data xs r

-- The text behind the given data, where the data is there.
after : Bytes → Bytes → Option Bytes
after [] (c ∷ cs) = if c == 0 then some cs else none
after [] [] = none
after (x ∷ xs) (c ∷ cs) = let rest = after xs cs in if c == x + 1 then rest else none
after (x ∷ xs) [] = none

abbrev data_of : Option Bytes → Bytes
data_of none = []
data_of (some aad) = aad

abbrev aead : Aead
aead = record {
  aes_gcm_encrypt = λ key pt iv aad. put_data (data_of aad) pt;
  aes_gcm_decrypt = λ key ct iv aad. after (data_of aad) ct;
  btoa = λ b. b;
  atob = λ t. some t;
}

after-put_data : (xs pt : Bytes) → after xs (put_data xs pt) ≡ some pt
unfolding after put_data
after-put_data [] pt = refl
after-put_data (x ∷ xs) pt = rw (==_refl (x + 1)) (after-put_data xs pt)

after-put_data_other : (xs ys pt : Bytes) → xs ≢ ys → after ys (put_data xs pt) ≡ none
unfolding after put_data
after-put_data_other [] [] pt h = absurd (h refl)
after-put_data_other [] (y ∷ ys) pt h = ground arith
after-put_data_other (x ∷ xs) [] pt h = ground arith
after-put_data_other (x ∷ xs) (y ∷ ys) pt h = elim (Bool-cases (x + 1 == y + 1)) [
  | inr differs ↦ rw differs refl
  | inl same ↦
      let eq : x ≡ y = ground arith in rw same (after-put_data_other xs ys pt (λ e. h (cc (eq, e))))
]

abbrev keys : Keys
keys conversation version = some (replicate 32 1)

abbrev sealed : EncryptedContent
sealed = sealed_under aead keys (replicate 32 1) (97 ∷ []) 2 (104 ∷ []) (5 ∷ [])

content_bound_example : decrypt_content aead keys (97 ∷ []) (stored_at sealed 3) ≡ placeholder
unfolding encrypt_content
content_bound_example =
    (content_bound aead keys keys (97 ∷ []) 2 (104 ∷ []) (5 ∷ []) sealed (97 ∷ []) 3 5 []
        (λ b. refl) (λ key pt iv aad. after-put_data (data_of aad) pt)
        (λ key key' pt iv aad aad' h. after-put_data_other aad aad' pt h)
        (λ e. absurd (omega (arith, e)), tt) (λ e. absurd (omega (arith, e)), tt) refl refl).1
      (λ e. absurd (omega (arith, e.1)))
