-- ===== src/Content/Binding.antt =====
-- A ciphertext is bound to its conversation and to the version of its key.
use mathlib.Core.Path.{subst}
use najva_messenger.Base.{
  value-inj, ℕ, ◌+◌, ◌≡◌, ◌≢◌, refl, ◌∙◌, inl, inr, true, false, Option, none, some, [], ◌∷◌, ◌++◌,
  ok, All, Option-cases,
}
use najva_messenger.Ratchet.KeyName.{Bytes, decimal, decimal_inj}
use najva_messenger.Content.{
  Text, Aead, Keys, msg_aad, EncryptedContent, DecryptableMessage, DecryptedContent, sealed_under,
  encrypt_content, decrypt_content, opened,
}

-- A text without a colon, such as the identifier of a conversation.
abbrev pub IsPlain : Text → Type 0
IsPlain = All (λ c. c ≢ b':')

plain_inj :
    (a b r s : Bytes) → IsPlain a → IsPlain b → a ++ b':' ∷ r ≡ b ++ b':' ∷ s → (a ≡ b) × (r ≡ s)
plain_inj [] [] r s h k e = (refl, cc e)
plain_inj [] (y ∷ b) r s h k e = absurd (k.0 (cc e))
plain_inj (x ∷ a) [] r s h k e = absurd (h.0 (cc e))
plain_inj (x ∷ a) (y ∷ b) r s h k e =
    let same : x ≡ y = cc e in
    let rest = plain_inj a b r s h.1 k.1 (cc e) in (cc (same, rest.0), rest.1)

msg_aad_inj :
    (c d : Text) (v w : ℕ) → IsPlain c → IsPlain d → msg_aad c v ≡ msg_aad d w → (c ≡ d) × (v ≡ w)
unfolding msg_aad
msg_aad_inj c d v w h k e =
    let parts = plain_inj c d (decimal (v + 1) v []) (decimal (w + 1) w []) h k (cc e) in
    (parts.0, decimal_inj v w parts.1)

abbrev pub plainly : Text → DecryptedContent
plainly text = record { text = text; undecryptable = false }

abbrev pub placeholder : DecryptedContent
placeholder = record { text = []; undecryptable = true }

-- The message as it is stored, with a version that the server claims.
abbrev pub stored_at : EncryptedContent → ℕ → DecryptableMessage
stored_at e version = record {
  encrypted_content = e.encrypted_content;
  iv = some e.iv;
  sender_key_version = some version;
  is_system_plaintext = false;
}

module _ (a : Aead) where
  abbrev pub Base64RoundTrip : Type 0
  Base64RoundTrip = (b : Bytes) → a.atob (a.btoa b) ≡ some b

  -- What was encrypted is decrypted under its key and additional data, and under no other
  -- additional data.
  abbrev pub GcmRoundTrip : Type 0
  GcmRoundTrip =
      (key pt iv : Bytes) (aad : Option Bytes)
      → a.aes_gcm_decrypt key (a.aes_gcm_encrypt key pt iv aad) iv aad ≡ some pt

  abbrev pub GcmBinds : Type 0
  GcmBinds =
      (key key' pt iv : Bytes) (aad aad' : Bytes)
      → aad ≢ aad'
      → a.aes_gcm_decrypt key' (a.aes_gcm_encrypt key pt iv (some aad)) iv (some aad') ≡ none

  -- A message decrypts to its text for a reader who has the key of its conversation and version.
  -- In another conversation, or with another version, it is not decrypted, whatever keys the reader
  -- has. The identifiers have no colon, and the hypotheses are that AES-GCM decrypts what it
  -- encrypted, under the same additional data only, and that base64 reads back what it wrote.
  pub content_bound :
      (writer reader : Keys) (c : Text) (v : ℕ) (pt iv : Bytes) (e : EncryptedContent) (d : Text)
      (w : ℕ) (n : ℕ) (ns : Bytes)
      → Base64RoundTrip
      → GcmRoundTrip
      → GcmBinds
      → IsPlain c
      → IsPlain d
      → a.btoa iv ≡ n ∷ ns
      → encrypt_content a writer c v pt iv ≡ ok e
      → (reader c v ≡ writer c v → decrypt_content a reader c (stored_at e v) ≡ plainly pt)
        × (((c ≡ d) × (v ≡ w) → ⊥) → decrypt_content a reader d (stored_at e w) ≡ placeholder)
  unfolding encrypt_content decrypt_content opened
  content_bound writer reader c v pt iv e d w n ns b64 gcm binds plain plain' filled sealed =
      elim (Option-cases (writer c v)) [
        | inl missing ↦ absurd (cc (rw (encrypt_content, missing) at sealed))
        | inr (ck, there) ↦
            let made : sealed_under a writer ck c v pt iv ≡ e =
              value-inj (rw (encrypt_content, there) at sealed) in
            (
              λ same.
                  subst (λ x. decrypt_content a reader c (stored_at x v) ≡ plainly pt) made
                    (right ck (same ∙ there)),
              λ differs.
                  subst (λ x. decrypt_content a reader d (stored_at x w) ≡ placeholder) made
                    (wrong ck differs (reader d w) refl),
            )
      ]
    where
      right :
          (ck : Bytes)
          → reader c v ≡ some ck
          → decrypt_content a reader c (stored_at (sealed_under a writer ck c v pt iv) v)
            ≡ plainly pt
      right ck has =
          let aad = msg_aad c v in
          let ct = a.aes_gcm_encrypt ck pt iv (some aad) in
          let read : a.atob (n ∷ ns) ≡ some iv = rw filled at (b64 iv) in
          rw (filled, has, b64 ct, read, gcm ck pt iv (some aad)) refl

      wrong :
          (ck : Bytes)
          → ((c ≡ d) × (v ≡ w) → ⊥)
          → (k : Option Bytes) → reader d w ≡ k
          → decrypt_content a reader d (stored_at (sealed_under a writer ck c v pt iv) w)
            ≡ placeholder
      wrong ck differs none has = rw (filled, has) refl
      wrong ck differs (some k) has =
          let aad = msg_aad c v in
          let ct = a.aes_gcm_encrypt ck pt iv (some aad) in
          let read : a.atob (n ∷ ns) ≡ some iv = rw filled at (b64 iv) in
          let apart : aad ≢ msg_aad d w = λ same. differs (msg_aad_inj c d v w plain plain' same) in
          rw (filled, has, b64 ct, read, binds ck k pt iv aad (msg_aad d w) apart) refl
