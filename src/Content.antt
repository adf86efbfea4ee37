-- ===== src/Content.antt =====
-- client/src/lib/crypto/messageCrypto.ts: the text of a message under a conversation key. A text is
-- its UTF-8 bytes, and the keys that the client has are an argument.
pub mod Envelope
pub mod Binding
pub mod Keys
mod Tests
use najva_messenger.Base.{
  ℕ, ◌+◌, Bool, true, false, Option, none, some, List, [], ◌∷◌, ◌++◌, Result, ok, err, type_error,
  if◌then◌else◌,
}
use najva_messenger.Ratchet.KeyName.{Bytes, decimal}
use najva_messenger.Ratchet.{codes}

abbrev pub Text : Type 0
Text = Bytes

-- AES-GCM with additional data, and base64; decryption and reading fail with `none`.
pub record Aead : Type 0 where
  pub aes_gcm_encrypt : (key plaintext iv : Bytes) → (additional_data : Option Bytes) → Bytes
  pub aes_gcm_decrypt :
      (key ciphertext iv : Bytes) → (additional_data : Option Bytes) → Option Bytes
  pub btoa : Bytes → Text
  pub atob : Text → Option Bytes

infixl 5 ◌then◌
abbrev pub ◌then◌ : {A B : Type 0} → Option A → (A → Option B) → Option B
none then f = none
some a then f = f a

-- `najva:msg:v1:{conversationId}:{version}`
unfoldable pub msg_aad : Text → ℕ → Bytes
msg_aad conversation_id version =
    codes "najva:msg:v1:" ++ conversation_id ++ b':' ∷ decimal (version + 1) version []

pub record EncryptedContent : Type 0 where
  pub encrypted_content : Text
  pub iv : Text
  pub sender_key_version : ℕ

pub record DecryptedContent : Type 0 where
  pub text : Text
  pub undecryptable : Bool

pub record DecryptableMessage : Type 0 where
  pub encrypted_content : Text
  pub iv : Option Text
  pub sender_key_version : Option ℕ
  pub is_system_plaintext : Bool

-- `msg.iv`, where it is there and not empty
abbrev given_iv : Option Text → Option Text
given_iv none = none
given_iv (some []) = none
given_iv (some (c ∷ cs)) = some (c ∷ cs)

abbrev version_of : Option ℕ → ℕ
version_of none = 1
version_of (some v) = v

abbrev shown : Option Bytes → DecryptedContent
shown none = record { text = []; undecryptable = true }
shown (some pt) = record { text = pt; undecryptable = false }

-- `getCK`, which rejects where the client has no key.
abbrev pub Keys : Type 0
Keys = (conversation_id : Text) → (version : ℕ) → Option Bytes

module _ (a : Aead) (get_ck : Keys) where
  abbrev pub sealed_under : Bytes → Text → ℕ → (plaintext iv : Bytes) → EncryptedContent
  sealed_under ck conversation_id version plaintext iv = record {
    encrypted_content =
        a.btoa (a.aes_gcm_encrypt ck plaintext iv (some (msg_aad conversation_id version)));
    iv = a.btoa iv;
    sender_key_version = version;
  }

  -- `iv` is the nonce that is drawn.
  unfoldable pub encrypt_content : Text → ℕ → (plaintext iv : Bytes) → Result EncryptedContent
  encrypt_content conversation_id version plaintext iv = elim (get_ck conversation_id version) [
    | none ↦ err type_error
    | some ck ↦ ok (sealed_under ck conversation_id version plaintext iv)
  ]

  opened : Text → DecryptableMessage → Option Bytes
  opened conversation_id msg = given_iv msg.iv then λ iv_text.
      get_ck conversation_id (version_of msg.sender_key_version) then λ ck.
      a.atob msg.encrypted_content then λ ct. a.atob iv_text then λ iv.
      a.aes_gcm_decrypt ck ct iv
        (some (msg_aad conversation_id (version_of msg.sender_key_version)))

  unfoldable pub decrypt_content : Text → DecryptableMessage → DecryptedContent
  unfolding opened
  decrypt_content conversation_id msg =
      if msg.is_system_plaintext
      then record { text = msg.encrypted_content; undecryptable = false }
      else shown (opened conversation_id msg)
