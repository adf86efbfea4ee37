-- ===== src/X3dh.antt =====
-- client/src/lib/crypto/x3dh.ts and keys.ts: the agreement on a shared secret, and the keys that it
-- is made from.
pub mod Agreement
use najva_messenger.Base.{ℕ, ◌+◌, ◌≡◌, Option, none, some, List, [], ◌∷◌, ◌++◌, replicate}
use najva_messenger.Ratchet.KeyName.{Bytes}
use najva_messenger.Ratchet.{Primitives, KeyPair, codes, salt}

-- Byte arrays one after the other.
unfoldable pub concat : List Bytes → Bytes
concat [] = []
concat (a ∷ arrs) = a ++ concat arrs

abbrev pub info : Bytes
info = codes "Najva-X3DH-v1"

abbrev pub f_bytes : Bytes
f_bytes = replicate 32 255

pub record Identity : Type 0 where
  pub dh : KeyPair
  pub signing : KeyPair

pub record SignedPreKey : Type 0 where
  pub id : ℕ
  pub key_pair : KeyPair
  pub signature : Bytes

pub record OneTimePreKey : Type 0 where
  pub id : ℕ
  pub key_pair : KeyPair

-- `sign` is that of the primitives, and `fresh` are the key pairs that are drawn.
pub generate_identity : (dh signing : KeyPair) → Identity
generate_identity dh signing = record { dh = dh; signing = signing }

pub generate_signed_pre_key :
    (sign : (message secret : Bytes) → Bytes) → Identity → ℕ → (fresh : KeyPair) → SignedPreKey
generate_signed_pre_key sign identity id fresh = record {
  id = id;
  key_pair = fresh;
  signature = sign fresh.public_key identity.signing.secret_key;
}

unfoldable pub generate_pre_keys : (fresh : List KeyPair) → (start_id : ℕ) → List OneTimePreKey
generate_pre_keys [] start_id = []
generate_pre_keys (k ∷ ks) start_id =
    record { id = start_id; key_pair = k } ∷ generate_pre_keys ks (start_id + 1)

pub record InitiatorParams : Type 0 where
  pub identity : Identity
  pub ephemeral : KeyPair
  pub remote_identity_dh : Bytes
  pub remote_signed_pre_key : Bytes
  pub remote_one_time_pre_key : Option Bytes

pub record ResponderParams : Type 0 where
  pub identity : Identity
  pub signed_pre_key : KeyPair
  pub one_time_pre_key : Option KeyPair
  pub remote_identity_dh : Bytes
  pub remote_ephemeral : Bytes

module _ (p : Primitives) where
  unfoldable pub kdf : Bytes → Bytes
  kdf dh_concat = p.hkdf (f_bytes ++ dh_concat) salt info 32

  abbrev initiator_extra : Bytes → Option Bytes → List Bytes
  initiator_extra ephemeral none = []
  initiator_extra ephemeral (some key) = p.dh ephemeral key ∷ []

  unfoldable pub x3dh_initiator : InitiatorParams → Bytes
  x3dh_initiator q =
      let dh1 = p.dh q.identity.dh.secret_key q.remote_signed_pre_key in
      let dh2 = p.dh q.ephemeral.secret_key q.remote_identity_dh in
      let dh3 = p.dh q.ephemeral.secret_key q.remote_signed_pre_key in
      kdf (
        concat (dh1 ∷ dh2 ∷ dh3 ∷ initiator_extra q.ephemeral.secret_key q.remote_one_time_pre_key))

  abbrev responder_extra : Bytes → Option KeyPair → List Bytes
  responder_extra remote none = []
  responder_extra remote (some key) = p.dh key.secret_key remote ∷ []

  unfoldable pub x3dh_responder : ResponderParams → Bytes
  x3dh_responder q =
      let dh1 = p.dh q.signed_pre_key.secret_key q.remote_identity_dh in
      let dh2 = p.dh q.identity.dh.secret_key q.remote_ephemeral in
      let dh3 = p.dh q.signed_pre_key.secret_key q.remote_ephemeral in
      kdf (concat (dh1 ∷ dh2 ∷ dh3 ∷ responder_extra q.remote_ephemeral q.one_time_pre_key))
