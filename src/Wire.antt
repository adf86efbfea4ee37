-- ===== src/Wire.antt =====
-- client/src/lib/crypto/session.ts: sessions between two devices, which the agreement sets up and
-- the ratchet goes on with, and the messages they put on the wire. The fresh key pairs and nonces of
-- a call are its arguments.
pub mod Exchange
mod Tests
use najva_messenger.Base.{
  ℕ, ◌≡◌, refl, String, Option, none, some, List, [], ◌∷◌, map_option, Action, Result, ok, err,
  type_error, ◌>>=◌, ◌>>◌, pure,
}
use najva_messenger.Ratchet.KeyName.{Bytes}
use najva_messenger.Ratchet.{
  Primitives, KeyPair, RatchetState, RatchetEnvelope, init_ratchet_initiator,
  init_ratchet_responder, ratchet_encrypt, ratchet_decrypt,
}
use najva_messenger.X3dh.{Identity, SignedPreKey, OneTimePreKey, x3dh_initiator, x3dh_responder}

-- The characters of a text by their numbers.
abbrev pub Text : Type 0
Text = List ℕ

pub record RemoteBundle : Type 0 where
  pub identity_dh : Bytes
  pub signed_pre_key : Bytes
  pub signed_pre_key_id : ℕ
  pub one_time_pre_key : Option Bytes
  pub one_time_pre_key_id : Option ℕ

pub record InitialHeader : Type 0 where
  pub identity_dh : Text
  pub ephemeral : Text
  pub signed_pre_key_id : ℕ
  pub one_time_pre_key_id : Option ℕ

pub record RatchetHeader : Type 0 where
  pub dh_pub : Text
  pub pn : ℕ
  pub n : ℕ

-- The object that is packed into `ephemeralKey`: the fields of the initial header where there is
-- one, and the ratchet's.
pub record Header : Type 0 where
  pub initial : Option InitialHeader
  pub ratchet : RatchetHeader

pub record Session : Type 0 where
  pub state : RatchetState
  pub initial_header : Option InitialHeader

pub record WireMessage : Type 0 where
  pub encrypted_content : Text
  pub iv : Text
  pub ephemeral_key : Text
  pub sender_key_version : ℕ

-- Base64, and JSON in UTF-8; reading either fails with `none` where it throws.
pub record Codec : Type 0 where
  pub btoa : Bytes → Text
  pub atob : Text → Option Bytes
  pub stringify : Header → Bytes
  pub parse : Bytes → Option Header

abbrev or_type_error : {S A : Type 0} → Option A → Action S A
or_type_error none s = (err type_error, s)
or_type_error (some a) s = (ok a, s)

-- A call on the ratchet state of a session, which it changes in place.
abbrev pub on_state : {A : Type 0} → Action RatchetState A → Action Session A
on_state act s = let (out, st) = act s.state in (out, record s { state = st })

module _ (p : Primitives) (c : Codec) where
  unfoldable pub establish_session_as_initiator :
      Identity → RemoteBundle → (ephemeral generated : KeyPair) → Session
  establish_session_as_initiator identity bundle ephemeral generated =
      let shared_secret = x3dh_initiator p (record {
        identity = identity;
        ephemeral = ephemeral;
        remote_identity_dh = bundle.identity_dh;
        remote_signed_pre_key = bundle.signed_pre_key;
        remote_one_time_pre_key = bundle.one_time_pre_key;
      }) in
      record {
        state = init_ratchet_initiator shared_secret bundle.signed_pre_key generated;
        initial_header = some (record {
          identity_dh = c.btoa identity.dh.public_key;
          ephemeral = c.btoa ephemeral.public_key;
          signed_pre_key_id = bundle.signed_pre_key_id;
          one_time_pre_key_id = bundle.one_time_pre_key_id;
        });
      }

  -- `JSON.parse(new TextDecoder().decode(unb64(…)))`
  abbrev read_header : Text → Action (Unit {0}) Header
  read_header t = or_type_error (c.atob t) >>= λ bytes. or_type_error (c.parse bytes)

  unfoldable pub establish_session_as_responder :
      Identity → SignedPreKey → Option OneTimePreKey → WireMessage → Action (Unit {0}) Session
  establish_session_as_responder identity signed_pre_key one_time_pre_key first_wire = do
    header ← read_header first_wire.ephemeral_key
    initial ← or_type_error header.initial
    remote_identity_dh ← or_type_error (c.atob initial.identity_dh)
    remote_ephemeral ← or_type_error (c.atob initial.ephemeral)
    let shared_secret = x3dh_responder p (record {
      identity = identity;
      signed_pre_key = signed_pre_key.key_pair;
      one_time_pre_key = map_option (λ k. k.key_pair) one_time_pre_key;
      remote_identity_dh = remote_identity_dh;
      remote_ephemeral = remote_ephemeral;
    })
    pure (record {
      state = init_ratchet_responder shared_secret signed_pre_key.key_pair;
      initial_header = none;
    })

  abbrev pub wire_of : Option InitialHeader → RatchetEnvelope → WireMessage
  wire_of initial env = record {
    encrypted_content = c.btoa env.ciphertext;
    iv = c.btoa env.iv;
    ephemeral_key = c.btoa (
        c.stringify (record {
          initial = initial;
          ratchet = record { dh_pub = c.btoa env.dh_pub; pn = env.pn; n = env.n };
        }));
    sender_key_version = 1;
  }

  unfoldable pub encrypt : (plaintext iv : Bytes) → Action Session WireMessage
  encrypt plaintext iv s =
      (on_state (ratchet_encrypt p plaintext iv) >>= λ env. pure (wire_of s.initial_header env)) s

  read_envelope : WireMessage → Action (Unit {0}) RatchetEnvelope
  read_envelope wire = do
    header ← read_header wire.ephemeral_key
    dh_pub ← or_type_error (c.atob header.ratchet.dh_pub)
    iv ← or_type_error (c.atob wire.iv)
    ciphertext ← or_type_error (c.atob wire.encrypted_content)
    pure (record {
      dh_pub = dh_pub;
      pn = header.ratchet.pn;
      n = header.ratchet.n;
      iv = iv;
      ciphertext = ciphertext;
    })

  abbrev decrypt_with : KeyPair → Result RatchetEnvelope → Action Session Bytes
  decrypt_with generated (err e) s = (err e, s)
  decrypt_with generated (ok env) s = on_state (ratchet_decrypt p env generated) s

  -- `generated` is the key pair of a turn of the ratchet.
  unfoldable pub decrypt : WireMessage → (generated : KeyPair) → Action Session Bytes
  unfolding read_envelope
  decrypt wire generated s = decrypt_with generated (read_envelope wire tt).0 s
