-- ===== src/X3dh/Agreement.antt =====
-- The two sides of the agreement.
use najva_messenger.Base.{◌≡◌, refl, Option, none, some, map_option}
use najva_messenger.Ratchet.KeyName.{Bytes}
use najva_messenger.Ratchet.{Primitives, KeyPair}
use najva_messenger.X3dh.{Identity, x3dh_initiator, x3dh_responder}

module _ (p : Primitives) where
  -- The secret of each key pair with the public key of the other gives one value.
  abbrev pub Agrees : KeyPair → KeyPair → Type 0
  Agrees a b = p.dh a.secret_key b.public_key ≡ p.dh b.secret_key a.public_key

  abbrev pub AgreesOptional : KeyPair → Option KeyPair → Type 0
  AgreesOptional a none = Unit {0}
  AgreesOptional a (some b) = Agrees a b

  abbrev pub public_of : KeyPair → Bytes
  public_of k = k.public_key

  -- The initiator and the responder derive one secret, with and without a one-time pre-key, where
  -- each pair of their key pairs agrees on its Diffie-Hellman value.
  pub x3dh-agree :
      (alice bob : Identity) (ephemeral signed : KeyPair) (one_time : Option KeyPair)
      → Agrees alice.dh signed
      → Agrees ephemeral bob.dh
      → Agrees ephemeral signed
      → AgreesOptional ephemeral one_time
      → x3dh_initiator p (record {
        identity = alice;
        ephemeral = ephemeral;
        remote_identity_dh = bob.dh.public_key;
        remote_signed_pre_key = signed.public_key;
        remote_one_time_pre_key = map_option public_of one_time;
      })
        ≡ x3dh_responder p (record {
          identity = bob;
          signed_pre_key = signed;
          one_time_pre_key = one_time;
          remote_identity_dh = alice.dh.public_key;
          remote_ephemeral = ephemeral.public_key;
        })
  unfolding x3dh_initiator x3dh_responder
  x3dh-agree alice bob ephemeral signed none a b c d = rw (a, b, c) refl
  x3dh-agree alice bob ephemeral signed (some k) a b c d = rw (a, b, c, d) refl
