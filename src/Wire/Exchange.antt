-- ===== src/Wire/Exchange.antt =====
-- A first exchange over the wire: the agreement, the ratchet and the encoding together.
use najva_messenger.Base.{
  ℕ, ◌≡◌, refl, ap, ◌∙◌, false, Option, none, some, List, [], ◌∷◌, map, map_option, Result, ok, err,
  out-cases, inl, inr,
}
use najva_messenger.Ratchet.KeyName.{Bytes, IsBytes}
use najva_messenger.Ratchet.{
  Primitives, KeyPair, RatchetEnvelope, init_ratchet_initiator, init_ratchet_responder,
  ratchet_encrypt, ratchet_decrypt,
}
use najva_messenger.Ratchet.Delivery.{Arrival, receive_all, InWindow}
use najva_messenger.Ratchet.Conversation.{
  Draft, Sent, send_all, GcmRoundTrip, AllSent, first_exchange,
}
use najva_messenger.X3dh.{Identity, SignedPreKey, OneTimePreKey, x3dh_responder}
use najva_messenger.X3dh.Agreement.{Agrees, AgreesOptional, x3dh-agree}
use najva_messenger.Wire.{
  RemoteBundle, InitialHeader, Header, RatchetHeader, Session, WireMessage, Codec, wire_of, encrypt,
  decrypt, establish_session_as_initiator, establish_session_as_responder,
}

module _ (p : Primitives) (c : Codec) where
  abbrev pub Base64RoundTrip : Type 0
  Base64RoundTrip = (b : Bytes) → c.atob (c.btoa b) ≡ some b

  abbrev pub JsonRoundTrip : Type 0
  JsonRoundTrip = (h : Header) → c.parse (c.stringify h) ≡ some h

  abbrev keep_wire : Result WireMessage × Session → List WireMessage → List WireMessage
  keep_wire (ok wire, s) rest = wire ∷ rest
  keep_wire (err e, s) rest = rest

  -- The calls of `encrypt`, one after the other; a call that throws sends nothing.
  unfoldable pub encrypt_all : List Draft → Session → List WireMessage
  encrypt_all [] s = []
  encrypt_all (d ∷ rest) s =
      let r = encrypt p c d.plaintext d.iv s in keep_wire r (encrypt_all rest r.1)

  -- The calls of `decrypt`, one after the other, for the messages as they are on the wire.
  unfoldable pub decrypt_all :
      Option InitialHeader → List Arrival → Session → List (Result Bytes) × Session
  decrypt_all initial [] s = ([], s)
  decrypt_all initial (a ∷ rest) s =
      let (r, s') = decrypt p c (wire_of p c initial a.envelope) a.generated s in
      let (rs, last) = decrypt_all initial rest s' in (r ∷ rs, last)

  decrypt-wire_of :
      (initial : Option InitialHeader) (env : RatchetEnvelope) (generated : KeyPair) (s : Session)
      → Base64RoundTrip
      → JsonRoundTrip
      → decrypt p c (wire_of p c initial env) generated s ≡ (
        (ratchet_decrypt p env generated s.state).0,
        record s { state = (ratchet_decrypt p env generated s.state).1 },
      )
  unfolding decrypt
  decrypt-wire_of initial env generated s b64 json =
      let ratchet : RatchetHeader = record { dh_pub = c.btoa env.dh_pub; pn = env.pn; n = env.n } in
      let h : Header = record { initial = initial; ratchet = ratchet } in
      rw (b64 (c.stringify h), json h, b64 env.dh_pub, b64 env.iv, b64 env.ciphertext) refl

  abbrev pub envelope_of : Sent → RatchetEnvelope
  envelope_of s = s.envelope

  encrypt_all-send_all :
      (drafts : List Draft) (s : Session)
      → encrypt_all drafts s
        ≡ map (λ x. wire_of p c s.initial_header (envelope_of x)) (send_all p drafts s.state)
  unfolding encrypt_all send_all encrypt
  encrypt_all-send_all [] s = refl
  encrypt_all-send_all (d ∷ rest) s =
      elim (out-cases (ratchet_encrypt p d.plaintext d.iv s.state)) [
        | inl (x, st, e) ↦ rw e (encrypt_all-send_all rest (record s { state = st }))
        | inr (env, st, e) ↦ rw e (
            ap (λ ws. wire_of p c s.initial_header env ∷ ws)
              (encrypt_all-send_all rest (record s { state = st })))
      ]

  decrypt_all-receive_all :
      (initial : Option InitialHeader) (arrivals : List Arrival) (s : Session)
      → Base64RoundTrip
      → JsonRoundTrip
      → (decrypt_all initial arrivals s).0 ≡ (receive_all p arrivals s.state).0
  unfolding decrypt_all receive_all
  decrypt_all-receive_all initial [] s b64 json = refl
  decrypt_all-receive_all initial (a ∷ rest) s b64 json =
      let st = (ratchet_decrypt p a.envelope a.generated s.state).1 in
      rw
        (
          decrypt-wire_of initial a.envelope a.generated s b64 json,
          decrypt_all-receive_all initial rest (record s { state = st }) b64 json,
        )
        refl

  abbrev pub key_of : OneTimePreKey → KeyPair
  key_of k = k.key_pair

  abbrev pub public_of : OneTimePreKey → Bytes
  public_of k = k.key_pair.public_key

  abbrev pub id_of : OneTimePreKey → ℕ
  id_of k = k.id

  -- What the server hands out for a device.
  abbrev pub bundle_of : Identity → SignedPreKey → Option OneTimePreKey → RemoteBundle
  bundle_of bob signed one_time = record {
    identity_dh = bob.dh.public_key;
    signed_pre_key = signed.key_pair.public_key;
    signed_pre_key_id = signed.id;
    one_time_pre_key = map_option public_of one_time;
    one_time_pre_key_id = map_option id_of one_time;
  }

  module _ (alice bob : Identity) (signed : SignedPreKey) (one_time : Option OneTimePreKey)
      (ephemeral generated : KeyPair) where
    abbrev pub started : Session
    started =
        establish_session_as_initiator p c alice (bundle_of bob signed one_time) ephemeral generated

    abbrev pub responder_secret : Bytes
    responder_secret = x3dh_responder p (record {
      identity = bob;
      signed_pre_key = signed.key_pair;
      one_time_pre_key = map_option key_of one_time;
      remote_identity_dh = alice.dh.public_key;
      remote_ephemeral = ephemeral.public_key;
    })

    abbrev pub joined : Session
    joined = record {
      state = init_ratchet_responder responder_secret signed.key_pair;
      initial_header = none;
    }

    public-key :
        (o : Option OneTimePreKey)
        → map_option public_of o ≡ map_option (λ (k : KeyPair). k.public_key) (map_option key_of o)
    public-key none = refl
    public-key (some k) = refl

    shared :
        Agrees p alice.dh signed.key_pair
        → Agrees p ephemeral bob.dh
        → Agrees p ephemeral signed.key_pair
        → AgreesOptional p ephemeral (map_option key_of one_time)
        → started.state
          ≡ init_ratchet_initiator responder_secret signed.key_pair.public_key generated
    unfolding establish_session_as_initiator
    shared a b d e =
        rw
          (
            public-key one_time,
            x3dh-agree p alice bob ephemeral signed.key_pair (map_option key_of one_time) a b d e,
          )
          refl

    -- Two devices talk from the bundle to the plaintext. The initiator sets up a session from the
    -- responder's bundle and encrypts messages; from any of them as it is on the wire the responder
    -- sets up a session too, and with it decrypts every message that reaches it, in whatever
    -- order, where each comes once and none is more than 1000 ahead of those before it. The
    -- hypotheses: the Diffie-Hellman values agree, AES-GCM decrypts what it encrypted, and base64
    -- and JSON read back what they wrote.
    pub wire_exchange :
        (drafts : List Draft) (arrivals : List Arrival) (first : RatchetEnvelope)
        → IsBytes generated.public_key
        → GcmRoundTrip p
        → Base64RoundTrip
        → JsonRoundTrip
        → Agrees p alice.dh signed.key_pair
        → Agrees p ephemeral bob.dh
        → Agrees p ephemeral signed.key_pair
        → AgreesOptional p ephemeral (map_option key_of one_time)
        → Agrees p generated signed.key_pair
        → AllSent p (send_all p drafts started.state) arrivals
        → InWindow p (λ _. false) 0 arrivals
        → (encrypt_all drafts started
            ≡ map
                (λ x. wire_of p c started.initial_header (envelope_of x))
                (send_all p drafts started.state))
          × (establish_session_as_responder p c bob signed one_time
                (wire_of p c started.initial_header first)
                tt
              ≡ (ok joined, tt))
          × ((decrypt_all started.initial_header arrivals joined).0
              ≡ map (λ a. ok a.plaintext) arrivals)
    unfolding establish_session_as_responder establish_session_as_initiator
    wire_exchange drafts arrivals first bytes gcm b64 json a b d e agree came w =
        let same = shared a b d e in
        let ratchet : RatchetHeader = record {
          dh_pub = c.btoa first.dh_pub;
          pn = first.pn;
          n = first.n;
        } in
        let h : Header = record { initial = started.initial_header; ratchet = ratchet } in
        (
          encrypt_all-send_all drafts started,
          rw (b64 (c.stringify h), json h, b64 alice.dh.public_key, b64 ephemeral.public_key) refl,
          decrypt_all-receive_all started.initial_header arrivals joined b64 json
              ∙ first_exchange p responder_secret signed.key_pair generated drafts arrivals bytes
                  gcm agree (rw same at came) w,
        )
