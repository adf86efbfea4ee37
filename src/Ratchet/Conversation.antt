-- ===== src/Ratchet/Conversation.antt =====
-- The first exchange, end to end: an initiator encrypts a list of messages for a responder, and
-- the responder decrypts those that reach it.
use mathlib.Core.Path.{subst}
use najva_messenger.Base.{
  ℕ, ◌+◌, ◌≡◌, refl, sym, ap, ◌∙◌, ◌⊎◌, inl, inr, false, some, List, [], ◌∷◌, map, Result, ok, err,
  arith,
}
use najva_messenger.Ratchet.KeyName.{Bytes, IsBytes}
use najva_messenger.Ratchet.{
  Primitives, RatchetState, RatchetEnvelope, KeyPair, get, kdf_root_key, ratchet_encrypt,
  ensure_send_chain, seed_send_chain, init_ratchet_initiator, init_ratchet_responder,
}
use najva_messenger.Ratchet.Chain.{message_key, chain-zero}
use najva_messenger.Ratchet.Receive.{mark, horizon, IsGenuine}
use najva_messenger.Ratchet.Delivery.{
  Arrival, receive_all, InWindow, AllGenuine, receive_all-Receiving,
}
use najva_messenger.Ratchet.Handshake.{ratchet_decrypt-first}
use najva_messenger.Ratchet.Send.{Sending, ratchet_encrypt-Sending}

-- A message with the nonce that is drawn for it.
pub record Draft : Type 0 where
  pub plaintext : Bytes
  pub iv : Bytes

-- An envelope with the message that it was made from.
pub record Sent : Type 0 where
  pub envelope : RatchetEnvelope
  pub plaintext : Bytes

horizon-zero : (n : ℕ) → horizon 0 n ≡ n + 1
horizon-zero n = ground arith

module _ (p : Primitives) where
  abbrev pub keep_sent : Draft → Result RatchetEnvelope × RatchetState → List Sent → List Sent
  keep_sent d (ok env, st) rest = record { envelope = env; plaintext = d.plaintext } ∷ rest
  keep_sent d (err e, st) rest = rest

  -- The calls of `ratchetEncrypt`, one after the other; a call that throws sends nothing.
  unfoldable pub send_all : List Draft → RatchetState → List Sent
  send_all [] st = []
  send_all (d ∷ rest) st =
      let r = ratchet_encrypt p d.plaintext d.iv st in keep_sent d r (send_all rest r.1)

  abbrev pub AllSealed : Bytes → Bytes → List Sent → Type 0
  AllSealed remote first [] = Unit {0}
  AllSealed remote first (s ∷ rest) =
      (s.envelope.dh_pub ≡ remote)
      × (p.aes_gcm_decrypt (message_key p s.envelope.n first) s.envelope.ciphertext s.envelope.iv
          ≡ some s.plaintext)
      × AllSealed remote first rest

  -- AES-GCM decrypts what it encrypted under the same key and nonce.
  abbrev pub GcmRoundTrip : Type 0
  GcmRoundTrip =
      (key plaintext iv : Bytes)
      → p.aes_gcm_decrypt key (p.aes_gcm_encrypt key plaintext iv) iv ≡ some plaintext

  send_all-AllSealed :
      (self : KeyPair) (first : Bytes) (drafts : List Draft) (st : RatchetState)
      → GcmRoundTrip
      → Sending p self first st
      → AllSealed self.public_key first (send_all drafts st)
  unfolding send_all
  send_all-AllSealed self first [] st gcm s = tt
  send_all-AllSealed self first (d ∷ rest) st gcm s =
      let one = ratchet_encrypt-Sending p self first d.plaintext d.iv st s in
      rw one.1 (
        refl,
        gcm (message_key p st.send_n first) d.plaintext d.iv,
        send_all-AllSealed self first rest one.0 gcm one.2,
      )

  -- The initiator's first call seeds its chain from the responder's signed pre-key, and goes on as
  -- a call in a state that has the chain already.
  seeded : Bytes → Bytes → KeyPair → RatchetState
  unfolding init_ratchet_initiator
  seeded shared spk_pub generated =
      let step = kdf_root_key p shared (p.dh generated.secret_key spk_pub) in
      record (init_ratchet_initiator shared spk_pub generated) {
        root_key = step.root_key;
        send_chain = some step.chain_key;
      }

  ratchet_encrypt-seeded :
      (shared spk_pub : Bytes) (generated : KeyPair) (plaintext iv : Bytes)
      → ratchet_encrypt p plaintext iv (init_ratchet_initiator shared spk_pub generated)
        ≡ ratchet_encrypt p plaintext iv (seeded shared spk_pub generated)
  unfolding ratchet_encrypt ensure_send_chain seed_send_chain seeded
  ratchet_encrypt-seeded shared spk_pub generated plaintext iv = refl

  send_all-seeded :
      (shared spk_pub : Bytes) (generated : KeyPair) (drafts : List Draft)
      → send_all drafts (init_ratchet_initiator shared spk_pub generated)
        ≡ send_all drafts (seeded shared spk_pub generated)
  unfolding send_all
  send_all-seeded shared spk_pub generated [] = refl
  send_all-seeded shared spk_pub generated (d ∷ rest) =
      rw (ratchet_encrypt-seeded shared spk_pub generated d.plaintext d.iv)

  seeded-Sending :
      (shared spk_pub : Bytes) (generated : KeyPair)
      → Sending p generated
          (kdf_root_key p shared (p.dh generated.secret_key spk_pub)).chain_key
          (seeded shared spk_pub generated)
  unfolding seeded
  seeded-Sending shared spk_pub generated = record {
    self_set = refl;
    chain_set = rw (chain-zero p);
  }

  -- The envelope is one of those sent, for the message.
  abbrev pub WasSent : RatchetEnvelope → Bytes → List Sent → Type 0
  WasSent env plaintext [] = ⊥
  WasSent env plaintext (s ∷ rest) =
      ((s.envelope ≡ env) × (s.plaintext ≡ plaintext)) ⊎ WasSent env plaintext rest

  abbrev pub AllSent : List Sent → List Arrival → Type 0
  AllSent sents [] = Unit {0}
  AllSent sents (a ∷ rest) = WasSent a.envelope a.plaintext sents × AllSent sents rest

  WasSent-IsGenuine :
      (remote first : Bytes) (bytes : IsBytes remote) (env : RatchetEnvelope) (plaintext : Bytes)
      (sents : List Sent)
      → AllSealed remote first sents
      → WasSent env plaintext sents
      → IsGenuine p remote first bytes env plaintext
  WasSent-IsGenuine remote first bytes env plaintext [] a h = elim h [ ]
  WasSent-IsGenuine remote first bytes env plaintext (s ∷ rest) a (inl (e, f)) =
      subst (λ x. IsGenuine p remote first bytes x plaintext) e
        (subst (λ t. IsGenuine p remote first bytes s.envelope t) f (a.0, a.1))
  WasSent-IsGenuine remote first bytes env plaintext (s ∷ rest) a (inr h) =
      WasSent-IsGenuine remote first bytes env plaintext rest a.2 h

  AllSent-AllGenuine :
      (remote first : Bytes) (bytes : IsBytes remote) (sents : List Sent) (arrivals : List Arrival)
      → AllSealed remote first sents
      → AllSent sents arrivals
      → AllGenuine p remote first bytes arrivals
  AllSent-AllGenuine remote first bytes sents [] a h = tt
  AllSent-AllGenuine remote first bytes sents (x ∷ rest) a h = (
    WasSent-IsGenuine remote first bytes x.envelope x.plaintext sents a h.0,
    AllSent-AllGenuine remote first bytes sents rest a h.1,
  )

  module _ (shared : Bytes) (spk generated : KeyPair) where
    -- The chain as the responder derives it from a header.
    derived : Bytes → Bytes
    derived dh_pub = (kdf_root_key p shared (p.dh spk.secret_key dh_pub)).chain_key

    sent-AllSealed :
        (drafts : List Draft) (dh_pub : Bytes)
        → GcmRoundTrip
        → p.dh generated.secret_key spk.public_key ≡ p.dh spk.secret_key generated.public_key
        → generated.public_key ≡ dh_pub
        → AllSealed dh_pub
            (derived dh_pub)
            (send_all drafts (init_ratchet_initiator shared spk.public_key generated))
    unfolding derived
    sent-AllSealed drafts dh_pub gcm agree same =
        rw (send_all-seeded shared spk.public_key generated drafts) (
          subst
            (λ d.
              AllSealed d (derived d) (send_all drafts (seeded shared spk.public_key generated)))
            same
            (subst
              (λ k.
                AllSealed generated.public_key (kdf_root_key p shared k).chain_key
                  (send_all drafts (seeded shared spk.public_key generated)))
              agree
              (send_all-AllSealed generated _ drafts _ gcm
                (seeded-Sending shared spk.public_key generated))))

    AllSealed-dh_pub :
        (remote first : Bytes) (env : RatchetEnvelope) (plaintext : Bytes) (sents : List Sent)
        → AllSealed remote first sents
        → WasSent env plaintext sents
        → remote ≡ env.dh_pub
    AllSealed-dh_pub remote first env plaintext [] a h = elim h [ ]
    AllSealed-dh_pub remote first env plaintext (s ∷ rest) a (inl (e, f)) =
        sym a.0 ∙ ap (λ (x : RatchetEnvelope). x.dh_pub) e
    AllSealed-dh_pub remote first env plaintext (s ∷ rest) a (inr h) =
        AllSealed-dh_pub remote first env plaintext rest a.2 h

    -- The responder decrypts every message that reaches it, in whatever order, where the initiator
    -- sent it, it comes once, and none is more than 1000 ahead of those before it. The
    -- hypotheses: both derive one Diffie-Hellman secret, and AES-GCM decrypts what it encrypted.
    pub first_exchange :
        (drafts : List Draft) (arrivals : List Arrival)
        → IsBytes generated.public_key
        → GcmRoundTrip
        → p.dh generated.secret_key spk.public_key ≡ p.dh spk.secret_key generated.public_key
        → AllSent
            (send_all drafts (init_ratchet_initiator shared spk.public_key generated))
            arrivals
        → InWindow p (λ _. false) 0 arrivals
        → (receive_all p arrivals (init_ratchet_responder shared spk)).0
          ≡ map (λ a. ok a.plaintext) arrivals
    unfolding receive_all init_ratchet_responder get derived
    first_exchange drafts [] bytes gcm agree came w = refl
    first_exchange drafts (a ∷ rest) bytes gcm agree came w =
        let sents = send_all drafts (init_ratchet_initiator shared spk.public_key generated) in
        let same =
          AllSealed-dh_pub generated.public_key (derived generated.public_key) a.envelope
            a.plaintext sents (sent-AllSealed drafts generated.public_key gcm agree refl) came.0 in
        let dh_pub = a.envelope.dh_pub in
        let bytes' = subst IsBytes same bytes in
        let all_sealed = sent-AllSealed drafts dh_pub gcm agree same in
        let one =
          ratchet_decrypt-first p a.envelope a.generated spk a.plaintext
            (init_ratchet_responder shared spk) bytes' refl refl refl (λ i. refl)
            (WasSent-IsGenuine dh_pub (derived dh_pub) bytes' a.envelope a.plaintext sents
              all_sealed came.0)
            w.1 in
        let more =
          receive_all-Receiving p dh_pub (derived dh_pub) bytes' rest
            (mark (λ _. false) a.envelope.n) one.0 one.2
            (subst (λ k. InWindow p (mark (λ _. false) a.envelope.n) k rest)
              (horizon-zero a.envelope.n ∙ sym one.3) w.2)
            (AllSent-AllGenuine dh_pub (derived dh_pub) bytes' sents rest all_sealed came.1) in
        rw one.1 (cc more.0)
