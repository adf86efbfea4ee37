-- ===== src/Ratchet/Send.antt =====
-- The sending side of a chain.
use najva_messenger.Base.{◌+◌, ◌≡◌, refl, some, ok, arith}
use najva_messenger.Ratchet.KeyName.{Bytes}
use najva_messenger.Ratchet.{
  Primitives, RatchetState, RatchetEnvelope, KeyPair, kdf_chain_key, ratchet_encrypt,
  ensure_send_chain, ensure_send_chain_of,
}
use najva_messenger.Ratchet.Chain.{chain, message_key, chain-add-one}

module _ (p : Primitives) (self : KeyPair) (first : Bytes) where
  -- The state sends the chain that starts at `first` under the key pair `self`.
  pub record Sending (st : RatchetState) : Type 0 where
    pub self_set : st.dh_self ≡ some self
    pub chain_set : st.send_chain ≡ some (chain p st.send_n first)

  -- The envelope of the message with a number.
  abbrev pub sealed : RatchetState → Bytes → Bytes → RatchetEnvelope
  sealed st plaintext iv = record {
    dh_pub = self.public_key;
    pn = st.prev_n;
    n = st.send_n;
    iv = iv;
    ciphertext = p.aes_gcm_encrypt (message_key p st.send_n first) plaintext iv;
  }

  -- Where a chain has been started and `send_n` messages of it were sent, `ratchetEncrypt` returns
  -- the message sealed under the chain's next key, with its number and the key pair's public key;
  -- the state goes on sending the chain, with one message more sent.
  pub ratchet_encrypt-Sending :
      (plaintext iv : Bytes) (st : RatchetState)
      → Sending st
      → (st' : RatchetState) × (ratchet_encrypt p plaintext iv st
          ≡ (ok (sealed st plaintext iv), st'))
        × Sending st'
        × (st'.send_n ≡ st.send_n + 1)
        × (st'.prev_n ≡ st.prev_n)
  unfolding ratchet_encrypt ensure_send_chain ensure_send_chain_of
  ratchet_encrypt-Sending plaintext iv st s =
      let st' : RatchetState = record st {
        send_chain = some (kdf_chain_key p (chain p st.send_n first)).next_chain_key;
        send_n = st.send_n + 1;
      } in
      (
        st',
        ground (arith, s.chain_set, s.self_set),
        record { self_set = s.self_set; chain_set = rw (chain-add-one p st.send_n first) },
        refl,
        refl,
      )
