-- ===== src/Ratchet/Handshake.antt =====
-- The DH ratchet: a message under a new public key ends the old chain and starts a new one, and
-- two parties that agree on the root key derive the same chain.
use najva_messenger.Base.{ℕ, ◌+◌, ◌≤◌, ◌≡◌, refl, true, false, none, some, ok, arith, ◌∙◌}
use najva_messenger.Ratchet.KeyName.{Bytes, IsBytes, same_bytes_iff, b64_key}
use najva_messenger.Ratchet.{
  Primitives, RatchetState, RatchetEnvelope, KeyPair, get, max_skip, kdf_root_key,
  skip_message_keys, skip_keys_of, dh_ratchet_step, same_key, follow_remote, decrypt_in_chain,
  decrypt_by, ratchet_decrypt,
}
use najva_messenger.Ratchet.Chain.{chain-zero}
use najva_messenger.Ratchet.Receive.{mark, Receiving, IsGenuine, decrypt_in_chain-ahead}
use najva_messenger.Ratchet.Send.{Sending}

module _ (p : Primitives) (header : RatchetEnvelope) (generated self : KeyPair) where
  abbrev pub new_recv_chain : Bytes → Bytes
  new_recv_chain root = (kdf_root_key p root (p.dh self.secret_key header.dh_pub)).chain_key

  abbrev middle_root : Bytes → Bytes
  middle_root root = (kdf_root_key p root (p.dh self.secret_key header.dh_pub)).root_key

  abbrev pub new_send_chain : Bytes → Bytes
  new_send_chain root =
      (kdf_root_key p (middle_root root) (p.dh generated.secret_key header.dh_pub)).chain_key

  -- The state after the step, from the one in which the old chain has been skipped to its end.
  abbrev turned : RatchetState → RatchetState
  turned st = record st {
    prev_n = st.send_n;
    send_n = 0;
    recv_n = 0;
    dh_remote = some header.dh_pub;
    recv_chain = some (new_recv_chain st.root_key);
    dh_self = some generated;
    root_key =
        (kdf_root_key p (middle_root st.root_key)
          (p.dh generated.secret_key header.dh_pub)).root_key;
    send_chain = some (new_send_chain st.root_key);
  }

  dh_ratchet_step-turned :
      (st st1 : RatchetState)
      → skip_message_keys p header.pn st ≡ (ok tt, st1)
      → st1.dh_self ≡ some self
      → dh_ratchet_step p header generated st ≡ (ok tt, turned st1)
  unfolding dh_ratchet_step
  dh_ratchet_step-turned st st1 e s = rw e (ground (arith, s))

  turned-Receiving :
      (st : RatchetState)
      → ((i : ℕ) → get (b64_key header.dh_pub i) st.skipped ≡ none)
      → Receiving p header.dh_pub (new_recv_chain st.root_key) (λ _. false) (turned st)
  turned-Receiving st fresh = record {
    remote_set = refl;
    chain_set = rw (chain-zero p);
    stashed = λ i. ground (arith, fresh i);
    ahead = λ i h. refl;
  }

  turned-Sending :
      (st : RatchetState) → Sending p generated (new_send_chain st.root_key) (turned st)
  turned-Sending st = record { self_set = refl; chain_set = rw (chain-zero p) }

  skip_message_keys-none :
      (until : ℕ) (st : RatchetState)
      → st.recv_chain ≡ none
      → skip_message_keys p until st ≡ (ok tt, st)
  unfolding skip_message_keys skip_keys_of
  skip_message_keys-none until st e = ground (arith, e)

  decrypt_in_chain-turn :
      (st st1 : RatchetState)
      → same_key st.dh_remote header.dh_pub ≡ false
      → dh_ratchet_step p header generated st ≡ (ok tt, st1)
      → same_key st1.dh_remote header.dh_pub ≡ true
      → decrypt_in_chain p header generated st ≡ decrypt_in_chain p header generated st1
  unfolding decrypt_in_chain follow_remote
  decrypt_in_chain-turn st st1 new turn same = rw (new, turn, same)

  same_key_refl : (b : Bytes) → same_key (some b) b ≡ true
  same_key_refl b = (same_bytes_iff b b).1 refl

  -- The first message of a remote party that the state has not received from yet.
  pub ratchet_decrypt-first :
      (plaintext : Bytes) (st : RatchetState)
      → (bytes : IsBytes header.dh_pub) → st.recv_chain ≡ none
      → st.dh_self ≡ some self
      → same_key st.dh_remote header.dh_pub ≡ false
      → ((i : ℕ) → get (b64_key header.dh_pub i) st.skipped ≡ none)
      → IsGenuine p header.dh_pub (new_recv_chain st.root_key) bytes header plaintext
      → header.n ≤ max_skip
      → (st' : RatchetState) × (ratchet_decrypt p header generated st ≡ (ok plaintext, st'))
        × Receiving p header.dh_pub (new_recv_chain st.root_key) (mark (λ _. false) header.n) st'
        × (st'.recv_n ≡ header.n + 1)
  unfolding ratchet_decrypt decrypt_by
  ratchet_decrypt-first plaintext st bytes no_chain own new fresh g near =
      let turn = dh_ratchet_step-turned st st (skip_message_keys-none header.pn st no_chain) own in
      let st1 : RatchetState = turned st in
      let run =
        decrypt_in_chain-ahead p header.dh_pub (new_recv_chain st.root_key) bytes header plaintext
          generated (λ _. false) st1 (turned-Receiving st fresh) g (omega arith) near in
      (
        run.0,
        rw (fresh header.n)
            (decrypt_in_chain-turn st st1 new turn (same_key_refl header.dh_pub) ∙ run.1),
        run.2,
        run.3,
      )
