-- ===== src/Ratchet/Forgery.antt =====
-- What a message that does not authenticate does to the receiving chain.
use najva_messenger.Base.{
  ℕ, ◌+◌, ◌-◌, ◌≤◌, ◌≡◌, refl, sym, ◌∙◌, Bool, true, Option, none, some, ok, err, type_error, arith,
}
use najva_messenger.Ratchet.KeyName.{Bytes, IsBytes, same_bytes_iff, b64_key}
use najva_messenger.Ratchet.{
  Primitives, RatchetState, RatchetEnvelope, KeyPair, get, kdf_chain_key, skip_rounds, skip_keys_of,
  skip_message_keys, open_next, follow_remote, decrypt_in_chain, decrypt_by, ratchet_decrypt,
  same_key,
}
use najva_messenger.Ratchet.Chain.{chain, message_key}
use najva_messenger.Ratchet.Receive.{mark, Receiving, take_key-Receiving}

module _ (p : Primitives) where
  open_next-err :
      (found : Option Bytes) (key : Bytes) (env : RatchetEnvelope) (st : RatchetState)
      → found ≡ some key
      → p.aes_gcm_decrypt (kdf_chain_key p key).message_key env.ciphertext env.iv ≡ none
      → open_next p found env st ≡ (
        err type_error,
        record st {
          recv_chain = some (kdf_chain_key p key).next_chain_key;
          recv_n = st.recv_n + 1;
        },
      )
  unfolding open_next
  open_next-err found key env st e shut = rw (e, shut)

  module _ (remote first : Bytes) (bytes : IsBytes remote) where
    skip_message_keys-past :
        (until : ℕ) (done : ℕ → Bool) (st : RatchetState)
        → Receiving p remote first done st
        → until ≤ st.recv_n
        → skip_message_keys p until st ≡ (ok tt, st)
    unfolding skip_message_keys skip_keys_of skip_rounds
    skip_message_keys-past until done st r h =
        let none_left : until - st.recv_n ≡ 0 = omega arith in
        ground (arith, r.chain_set, r.remote_set, none_left)

    abbrev advanced : RatchetState → RatchetState
    advanced st = record st {
      recv_chain = some (kdf_chain_key p (chain p st.recv_n first)).next_chain_key;
      recv_n = st.recv_n + 1;
    }

    ratchet_decrypt-fails :
        (env : RatchetEnvelope) (generated : KeyPair) (done : ℕ → Bool) (st : RatchetState)
        → Receiving p remote first done st
        → env.dh_pub ≡ remote
        → env.n ≤ st.recv_n
        → get (b64_key remote env.n) st.skipped ≡ none
        → p.aes_gcm_decrypt (message_key p st.recv_n first) env.ciphertext env.iv ≡ none
        → ratchet_decrypt p env generated st ≡ (err type_error, advanced st)
    unfolding ratchet_decrypt decrypt_by decrypt_in_chain follow_remote
    ratchet_decrypt-fails env generated done st r from low absent shut =
        let stays : same_key st.dh_remote env.dh_pub ≡ true =
          rw r.remote_set ((same_bytes_iff _ _).1 (sym from)) in
        let absent' : get (b64_key env.dh_pub env.n) st.skipped ≡ none = rw from absent in
        rw (absent', stays, skip_message_keys-past env.n done st r low)
          (open_next-err st.recv_chain (chain p st.recv_n first) env st r.chain_set shut)

    -- An envelope under the current remote key that is no later than the next message of the chain,
    -- has no skipped key and does not authenticate under the next key (a replay, or a forgery of
    -- the next message) throws, and uses that key up: the genuine next message, which would have
    -- been decrypted, throws as well where it does not authenticate under the key after its own.
    pub failure_loses_next :
        (bad next : RatchetEnvelope) (generated generated' : KeyPair) (done : ℕ → Bool)
        (st : RatchetState)
        → Receiving p remote first done st
        → bad.dh_pub ≡ remote
        → bad.n ≤ st.recv_n
        → get (b64_key remote bad.n) st.skipped ≡ none
        → p.aes_gcm_decrypt (message_key p st.recv_n first) bad.ciphertext bad.iv ≡ none
        → next.dh_pub ≡ remote
        → next.n ≡ st.recv_n
        → p.aes_gcm_decrypt (message_key p (st.recv_n + 1) first) next.ciphertext next.iv ≡ none
        → let (r, st') = ratchet_decrypt p bad generated st in
          (r ≡ err type_error) × ((ratchet_decrypt p next generated' st').0 ≡ err type_error)
    failure_loses_next bad next generated generated' done st r from low absent shut from' here
          shut' =
        let after = take_key-Receiving p remote first bytes done st r in
        let absent' : get (b64_key remote next.n) st.skipped ≡ none =
          after.stashed next.n ∙ rw here (ground arith) in
        let again =
          ratchet_decrypt-fails next generated' (mark done st.recv_n) (advanced st) after from'
            (omega arith) absent' shut' in
        rw (ratchet_decrypt-fails bad generated done st r from low absent shut) (refl, rw again)
