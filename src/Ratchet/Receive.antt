-- ===== src/Ratchet/Receive.antt =====
-- The receiving side within one chain: what the state holds for the messages delivered, skipped
-- and still to come.
use mathlib.Core.Path.{subst, sym}
use najva_messenger.Base.{
  ℕ, zero, suc, ◌+◌, ◌-◌, ◌≤◌, ◌<◌, ◌≡◌, refl, inl, inr, Bool, true, false, Option, none, some,
  arith, ok, ltb, ◌==◌, if◌then◌else◌, Bool-cases, ◌∙◌,
}
use najva_messenger.Ratchet.KeyName.{Bytes, IsBytes, same_bytes_iff, b64_key}
use najva_messenger.Ratchet.{
  Primitives, RatchetState, RatchetEnvelope, KeyPair, get, delete, kdf_chain_key, max_skip,
  skip_rounds, skip_one, skip_keys_of, skip_message_keys, decrypt_in_chain, decrypt_by,
  ratchet_decrypt, follow_remote, open_next, same_key,
}
use najva_messenger.Ratchet.Chain.{chain, message_key, chain-add-one}
use najva_messenger.Ratchet.Skipped.{get-set, get-delete, same_name}

abbrev pub mark : (ℕ → Bool) → ℕ → ℕ → Bool
mark done n i = if i == n then true else done i

-- The number that the chain has reached after a message.
abbrev pub horizon : ℕ → ℕ → ℕ
horizon recv_n n = if ltb n recv_n then recv_n else n + 1

module _ (p : Primitives) where
  -- What the map holds for a message: a key if it was skipped and not delivered since.
  abbrev pub held : Bytes → (ℕ → Bool) → ℕ → ℕ → Option Bytes
  held first done recv_n i =
      if ltb i recv_n then (if done i then none else some (message_key p i first)) else none

  -- The state receives the chain that starts at `first` from the sender with the public key
  -- `remote`, and has delivered the messages that `done` tells.
  pub record Receiving (remote first : Bytes) (done : ℕ → Bool) (st : RatchetState) : Type 0 where
    pub remote_set : st.dh_remote ≡ some remote
    pub chain_set : st.recv_chain ≡ some (chain p st.recv_n first)
    pub stashed : (i : ℕ) → get (b64_key remote i) st.skipped ≡ held first done st.recv_n i
    pub ahead : (i : ℕ) → st.recv_n ≤ i → done i ≡ false

  open_next-ok :
      (found : Option Bytes) (key : Bytes) (env : RatchetEnvelope) (plaintext : Bytes)
      (st : RatchetState)
      → found ≡ some key
      → p.aes_gcm_decrypt (kdf_chain_key p key).message_key env.ciphertext env.iv ≡ some plaintext
      → open_next p found env st ≡ (
        ok plaintext,
        record st {
          recv_chain = some (kdf_chain_key p key).next_chain_key;
          recv_n = st.recv_n + 1;
        },
      )
  unfolding open_next
  open_next-ok found key env plaintext st e opens = rw (e, opens)

  module _ (remote first : Bytes) (bytes : IsBytes remote) where
    skip_one-Receiving :
        (done : ℕ → Bool) (st : RatchetState)
        → Receiving remote first done st
        → Receiving remote first done (skip_one p remote (chain p st.recv_n first) st)
    unfolding skip_one
    skip_one-Receiving done st r = record {
      remote_set = r.remote_set;
      chain_set = rw (chain-add-one p st.recv_n first);
      stashed = λ i.
          rw
            (
              get-set (b64_key remote i) (b64_key remote st.recv_n),
              same_name remote st.recv_n i bytes,
            )
            (ground (arith, r.stashed i, r.ahead i));
      ahead = λ i h. r.ahead i (omega arith);
    }

    skip_one-recv_n :
        (key : Bytes) (st : RatchetState) → (skip_one p remote key st).recv_n ≡ st.recv_n + 1
    unfolding skip_one
    skip_one-recv_n key st = refl

    pub skip_rounds-Receiving :
        (k : ℕ) (done : ℕ → Bool) (st : RatchetState)
        → Receiving remote first done st
        → let st' = skip_rounds p k remote (chain p st.recv_n first) st in
          Receiving remote first done st' × (st'.recv_n ≡ st.recv_n + k)
    unfolding skip_rounds skip_one
    skip_rounds-Receiving zero done st r = (r, omega arith)
    skip_rounds-Receiving (suc k) done st r =
        let next = skip_one p remote (chain p st.recv_n first) st in
        let ih = skip_rounds-Receiving k done next (skip_one-Receiving done st r) in
        let moved =
          subst
            (λ key.
              let st' = skip_rounds p k remote key next in
              Receiving remote first done st' × (st'.recv_n ≡ st.recv_n + 1 + k))
            (chain-add-one p st.recv_n first) ih in
        (moved.0, omega (arith, moved.1))

    -- The loop runs to a message that is not too far ahead.
    pub skip_message_keys-Receiving :
        (until : ℕ) (done : ℕ → Bool) (st : RatchetState)
        → Receiving remote first done st
        → st.recv_n ≤ until
        → until ≤ st.recv_n + max_skip
        → (st' : RatchetState) × (skip_message_keys p until st ≡ (ok tt, st'))
          × Receiving remote first done st'
          × (st'.recv_n ≡ until)
    unfolding skip_message_keys skip_keys_of
    skip_message_keys-Receiving until done st r low high =
        let run = skip_rounds-Receiving (until - st.recv_n) done st r in
        (
          skip_rounds p (until - st.recv_n) remote (chain p st.recv_n first) st,
          rw (r.chain_set, r.remote_set) (ground arith),
          run.0,
          omega (arith, run.1),
        )

    -- The message that is next in the chain, as the sender sealed it.
    abbrev pub IsGenuine : RatchetEnvelope → Bytes → Type 0
    IsGenuine env plaintext =
        (env.dh_pub ≡ remote)
        × (p.aes_gcm_decrypt (message_key p env.n first) env.ciphertext env.iv ≡ some plaintext)

    pub take_key-Receiving :
        (done : ℕ → Bool) (st : RatchetState)
        → Receiving remote first done st
        → Receiving remote first (mark done st.recv_n) (record st {
          recv_chain = some (kdf_chain_key p (chain p st.recv_n first)).next_chain_key;
          recv_n = st.recv_n + 1;
        })
    take_key-Receiving done st r = record {
      remote_set = r.remote_set;
      chain_set = rw (chain-add-one p st.recv_n first);
      stashed = λ i. ground (arith, r.stashed i);
      ahead = λ i h. ground (arith, r.ahead i);
    }

    pub decrypt_in_chain-ahead :
        (env : RatchetEnvelope) (plaintext : Bytes) (generated : KeyPair) (done : ℕ → Bool)
        (st : RatchetState)
        → Receiving remote first done st
        → IsGenuine env plaintext
        → st.recv_n ≤ env.n
        → env.n ≤ st.recv_n + max_skip
        → (st' : RatchetState) × (decrypt_in_chain p env generated st ≡ (ok plaintext, st'))
          × Receiving remote first (mark done env.n) st'
          × (st'.recv_n ≡ env.n + 1)
    unfolding decrypt_in_chain follow_remote
    decrypt_in_chain-ahead env plaintext generated done st r g low high =
        let skipped = skip_message_keys-Receiving env.n done st r low high in
        let st1 = skipped.0 in
        let stays : same_key st.dh_remote env.dh_pub ≡ true =
          rw r.remote_set ((same_bytes_iff _ _).1 (sym g.0)) in
        let opens : p.aes_gcm_decrypt (message_key p st1.recv_n first) env.ciphertext env.iv
            ≡ some plaintext =
          subst
            (λ n. p.aes_gcm_decrypt (message_key p n first) env.ciphertext env.iv ≡ some plaintext)
            (sym skipped.3) g.1 in
        let st2 : RatchetState = record st1 {
          recv_chain = some (kdf_chain_key p (chain p st1.recv_n first)).next_chain_key;
          recv_n = st1.recv_n + 1;
        } in
        (
          st2,
          rw (stays, skipped.1)
              (open_next-ok st1.recv_chain (chain p st1.recv_n first) env plaintext st1
                skipped.2.chain_set opens),
          subst (λ n. Receiving remote first (mark done n) st2) skipped.3
              (take_key-Receiving done st1 skipped.2),
          omega (arith, skipped.3),
        )

    decrypt_skipped :
        (env : RatchetEnvelope) (plaintext : Bytes) (generated : KeyPair) (done : ℕ → Bool)
        (st : RatchetState)
        → Receiving remote first done st
        → IsGenuine env plaintext
        → env.n < st.recv_n
        → done env.n ≡ false
        → Receiving remote first
            (mark done env.n)
            (record st { skipped = delete (b64_key env.dh_pub env.n) st.skipped })
    decrypt_skipped env plaintext generated done st r g old fresh = record {
      remote_set = r.remote_set;
      chain_set = r.chain_set;
      stashed = λ i.
          rw
            (
              g.0,
              get-delete (b64_key remote i) (b64_key remote env.n),
              same_name remote env.n i bytes,
            )
            (ground (arith, r.stashed i));
      ahead = λ i h. ground (arith, r.ahead i h);
    }

    -- One message, whenever it arrives: the next, one further on in the chain by at most 1000, or
    -- one that was skipped.
    pub ratchet_decrypt-Receiving :
        (env : RatchetEnvelope) (plaintext : Bytes) (generated : KeyPair) (done : ℕ → Bool)
        (st : RatchetState)
        → Receiving remote first done st
        → IsGenuine env plaintext
        → done env.n ≡ false
        → env.n ≤ st.recv_n + max_skip
        → (st' : RatchetState) × (ratchet_decrypt p env generated st ≡ (ok plaintext, st'))
          × Receiving remote first (mark done env.n) st'
          × (st'.recv_n ≡ horizon st.recv_n env.n)
    unfolding ratchet_decrypt decrypt_by
    ratchet_decrypt-Receiving env plaintext generated done st r g fresh high =
        elim (Bool-cases (ltb env.n st.recv_n)) [
          | inl old ↦
              let there : get (b64_key env.dh_pub env.n) st.skipped
                  ≡ some (message_key p env.n first) =
                rw g.0 (r.stashed env.n ∙ rw (old, fresh)) in
              (
                record st { skipped = delete (b64_key env.dh_pub env.n) st.skipped },
                rw (there, g.1),
                decrypt_skipped env plaintext generated done st r g (ground arith) fresh,
                rw old,
              )
          | inr new ↦
              let absent : get (b64_key env.dh_pub env.n) st.skipped ≡ none =
                rw g.0 (r.stashed env.n ∙ rw new) in
              let run =
                decrypt_in_chain-ahead env plaintext generated done st r g (ground arith) high in
              (run.0, rw absent run.1, run.2, rw new run.3)
        ]
