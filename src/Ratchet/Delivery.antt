-- ===== src/Ratchet/Delivery.antt =====
-- A run of messages of one chain, in any order.
use najva_messenger.Base.{ℕ, ◌+◌, ◌≤◌, ◌≡◌, refl, Bool, false, List, [], ◌∷◌, map, Result, ok}
use najva_messenger.Ratchet.KeyName.{Bytes, IsBytes}
use najva_messenger.Ratchet.{
  Primitives, RatchetState, RatchetEnvelope, KeyPair, max_skip, ratchet_decrypt,
}
use najva_messenger.Ratchet.Receive.{mark, horizon, Receiving, IsGenuine, ratchet_decrypt-Receiving}

-- An envelope that arrives, with the key pair at hand and the message that was sealed.
pub record Arrival : Type 0 where
  pub envelope : RatchetEnvelope
  pub generated : KeyPair
  pub plaintext : Bytes

abbrev pub mark_all : (ℕ → Bool) → List Arrival → ℕ → Bool
mark_all done [] = done
mark_all done (a ∷ rest) = mark_all (mark done a.envelope.n) rest

module _ (p : Primitives) where
  -- The calls of `ratchetDecrypt`, one after the other.
  unfoldable pub receive_all : List Arrival → RatchetState → List (Result Bytes) × RatchetState
  receive_all [] st = ([], st)
  receive_all (a ∷ rest) st =
      let (r, st') = ratchet_decrypt p a.envelope a.generated st in
      let (rs, last) = receive_all rest st' in (r ∷ rs, last)

  -- Each message is new, and at most 1000 ahead of what the chain has reached.
  abbrev pub InWindow : (ℕ → Bool) → ℕ → List Arrival → Type 0
  InWindow done recv_n [] = Unit {0}
  InWindow done recv_n (a ∷ rest) =
      (done a.envelope.n ≡ false)
      × (a.envelope.n ≤ recv_n + max_skip)
      × InWindow (mark done a.envelope.n) (horizon recv_n a.envelope.n) rest

  module _ (remote first : Bytes) (bytes : IsBytes remote) where
    abbrev pub AllGenuine : List Arrival → Type 0
    AllGenuine [] = Unit {0}
    AllGenuine (a ∷ rest) = IsGenuine p remote first bytes a.envelope a.plaintext × AllGenuine rest

    -- In a state that receives a chain, genuine messages of the chain that arrive in any order, each
    -- once and none more than 1000 ahead of those before it, are all decrypted, and the state goes on
    -- receiving the chain.
    pub receive_all-Receiving :
        (arrivals : List Arrival) (done : ℕ → Bool) (st : RatchetState)
        → Receiving p remote first done st
        → InWindow done st.recv_n arrivals
        → AllGenuine arrivals
        → ((receive_all arrivals st).0 ≡ map (λ a. ok a.plaintext) arrivals)
          × Receiving p remote first (mark_all done arrivals) (receive_all arrivals st).1
    unfolding receive_all
    receive_all-Receiving [] done st r w g = (refl, r)
    receive_all-Receiving (a ∷ rest) done st r w g =
        let one =
          ratchet_decrypt-Receiving p remote first bytes a.envelope a.plaintext a.generated done st
            r g.0 w.0 w.1 in
        let ih =
          receive_all-Receiving rest (mark done a.envelope.n) one.0 one.2 (rw one.3 w.2) g.1 in
        rw one.1 (cc ih.0, ih.1)
