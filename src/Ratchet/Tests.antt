-- ===== src/Ratchet/Tests.antt =====
-- Concrete inputs for the theorems on the ratchet: keys are told apart by their lengths.
use najva_messenger.Base.{
  ℕ, ◌+◌, ◌≡◌, refl, inl, inr, false, Option, none, some, List, [], ◌∷◌, map, ok, err, type_error,
  arith, length, ◌==◌, ==_refl, if◌then◌else◌,
}
use najva_messenger.Ratchet.KeyName.{Bytes, b64_key, b64_key_inj}
use najva_messenger.Ratchet.{
  Primitives, KeyPair, RatchetState, RatchetEnvelope, get, ratchet_encrypt, ratchet_decrypt,
  init_ratchet_initiator, init_ratchet_responder, ensure_send_chain, kdf_chain_key, kdf_root_key,
}
use najva_messenger.Ratchet.Chain.{chain}
use najva_messenger.Ratchet.Receive.{Receiving}
use najva_messenger.Ratchet.Delivery.{Arrival, receive_all, receive_all-Receiving}
use najva_messenger.Ratchet.Conversation.{Draft, send_all, first_exchange}
use najva_messenger.Ratchet.Forgery.{failure_loses_next}

unfoldable pub opens : Bytes → Bytes → Option Bytes
opens key [] = none
opens key (k ∷ pt) = if k == length key then some pt else none

abbrev pub toy : Primitives
toy = record {
  dh = λ s p. (length s + length p) ∷ [];
  hkdf = λ ikm salt info n. n ∷ ikm;
  aes_gcm_encrypt = λ key pt iv. length key ∷ pt;
  aes_gcm_decrypt = λ key ct iv. opens key ct;
}

pub opens_round_trip : (key pt iv : Bytes) → opens key (length key ∷ pt) ≡ some pt
unfolding opens
opens_round_trip key pt iv = rw (==_refl (length key))

abbrev pub spk : KeyPair
spk = record { public_key = 1 ∷ []; secret_key = 1 ∷ [] }

abbrev pub alice : KeyPair
alice = record { public_key = 200 ∷ []; secret_key = 9 ∷ [] }

abbrev pub drafts : List Draft
drafts = record { plaintext = 104 ∷ []; iv = [] } ∷ record { plaintext = 105 ∷ []; iv = [] } ∷ []

abbrev sealed_at : ℕ → Bytes → RatchetEnvelope
sealed_at i pt = record { dh_pub = 200 ∷ []; pn = 0; n = i; iv = []; ciphertext = (i + 1) ∷ pt }

-- The second message comes first.
abbrev pub arrivals : List Arrival
arrivals =
    record { envelope = sealed_at 1 (105 ∷ []); generated = spk; plaintext = 105 ∷ [] }
    ∷ record { envelope = sealed_at 0 (104 ∷ []); generated = spk; plaintext = 104 ∷ [] }
    ∷ []

first_exchange_example :
    (receive_all toy arrivals (init_ratchet_responder (5 ∷ []) spk)).0
    ≡ map (λ a. ok a.plaintext) arrivals
unfolding send_all init_ratchet_initiator ratchet_encrypt ensure_send_chain kdf_chain_key
    kdf_root_key
first_exchange_example =
    first_exchange toy (5 ∷ []) spk alice drafts arrivals (omega arith) opens_round_trip refl
      (inr (inl (refl, refl)), (inl (refl, refl), tt)) (refl, omega arith, (refl, omega arith, tt))

-- The key of a byte above 15 and a number of two digits.
b64_key-text : b64_key (200 ∷ 7 ∷ []) 42 ≡ b'c' ∷ b'8' ∷ b'0' ∷ b'7' ∷ b'|' ∷ b'4' ∷ b'2' ∷ []
unfolding b64_key
b64_key-text = refl

b64_key_inj_example : (◌≡◌ {A = Bytes} (200 ∷ []) (200 ∷ [])) × (◌≡◌ {A = ℕ} 12 12)
b64_key_inj_example = b64_key_inj (200 ∷ []) (200 ∷ []) 12 12 (omega arith) (omega arith) refl

abbrev receiving : RatchetState
receiving = record {
  root_key = [];
  dh_self = some spk;
  dh_remote = some (200 ∷ []);
  send_chain = none;
  recv_chain = some [];
  send_n = 0;
  recv_n = 0;
  prev_n = 0;
  skipped = [];
}

receiving-Receiving : Receiving toy (200 ∷ []) [] (λ _. false) receiving
unfolding chain get
receiving-Receiving = record {
  remote_set = refl;
  chain_set = refl;
  stashed = λ i. ground arith;
  ahead = λ i h. refl;
}

receive_all-Receiving_example :
    (receive_all toy arrivals receiving).0 ≡ map (λ a. ok a.plaintext) arrivals
unfolding chain kdf_chain_key opens
receive_all-Receiving_example =
    (receive_all-Receiving toy (200 ∷ []) [] (omega arith) arrivals (λ _. false) receiving
      receiving-Receiving (refl, omega arith, (refl, omega arith, tt))
      ((refl, refl), ((refl, refl), tt))).0

failure_loses_next_example :
    (ratchet_decrypt toy (record (sealed_at 0 []) { ciphertext = [] }) spk receiving).0
    ≡ err type_error
unfolding chain kdf_chain_key opens get
failure_loses_next_example =
    (failure_loses_next toy (200 ∷ []) [] (omega arith)
      (record (sealed_at 0 []) { ciphertext = [] }) (sealed_at 0 (104 ∷ [])) spk spk (λ _. false)
      receiving receiving-Receiving refl (omega arith) refl refl refl refl refl).0
