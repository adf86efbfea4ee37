-- ===== src/Ratchet/Chain.antt =====
-- A symmetric chain: its keys, step by step, and the message keys that they give.
use native.Mathlib.Numerals.{add-one}
use najva_messenger.Base.{ℕ, zero, suc, ◌+◌, ◌≡◌, refl}
use najva_messenger.Ratchet.KeyName.{Bytes}
use najva_messenger.Ratchet.{Primitives, kdf_chain_key}

module _ (p : Primitives) where
  -- The chain key after some steps.
  unfoldable pub chain : ℕ → Bytes → Bytes
  chain zero first = first
  chain (suc i) first = (kdf_chain_key p (chain i first)).next_chain_key

  -- The key of one message of the chain.
  abbrev pub message_key : ℕ → Bytes → Bytes
  message_key i first = (kdf_chain_key p (chain i first)).message_key

  pub chain-zero : (first : Bytes) → chain 0 first ≡ first
  unfolding chain
  chain-zero first = refl

  pub chain-add-one :
      (i : ℕ) (first : Bytes)
      → chain (i + 1) first ≡ (kdf_chain_key p (chain i first)).next_chain_key
  unfolding chain
  chain-add-one i first = rw (add-one i)
