-- ===== src/Wire/Tests.antt =====
-- A first exchange of two messages, of which the second comes first. A text in base64 is its bytes.
use najva_messenger.Base.{
  ℕ, zero, suc, ◌≡◌, refl, Option, none, some, [], ◌∷◌, map, ok, inl, inr, arith,
}
use najva_messenger.Ratchet.KeyName.{Bytes}
use najva_messenger.Ratchet.{
  ratchet_encrypt, ensure_send_chain, kdf_chain_key, kdf_root_key, init_ratchet_initiator,
}
use najva_messenger.Ratchet.Conversation.{send_all}
use najva_messenger.Ratchet.Tests.{toy, opens_round_trip, spk, alice, drafts, arrivals}
use najva_messenger.X3dh.{Identity, SignedPreKey}
use najva_messenger.Wire.{Codec, Header, InitialHeader, establish_session_as_initiator}
use najva_messenger.Wire.Exchange.{decrypt_all, joined, started, wire_exchange}

put_text : Bytes → Bytes → Bytes
put_text [] r = 0 ∷ r
put_text (x ∷ xs) r = suc x ∷ put_text xs r

abbrev add_char : ℕ → Bytes × Bytes → Bytes × Bytes
add_char x (xs, r) = (x ∷ xs, r)

take_text : Bytes → Bytes × Bytes
take_text [] = ([], [])
take_text (zero ∷ r) = ([], r)
take_text (suc x ∷ r) = add_char x (take_text r)

take_text-put_text : (a r : Bytes) → take_text (put_text a r) ≡ (a, r)
unfolding take_text put_text
take_text-put_text [] r = refl
take_text-put_text (x ∷ xs) r = rw (take_text-put_text xs r) refl

abbrev put_id : Option ℕ → Bytes → Bytes
put_id none r = 0 ∷ r
put_id (some n) r = suc n ∷ r

abbrev put_initial : Option InitialHeader → Bytes
put_initial none = []
put_initial (some i) =
    i.signed_pre_key_id
    ∷ put_id i.one_time_pre_key_id (put_text i.identity_dh (put_text i.ephemeral []))

abbrev stringify : Header → Bytes
stringify h = put_text h.ratchet.dh_pub (h.ratchet.pn ∷ h.ratchet.n ∷ put_initial h.initial)

abbrev keys_of : ℕ → Option ℕ → Bytes × Bytes → Option InitialHeader
keys_of spk_id id (identity_dh, r) = some (record {
  identity_dh = identity_dh;
  ephemeral = (take_text r).0;
  signed_pre_key_id = spk_id;
  one_time_pre_key_id = id;
})

read_initial : Bytes → Option InitialHeader
read_initial [] = none
read_initial (spk_id ∷ []) = none
read_initial (spk_id ∷ zero ∷ r) = keys_of spk_id none (take_text r)
read_initial (spk_id ∷ suc n ∷ r) = keys_of spk_id (some n) (take_text r)

abbrev with_ratchet : Bytes × Bytes → Option Header
with_ratchet (dh_pub, pn ∷ n ∷ r) =
    some (record { initial = read_initial r; ratchet = record { dh_pub = dh_pub; pn = pn; n = n } })
with_ratchet (dh_pub, _) = none

abbrev codec : Codec
codec = record {
  btoa = λ b. b;
  atob = λ t. some t;
  stringify = stringify;
  parse = λ b. with_ratchet (take_text b);
}

read_initial-put_initial : (o : Option InitialHeader) → read_initial (put_initial o) ≡ o
unfolding read_initial
read_initial-put_initial none = refl
read_initial-put_initial (some i) =
    elim i.one_time_pre_key_id
      as (λ (id : Option ℕ).
        read_initial
          (i.signed_pre_key_id ∷ put_id id (put_text i.identity_dh (put_text i.ephemeral [])))
        ≡ some (record i { one_time_pre_key_id = id })) [
          | none ↦
              rw
                (
                  take_text-put_text i.identity_dh (put_text i.ephemeral []),
                  take_text-put_text i.ephemeral [],
                )
                refl
          | some n ↦
              rw
                (
                  take_text-put_text i.identity_dh (put_text i.ephemeral []),
                  take_text-put_text i.ephemeral [],
                )
                refl
        ]

json_round_trip : (h : Header) → codec.parse (codec.stringify h) ≡ some h
json_round_trip h =
    rw
      (
        take_text-put_text h.ratchet.dh_pub (h.ratchet.pn ∷ h.ratchet.n ∷ put_initial h.initial),
        read_initial-put_initial h.initial,
      )
      refl

abbrev bob : Identity
bob = record { dh = spk; signing = spk }

abbrev ada : Identity
ada = record { dh = alice; signing = alice }

abbrev signed : SignedPreKey
signed = record { id = 3; key_pair = spk; signature = [] }

wire_exchange_example :
    (decrypt_all toy codec
      (started toy codec ada bob signed none spk alice).initial_header
      arrivals
      (joined toy codec ada bob signed none spk alice)).0
    ≡ map (λ a. ok a.plaintext) arrivals
unfolding send_all init_ratchet_initiator ratchet_encrypt ensure_send_chain kdf_chain_key
    kdf_root_key establish_session_as_initiator
wire_exchange_example =
    (wire_exchange toy codec ada bob signed none spk alice drafts arrivals
      (record { dh_pub = []; pn = 0; n = 0; iv = []; ciphertext = [] }) (omega arith)
      opens_round_trip (λ b. refl) json_round_trip refl refl refl tt refl
      (inr (inl (refl, refl)), (inl (refl, refl), tt))
      (refl, omega arith, (refl, omega arith, tt))).2
