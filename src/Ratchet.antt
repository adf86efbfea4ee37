-- ===== src/Ratchet.antt =====
-- client/src/lib/crypto/ratchet.ts: the Double Ratchet. Byte arrays are lists of numbers, and a
-- message is its UTF-8 bytes. The mutated state object is passed on explicitly, also by a call that
-- throws; the random key pair and nonce of a call are its arguments.
pub mod KeyName
pub mod Chain
pub mod Skipped
pub mod Receive
pub mod Delivery
pub mod Handshake
pub mod Send
pub mod Conversation
pub mod Forgery
pub mod Tests
use Prim.Native.Char.{code}
use najva_messenger.Base.{
  ℕ, zero, suc, ◌+◌, ◌-◌, ◌/◌, ◌%◌, String, Bool, true, false, ◌&&◌, not, Option, none, some, List,
  [], ◌∷◌, ◌++◌, Action, Result, ok, err, thrown, type_error, ◌>>=◌, ◌>>◌, pure, modify, throw_if,
  ltb, ◌==◌, if◌then◌else◌, take, drop, replicate,
}
use KeyName.{Bytes, b64_key, same_bytes}

-- The code points of a text: its bytes, since the labels below are ASCII.
abbrev pub codes : String → Bytes
codes String.[] = []
codes (String.◌∷◌ c s) = code c ∷ codes s

pub record KeyPair : Type 0 where
  pub public_key : Bytes
  pub secret_key : Bytes

-- primitives.ts over tweetnacl and Web Crypto: X25519, HKDF-SHA256 and AES-GCM, whose decryption
-- fails with `none`.
pub record Primitives : Type 0 where
  pub dh : (secret public : Bytes) → Bytes
  pub hkdf : (ikm salt info : Bytes) (length : ℕ) → Bytes
  pub aes_gcm_encrypt : (key plaintext iv : Bytes) → Bytes
  pub aes_gcm_decrypt : (key ciphertext iv : Bytes) → Option Bytes

abbrev pub salt : Bytes
salt = replicate 32 0

abbrev pub max_skip : ℕ
max_skip = 1000

pub record ChainStep : Type 0 where
  pub next_chain_key : Bytes
  pub message_key : Bytes

pub record RootStep : Type 0 where
  pub root_key : Bytes
  pub chain_key : Bytes

-- The `Map` of skipped keys, by the text of its key.
abbrev pub Dict : Type 0
Dict = List (Bytes × Bytes)

pub get : Bytes → Dict → Option Bytes
get k [] = none
get k ((j, v) ∷ d) = if same_bytes j k then some v else get k d

pub set : Bytes → Bytes → Dict → Dict
set k v [] = (k, v) ∷ []
set k v ((j, u) ∷ d) = if same_bytes j k then (j, v) ∷ d else (j, u) ∷ set k v d

pub delete : Bytes → Dict → Dict
delete k [] = []
delete k ((j, v) ∷ d) = if same_bytes j k then delete k d else (j, v) ∷ delete k d

pub record RatchetState : Type 0 where
  pub root_key : Bytes
  pub dh_self : Option KeyPair
  pub dh_remote : Option Bytes
  pub send_chain : Option Bytes
  pub recv_chain : Option Bytes
  pub send_n : ℕ
  pub recv_n : ℕ
  pub prev_n : ℕ
  pub skipped : Dict

pub record RatchetEnvelope : Type 0 where
  pub dh_pub : Bytes
  pub pn : ℕ
  pub n : ℕ
  pub iv : Bytes
  pub ciphertext : Bytes

-- `generated` is the fresh key pair.
unfoldable pub init_ratchet_initiator : Bytes → Bytes → KeyPair → RatchetState
init_ratchet_initiator shared_secret remote_signed_pre_key_pub generated = record {
  root_key = shared_secret;
  dh_self = some generated;
  dh_remote = some remote_signed_pre_key_pub;
  send_chain = none;
  recv_chain = none;
  send_n = 0;
  recv_n = 0;
  prev_n = 0;
  skipped = [];
}

unfoldable pub init_ratchet_responder : Bytes → KeyPair → RatchetState
init_ratchet_responder shared_secret own_signed_pre_key = record {
  root_key = shared_secret;
  dh_self = some own_signed_pre_key;
  dh_remote = none;
  send_chain = none;
  recv_chain = none;
  send_n = 0;
  recv_n = 0;
  prev_n = 0;
  skipped = [];
}

abbrev pub fail : {A : Type 0} → String → Action RatchetState A
fail message st = (err (thrown message 0), st)

-- `o!`, whose use as an object throws where `o` is null.
abbrev pub non_null : {A : Type 0} → Option A → Action RatchetState A
non_null none st = (err type_error, st)
non_null (some a) st = (ok a, st)

-- A decryption that fails rejects.
abbrev pub or_reject : Option Bytes → Action RatchetState Bytes
or_reject none st = (err type_error, st)
or_reject (some pt) st = (ok pt, st)

abbrev pub read : {A : Type 0} → (RatchetState → A) → Action RatchetState A
read f st = (ok (f st), st)

abbrev pub same_key : Option Bytes → Bytes → Bool
same_key none b = false
same_key (some a) b = same_bytes a b

module _ (p : Primitives) where
  unfoldable pub kdf_chain_key : Bytes → ChainStep
  kdf_chain_key chain_key = record {
    next_chain_key = p.hkdf chain_key salt (codes "Najva-CK") 32;
    message_key = p.hkdf chain_key salt (codes "Najva-MK") 32;
  }

  unfoldable pub kdf_root_key : Bytes → Bytes → RootStep
  kdf_root_key root_key dh_out =
      let out = p.hkdf dh_out root_key (codes "Najva-RK") 64 in
      record { root_key = take 32 out; chain_key = take 32 (drop 32 out) }

  unfoldable pub seed_send_chain : Option KeyPair → Option Bytes → Action RatchetState (Unit {0})
  seed_send_chain (some self) (some remote) st =
      let step = kdf_root_key st.root_key (p.dh self.secret_key remote) in
      (ok tt, record st { root_key = step.root_key; send_chain = some step.chain_key })
  seed_send_chain _ _ st = fail "Ratchet not initialized for sending" st

  -- The first message of the initiator seeds its send chain.
  ensure_send_chain_of : Option Bytes → Action RatchetState (Unit {0})
  unfolding seed_send_chain
  ensure_send_chain_of (some chain) st = (ok tt, st)
  ensure_send_chain_of none st = seed_send_chain st.dh_self st.dh_remote st

  unfoldable pub ensure_send_chain : Action RatchetState (Unit {0})
  unfolding ensure_send_chain_of
  ensure_send_chain st = ensure_send_chain_of st.send_chain st

  unfoldable pub ratchet_encrypt : Bytes → Bytes → Action RatchetState RatchetEnvelope
  unfolding ensure_send_chain
  ratchet_encrypt plaintext iv = do
    ensure_send_chain
    chain ← non_null (← read (λ st. st.send_chain))
    let step = kdf_chain_key chain
    n ← read (λ st. st.send_n)
    modify (λ st. record st { send_chain = some step.next_chain_key; send_n = n + 1 })
    self ← non_null (← read (λ st. st.dh_self))
    prev_n ← read (λ st. st.prev_n)
    pure (record {
      dh_pub = self.public_key;
      pn = prev_n;
      n = n;
      iv = iv;
      ciphertext = p.aes_gcm_encrypt step.message_key plaintext iv;
    })

  -- One turn of the loop: the key of message `recv_n` is stashed.
  skip_one : Bytes → Bytes → RatchetState → RatchetState
  skip_one remote chain st =
      let step = kdf_chain_key chain in
      record st {
        recv_chain = some step.next_chain_key;
        skipped = set (b64_key remote st.recv_n) step.message_key st.skipped;
        recv_n = st.recv_n + 1;
      }

  -- The loop, with the rounds that are left.
  pub skip_rounds : ℕ → Bytes → Bytes → RatchetState → RatchetState
  unfolding skip_one
  skip_rounds zero remote chain st = st
  skip_rounds (suc k) remote chain st =
      skip_rounds k remote (kdf_chain_key chain).next_chain_key (skip_one remote chain st)

  skip_keys_of : Option Bytes → Option Bytes → ℕ → Action RatchetState (Unit {0})
  unfolding skip_rounds
  skip_keys_of none remote until st = (ok tt, st)
  skip_keys_of (some chain) (some remote) until st =
      if ltb (st.recv_n + max_skip) until
      then fail "Too many skipped messages" st
      else (ok tt, skip_rounds (until - st.recv_n) remote chain st)
  -- The name of the first key fails after the chain has moved on; no session is in such a state.
  skip_keys_of (some chain) none until st =
      if ltb (st.recv_n + max_skip) until
      then fail "Too many skipped messages" st
      else (if ltb st.recv_n until
          then (
            err type_error,
            record st { recv_chain = some (kdf_chain_key chain).next_chain_key },
          )
          else (ok tt, st))

  pub skip_message_keys : ℕ → Action RatchetState (Unit {0})
  unfolding skip_keys_of
  skip_message_keys until st = skip_keys_of st.recv_chain st.dh_remote until st

  -- `generated` is the fresh key pair.
  pub dh_ratchet_step : RatchetEnvelope → KeyPair → Action RatchetState (Unit {0})
  unfolding skip_message_keys
  dh_ratchet_step header generated = do
    skip_message_keys header.pn
    modify (λ st. record st {
      prev_n = st.send_n;
      send_n = 0;
      recv_n = 0;
      dh_remote = some header.dh_pub;
    })
    self ← non_null (← read (λ st. st.dh_self))
    modify (λ st.
        let received = kdf_root_key st.root_key (p.dh self.secret_key header.dh_pub) in
        record st { root_key = received.root_key; recv_chain = some received.chain_key })
    modify (λ st.
        let sent = kdf_root_key st.root_key (p.dh generated.secret_key header.dh_pub) in
        record st {
          dh_self = some generated;
          root_key = sent.root_key;
          send_chain = some sent.chain_key;
        })

  -- Step 2 of `ratchetDecrypt`: a new remote key starts a new chain.
  follow_remote : Bool → RatchetEnvelope → KeyPair → Action RatchetState (Unit {0})
  unfolding dh_ratchet_step
  follow_remote true env generated = pure tt
  follow_remote false env generated = dh_ratchet_step env generated

  -- Step 4: the chain moves on before the message is authenticated.
  open_next : Option Bytes → RatchetEnvelope → Action RatchetState Bytes
  open_next none env st = fail "No receive chain established" st
  open_next (some chain) env st =
      let step = kdf_chain_key chain in
      or_reject (p.aes_gcm_decrypt step.message_key env.ciphertext env.iv)
        (record st { recv_chain = some step.next_chain_key; recv_n = st.recv_n + 1 })

  -- Steps 2 to 4, where no skipped key fits.
  pub decrypt_in_chain : RatchetEnvelope → KeyPair → Action RatchetState Bytes
  unfolding follow_remote open_next skip_message_keys
  decrypt_in_chain env generated = do
    follow_remote (same_key (← read (λ st. st.dh_remote)) env.dh_pub) env generated
    skip_message_keys env.n
    open_next (← read (λ st. st.recv_chain)) env

  decrypt_by : Option Bytes → RatchetEnvelope → KeyPair → Action RatchetState Bytes
  unfolding decrypt_in_chain
  decrypt_by none env generated st = decrypt_in_chain env generated st
  decrypt_by (some key) env generated st =
      or_reject (p.aes_gcm_decrypt key env.ciphertext env.iv)
        (record st { skipped = delete (b64_key env.dh_pub env.n) st.skipped })

  -- A skipped key is taken out of the map before it is tried.
  pub ratchet_decrypt : RatchetEnvelope → KeyPair → Action RatchetState Bytes
  unfolding decrypt_by
  ratchet_decrypt env generated st =
      decrypt_by (get (b64_key env.dh_pub env.n) st.skipped) env generated st
