-- ===== src/Content/Keys.antt =====
-- client/src/lib/crypto/conversationKeys.ts: the cache of conversation keys. The maps within a map
-- are one function of both keys, and the rows that the server answers with are an argument.
use mathlib.Core.Path.{subst}
use najva_messenger.Base.{
  ℕ, ◌≡◌, refl, inl, inr, ◌&&◌, Option, none, some, List, [], ◌∷◌, map, Action, Result, ok, err,
  thrown, ◌==◌, ok-inj, Option-cases, if◌then◌else◌,
}
use najva_messenger.Ratchet.KeyName.{Bytes, same_bytes}
use najva_messenger.Ratchet.{KeyPair}
use najva_messenger.Content.{Text, Aead}
use najva_messenger.Content.Envelope.{Boxes, seal_envelope, open_envelope}

pub record MemberKey : Type 0 where
  pub user_id : Text
  pub identity_key_public : Bytes

pub record MemberWrap : Type 0 where
  pub user_id : Text
  pub wrapped_key : Text

pub record CkRow : Type 0 where
  pub version : ℕ
  pub wrapped_key : Text

abbrev pub Cache : Type 0
Cache = Text → ℕ → Option Bytes

abbrev pub cache_put : Text → ℕ → Bytes → Cache → Cache
cache_put id version ck cache i v = if same_bytes i id && v == version then some ck else cache i v

pub prime_ck : Text → ℕ → Bytes → Cache → Cache
prime_ck id version ck cache = cache_put id version ck cache

pub clear_ck_cache : Cache → Cache
clear_ck_cache cache i v = none

module _ (b : Boxes) (a : Aead) where
  -- Each member's wrap has a key pair and a nonce of its own.
  pub seal_ck_to_members :
      (drawn : MemberKey → KeyPair × Bytes) → Bytes → List MemberKey → List MemberWrap
  seal_ck_to_members drawn ck members =
      map
        (λ m.
          let (eph, nonce) = drawn m in
          record {
            user_id = m.user_id;
            wrapped_key = seal_envelope b a m.identity_key_public ck eph nonce;
          })
        members

  abbrev keep_opened : Text → ℕ → Result Bytes → Cache → Cache
  keep_opened id version (err e) cache = cache
  keep_opened id version (ok ck) cache = cache_put id version ck cache

  abbrev load_row : Text → (secret : Bytes) → CkRow → Cache → Cache
  load_row id secret row cache = elim (cache id row.version) [
    | some ck ↦ cache
    | none ↦ keep_opened id row.version (open_envelope b a secret row.wrapped_key) cache
  ]

  load_rows : Text → (secret : Bytes) → List CkRow → Cache → Cache
  load_rows id secret [] cache = cache
  load_rows id secret (row ∷ rows) cache = load_rows id secret rows (load_row id secret row cache)

  abbrev answer : Option Bytes → Cache → Result Bytes × Cache
  answer none cache = (err (thrown "conversationKeys: no CK" 0), cache)
  answer (some ck) cache = (ok ck, cache)

  abbrev fetched : Option Bytes → List CkRow → Text → ℕ → Action Cache Bytes
  fetched none rows id version cache =
      (err (thrown "conversationKeys: identity is locked" 0), cache)
  fetched (some secret) rows id version cache =
      let cache' = load_rows id secret rows cache in answer (cache' id version) cache'

  pub get_ck : (identity : Option Bytes) → List CkRow → Text → ℕ → Action Cache Bytes
  unfolding load_rows
  get_ck identity rows id version cache = elim (cache id version) [
    | some hit ↦ (ok hit, cache)
    | none ↦ fetched identity rows id version cache
  ]

  -- A key that was returned is in the cache: a later call gives it again and changes nothing, also
  -- where the identity is locked or the server answers with other rows.
  pub get_ck_again :
      (identity identity' : Option Bytes) (rows rows' : List CkRow) (id : Text) (version : ℕ)
      (cache cache' : Cache) (ck : Bytes)
      → get_ck identity rows id version cache ≡ (ok ck, cache')
      → get_ck identity' rows' id version cache' ≡ (ok ck, cache')
  unfolding get_ck
  get_ck_again identity identity' rows rows' id version cache cache' ck e = rw (get_ck, cached) refl
    where
      cached : cache' id version ≡ some ck
      cached = elim (Option-cases (cache id version)) [
        | inr (hit, there) ↦
            let out = ok-inj (rw (get_ck, there) at e) in
            subst (λ k. cache' id version ≡ some k) out.0
              (subst (λ (c : Cache). c id version ≡ some hit) out.1 there)
        | inl missing ↦ elim (Option-cases identity) [
          | inl locked ↦ absurd (cc (rw (get_ck, missing, locked) at e))
          | inr (secret, unlocked) ↦
              let loaded = load_rows id secret rows cache in
              elim (Option-cases (loaded id version)) [
                | inl absent ↦ absurd (cc (rw (get_ck, missing, unlocked, absent) at e))
                | inr (k, found) ↦
                    let out = ok-inj (rw (get_ck, missing, unlocked, found) at e) in
                    subst (λ j. cache' id version ≡ some j) out.0
                      (subst (λ (c : Cache). c id version ≡ some k) out.1 found)
              ]
        ]
      ]
