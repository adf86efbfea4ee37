-- ===== src/Ratchet/Skipped.antt =====
-- The laws of the map of skipped keys.
use najva_messenger.Base.{
  ℕ, ◌≡◌, refl, inl, inr, none, some, [], ◌∷◌, arith, ◌==◌, if◌then◌else◌, Bool-cases, ==_iff,
}
use najva_messenger.Ratchet.KeyName.{
  Bytes, IsBytes, same_bytes, same_bytes_iff, b64_key, b64_key_inj,
}
use najva_messenger.Ratchet.{Dict, get, set, delete}

pub get-set :
    (k j v : Bytes) (d : Dict) → get k (set j v d) ≡ (if same_bytes j k then some v else get k d)
unfolding get set
get-set k j v [] = refl
get-set k j v ((i, u) ∷ d) =
    ground (arith, same_bytes_iff i j, same_bytes_iff i k, same_bytes_iff j k, get-set k j v d)

pub get-delete :
    (k j : Bytes) (d : Dict) → get k (delete j d) ≡ (if same_bytes j k then none else get k d)
unfolding get delete
get-delete k j [] = ground arith
get-delete k j ((i, u) ∷ d) =
    ground (arith, same_bytes_iff i j, same_bytes_iff i k, same_bytes_iff j k, get-delete k j d)

-- Under one public key the names are told apart by the message numbers.
pub same_name :
    (remote : Bytes) (i j : ℕ)
    → IsBytes remote
    → same_bytes (b64_key remote i) (b64_key remote j) ≡ (i == j)
same_name remote i j h = elim (Bool-cases (i == j)) [
  | inl same ↦
      rw ((==_iff i j).0 same)
        (ground (arith, same_bytes_iff (b64_key remote j) (b64_key remote j)))
  | inr other ↦ elim (Bool-cases (same_bytes (b64_key remote i) (b64_key remote j))) [
    | inl clash ↦ absurd (
        ground (
          arith,
          other,
          b64_key_inj remote remote i j h h
              ((same_bytes_iff (b64_key remote i) (b64_key remote j)).0 clash),
        ))
    | inr apart ↦ cc
  ]
]
