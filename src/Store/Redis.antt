-- ===== src/Store/Redis.antt =====
-- The key-value store: a read finds what has not expired, and a write replaces what was there.
use najva_messenger.Base.{
  ℕ, ◌≡◌, refl, Bool, ◌&&◌, not, Option, none, List, [], ◌∷◌, arith, find, select, ltb, ◌==◌,
  map_option,
}
use najva_messenger.Store.{Text, Entry}

module _ {A : Type 0} where
  abbrev pub is_live_entry : Text → ℕ → Entry A → Bool
  is_live_entry key now e = e.key == key && ltb now e.expires_at

  abbrev pub get : Text → ℕ → List (Entry A) → Option A
  get key now es = map_option (λ e. e.value) (find (is_live_entry key now) es)

  abbrev pub del : Text → List (Entry A) → List (Entry A)
  del key es = select (λ e. not (e.key == key)) es

  abbrev pub set : Text → A → ℕ → List (Entry A) → List (Entry A)
  set key value expires_at es =
      record { key = key; value = value; expires_at = expires_at } ∷ del key es

  pub find-del :
      (key : Text) (now : ℕ) (es : List (Entry A))
      → find (is_live_entry key now) (del key es) ≡ none
  unfolding find select
  find-del key now [] = refl
  find-del key now (e ∷ es) = ground (arith, find-del key now es)
