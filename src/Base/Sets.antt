-- ===== src/Base/Sets.antt =====
-- Lists of identifiers as sets: distinct lists, membership, and the pigeonhole principle.
use najva_messenger.Base.Tables.{includes, dedup, dedup_from, length}
use najva_messenger.Base.{
  ℕ, ◌+◌, ◌≤◌, ◌≡◌, ◌≢◌, refl, ◌∙◌, inl, inr, Bool, true, false, ◌&&◌, not, List, [], ◌∷◌, arith,
  ◌==◌, if◌then◌else◌, Bool-cases, ==_iff,
}

abbrev pub IsDistinct : List ℕ → Type 0
IsDistinct [] = Unit {0}
IsDistinct (x ∷ xs) = (includes x xs ≡ false) × IsDistinct xs

abbrev pub IsWithin : List ℕ → List ℕ → Type 0
IsWithin xs ys = (id : ℕ) → includes id xs ≡ true → includes id ys ≡ true

pub includes-head : (x : ℕ) (xs : List ℕ) → includes x (x ∷ xs) ≡ true
unfolding includes
includes-head x xs = ground arith

and_not-true : (b : Bool) → (b && not true) ≡ false
and_not-true true = refl
and_not-true false = refl

and_not-false : (b : Bool) → (b && not false) ≡ b
and_not-false true = refl
and_not-false false = refl

includes-dedup_from :
    (id : ℕ) (seen xs : List ℕ)
    → includes id (dedup_from seen xs) ≡ (includes id xs && not (includes id seen))
unfolding includes dedup_from
includes-dedup_from id seen [] = refl
includes-dedup_from id seen (x ∷ xs) = elim (Bool-cases (includes x seen)) [
  | inl old ↦ elim (Bool-cases (x == id)) [
    | inl same ↦
        let old' : includes id seen ≡ true = rw ((==_iff x id).0 same) at old in
        rw old (ground (arith, old', includes-dedup_from id seen xs))
    | inr other ↦ rw old (ground (arith, other, includes-dedup_from id seen xs))
  ]
  | inr new ↦ elim (Bool-cases (x == id)) [
    | inl same ↦
        let new' : includes id seen ≡ false = rw ((==_iff x id).0 same) at new in
        rw new (ground (arith, new', same))
    | inr other ↦ rw new (ground (arith, other, includes-dedup_from id (x ∷ seen) xs))
  ]
]

dedup_from-IsDistinct : (seen xs : List ℕ) → IsDistinct (dedup_from seen xs)
unfolding dedup_from
dedup_from-IsDistinct seen [] = tt
dedup_from-IsDistinct seen (x ∷ xs) = elim (Bool-cases (includes x seen)) [
  | inl old ↦ rw old (dedup_from-IsDistinct seen xs)
  | inr new ↦ rw new (
    rw (includes-dedup_from x (x ∷ seen) xs, includes-head x seen) (and_not-true (includes x xs)),
    dedup_from-IsDistinct (x ∷ seen) xs,
  )
]

pub includes-dedup : (id : ℕ) (xs : List ℕ) → includes id (dedup xs) ≡ includes id xs
unfolding dedup includes
includes-dedup id xs = includes-dedup_from id [] xs ∙ and_not-false (includes id xs)

pub dedup-IsDistinct : (xs : List ℕ) → IsDistinct (dedup xs)
unfolding dedup
dedup-IsDistinct xs = dedup_from-IsDistinct [] xs

remove : ℕ → List ℕ → List ℕ
remove x [] = []
remove x (y ∷ ys) = if y == x then ys else y ∷ remove x ys

includes-remove : (x id : ℕ) (ys : List ℕ) → id ≢ x → includes id (remove x ys) ≡ includes id ys
unfolding includes remove
includes-remove x id [] ne = refl
includes-remove x id (y ∷ ys) ne = ground (arith, includes-remove x id ys ne)

length-remove : (x : ℕ) (ys : List ℕ) → includes x ys ≡ true → length (remove x ys) + 1 ≡ length ys
unfolding includes remove
length-remove x [] h = cc
length-remove x (y ∷ ys) h = ground (arith, length-remove x ys)

pub includes-tail : (x y : ℕ) (xs : List ℕ) → includes x xs ≡ true → includes x (y ∷ xs) ≡ true
unfolding includes
includes-tail x y xs h = ground arith

absent-ne : (x y : ℕ) (xs : List ℕ) → includes x xs ≡ false → includes y xs ≡ true → y ≢ x
absent-ne x y xs h k e = cc

pub length-IsWithin : (xs ys : List ℕ) → IsDistinct xs → IsWithin xs ys → length xs ≤ length ys
length-IsWithin [] ys d h = omega arith
length-IsWithin (x ∷ xs) ys d h =
    let found = h x (includes-head x xs) in
    let inner : IsWithin xs (remove x ys) =
      λ id k. includes-remove x id ys (absent-ne x id xs d.0 k) ∙ h id (includes-tail id x xs k) in
    omega (arith, length-remove x ys found, length-IsWithin xs (remove x ys) d.1 inner)

with_head :
    (id : ℕ) (xs ys : List ℕ) → IsWithin xs ys → includes id ys ≡ true → IsWithin (id ∷ xs) ys
unfolding includes
with_head id xs ys h k j m = elim (Bool-cases (id == j)) [
  | inl same ↦ rw (← (==_iff id j).0 same) k
  | inr other ↦ h j (rw other at m)
]

-- A distinct list within another that is no longer holds all of it.
pub includes_all :
    (xs ys : List ℕ) (id : ℕ)
    → IsDistinct xs
    → IsWithin xs ys
    → length ys ≤ length xs
    → includes id ys ≡ true
    → includes id xs ≡ true
includes_all xs ys id d h l k = elim (Bool-cases (includes id xs)) [
  | inl there ↦ there
  | inr missing ↦
      absurd (omega (arith, length-IsWithin (id ∷ xs) ys (missing, d) (with_head id xs ys h k)))
]
