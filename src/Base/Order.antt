-- ===== src/Base/Order.antt =====
-- `orderBy` as a stable insertion sort by a key: `desc`, greatest first, or `asc`.
use mathlib.Core.List.Perm
use mathlib.Core.List.{Perm}
use najva_messenger.Base.{ℕ, ◌≤◌, inl, inr, List, [], ◌∷◌, leb, if◌then◌else◌, arith, Bool-cases}

module _ {ℓ} {A : Type ℓ} (key : A → ℕ) where
  unfoldable pub insert_desc : A → List A → List A
  insert_desc x [] = x ∷ []
  insert_desc x (y ∷ ys) = if leb (key y) (key x) then x ∷ y ∷ ys else y ∷ insert_desc x ys

  unfoldable pub order_desc : List A → List A
  unfolding insert_desc
  order_desc [] = []
  order_desc (x ∷ xs) = insert_desc x (order_desc xs)

  -- `orderBy: { …: 'asc' }`
  unfoldable pub insert_asc : A → List A → List A
  insert_asc x [] = x ∷ []
  insert_asc x (y ∷ ys) = if leb (key x) (key y) then x ∷ y ∷ ys else y ∷ insert_asc x ys

  unfoldable pub order_asc : List A → List A
  unfolding insert_asc
  order_asc [] = []
  order_asc (x ∷ xs) = insert_asc x (order_asc xs)

  -- No key of the list is above a bound.
  abbrev pub Below : ℕ → List A → Type 0
  Below n [] = Unit
  Below n (x ∷ xs) = (key x ≤ n) × Below n xs

  abbrev pub IsDescending : List A → Type 0
  IsDescending [] = Unit
  IsDescending (x ∷ xs) = Below (key x) xs × IsDescending xs

  Below-mono : (m n : ℕ) (xs : List A) → m ≤ n → Below m xs → Below n xs
  Below-mono m n [] h b = tt
  Below-mono m n (x ∷ xs) h b = (omega arith, Below-mono m n xs h b.1)

  insert_desc-Below :
      (n : ℕ) (x : A) (xs : List A) → key x ≤ n → Below n xs → Below n (insert_desc x xs)
  unfolding insert_desc
  insert_desc-Below n x [] h b = (h, tt)
  insert_desc-Below n x (y ∷ ys) h b = ground (arith, insert_desc-Below n x ys h b.1)

  insert_desc-IsDescending :
      (x : A) (xs : List A) → IsDescending xs → IsDescending (insert_desc x xs)
  unfolding insert_desc
  insert_desc-IsDescending x [] d = (tt, tt)
  insert_desc-IsDescending x (y ∷ ys) d = ground (
    arith,
    insert_desc-IsDescending x ys d.1,
    insert_desc-Below (key y) x ys,
    Below-mono (key y) (key x) ys,
  )

  pub order_desc-IsDescending : (xs : List A) → IsDescending (order_desc xs)
  unfolding order_desc
  order_desc-IsDescending [] = tt
  order_desc-IsDescending (x ∷ xs) =
      insert_desc-IsDescending x (order_desc xs) (order_desc-IsDescending xs)

  insert_desc-perm : (x : A) (xs : List A) → Perm (insert_desc x xs) (x ∷ xs)
  unfolding insert_desc
  insert_desc-perm x [] = Perm.refl _
  insert_desc-perm x (y ∷ ys) = elim (Bool-cases (leb (key y) (key x))) [
    | inl front ↦ rw front (Perm.refl _)
    | inr behind ↦ rw behind (Perm.trans (Perm.cons y (insert_desc-perm x ys)) (Perm.swap x y ys))
  ]

  pub order_desc-perm : (xs : List A) → Perm (order_desc xs) xs
  unfolding order_desc
  order_desc-perm [] = Perm.refl _
  order_desc-perm (x ∷ xs) =
      Perm.trans (insert_desc-perm x (order_desc xs)) (Perm.cons x (order_desc-perm xs))
