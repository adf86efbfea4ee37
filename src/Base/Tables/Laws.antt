-- ===== src/Base/Tables/Laws.antt =====
-- Laws of the table operations.
use najva_messenger.Base.Tests.{Bool-cases}
use najva_messenger.Base.Tables.{select, exists, find, update, modify_if, map_option, All, Among}
use mathlib.Core.Path.{◌≡◌, refl, subst, sym}
use mathlib.Core.Logic.{inl, inr}
use mathlib.Core.Bool.{not, Bool, true, false}
use mathlib.Core.Option.{some, none}
use mathlib.Core.List.{List, [], ◌∷◌}
use native.Mathlib.Omega.{arith}

module _ {ℓ} {A : Type ℓ} where
  pub find-holds : (p : A → Bool) (xs : List A) (x : A) → find p xs ≡ some x → p x ≡ true
  unfolding find
  find-holds p [] x e = cc
  find-holds p (y ∷ xs) x e = elim (Bool-cases (p y)) [
    | inl hit ↦ ground (arith, hit)
    | inr miss ↦ find-holds p xs x (rw miss at e)
  ]

  -- An update that keeps the tested columns is seen in the row that is found.
  pub find-update :
      (q p : A → Bool) (f : A → A) (xs : List A)
      → ((x : A) → q (f x) ≡ q x)
      → find q (update p f xs) ≡ map_option (modify_if p f) (find q xs)
  unfolding find update
  find-update q p f [] keep = refl
  find-update q p f (x ∷ xs) keep = ground (arith, keep x, find-update q p f xs keep)

  pub All-update {κ} :
      (P : A → Type κ) (p : A → Bool) (f : A → A) (xs : List A)
      → ((x : A) → P x → p x ≡ true → P (f x))
      → All P xs
      → All P (update p f xs)
  unfolding update
  All-update P p f [] keep h = tt
  All-update P p f (x ∷ xs) keep h = elim (Bool-cases (p x)) [
    | inl hit ↦ (rw hit (keep x h.0 hit), All-update P p f xs keep h.1)
    | inr miss ↦ (rw miss h.0, All-update P p f xs keep h.1)
  ]

  pub exists-select_none :
      (p q : A → Bool) (xs : List A) → ((x : A) → p x ≡ not (q x)) → exists q (select p xs) ≡ false
  unfolding exists select
  exists-select_none p q [] h = refl
  exists-select_none p q (x ∷ xs) h = ground (arith, h x, exists-select_none p q xs h)

  pub find-select :
      (p q : A → Bool) (xs : List A)
      → ((x : A) → q x ≡ true → p x ≡ true)
      → find q (select p xs) ≡ find q xs
  unfolding find select
  find-select p q [] h = refl
  find-select p q (x ∷ xs) h = ground (arith, h x, find-select p q xs h)

  -- A selection within a selection that it implies.
  pub select-select :
      (p q : A → Bool) (xs : List A)
      → ((x : A) → q x ≡ true → p x ≡ true)
      → select q (select p xs) ≡ select q xs
  unfolding select
  select-select p q [] h = refl
  select-select p q (x ∷ xs) h = ground (arith, h x, select-select p q xs h)

  pub exists-select :
      (p q : A → Bool) (xs : List A)
      → ((x : A) → q x ≡ true → p x ≡ true)
      → exists q (select p xs) ≡ exists q xs
  unfolding exists select
  exists-select p q [] h = refl
  exists-select p q (x ∷ xs) h = ground (arith, h x, exists-select p q xs h)

  pub find-exists : (p : A → Bool) (xs : List A) (x : A) → find p xs ≡ some x → exists p xs ≡ true
  unfolding find exists
  find-exists p [] x e = cc
  find-exists p (y ∷ xs) x e = elim (Bool-cases (p y)) [
    | inl hit ↦ rw hit
    | inr miss ↦ rw miss (find-exists p xs x (rw miss at e))
  ]

  pub none-exists : (p : A → Bool) (xs : List A) → find p xs ≡ none → exists p xs ≡ false
  unfolding find exists
  none-exists p [] e = refl
  none-exists p (y ∷ xs) e = elim (Bool-cases (p y)) [
    | inl hit ↦ absurd (cc (rw hit at e))
    | inr miss ↦ rw miss (none-exists p xs (rw miss at e))
  ]

  pub All-map {κ μ} :
      (P : A → Type κ) (Q : A → Type μ) (xs : List A) → ((x : A) → P x → Q x) → All P xs → All Q xs
  All-map P Q [] f h = tt
  All-map P Q (x ∷ xs) f h = (f x h.0, All-map P Q xs f h.1)

  pub All-select_keep {κ} :
      (P : A → Type κ) (p : A → Bool) (xs : List A) → All P xs → All P (select p xs)
  unfolding select
  All-select_keep P p [] h = tt
  All-select_keep P p (x ∷ xs) h = elim (Bool-cases (p x)) [
    | inl hit ↦ rw hit (h.0, All-select_keep P p xs h.1)
    | inr miss ↦ rw miss (All-select_keep P p xs h.1)
  ]

  pub All-find {κ} :
      (P : A → Type κ) (p : A → Bool) (xs : List A) (x : A) → All P xs → find p xs ≡ some x → P x
  unfolding find
  All-find P p [] x h e = absurd (cc e)
  All-find P p (y ∷ ys) x h e = elim (Bool-cases (p y)) [
    | inl hit ↦ subst P (inj (rw hit at e)) h.0
    | inr miss ↦ All-find P p ys x h.1 (rw miss at e)
  ]
    where
      inj : {a b : A} → some a ≡ some b → a ≡ b
      inj e = cc e

module _ {A : Type 0} where
  pub All-Among {κ} : (P : A → Type κ) (xs : List A) (x : A) → All P xs → Among x xs → P x
  All-Among P [] x h m = elim m [ ]
  All-Among P (y ∷ ys) x h (inl e) = subst P (sym e) h.0
  All-Among P (y ∷ ys) x h (inr m) = All-Among P ys x h.1 m

  pub Among-self : (xs : List A) → All (λ x. Among x xs) xs
  Among-self [] = tt
  Among-self (x ∷ xs) = (
    inl refl,
    All-map (λ y. Among y xs) (λ y. Among y (x ∷ xs)) xs (λ y m. inr m) (Among-self xs),
  )

  pub exists-Among :
      (p : A → Bool) (xs : List A) → exists p xs ≡ true → (x : A) × Among x xs × (p x ≡ true)
  unfolding exists
  exists-Among p [] e = absurd (cc e)
  exists-Among p (y ∷ ys) e = elim (Bool-cases (p y)) [
    | inl hit ↦ (y, inl refl, hit)
    | inr miss ↦ let (x, there, holds) = exists-Among p ys (rw miss at e) in (x, inr there, holds)
  ]

  pub Among-exists :
      (p : A → Bool) (xs : List A) (x : A) → Among x xs → p x ≡ true → exists p xs ≡ true
  unfolding exists
  Among-exists p [] x m e = elim m [ ]
  Among-exists p (y ∷ ys) x (inl same) e = rw (subst (λ z. p z ≡ true) same e) refl
  Among-exists p (y ∷ ys) x (inr m) e = elim (Bool-cases (p y)) [
    | inl hit ↦ rw hit refl
    | inr miss ↦ rw miss (Among-exists p ys x m e)
  ]
