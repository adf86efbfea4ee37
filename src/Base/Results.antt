-- ===== src/Base/Results.antt =====
-- Results and effects. A request handler reads and writes the store and may throw; what it wrote
-- before it threw stays written, except inside a transaction.
use Prim.Native.Nat.{ℕ}
use Prim.Native.String.{String}
use mathlib.Core.Path.{◌≡◌, refl}
use mathlib.Core.Logic.{◌⊎◌, inl, inr}
use mathlib.Core.Bool.{Bool, true, false}
use mathlib.Core.Option.{Option, none, some}

-- `thrown message status` is an `AppError`, and `thrown_for` one whose message ends in an
-- identifier; `record_not_found`, `unique_violation` and `foreign_key_violation` are the database
-- client's own errors; `type_error` is any other JavaScript exception.
pub data Error : Type 0 where
  thrown : String → ℕ → Error
  thrown_for : String → ℕ → ℕ → Error
  record_not_found unique_violation foreign_key_violation type_error : Error

pub data Result {ℓ} (A : Type ℓ) : Type ℓ where
  ok : A → Result A
  err : Error → Result A

abbrev pub Action : Type 0 → Type 0 → Type 0
Action S A = S → Result A × S

module _ {S A : Type 0} where
  abbrev pub pure : A → Action S A
  pure a s = (ok a, s)

  abbrev pub throw : String → ℕ → Action S A
  throw message status s = (err (thrown message status), s)

  abbrev pub gets : (S → A) → Action S A
  gets f s = (ok (f s), s)

  -- A value that is there, or an exception.
  abbrev pub or_throw : Option A → String → ℕ → Action S A
  or_throw none message status = throw message status
  or_throw (some a) _ _ = pure a

  -- All writes of `$transaction`, or none.
  abbrev rollback : S → Result A × S → Result A × S
  rollback s (ok a, s') = (ok a, s')
  rollback s (err e, _) = (err e, s)

  abbrev pub transaction : Action S A → Action S A
  transaction m s = rollback s (m s)

abbrev bind_step : {S A B : Type 0} → (A → Action S B) → Result A × S → Result B × S
bind_step f (ok a, s) = f a s
bind_step f (err e, s) = (err e, s)

infixl 5 ◌>>=◌ ◌>>◌
abbrev pub ◌>>=◌ : {S A B : Type 0} → Action S A → (A → Action S B) → Action S B
◌>>=◌ m f s = bind_step f (m s)

abbrev pub ◌>>◌ : {S A B : Type 0} → Action S A → Action S B → Action S B
m >> k = m >>= λ _. k

abbrev pub throw_if : {S : Type 0} → Bool → String → ℕ → Action S (Unit {0})
throw_if true message status = throw message status
throw_if false _ _ = pure tt

abbrev pub modify : {S : Type 0} → (S → S) → Action S (Unit {0})
modify f s = (ok tt, f s)

abbrev pub raise : {S A : Type 0} → Error → Action S A
raise e s = (err e, s)

abbrev pub raise_if : {S : Type 0} → Bool → Error → Action S (Unit {0})
raise_if true e = raise e
raise_if false e = pure tt

abbrev pub lift : {S A : Type 0} → Result A → Action S A
lift r s = (r, s)

-- Inversion of results.
pub ok-inj :
    {S A : Type 0} {a b : A} {s s' : S}
    → ◌≡◌ {A = Result A × S} (ok a, s) (ok b, s')
    → (a ≡ b) × (s ≡ s')
ok-inj e = (cc e, cc e)

pub value-inj : {A : Type 0} {a b : A} → ok a ≡ ok b → a ≡ b
value-inj e = cc e

pub Result-cases :
    {A : Type 0} (r : Result A) → ((e : Error) × (r ≡ err e)) ⊎ ((a : A) × (r ≡ ok a))
Result-cases (err e) = inl (e, refl)
Result-cases (ok a) = inr (a, refl)

-- The two ways in which an action without a value ends.
pub end-cases :
    {S : Type 0} (r : Result (Unit {0}) × S)
    → ((e : Error) × (s : S) × (r ≡ (err e, s))) ⊎ ((s : S) × (r ≡ (ok tt, s)))
end-cases (err e, s) = inl (e, s, refl)
end-cases (ok tt, s) = inr (s, refl)

-- The two ways in which an action ends.
pub out-cases :
    {S A : Type 0} (r : Result A × S)
    → ((e : Error) × (s : S) × (r ≡ (err e, s))) ⊎ ((a : A) × (s : S) × (r ≡ (ok a, s)))
out-cases (err e, s) = inl (e, s, refl)
out-cases (ok a, s) = inr (a, s, refl)
