-- ===== src/Base/Outcome.antt =====
-- A Go function that may return an error, or panic on an index out of range.
use mathlib.Core.Path.{◌≡◌, refl}
use mathlib.Core.List.{List, [], ◌∷◌}
use mathlib.Core.Logic.{◌⊎◌, inl, inr}
use mathlib.Core.Option.{none, some}
use Prim.Native.Nat.{ℕ, zero, suc}
use mfspv.Base.Lists.{get_elem?}

-- The error values of the packages, and the run-time panic of an index out of range.
pub data Error : Type 0 where
  empty_tree : Error
  index_out_of_range : Error
  truncated : Error
  truncated_message : Error
  trailing_bytes : Error
  unknown_tx : Error
  unknown_block : Error
  no_accumulator : Error
  not_in_block : Error
  not_in_prefix : Error
  empty_block : Error
  txid_mismatch : Error
  panic : Error
  other : ℕ → Error

-- What a function `(A, error)` returns: the error, or the value beside a nil error.
pub data Result {ℓ} (A : Type ℓ) : Type ℓ where
  err : Error → Result A
  ok : A → Result A

module _ {ℓ κ} {A : Type ℓ} {B : Type κ} where
  infixl 5 ◌>>=◌
  -- `if err != nil { return …, err }`
  abbrev pub ◌>>=◌ : Result A → (A → Result B) → Result B
  err reason >>= next = err reason
  ok found >>= next = next found

  -- Only a value that both steps give comes out.
  pub >>=-eq-ok :
      (first : Result A) (next : A → Result B) {out : B}
      → (first >>= next) ≡ ok out
      → (mid : A) × (first ≡ ok mid) × (next mid ≡ ok out)
  >>=-eq-ok (err reason) next h = cc
  >>=-eq-ok (ok found) next h = (found, refl, h)

-- `xs[i]`: Go panics where the index is out of range.
abbrev pub index {ℓ} : {A : Type ℓ} → List A → ℕ → Result A
index xs i = elim (get_elem? xs i) [ none ↦ err panic | some x ↦ ok x ]

pub index_of_get_elem? {ℓ} :
    {A : Type ℓ} (xs : List A) (i : ℕ) {x : A} → get_elem? xs i ≡ some x → index xs i ≡ ok x
index_of_get_elem? xs i h = rw (h, index)

pub get_elem?_of_index {ℓ} :
    {A : Type ℓ} (xs : List A) (i : ℕ) {x : A} → index xs i ≡ ok x → get_elem? xs i ≡ some x
get_elem?_of_index [] i h = cc
get_elem?_of_index (y ∷ xs) zero h = cc
get_elem?_of_index (y ∷ xs) (suc i) h = get_elem?_of_index xs i h

pub Result-cases {ℓ} :
    {A : Type ℓ} (out : Result A)
    → ((v : A) × (out ≡ ok v)) ⊎ ((reason : Error) × (out ≡ err reason))
Result-cases (err reason) = inr (reason, refl)
Result-cases (ok v) = inl (v, refl)
