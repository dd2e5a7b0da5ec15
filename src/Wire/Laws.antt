-- ===== src/Wire/Laws.antt =====
-- A reader that stands before what was written reads it and stands behind it.
use mfspv.Base.{
  ℕ, ◌^◌, ◌<◌, ◌≡◌, refl, ap, ◌∙◌, ◌++◌, length, Bytes, none, some, Option, false, Result, Error,
  le_bytes, length-le_bytes, le_value-le_bytes, take-append, drop-append, length-append, arith, ltb,
}
use mfspv.Wire.{Rd, ◌>>=◌, must, error_of, Reader, open_at, take_bytes, uint}

module _ (too_short : Error) where
  -- What was written is taken, and what follows it is left.
  pub take_bytes-append :
      (n : ℕ) (b t : Bytes)
      → length b ≡ n
      → take_bytes too_short n (open_at (b ++ t)) ≡ (some b, open_at t)
  unfolding take_bytes
  take_bytes-append n b t h =
      let enough : ltb (length (b ++ t)) (length b) ≡ false =
        ground (arith, length-append {0} b t) in
      rw (← h, enough, take-append b t, drop-append b t) refl

  -- An integer that fits its width is read back.
  pub uint-le_bytes :
      (k v : ℕ) (t : Bytes)
      → v < 256 ^ k
      → uint too_short k (open_at (le_bytes k v ++ t)) ≡ (v, open_at t)
  unfolding uint
  uint-le_bytes k v t h =
      rw (take_bytes-append k (le_bytes k v) t (length-le_bytes k v), le_value-le_bytes k v h) refl

-- One action of a reader in front of the others.
module _ {ℓ κ} {A : Type ℓ} {B : Type κ} where
  pub bind_step :
      (m : Rd A) (f : A → Rd B) {r r' : Reader} {a : A} {y : B × Reader}
      → m r ≡ (a, r')
      → f a r' ≡ y
      → ◌>>=◌ m f r ≡ y
  unfolding ◌>>=◌
  bind_step m f e h = ap (λ (p : A × Reader). f p.0 p.1) e ∙ h

  pub must_step :
      (m : Rd (Option A)) (k : A → Rd (Result B)) {r r' : Reader} {a : A} {y : Result B × Reader}
      → m r ≡ (some a, r')
      → k a r' ≡ y
      → must m k r ≡ y
  unfolding must
  must_step m k e h =
      ap
        (λ (p : Option A × Reader). elim p.0 as (λ _. Result B × Reader) [
          | none ↦ (error_of p.1, p.1)
          | some x ↦ k x p.1
        ])
        e
      ∙ h
