-- ===== src/Accumulator/Bagging.antt =====
-- The peaks are combined right to left; every peak has a path to the combination.
use mfspv.Base.{
  ℕ, zero, suc, ◌-◌, ◌≤◌, ◌<◌, ◌≡◌, refl, true, false, List, [], ◌∷◌, ◌++◌, length, get_elem?, drop,
  some, arith, Bool-cases, inl, inr, ◌∙◌, ap, ok, ltb, length-append, index_of_get_elem?,
  get_elem?-lt, if◌then◌else◌, lt_of_get_elem?,
}
use mfspv.Commitment.Hashing.{Sha256, Hash, PathElem, hash_pair, fold, fold_step, fold-append}
use mfspv.Accumulator.Range.{left_peaks, bag_peaks, bag_path}

abbrev on_left : Hash → PathElem
on_left p = record { sibling = p; right = false }

-- The elements of the peaks to the left of peak `k`, the nearest first.
lefts_of : ℕ → List Hash → List PathElem
lefts_of zero pk = []
lefts_of (suc k) [] = []
lefts_of (suc k) (p ∷ pk) = lefts_of k pk ++ (on_left p ∷ [])

lefts_of-suc :
    (k : ℕ) (pk : List Hash) {x : Hash}
    → get_elem? pk k ≡ some x
    → lefts_of (suc k) pk ≡ on_left x ∷ lefts_of k pk
unfolding lefts_of
lefts_of-suc k [] h = cc
lefts_of-suc zero (p ∷ pk) h = cc
lefts_of-suc (suc k) (p ∷ pk) h = ap (λ t. t ++ (on_left p ∷ [])) (lefts_of-suc k pk h)

left_peaks-lefts_of :
    (k : ℕ) (pk : List Hash) → k ≤ length pk → left_peaks k pk ≡ ok (lefts_of k pk)
unfolding left_peaks
left_peaks-lefts_of zero pk h = unfold lefts_of in refl
left_peaks-lefts_of (suc k) pk h =
    let (x, at) = get_elem?-lt pk k (omega arith) in
    rw (index_of_get_elem? pk k at, left_peaks-lefts_of k pk (omega arith), lefts_of-suc k pk at)
      refl

length-lefts_of : (k : ℕ) (pk : List Hash) → length (lefts_of k pk) ≤ k
unfolding lefts_of
length-lefts_of zero pk = omega arith
length-lefts_of (suc k) [] = omega arith
length-lefts_of (suc k) (p ∷ pk) =
    omega (arith, length-append {0} (lefts_of k pk) (on_left p ∷ []), length-lefts_of k pk)

module _ ⦃sha : Sha256⦄ where
  -- All the elements of peak `k`, by recursion on the peaks.
  elems_of : List Hash → ℕ → List PathElem
  elems_of [] k = []
  elems_of (p ∷ []) zero = []
  elems_of (p ∷ q ∷ rest) zero = record { sibling = bag_peaks (q ∷ rest); right = true } ∷ []
  elems_of (p ∷ rest) (suc k) = elems_of rest k ++ (on_left p ∷ [])

  guarded : List Hash → ℕ → List PathElem
  guarded pk k =
      if ltb k (length pk - 1)
      then record { sibling = bag_peaks (drop (suc k) pk); right = true } ∷ lefts_of k pk
      else lefts_of k pk

  guarded-elems_of : (pk : List Hash) (k : ℕ) → k < length pk → guarded pk k ≡ elems_of pk k
  unfolding guarded lefts_of elems_of
  guarded-elems_of [] k h = elim h [ ]
  guarded-elems_of (p ∷ []) zero h = refl
  guarded-elems_of (p ∷ q ∷ rest) zero h = ground arith
  guarded-elems_of (p ∷ []) (suc k) h = absurd (omega arith)
  guarded-elems_of (p ∷ q ∷ rest) (suc k) h =
      rw (same (length rest)) (elim (Bool-cases (ltb k (suc (length rest) - 1))) [
        | inl inner ↦ rw inner refl
        | inr last ↦ rw last refl
      ])
      ∙ ap (λ t. t ++ (on_left p ∷ [])) (guarded-elems_of (q ∷ rest) k (omega arith))
    where
      same : (n : ℕ) → ltb (suc k) (suc (suc n) - 1) ≡ ltb k (suc n - 1)
      same n = ground arith

  length-elems_of : (pk : List Hash) (k : ℕ) → k < length pk → length (elems_of pk k) ≤ length pk
  unfolding elems_of
  length-elems_of [] k h = elim h [ ]
  length-elems_of (p ∷ []) zero h = omega arith
  length-elems_of (p ∷ q ∷ rest) zero h = omega arith
  length-elems_of (p ∷ []) (suc k) h = absurd (omega arith)
  length-elems_of (p ∷ q ∷ rest) (suc k) h = omega (
    arith,
    length-append {0} (elems_of (q ∷ rest) k) (on_left p ∷ []),
    length-elems_of (q ∷ rest) k (omega arith),
  )

  bag_path-guarded : (pk : List Hash) (k : ℕ) → k ≤ length pk → bag_path pk k ≡ ok (guarded pk k)
  unfolding bag_path guarded
  bag_path-guarded pk k h =
      rw (left_peaks-lefts_of k pk h) (elim (Bool-cases (ltb k (length pk - 1))) [
        | inl inner ↦ rw inner refl
        | inr last ↦ rw last refl
      ])

  fold-elems_of :
      (pk : List Hash) (k : ℕ) (x : Hash)
      → get_elem? pk k ≡ some x
      → fold x (elems_of pk k) ≡ bag_peaks pk
  unfolding elems_of fold fold_step bag_peaks
  fold-elems_of [] k x h = cc
  fold-elems_of (p ∷ []) zero x h = cc
  fold-elems_of (p ∷ q ∷ rest) zero x h = cc
  fold-elems_of (p ∷ []) (suc k) x h = cc
  fold-elems_of (p ∷ q ∷ rest) (suc k) x h =
      fold-append x (elems_of (q ∷ rest) k) (on_left p ∷ [])
      ∙ ap (hash_pair p) (fold-elems_of (q ∷ rest) k x h)

  -- Every peak has a path to the combination of all the peaks, no longer than their number.
  pub bag_path_total :
      (pk : List Hash) (k : ℕ) (x : Hash)
      → get_elem? pk k ≡ some x
      → (path : List PathElem) × (bag_path pk k ≡ ok path)
        × (fold x path ≡ bag_peaks pk)
        × (length path ≤ length pk)
  bag_path_total pk k x h =
      let inside : k < length pk = lt_of_get_elem? pk k h in
      (
        elems_of pk k,
        bag_path-guarded pk k (omega arith) ∙ ap ok (guarded-elems_of pk k inside),
        fold-elems_of pk k x h,
        length-elems_of pk k inside,
      )
