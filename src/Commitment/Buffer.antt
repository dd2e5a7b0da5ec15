-- ===== src/Commitment/Buffer.antt =====
-- MerklePathInto gives what MerklePath gives, whatever stands in the caller's buffer.
use mfspv.Base.{
  ℕ, ◌/◌, ◌≡◌, refl, sym, ap, ◌∙◌, List, [], ◌∷◌, ◌++◌, Result, ok, err, ◌>>=◌, append-nil,
  append_assoc,
}
use mfspv.Commitment.Hashing.{Hash, PathElem}
use mfspv.Commitment.Tree.{sibling_at, climb, merkle_path, climb_into, merkle_path_into}

-- What the buffer holds stands in front of the path.
prepend : List PathElem → Result (List PathElem) → Result (List PathElem)
prepend dst (ok path) = ok (dst ++ path)
prepend dst (err e) = err e

prepend_elem :
    (dst : List PathElem) (e : PathElem) (rest : Result (List PathElem))
    → prepend (dst ++ (e ∷ [])) rest ≡ prepend dst (rest >>= λ path. ok (e ∷ path))
unfolding prepend
prepend_elem dst e (ok path) = ap ok (append_assoc dst (e ∷ []) path)
prepend_elem dst e (err x) = refl

-- One round, on a sibling that is there or not.
prepend_round :
    (dst : List PathElem) (r : Result PathElem) (loop : List PathElem → Result (List PathElem))
    (rest : Result (List PathElem))
    → ((e : PathElem) → loop (dst ++ (e ∷ [])) ≡ prepend (dst ++ (e ∷ [])) rest)
    → (r >>= λ e. loop (dst ++ (e ∷ []))) ≡ prepend dst (r >>= λ e. rest >>= λ path. ok (e ∷ path))
prepend_round dst (ok e) loop rest h = h e ∙ prepend_elem dst e rest
prepend_round dst (err x) loop rest h = unfold prepend in refl

climb_into-prepend :
    (layers : List (List Hash)) (i : ℕ) (dst : List PathElem)
    → climb_into layers i dst ≡ prepend dst (climb layers i)
unfolding climb climb_into
climb_into-prepend [] i dst = unfold prepend in ap ok (sym (append-nil dst))
climb_into-prepend (cur ∷ []) i dst = unfold prepend in ap ok (sym (append-nil dst))
climb_into-prepend (cur ∷ next ∷ more) i dst =
    prepend_round dst (sibling_at cur i) (climb_into (next ∷ more) (i / 2))
      (climb (next ∷ more) (i / 2))
      (λ e. climb_into-prepend (next ∷ more) (i / 2) (dst ++ (e ∷ [])))

prepend-nil : (r : Result (List PathElem)) → prepend [] r ≡ r
unfolding prepend
prepend-nil (ok path) = refl
prepend-nil (err e) = refl

-- MerklePathInto returns the path or the error that MerklePath returns, whatever the buffer holds.
pub merkle_path_into-merkle_path :
    (layers : List (List Hash)) (i : ℕ) (dst : List PathElem)
    → merkle_path_into layers i dst ≡ merkle_path layers i
unfolding merkle_path_into merkle_path
merkle_path_into-merkle_path layers i dst =
    rw (climb_into-prepend layers i [] ∙ prepend-nil (climb layers i))
