-- ===== src/Commitment/Depth.antt =====
-- The depth law: a path is as long as CeilLog2 of the number of leaves says.
use mfspv.Base.{
  ℕ, zero, suc, ◌+◌, ◌-◌, ◌/◌, ◌^◌, ◌≤◌, ◌<◌, ◌≡◌, refl, ◌∙◌, List, length, get_elem?, some, arith,
  ap, sym, ok,
}
use mfspv.Commitment.Hashing.{Sha256, Hash, PathElem, fold}
use mfspv.Commitment.Tree.{build_merkle_tree, merkle_path, bit_length, ceil_log2}
use mfspv.Commitment.Inclusion.{levels_above, Included, leaf-Included, Included-unique}

levels_above-bit_length :
    (fuel k n : ℕ) → n ≤ suc fuel → n ≤ 2 ^ k → levels_above fuel n ≡ bit_length k (n - 1)
unfolding levels_above bit_length
levels_above-bit_length zero zero n small fits = refl
levels_above-bit_length zero (suc k) n small fits = ground arith
levels_above-bit_length (suc fuel) zero n small fits = ground arith
levels_above-bit_length (suc fuel) (suc k) n small fits =
    ground
      (arith, half_pred n, levels_above-bit_length fuel k ((n + 1) / 2) (omega arith) (omega arith))
  where
    half_pred : (n : ℕ) → (n + 1) / 2 - 1 ≡ (n - 1) / 2
    half_pred n = omega arith

bit_length-zero : (k : ℕ) → bit_length k 0 ≡ 0
unfolding bit_length
bit_length-zero zero = refl
bit_length-zero (suc k) = refl

levels_above-ceil_log2 : (n : ℕ) → n ≤ 2 ^ 64 → levels_above n n ≡ ceil_log2 n
unfolding ceil_log2
levels_above-ceil_log2 n fits =
    ground (arith, levels_above-bit_length n 64 n (omega arith) fits, bit_length-zero 64)

bit_length_le : (j k x : ℕ) → x < 2 ^ k → bit_length j x ≤ k
unfolding bit_length
bit_length_le zero k x h = omega arith
bit_length_le (suc j) zero x h = ground arith
bit_length_le (suc j) (suc k) x h = ground (arith, bit_length_le j k (x / 2) (omega arith))

-- A tree of at most 2^k leaves is at most k deep.
pub ceil_log2_le : (k n : ℕ) → n ≤ 2 ^ k → ceil_log2 n ≤ k
unfolding ceil_log2
ceil_log2_le k n h = ground (arith, bit_length_le 64 k (n - 1))

module _ ⦃sha : Sha256⦄ where
  pub length-Included :
      {leaves : List Hash} {i : ℕ} {leaf : Hash}
      → (inc : Included leaves i leaf) → length leaves ≤ 2 ^ 64
      → length inc.path ≡ ceil_log2 (length leaves)
  length-Included {leaves} inc fits = inc.long ∙ levels_above-ceil_log2 (length leaves) fits

  -- The path of every leaf of a tree of n leaves has exactly CeilLog2 n elements and folds to the root.
  pub depth_law :
      (leaves : List Hash) (i : ℕ) (leaf root : Hash) (layers : List (List Hash))
      (path : List PathElem)
      → length leaves ≤ 2 ^ 64
      → get_elem? leaves i ≡ some leaf
      → build_merkle_tree leaves ≡ ok (root, layers)
      → merkle_path layers i ≡ ok path
      → (fold leaf path ≡ root) × (length path ≡ ceil_log2 (length leaves))
  depth_law leaves i leaf root layers path fits at built walked =
      let inc = leaf-Included leaves i leaf at in
      let (same_root, same_path) = Included-unique inc built walked in
      (
        ap (fold leaf) (sym same_path) ∙ inc.folds ∙ same_root,
        ap length (sym same_path) ∙ length-Included inc fits,
      )
