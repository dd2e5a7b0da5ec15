-- ===== src/Accumulator/Range.antt =====
-- The MMR of accumulator/accumulator.go: Append, Root and ProveBlock. An MMR is its list of leaves.
use mfspv.Base.{
  ℕ, zero, suc, ◌+◌, ◌-◌, ◌/◌, ◌%◌, ◌^◌, true, false, List, [], ◌∷◌, ◌++◌, length, take, drop,
  Bytes, Option, none, some, Result, ok, err, empty_tree, index, ◌>>=◌, ltb, leb, ◌==◌,
  if◌then◌else◌,
}
use mfspv.Commitment.Hashing.{Sha256, Hash, zero_hash, PathElem, double_sha256, hash_pair}
use mfspv.Commitment.Tree.{build_merkle_tree, merkle_root, merkle_path}

pub record Mmr : Type 0 where
  pub leaves : List Hash

abbrev pub new_mmr : Mmr
new_mmr = record { leaves = [] }

unfoldable pub size : Mmr → ℕ
size m = length m.leaves

-- The loop over the bits below `b`, the highest first: `n & (1 << b) != 0` asks for one bit.
unfoldable pub sizes_below : ℕ → ℕ → List ℕ
sizes_below zero n = []
sizes_below (suc b) n =
    let rest = sizes_below b n in if n / 2 ^ b % 2 == 1 then 2 ^ b ∷ rest else rest

-- Over uint64.
unfoldable pub mountain_sizes : ℕ → List ℕ
mountain_sizes n = sizes_below 64 n

-- `leaves[start : start+size]`
abbrev pub slice : List Hash → ℕ → ℕ → List Hash
slice leaves start size = take size (drop start leaves)

-- `root, _ := MerkleRoot(…)`: the error is dropped, and the root beside an error is zero.
unfoldable pub or_zero : Result Hash → Hash
or_zero (ok root) = root
or_zero (err e) = zero_hash

-- Where a height stands: the number of its mountain, and the mountain's start and size.
pub record Mountain : Type 0 where
  pub number : ℕ
  pub start : ℕ
  pub span : ℕ

-- The search for the mountain that holds `height`.
unfoldable pub locate : List ℕ → ℕ → ℕ → ℕ → Option Mountain
locate [] number start height = none
locate (sz ∷ sizes) number start height =
    let further = locate sizes (suc number) (start + sz) height in
    if ltb height (start + sz)
    then some (record { number = number; start = start; span = sz })
    else further

-- The loop `for i := k - 1; i >= 0; i--` over the peaks on the left.
unfoldable pub left_peaks : ℕ → List Hash → Result (List PathElem)
left_peaks zero pk = ok []
left_peaks (suc i) pk = do
  p ← index pk i
  rest ← left_peaks i pk
  ok (record { sibling = p; right = false } ∷ rest)

module _ ⦃sha : Sha256⦄ where
  unfoldable pub peaks_from : List Hash → ℕ → List ℕ → List Hash
  unfolding or_zero
  peaks_from leaves start [] = []
  peaks_from leaves start (sz ∷ sizes) =
      or_zero (merkle_root (slice leaves start sz)) ∷ peaks_from leaves (start + sz) sizes

  unfoldable pub peaks : Mmr → List Hash
  peaks m = peaks_from m.leaves 0 (mountain_sizes (length m.leaves))

  -- Right to left.
  unfoldable pub bag_peaks : List Hash → Hash
  bag_peaks [] = zero_hash
  bag_peaks (p ∷ []) = p
  bag_peaks (p ∷ q ∷ rest) = hash_pair p (bag_peaks (q ∷ rest))

  unfoldable pub root : Mmr → Hash
  root m = if length m.leaves == 0 then zero_hash else bag_peaks (peaks m)

  unfoldable pub append : Mmr → Bytes → Mmr × Hash
  append m header80 =
      let m' : Mmr = record { leaves = m.leaves ++ (double_sha256 header80 ∷ []) } in (m', root m')

  -- The elements that combine peak `k` with the others.
  unfoldable pub bag_path : List Hash → ℕ → Result (List PathElem)
  bag_path pk k = do
    lefts ← left_peaks k pk
    if ltb k (length pk - 1)
        then ok (record { sibling = bag_peaks (drop (suc k) pk); right = true } ∷ lefts)
        else ok lefts

  -- Without a mountain the Go slice is empty, and BuildMerkleTree refuses it.
  unfoldable pub prove_block : Mmr → ℕ → Result (List PathElem × Hash)
  prove_block m height =
      if leb (length m.leaves) height
      then err empty_tree
      else elim (locate (mountain_sizes (length m.leaves)) 0 0 height) [
        | none ↦ err empty_tree
        | some mt ↦ (do
          (top, layers) ← build_merkle_tree (slice m.leaves mt.start mt.span)
          in_path ← merkle_path layers (height - mt.start)
          bagging ← bag_path (peaks m) mt.number
          ok (in_path ++ bagging, root m))
      ]
