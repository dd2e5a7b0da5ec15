-- ===== src/Commitment/Tree.antt =====
-- BuildMerkleTree, MerkleRoot, MerklePath, MerklePathInto and CeilLog2 of
-- commitment/commitment.go. The layers are the leaf level first.
use mfspv.Base.{
  ℕ, zero, suc, ◌+◌, ◌-◌, ◌/◌, ◌%◌, true, false, List, [], ◌∷◌, ◌++◌, length, Result, Error, ok,
  err, empty_tree, index_out_of_range, index, ◌>>=◌, ltb, leb, ◌==◌, ◌||◌, if◌then◌else◌,
}
use mfspv.Commitment.Hashing.{Sha256, Hash, PathElem, hash_pair}

-- `layers[len(layers)-1]`
unfoldable pub last_layer : List (List Hash) → Result (List Hash)
last_layer [] = err Error.panic
last_layer (layer ∷ []) = ok layer
last_layer (layer ∷ next ∷ more) = last_layer (next ∷ more)

module _ ⦃sha : Sha256⦄ where
  -- The inner loop: one level from the level below, an odd last node paired with itself.
  unfoldable pub next_level : List Hash → List Hash
  next_level [] = []
  next_level (left ∷ []) = hash_pair left left ∷ []
  next_level (left ∷ right ∷ rest) = hash_pair left right ∷ next_level rest

  -- The outer loop, on fuel: the layers from `level` up.
  unfoldable pub layers_from : ℕ → List Hash → List (List Hash)
  layers_from zero level = level ∷ []
  layers_from (suc fuel) level =
      let above = layers_from fuel (next_level level) in
      if ltb 1 (length level) then level ∷ above else level ∷ []

  -- A level of n nodes has fewer than n above it, so n rounds are enough.
  unfoldable pub build_merkle_tree : List Hash → Result (Hash × List (List Hash))
  unfolding layers_from last_layer
  build_merkle_tree leaves =
      let layers = layers_from (length leaves) leaves in
      if length leaves == 0
      then err empty_tree
      else (do top ← last_layer layers; root ← index top 0; ok (root, layers))

  unfoldable pub merkle_root : List Hash → Result Hash
  merkle_root leaves = do (root, layers) ← build_merkle_tree leaves; ok root

-- The sibling of the node at `idx` of one layer.
unfoldable pub sibling_at : List Hash → ℕ → Result PathElem
sibling_at cur idx =
    if idx % 2 == 0
    then (do
      let sib = if ltb (idx + 1) (length cur) then idx + 1 else idx
      s ← index cur sib
      ok (record { sibling = s; right = true }))
    else (do s ← index cur (idx - 1); ok (record { sibling = s; right = false }))

-- The loop over the layers below the last one.
unfoldable pub climb : List (List Hash) → ℕ → Result (List PathElem)
climb [] idx = ok []
climb (cur ∷ []) idx = ok []
climb (cur ∷ next ∷ more) idx = do
  e ← sibling_at cur idx
  path ← climb (next ∷ more) (idx / 2)
  ok (e ∷ path)

-- `len(layers[0])`, where the layers are not empty.
unfoldable pub width : List (List Hash) → ℕ
width [] = 0
width (leaves ∷ more) = length leaves

unfoldable pub merkle_path : List (List Hash) → ℕ → Result (List PathElem)
unfolding width
merkle_path layers i =
    if length layers == 0 || leb (width layers) i then err index_out_of_range else climb layers i

-- The same loop writing behind the elements already in `dst`.
unfoldable pub climb_into : List (List Hash) → ℕ → List PathElem → Result (List PathElem)
climb_into [] idx dst = ok dst
climb_into (cur ∷ []) idx dst = ok dst
climb_into (cur ∷ next ∷ more) idx dst = do
  e ← sibling_at cur idx
  climb_into (next ∷ more) (idx / 2) (dst ++ (e ∷ []))

-- `dst = dst[:0]` empties the caller's buffer.
unfoldable pub merkle_path_into : List (List Hash) → ℕ → List PathElem → Result (List PathElem)
unfolding width
merkle_path_into layers i dst =
    if length layers == 0 || leb (width layers) i
    then err index_out_of_range
    else climb_into layers i []

-- `bits.Len64`: the number of bits, 64 at most.
unfoldable pub bit_length : ℕ → ℕ → ℕ
bit_length zero x = 0
bit_length (suc k) x = let rest = bit_length k (x / 2) in if x == 0 then 0 else suc rest

-- Over uint64.
unfoldable pub ceil_log2 : ℕ → ℕ
ceil_log2 n = if leb n 1 then 0 else bit_length 64 (n - 1)
