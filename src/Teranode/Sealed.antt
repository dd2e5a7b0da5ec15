-- ===== src/Teranode/Sealed.antt =====
-- The invariant of a MockNode: what its maps hold of the blocks that it sealed.
use mfspv.Base.{
  ℕ, suc, ◌+◌, ◌/◌, ◌%◌, ◌<◌, ◌≡◌, refl, sym, ap, ◌∙◌, subst, inl, inr, Bool-cases, List, [], ◌∷◌,
  ◌++◌, length, take, drop, get_elem?, All, replicate, bytes_eq, bytes_eq→eq, none, some, ok,
  >>=-eq-ok, index, take-append, drop-append, ◌==◌, arith,
}
use mfspv.Commitment.Hashing.{Sha256, Hash, IsHash, double_sha256}
use mfspv.Commitment.Tree.{build_merkle_tree, last_layer, layers_from}
use mfspv.Commitment.Levels.{layers_from_head}
use mfspv.Bundle.Types.{header_merkle_root}
use mfspv.Teranode.Node.{
  TxEntry, SealedBlock, TxKey, Node, block_at, header_bytes, index_leaves, index_trees,
}
use mfspv.Teranode.Trees.{IsTree, IsForest}

-- The Merkle root stands in the header where HeaderMerkleRoot reads it.
pub header_merkle_root-header_bytes :
    (prev block_root : Hash) (height : ℕ)
    → IsHash prev
    → IsHash block_root
    → header_merkle_root (header_bytes prev block_root height) ≡ block_root
unfolding header_merkle_root header_bytes
header_merkle_root-header_bytes prev block_root height hp hr =
    let tail = (height % 256) ∷ (height / 256 % 256) ∷ replicate 10 0 in
    let skip : drop 32 (prev ++ (block_root ++ tail)) ≡ block_root ++ tail =
      ap (λ n. drop n (prev ++ (block_root ++ tail))) (sym hp)
      ∙ drop-append prev (block_root ++ tail) in
    ap (take 32) skip ∙ ap (λ n. take n (block_root ++ tail)) (sym hr) ∙ take-append block_root tail

pub block_at-hash :
    (h : Hash) (blocks : List SealedBlock) (sb : SealedBlock)
    → block_at h blocks ≡ some sb
    → sb.hash ≡ h
unfolding block_at
block_at-hash h [] sb e = cc
block_at-hash h (b ∷ blocks) sb e = elim (Bool-cases (bytes_eq h b.hash)) [
  | inl same ↦
      (let is : b ≡ sb = ground (arith, same) in
        ap (λ x. x.hash) (sym is) ∙ sym (bytes_eq→eq h b.hash same))
  | inr other ↦ block_at-hash h blocks sb (rw (block_at, other) at e)
]

-- A block with a new hash hides no other.
block_at-fresh :
    (g : Hash) (b : SealedBlock) (blocks : List SealedBlock) (sb : SealedBlock)
    → block_at b.hash blocks ≡ none
    → block_at g blocks ≡ some sb
    → block_at g (b ∷ blocks) ≡ some sb
block_at-fresh g b blocks sb fresh e = elim (Bool-cases (bytes_eq g b.hash)) [
  | inl same ↦
      (let clash : block_at g blocks ≡ none =
          ap (λ x. block_at x blocks) (bytes_eq→eq g b.hash same) ∙ fresh in
        cc (clash, e))
  | inr other ↦ unfold block_at in rw (block_at, other) e
]

module _ ⦃sha : Sha256⦄ where
  -- What a sealed block is, with subtrees of `size` leaves at most.
  pub record IsBlock (size : ℕ) (sb : SealedBlock) : Type 0 where
    pub hashed : sb.hash ≡ double_sha256 sb.header
    pub rooted : header_merkle_root sb.header ≡ sb.block_root
    pub built : build_merkle_tree sb.subtree_roots ≡ ok (sb.block_root, sb.block_layers)
    pub forest : IsForest size sb.subtree_roots sb.subtree_trees

  -- Where a transaction stands.
  pub record IsPlaced (size : ℕ) (blocks : List SealedBlock) (txid : Hash) (e : TxEntry)
      : Type 0 where
    pub sb : SealedBlock
    pub r : Hash
    pub layers : List (List Hash)
    pub tree : IsTree size r layers
    pub at_block : block_at e.block_hash blocks ≡ some sb
    pub at_tree : get_elem? sb.subtree_trees e.subtree_index ≡ some layers
    pub at_root : get_elem? sb.subtree_roots e.subtree_index ≡ some r
    pub at_leaf : get_elem? tree.leaves e.leaf_index ≡ some txid

  abbrev pub IsPlacedKey : ℕ → List SealedBlock → TxKey → Type 0
  IsPlacedKey size blocks k = IsPlaced size blocks k.txid k.entry

  abbrev pub IsKnown : List SealedBlock → Hash → Type 0
  IsKnown blocks h = (sb : SealedBlock) × (block_at h blocks ≡ some sb)

  pub record IsNode (n : Node) : Type 0 where
    pub sized : 0 < n.subtree_size
    pub sealed : All (IsBlock n.subtree_size) n.blocks
    pub placed : All (IsPlacedKey n.subtree_size n.blocks) n.tx_index
    pub chained : All (IsKnown n.blocks) n.chain

  -- A new block keeps what the maps hold of the others.
  pub IsPlaced-fresh :
      (size : ℕ) (b : SealedBlock) (blocks : List SealedBlock) (keys : List TxKey)
      → block_at b.hash blocks ≡ none
      → All (IsPlacedKey size blocks) keys
      → All (IsPlacedKey size (b ∷ blocks)) keys
  IsPlaced-fresh size b blocks [] fresh h = tt
  IsPlaced-fresh size b blocks (k ∷ keys) fresh (p, ps) = (
    record {
      sb = p.sb;
      r = p.r;
      layers = p.layers;
      tree = p.tree;
      at_block = block_at-fresh k.entry.block_hash b blocks p.sb fresh p.at_block;
      at_tree = p.at_tree;
      at_root = p.at_root;
      at_leaf = p.at_leaf;
    },
    IsPlaced-fresh size b blocks keys fresh ps,
  )

  pub IsKnown-fresh :
      (b : SealedBlock) (blocks : List SealedBlock) (hs : List Hash)
      → block_at b.hash blocks ≡ none
      → All (IsKnown blocks) hs
      → All (IsKnown (b ∷ blocks)) hs
  IsKnown-fresh b blocks [] fresh h = tt
  IsKnown-fresh b blocks (g ∷ hs) fresh ((sb, e), ks) =
      ((sb, block_at-fresh g b blocks sb fresh e), IsKnown-fresh b blocks hs fresh ks)

  -- The lowest layer of a tree is its leaves.
  pub first_layer :
      (leaves : List Hash) (r : Hash) (layers : List (List Hash))
      → build_merkle_tree leaves ≡ ok (r, layers)
      → (more : List (List Hash)) × (layers ≡ leaves ∷ more)
  unfolding build_merkle_tree
  first_layer leaves r layers e = elim (Bool-cases (length leaves == 0)) [
    | inl empty ↦ cc (rw (build_merkle_tree, empty) at e)
    | inr full ↦
        (let (top, tops, e1) =
            >>=-eq-ok (last_layer (layers_from (length leaves) leaves)) _
              (rw (build_merkle_tree, full) at e) in
          let (root, roots, e2) = >>=-eq-ok (index top 0) _ e1 in
          let (more, split) = layers_from_head (length leaves) leaves in
          let same : layers_from (length leaves) leaves ≡ layers = cc in (more, sym same ∙ split))
  ]

  -- The loop over the leaves of a subtree of the newest block.
  index_leaves-IsPlaced :
      (size : ℕ) (sb : SealedBlock) (blocks : List SealedBlock) (st li : ℕ) (r : Hash)
      (layers : List (List Hash)) (tree : IsTree size r layers) (leaves : List Hash)
      (keys : List TxKey)
      → block_at sb.hash blocks ≡ some sb
      → get_elem? sb.subtree_trees st ≡ some layers
      → get_elem? sb.subtree_roots st ≡ some r
      → ((i : ℕ) (x : Hash) → get_elem? leaves i ≡ some x → get_elem? tree.leaves (li + i) ≡ some x)
      → All (IsPlacedKey size blocks) keys
      → All (IsPlacedKey size blocks) (index_leaves sb.hash st li leaves keys)
  unfolding index_leaves
  index_leaves-IsPlaced size sb blocks st li r layers tree [] keys ab at ar within h = h
  index_leaves-IsPlaced size sb blocks st li r layers tree (txid ∷ leaves) keys ab at ar within h =
      index_leaves-IsPlaced size sb blocks st (suc li) r layers tree leaves
        (record {
          txid = txid;
          entry = record { block_hash = sb.hash; subtree_index = st; leaf_index = li };
        }
          ∷ keys)
        ab at ar
        (λ i x e.
          let shift : suc li + i ≡ li + suc i = omega arith in rw shift (within (suc i) x e))
        (
          record {
            sb = sb;
            r = r;
            layers = layers;
            tree = tree;
            at_block = ab;
            at_tree = at;
            at_root = ar;
            at_leaf = (let here : li + 0 ≡ li = omega arith in rw here at (within 0 txid refl));
          },
          h,
        )

  -- The loop over the subtrees of the newest block.
  pub index_trees-IsPlaced :
      (size : ℕ) (sb : SealedBlock) (blocks : List SealedBlock) (st : ℕ) (roots : List Hash)
      (trees : List (List (List Hash))) (keys keys' : List TxKey)
      → IsForest size roots trees
      → block_at sb.hash blocks ≡ some sb
      → ((i : ℕ) (x : List (List Hash))
          → get_elem? trees i ≡ some x
          → get_elem? sb.subtree_trees (st + i) ≡ some x)
      → ((i : ℕ) (x : Hash)
          → get_elem? roots i ≡ some x
          → get_elem? sb.subtree_roots (st + i) ≡ some x)
      → All (IsPlacedKey size blocks) keys
      → index_trees sb.hash st trees keys ≡ ok keys'
      → All (IsPlacedKey size blocks) keys'
  unfolding index_trees
  index_trees-IsPlaced size sb blocks st [] [] keys keys' f ab wt wr h e =
      let same : keys ≡ keys' = cc in subst (All (IsPlacedKey size blocks)) same h
  index_trees-IsPlaced size sb blocks st [] (t ∷ trees) keys keys' f ab wt wr h e = absurd f
  index_trees-IsPlaced size sb blocks st (r ∷ roots) [] keys keys' f ab wt wr h e = absurd f
  index_trees-IsPlaced size sb blocks st (r ∷ roots) (t ∷ trees) keys keys' (tree, f) ab wt wr h e =
      let (leaves, at, rest) = >>=-eq-ok (index t 0) _ e in
      let (more, split) = first_layer tree.leaves r t tree.built in
      let own : leaves ≡ tree.leaves = cc (ap (λ x. index x 0) split, at) in
      let here : st + 0 ≡ st = omega arith in
      index_trees-IsPlaced size sb blocks (suc st) roots trees
        (index_leaves sb.hash st 0 leaves keys) keys' f ab
        (λ i x q. let shift : suc st + i ≡ st + suc i = omega arith in rw shift (wt (suc i) x q))
        (λ i x q. let shift : suc st + i ≡ st + suc i = omega arith in rw shift (wr (suc i) x q))
        (index_leaves-IsPlaced size sb blocks st 0 r t tree leaves keys ab
          (rw here at (wt 0 t refl)) (rw here at (wr 0 r refl))
          (λ i x q. let zero' : 0 + i ≡ i = omega arith in rw (zero', sym own) q) h)
        rest
