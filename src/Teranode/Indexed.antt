-- ===== src/Teranode/Indexed.antt =====
-- After SealBlock every transaction of the block is in the index, under the new block.
use mfspv.Base.{
  ℕ, zero, suc, ◌-◌, ◌≤◌, ◌<◌, ◌≡◌, refl, ap, ◌∙◌, subst, inl, inr, Bool, Bool-cases, List, [], ◌∷◌,
  length, take, drop, get_elem?, get_elem?-take, get_elem?-drop, length-drop_le, bytes_eq,
  bytes_eq_refl, some, ok, >>=-eq-ok, index, leb, arith,
}
use mfspv.Commitment.Hashing.{Sha256, Hash}
use mfspv.Commitment.Tree.{build_merkle_tree}
use mfspv.Teranode.Node.{TxEntry, TxKey, Node, entry_at, index_leaves, index_trees, seal_subtrees}
use mfspv.Teranode.Sealed.{first_layer}
use mfspv.Teranode.Sealing.{Sealing}

-- The index has the transaction under block `h`.
abbrev pub IsIn : Hash → Hash → List TxKey → Type 0
IsIn h x keys = (e : TxEntry) × (entry_at x keys ≡ some e) × (e.block_hash ≡ h)

-- An entry of block `h` on top hides none.
IsIn-cons :
    (h x : Hash) (k : TxKey) (keys : List TxKey)
    → k.entry.block_hash ≡ h
    → IsIn h x keys
    → IsIn h x (k ∷ keys)
unfolding entry_at
IsIn-cons h x k keys own (e, there, block) = elim (Bool-cases (bytes_eq x k.txid)) [
  | inl same ↦ (k.entry, rw (entry_at, same) refl, own)
  | inr other ↦ (e, rw (entry_at, other) there, block)
]

IsIn-top :
    (h : Hash) (k : TxKey) (keys : List TxKey) → k.entry.block_hash ≡ h → IsIn h k.txid (k ∷ keys)
unfolding entry_at
IsIn-top h k keys own = let same = bytes_eq_refl k.txid in (k.entry, rw (entry_at, same) refl, own)

index_leaves_keeps :
    (h x : Hash) (st li : ℕ) (leaves : List Hash) (keys : List TxKey)
    → IsIn h x keys
    → IsIn h x (index_leaves h st li leaves keys)
unfolding index_leaves
index_leaves_keeps h x st li [] keys p = p
index_leaves_keeps h x st li (t ∷ leaves) keys p =
    index_leaves_keeps h x st (suc li) leaves
      (record { txid = t; entry = record { block_hash = h; subtree_index = st; leaf_index = li } }
        ∷ keys)
      (IsIn-cons h x _ keys refl p)

index_leaves_adds :
    (h x : Hash) (st li i : ℕ) (leaves : List Hash) (keys : List TxKey)
    → get_elem? leaves i ≡ some x
    → IsIn h x (index_leaves h st li leaves keys)
unfolding index_leaves
index_leaves_adds h x st li i [] keys e = cc
index_leaves_adds h x st li zero (t ∷ leaves) keys e =
    let same : t ≡ x = cc in
    index_leaves_keeps h x st (suc li) leaves
      (record { txid = t; entry = record { block_hash = h; subtree_index = st; leaf_index = li } }
        ∷ keys)
      (subst
        (λ y. IsIn h y (
          record {
            txid = t;
            entry = record { block_hash = h; subtree_index = st; leaf_index = li };
          }
          ∷ keys))
        same (IsIn-top h _ keys refl))
index_leaves_adds h x st li (suc i) (t ∷ leaves) keys e =
    index_leaves_adds h x st (suc li) i leaves _ e

index_trees_keeps :
    (h x : Hash) (st : ℕ) (trees : List (List (List Hash))) (keys keys' : List TxKey)
    → IsIn h x keys
    → index_trees h st trees keys ≡ ok keys'
    → IsIn h x keys'
unfolding index_trees
index_trees_keeps h x st [] keys keys' p e = let same : keys ≡ keys' = cc in subst (IsIn h x) same p
index_trees_keeps h x st (t ∷ trees) keys keys' p e =
    let (leaves, lowest, rest) = >>=-eq-ok (index t 0) _ e in
    index_trees_keeps h x (suc st) trees (index_leaves h st 0 leaves keys) keys'
      (index_leaves_keeps h x st 0 leaves keys p) rest

module _ ⦃sha : Sha256⦄ where
  -- A leaf of one of the trees.
  pub record IsLeaf (trees : List (List (List Hash))) (x : Hash) : Type 0 where
    pub tree : ℕ
    pub place : ℕ
    pub layers : List (List Hash)
    pub leaves : List Hash
    pub r : Hash
    pub at_tree : get_elem? trees tree ≡ some layers
    pub built : build_merkle_tree leaves ≡ ok (r, layers)
    pub at_leaf : get_elem? leaves place ≡ some x

  index_trees_adds :
      (h x : Hash) (st : ℕ) (trees : List (List (List Hash))) (keys keys' : List TxKey) (l : ℕ)
      (place : ℕ) (layers : List (List Hash)) (leaves : List Hash) (r : Hash)
      → get_elem? trees l ≡ some layers
      → build_merkle_tree leaves ≡ ok (r, layers)
      → get_elem? leaves place ≡ some x
      → index_trees h st trees keys ≡ ok keys'
      → IsIn h x keys'
  unfolding index_trees
  index_trees_adds h x st [] keys keys' l place layers leaves r q built w e = cc
  index_trees_adds h x st (t ∷ trees) keys keys' zero place layers leaves r q built w e =
      let (low, lowest, rest) = >>=-eq-ok (index t 0) _ e in
      let (more, split) = first_layer leaves r layers built in
      let same : t ≡ layers = cc in
      let own : leaves ≡ low = cc (ap (λ y. index y 0) (same ∙ split), lowest) in
      index_trees_keeps h x (suc st) trees (index_leaves h st 0 low keys) keys'
        (index_leaves_adds h x st 0 place low keys (subst (λ y. get_elem? y place ≡ some x) own w))
        rest
  index_trees_adds h x st (t ∷ trees) keys keys' (suc l) place layers leaves r q built w e =
      let (low, lowest, rest) = >>=-eq-ok (index t 0) _ e in
      index_trees_adds h x (suc st) trees (index_leaves h st 0 low keys) keys' l place layers leaves
        r q built w rest

  -- The subtrees hold all the leaves.
  seal_subtrees-IsLeaf :
      (rounds size i : ℕ) (leaves : List Hash) (roots : List Hash) (trees : List (List (List Hash)))
      (x : Hash)
      → 0 < size
      → length leaves ≤ rounds
      → seal_subtrees rounds size leaves ≡ ok (roots, trees)
      → get_elem? leaves i ≡ some x
      → IsLeaf trees x
  unfolding seal_subtrees
  seal_subtrees-IsLeaf rounds size i [] roots trees x s h e q = cc
  seal_subtrees-IsLeaf zero size i (leaf ∷ leaves) roots trees x s h e q = absurd (omega arith)
  seal_subtrees-IsLeaf (suc rounds) size i (leaf ∷ leaves) roots trees x s h e q =
      let (first, built, more) = >>=-eq-ok (build_merkle_tree (take size (leaf ∷ leaves))) _ e in
      let (others, parted, last) =
        >>=-eq-ok (seal_subtrees rounds size (drop size (leaf ∷ leaves))) _ more in
      let whole : first.1 ∷ others.1 ≡ trees = cc in
      subst (λ t. IsLeaf t x) whole
        (elim (Bool-cases (leb size i)) [
          | inr low ↦ record {
            tree = 0;
            place = i;
            layers = first.1;
            leaves = take size (leaf ∷ leaves);
            r = first.0;
            at_tree = refl;
            built = built;
            at_leaf = get_elem?-take size (leaf ∷ leaves) i (ground (arith, low)) ∙ q;
          }
          | inl high ↦
              (let rest =
                  seal_subtrees-IsLeaf rounds size (i - size) (drop size (leaf ∷ leaves)) others.0
                    others.1 x s (omega (arith, length-drop_le size leaf leaves s)) parted
                    (get_elem?-drop size (leaf ∷ leaves) i (ground (arith, high)) ∙ q) in
                record {
                  tree = suc rest.tree;
                  place = rest.place;
                  layers = rest.layers;
                  leaves = rest.leaves;
                  r = rest.r;
                  at_tree = rest.at_tree;
                  built = rest.built;
                  at_leaf = rest.at_leaf;
                })
        ])

  pub sealed_node-IsIn :
      {n : Node} {txids : List Hash} {commit : Bool} (s : Sealing n txids commit) (i : ℕ) (x : Hash)
      → 0 < n.subtree_size
      → get_elem? txids i ≡ some x
      → IsIn s.b.hash x s.keys
  sealed_node-IsIn {n} s i x sized e =
      let (j, there) = s.drafted.holds_all i x e in
      let l =
        seal_subtrees-IsLeaf (length s.d.leaf_set) n.subtree_size j s.d.leaf_set s.b.subtree_roots
          s.b.subtree_trees x sized (omega arith) s.parted there in
      index_trees_adds s.b.hash x 0 s.b.subtree_trees n.tx_index s.keys l.tree l.place l.layers
        l.leaves l.r l.at_tree l.built l.at_leaf s.indexed
