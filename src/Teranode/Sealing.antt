-- ===== src/Teranode/Sealing.antt =====
-- SealBlock keeps the invariant of a MockNode, and succeeds on every block that is not empty.
use mfspv.Base.{
  ℕ, suc, ◌+◌, ◌≤◌, ◌<◌, ◌≡◌, refl, sym, ap, ◌∙◌, subst, inl, inr, Bool, true, false, Bool-cases,
  List, [], ◌∷◌, ◌++◌, length, map, get_elem?, All, All-append, bytes_eq, bytes_eq_refl, none, some,
  Option-cases, ok, ◌==◌, index, arith,
}
use mfspv.Commitment.Hashing.{
  Sha256, Hash, IsHash, zero_hash, TxFields, leaf_hash, double_sha256, length-double_sha256,
}
use mfspv.Commitment.Tree.{build_merkle_tree}
use mfspv.Commitment.Fields.{build_mtxid}
use mfspv.Teranode.Node.{
  SealedBlock, TxKey, Node, block_at, last_of, prev_hash, header_bytes, index_trees, index_leaves,
  gen_fields_of, coinbase_marker, acc_root_field_index, mmr_root_of_prefix, Draft, draft,
  seal_subtrees, finish_seal, seal_block,
}
use mfspv.Teranode.Trees.{
  IsForest, build_total, build-IsHash, seal_subtrees-IsForest, seal_subtrees_total,
}
use mfspv.Teranode.Sealed.{
  header_merkle_root-header_bytes, IsBlock, IsKnown, IsNode, IsPlaced-fresh, IsKnown-fresh,
  index_trees-IsPlaced, first_layer,
}

pub block_at-All :
    (P : SealedBlock → Type 0) (h : Hash) (blocks : List SealedBlock) (sb : SealedBlock)
    → All P blocks
    → block_at h blocks ≡ some sb
    → P sb
unfolding block_at
block_at-All P h [] sb ps e = cc
block_at-All P h (b ∷ blocks) sb (p, ps) e = elim (Bool-cases (bytes_eq h b.hash)) [
  | inl same ↦ let is : b ≡ sb = ground (arith, same) in subst P is p
  | inr other ↦ block_at-All P h blocks sb ps (rw (block_at, other) at e)
]

pub block_at_new :
    (b : SealedBlock) (blocks : List SealedBlock) → block_at b.hash (b ∷ blocks) ≡ some b
unfolding block_at
block_at_new b blocks = let same = bytes_eq_refl b.hash in rw (block_at, same) refl

last_of-All : (P : Hash → Type 0) (hs : List Hash) (h : Hash) → All P hs → last_of hs ≡ some h → P h
unfolding last_of
last_of-All P [] h ps e = cc
last_of-All P (g ∷ []) h (p, ps) e = let is : g ≡ h = cc in subst P is p
last_of-All P (g ∷ g' ∷ hs) h (p, ps) e = last_of-All P (g' ∷ hs) h ps e

module _ ⦃sha : Sha256⦄ where
  prev_hash_total : (n : Node) → IsNode n → (p : Hash) × (prev_hash n ≡ ok p) × IsHash p
  unfolding prev_hash
  prev_hash_total n v = elim (Option-cases (last_of n.chain)) [
    | inl first ↦ (zero_hash, rw (prev_hash, first) refl, refl)
    | inr (h, later) ↦
        (let (sb, at) = last_of-All (IsKnown n.blocks) n.chain h v.chained later in
          let b = block_at-All (IsBlock n.subtree_size) h n.blocks sb v.sealed at in
          (
            sb.hash,
            rw (prev_hash, later, at) refl,
            subst IsHash (sym b.hashed) (length-double_sha256 sb.header),
          ))
  ]

  forest-All :
      (size : ℕ) (roots : List Hash) (trees : List (List (List Hash)))
      → IsForest size roots trees
      → All IsHash roots
  forest-All size [] [] f = tt
  forest-All size [] (t ∷ trees) f = absurd f
  forest-All size (r ∷ roots) [] f = absurd f
  forest-All size (r ∷ roots) (t ∷ trees) (tree, f) =
      (build-IsHash tree.leaves r t tree.hashes tree.built, forest-All size roots trees f)

  leaf_hashes-IsHash : (fields : TxFields) → All IsHash (map leaf_hash fields)
  unfolding leaf_hash
  leaf_hashes-IsHash [] = tt
  leaf_hashes-IsHash (f ∷ fields) =
      (length-double_sha256 (f.index ∷ f.bytes), leaf_hashes-IsHash fields)

  -- The draft is always made, and its leaves are the transactions behind, for a carrier, one more.
  pub record IsDraft (n : Node) (txids : List Hash) (commit : Bool) (d : Draft) : Type 0 where
    pub drafted : draft n txids commit ≡ ok d
    pub hashes : All IsHash txids → All IsHash d.leaf_set
    pub enough : length txids ≤ length d.leaf_set
    pub holds_all :
        (i : ℕ) (x : Hash)
        → get_elem? txids i ≡ some x
        → (j : ℕ) × (get_elem? d.leaf_set j ≡ some x)

  draft_total :
      (n : Node) (txids : List Hash) (commit : Bool) → (d : Draft) × IsDraft n txids commit d
  unfolding draft build_mtxid gen_fields_of
  draft_total n txids false = (
    record { carries = false; committed = zero_hash; prefix = 0; gen = []; leaf_set = txids },
    record { drafted = refl; hashes = λ h. h; enough = omega arith; holds_all = λ i x e. (i, e) },
  )
  draft_total n txids true =
      let acc = mmr_root_of_prefix n (length n.chain) in
      let gen = gen_fields_of acc in
      let (g, layers, built) =
        build_total (leaf_hash (record { index = 0; bytes = coinbase_marker }))
          (leaf_hash (record { index = acc_root_field_index; bytes = acc }) ∷ []) in
      (
        record {
          carries = true;
          committed = acc;
          prefix = length n.chain;
          gen = gen;
          leaf_set = g ∷ txids;
        },
        record {
          drafted = rw built refl;
          hashes = λ h. (build-IsHash _ g layers (leaf_hashes-IsHash gen) built, h);
          enough = omega arith;
          holds_all = λ i x e. (suc i, e);
        },
      )

  index_trees_total :
      (h : Hash) (st size : ℕ) (roots : List Hash) (trees : List (List (List Hash)))
      (keys : List TxKey)
      → IsForest size roots trees
      → (keys' : List TxKey) × (index_trees h st trees keys ≡ ok keys')
  unfolding index_trees
  index_trees_total h st size [] [] keys f = (keys, refl)
  index_trees_total h st size [] (t ∷ trees) keys f = absurd f
  index_trees_total h st size (r ∷ roots) [] keys f = absurd f
  index_trees_total h st size (r ∷ roots) (t ∷ trees) keys (tree, f) =
      let (more, split) = first_layer tree.leaves r t tree.built in
      let at : index t 0 ≡ ok tree.leaves = ap (λ x. index x 0) split in
      let (keys', rest) =
        index_trees_total h (suc st) size roots trees (index_leaves h st 0 tree.leaves keys) f in
      (keys', rw at rest)

  -- What a call of SealBlock on transactions that are not none makes.
  pub record Sealing (n : Node) (txids : List Hash) (commit : Bool) : Type 0 where
    pub d : Draft
    pub b : SealedBlock
    pub keys : List TxKey
    pub drafted : IsDraft n txids commit d
    pub parted :
        seal_subtrees (length d.leaf_set) n.subtree_size d.leaf_set
        ≡ ok (b.subtree_roots, b.subtree_trees)
    pub block : IsBlock n.subtree_size b
    pub height : b.height ≡ length n.chain
    pub carries :
        (b.is_carrier ≡ d.carries)
        × (b.acc_root ≡ d.committed)
        × (b.acc_prefix ≡ d.prefix)
        × (b.gen_fields ≡ d.gen)
    pub indexed : index_trees b.hash 0 b.subtree_trees n.tx_index ≡ ok keys
    pub seals :
        seal_block n txids commit
        ≡ ok (
          record n {
            blocks = b ∷ n.blocks;
            tx_index = keys;
            chain = n.chain ++ (b.hash ∷ []);
            headers = n.headers ++ (b.header ∷ []);
            on_best = record { block = b.hash; on = true } ∷ n.on_best;
          },
          b.hash,
        )

  nonempty : (xs : List Hash) → 0 < length xs → (x : Hash) × (ys : List Hash) × (xs ≡ x ∷ ys)
  nonempty [] h = absurd (omega arith)
  nonempty (x ∷ ys) h = (x, ys, refl)

  pub seal_block-Sealing :
      (n : Node) (txids : List Hash) (commit : Bool)
      → IsNode n
      → 0 < length txids
      → All IsHash txids
      → Sealing n txids commit
  unfolding seal_block finish_seal
  seal_block-Sealing n txids commit v some_tx wide =
      let (d, drafted) = draft_total n txids commit in
      let ((roots, trees), parted, some_root) =
        seal_subtrees_total (length d.leaf_set) n.subtree_size d.leaf_set v.sized (omega arith) in
      let forest =
        seal_subtrees-IsForest (length d.leaf_set) n.subtree_size d.leaf_set roots trees
          (drafted.hashes wide) parted in
      let (r, rs, split) = nonempty roots (some_root (omega (arith, drafted.enough))) in
      let (block_root, layers, built) = build_total r rs in
      let built' : build_merkle_tree roots ≡ ok (block_root, layers) =
        ap build_merkle_tree split ∙ built in
      let (prev, before, prev_wide) = prev_hash_total n v in
      let hdr = header_bytes prev block_root (length n.chain) in
      let (keys, indexed) =
        index_trees_total (double_sha256 hdr) 0 n.subtree_size roots trees n.tx_index forest in
      let full : (length txids == 0) ≡ false = ground (arith, some_tx) in
      record {
        d = d;
        b = record {
          hash = double_sha256 hdr;
          height = length n.chain;
          header = hdr;
          subtree_roots = roots;
          subtree_trees = trees;
          block_layers = layers;
          block_root = block_root;
          is_carrier = d.carries;
          acc_root = d.committed;
          acc_prefix = d.prefix;
          gen_fields = d.gen;
        };
        keys = keys;
        drafted = drafted;
        parted = parted;
        block = record {
          hashed = refl;
          rooted = header_merkle_root-header_bytes prev block_root (length n.chain) prev_wide (
              build-IsHash roots block_root layers (forest-All n.subtree_size roots trees forest)
                built');
          built = built';
          forest = forest;
        };
        height = refl;
        carries = (refl, refl, refl, refl);
        indexed = indexed;
        seals = rw (seal_block, full, drafted.drafted, parted, built', before, indexed) refl;
      }

  -- The node after the call.
  abbrev pub sealed_node :
      {n : Node} {txids : List Hash} {commit : Bool} → Sealing n txids commit → Node
  sealed_node {n} s = record n {
    blocks = s.b ∷ n.blocks;
    tx_index = s.keys;
    chain = n.chain ++ (s.b.hash ∷ []);
    headers = n.headers ++ (s.b.header ∷ []);
    on_best = record { block = s.b.hash; on = true } ∷ n.on_best;
  }

  pub sealed_node-IsNode :
      {n : Node} {txids : List Hash} {commit : Bool} (s : Sealing n txids commit)
      → IsNode n
      → block_at s.b.hash n.blocks ≡ none
      → IsNode (sealed_node s)
  sealed_node-IsNode {n} s v fresh =
      let here : block_at s.b.hash (s.b ∷ n.blocks) ≡ some s.b = block_at_new s.b n.blocks in
      record {
        sized = v.sized;
        sealed = (s.block, v.sealed);
        placed =
            index_trees-IsPlaced n.subtree_size s.b (s.b ∷ n.blocks) 0 s.b.subtree_roots
              s.b.subtree_trees n.tx_index s.keys s.block.forest here
              (λ i x e. let z : 0 + i ≡ i = omega arith in rw z e)
              (λ i x e. let z : 0 + i ≡ i = omega arith in rw z e)
              (IsPlaced-fresh n.subtree_size s.b n.blocks n.tx_index fresh v.placed) s.indexed;
        chained =
            All-append (IsKnown (s.b ∷ n.blocks)) n.chain (s.b.hash ∷ [])
              (IsKnown-fresh s.b n.blocks n.chain fresh v.chained) ((s.b, here), tt);
      }
