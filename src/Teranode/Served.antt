-- ===== src/Teranode/Served.antt =====
-- What a MockNode in its invariant serves of a transaction that it has.
use mfspv.Base.{
  ℕ, zero, suc, ◌+◌, ◌^◌, ◌≤◌, ◌≡◌, refl, sym, ap, ◌∙◌, subst, inl, inr, true, Bool-cases, List, [],
  ◌∷◌, length, get_elem?, All, bytes_eq, bytes_eq_refl, bytes_eq→eq, some, ok, index_of_get_elem?,
  arith,
}
use mfspv.Commitment.Hashing.{Sha256, Hash, PathElem, fold, double_sha256}
use mfspv.Commitment.Tree.{merkle_path}
use mfspv.Commitment.Inclusion.{leaf-Included}
use mfspv.Commitment.Depth.{length-Included, ceil_log2_le}
use mfspv.Bundle.Types.{header_merkle_root}
use mfspv.Teranode.Node.{TxEntry, SealedBlock, TxKey, Node, block_at, entry_at, best_at}
use mfspv.Teranode.Serve.{
  found, entry_block, subtree_path_for, root_index, block_path_for, header_for, locate_tx,
  contains_header,
}
use mfspv.Teranode.Sealed.{IsBlock, IsPlaced, IsPlacedKey, IsNode, block_at-hash}
use mfspv.Teranode.Sealing.{block_at-All}

-- The search for a root that is there finds a place of it.
root_index-found :
    (r : Hash) (roots : List Hash) (i j : ℕ)
    → get_elem? roots i ≡ some r
    → (k : ℕ) × (root_index r roots j ≡ some (j + k)) × (get_elem? roots k ≡ some r)
unfolding root_index
root_index-found r [] i j e = cc
root_index-found r (x ∷ roots) zero j e =
    let same : x ≡ r = cc in
    let test : bytes_eq x r ≡ true = ap (λ y. bytes_eq y r) same ∙ bytes_eq_refl r in
    let none' : j + 0 ≡ j = omega arith in (0, rw (root_index, test, none') refl, e)
root_index-found r (x ∷ roots) (suc i) j e = elim (Bool-cases (bytes_eq x r)) [
  | inl same ↦
      (let none' : j + 0 ≡ j = omega arith in
        (0, rw (root_index, same, none') refl, ap some (bytes_eq→eq x r same)))
  | inr other ↦
      (let (k, q, is) = root_index-found r roots i (suc j) e in
        let shift : suc j + k ≡ j + suc k = omega arith in
        (suc k, rw (root_index, other) (rw shift at q), is))
]

module _ ⦃sha : Sha256⦄ where
  pub entry_at-IsPlaced :
      (size : ℕ) (blocks : List SealedBlock) (t : Hash) (keys : List TxKey) (e : TxEntry)
      → All (IsPlacedKey size blocks) keys
      → entry_at t keys ≡ some e
      → IsPlaced size blocks t e
  unfolding entry_at
  entry_at-IsPlaced size blocks t [] e ps q = cc
  entry_at-IsPlaced size blocks t (k ∷ keys) e (p, ps) q = elim (Bool-cases (bytes_eq t k.txid)) [
    | inl same ↦
        (let is : k.entry ≡ e = ground (arith, same) in
          subst (λ x. IsPlaced size blocks x e) (sym (bytes_eq→eq t k.txid same))
            (subst (λ x. IsPlaced size blocks k.txid x) is p))
    | inr other ↦ entry_at-IsPlaced size blocks t keys e ps (rw (entry_at, other) at q)
  ]

  -- The four answers about a transaction, and what they fold to.
  pub record IsServed (n : Node) (txid : Hash) (e : TxEntry) : Type 0 where
    pub l1 : List PathElem
    pub l2 : List PathElem
    pub r : Hash
    pub sb : SealedBlock
    pub at_block : block_at e.block_hash n.blocks ≡ some sb
    pub block : IsBlock n.subtree_size sb
    pub subtree : subtree_path_for n txid ≡ ok (l1, r)
    pub located : locate_tx n txid ≡ ok e.block_hash
    pub path : block_path_for n r e.block_hash ≡ ok (l2, sb.block_root)
    pub header : header_for n e.block_hash ≡ ok sb.header
    pub closes1 : fold txid l1 ≡ r
    pub closes2 : fold r l2 ≡ header_merkle_root sb.header
    pub shallow : n.subtree_size ≤ 2 ^ 20 → length l1 ≤ 20
    pub bounded : length sb.subtree_roots ≤ 2 ^ 64 → length l2 ≤ 64
    pub on_chain : contains_header n sb.header ≡ best_at e.block_hash n.on_best

  pub IsNode-IsServed :
      (n : Node) (txid : Hash) (e : TxEntry)
      → IsNode n
      → entry_at txid n.tx_index ≡ some e
      → IsServed n txid e
  unfolding subtree_path_for entry_block locate_tx block_path_for header_for contains_header found
  IsNode-IsServed n txid e v known =
      let p = entry_at-IsPlaced n.subtree_size n.blocks txid n.tx_index e v.placed known in
      let b =
        block_at-All (IsBlock n.subtree_size) e.block_hash n.blocks p.sb v.sealed p.at_block in
      let low = leaf-Included p.tree.leaves e.leaf_index txid p.at_leaf in
      let same_root : low.root ≡ p.r = cc (low.builds, p.tree.built) in
      let same_layers : low.layers ≡ p.layers = cc (low.builds, p.tree.built) in
      let walk1 : merkle_path p.layers e.leaf_index ≡ ok low.path =
        ap (λ l. merkle_path l e.leaf_index) (sym same_layers) ∙ low.paths in
      let (k, at, is) = root_index-found p.r p.sb.subtree_roots e.subtree_index 0 p.at_root in
      let high = leaf-Included p.sb.subtree_roots k p.r is in
      let same_root' : high.root ≡ p.sb.block_root = cc (high.builds, b.built) in
      let same_layers' : high.layers ≡ p.sb.block_layers = cc (high.builds, b.built) in
      let walk2 : merkle_path p.sb.block_layers k ≡ ok high.path =
        ap (λ l. merkle_path l k) (sym same_layers') ∙ high.paths in
      let at' : root_index p.r p.sb.subtree_roots 0 ≡ some k = at ∙ ap some (omega arith) in
      let name = block_at-hash e.block_hash n.blocks p.sb p.at_block in
      let by_header : block_at (double_sha256 p.sb.header) n.blocks ≡ some p.sb =
        ap (λ h. block_at h n.blocks) (sym b.hashed ∙ name) ∙ p.at_block in
      record {
        l1 = low.path;
        l2 = high.path;
        r = p.r;
        sb = p.sb;
        at_block = p.at_block;
        block = b;
        subtree =
            rw
              (
                known,
                p.at_block,
                index_of_get_elem? p.sb.subtree_trees e.subtree_index p.at_tree,
                walk1,
                index_of_get_elem? p.sb.subtree_roots e.subtree_index p.at_root,
              )
              refl;
        located = rw known refl;
        path = rw (p.at_block, at', walk2) refl;
        header = rw p.at_block refl;
        closes1 = low.folds ∙ same_root;
        closes2 = high.folds ∙ same_root' ∙ sym b.rooted;
        shallow = λ small. omega (
          arith,
          length-Included low (omega (arith, p.tree.few)),
          ceil_log2_le 20 (length p.tree.leaves) (omega (arith, p.tree.few)),
        );
        bounded = λ small.
            omega (
              arith,
              length-Included high small,
              ceil_log2_le 64 (length p.sb.subtree_roots) small,
            );
        on_chain = rw (contains_header, by_header) (ap (λ h. best_at h n.on_best) name);
      }
