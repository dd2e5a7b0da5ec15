-- ===== src/Teranode/Into.antt =====
-- ServeInto of teranode/teranode.go, which writes into buffers, against the calls that allocate.
use mfspv.Base.{ℕ, ◌≡◌, refl, sym, ap, ◌∙◌, List, some, ok, index_of_get_elem?}
use mfspv.Commitment.Hashing.{Sha256, Hash, PathElem, fold}
use mfspv.Commitment.Tree.{merkle_path}
use mfspv.Commitment.Buffer.{merkle_path_into-merkle_path}
use mfspv.Commitment.Inclusion.{leaf-Included}
use mfspv.Bundle.Types.{header_merkle_root}
use mfspv.Teranode.Node.{TxEntry, Node, entry_at}
use mfspv.Teranode.Serve.{
  found, entry_block, subtree_path_for, header_for, or_nil, Served, serve_from, serve_into,
}
use mfspv.Teranode.Sealed.{IsBlock}
use mfspv.Teranode.Sealing.{block_at-All}
use mfspv.Teranode.Served.{entry_at-IsPlaced}
use mfspv.Teranode.Steps.{Reachable, Reachable-IsNode}

module _ ⦃sha : Sha256⦄ where
  -- What ServeInto gives: what the other calls give, and an L2 path that closes.
  pub record IsServedInto (n : Node) (txid : Hash) (e : TxEntry) (l1dst l2dst : List PathElem)
      : Type 0 where
    pub s : Served
    pub serves : serve_into n txid l1dst l2dst ≡ some (ok s)
    pub subtree : subtree_path_for n txid ≡ ok (s.l1, s.subtree_root)
    pub header : header_for n e.block_hash ≡ ok s.header
    pub closes : fold s.subtree_root s.l2 ≡ header_merkle_root s.header

  -- On every node that sequences of calls reach, each block sealed over digests and under a hash
  -- that is new, and whatever the buffers hold, ServeInto returns for each transaction that the
  -- index has the L1 path and the subtree root of SubtreePathFor, the header of HeaderFor, and a
  -- path that folds the subtree root to the Merkle root in that header.
  pub serve_into-IsServedInto :
      (cap : ℕ) (n : Node) (txid : Hash) (e : TxEntry) (l1dst l2dst : List PathElem)
      → Reachable cap n
      → entry_at txid n.tx_index ≡ some e
      → IsServedInto n txid e l1dst l2dst
  unfolding serve_into serve_from subtree_path_for entry_block header_for found or_nil
  serve_into-IsServedInto cap n txid e l1dst l2dst reached known =
      let v = Reachable-IsNode cap reached in
      let p = entry_at-IsPlaced n.subtree_size n.blocks txid n.tx_index e v.placed known in
      let b =
        block_at-All (IsBlock n.subtree_size) e.block_hash n.blocks p.sb v.sealed p.at_block in
      let low = leaf-Included p.tree.leaves e.leaf_index txid p.at_leaf in
      let high = leaf-Included p.sb.subtree_roots e.subtree_index p.r p.at_root in
      let walk1 : merkle_path p.layers e.leaf_index ≡ ok low.path =
        ap (λ l. merkle_path l e.leaf_index) (cc (low.builds, p.tree.built)) ∙ low.paths in
      let walk2 : merkle_path p.sb.block_layers e.subtree_index ≡ ok high.path =
        ap (λ l. merkle_path l e.subtree_index) (cc (high.builds, b.built)) ∙ high.paths in
      let tree = index_of_get_elem? p.sb.subtree_trees e.subtree_index p.at_tree in
      let root = index_of_get_elem? p.sb.subtree_roots e.subtree_index p.at_root in
      let top : high.root ≡ p.sb.block_root = cc (high.builds, b.built) in
      record {
        s = record { l1 = low.path; l2 = high.path; subtree_root = p.r; header = p.sb.header };
        serves =
            rw
              (
                serve_into,
                known,
                p.at_block,
                serve_from,
                tree,
                root,
                merkle_path_into-merkle_path p.layers e.leaf_index l1dst ∙ walk1,
                merkle_path_into-merkle_path p.sb.block_layers e.subtree_index l2dst ∙ walk2,
              )
              refl;
        subtree = rw (known, p.at_block, tree, walk1, root) refl;
        header = rw p.at_block refl;
        closes = high.folds ∙ top ∙ sym b.rooted;
      }
