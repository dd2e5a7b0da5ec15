-- ===== src/Bundle/Stored.antt =====
-- Build and Verify of bundle/bundle.go with a MockNode of teranode/teranode.go as the source and as
-- the view of the chain.
use mfspv.Base.{
  ℕ, ◌^◌, ◌≤◌, ◌<◌, ap, u8_small, ◌≡◌, refl, ◌∙◌, subst, true, List, length, get_elem?, some, ok,
}
use mfspv.Commitment.Hashing.{Sha256, Hash, FieldLeaf, TxFields}
use mfspv.Commitment.Fields.{build_mtxid}
use mfspv.Teranode.Node.{TxEntry, Node, entry_at, block_at, best_at, SealedBlock}
use mfspv.Teranode.Serve.{source_of, chain_of}
use mfspv.Teranode.Served.{IsServed, IsNode-IsServed}
use mfspv.Teranode.Steps.{Reachable, Reachable-IsNode}
use mfspv.Bundle.Types.{OutputRef, Bundle}
use mfspv.Bundle.Verify.{Located, locate, build, verify}
use mfspv.Bundle.Frozen.{IsGood}
use mfspv.Bundle.Built.{good-build}

module _ ⦃sha : Sha256⦄ where
  served-IsGood :
      (n : Node) (txid : Hash) (e : TxEntry)
      → IsServed n txid e
      → n.subtree_size ≤ 2 ^ 20
      → ((sb : SealedBlock)
          → block_at e.block_hash n.blocks ≡ some sb
          → length sb.subtree_roots ≤ 2 ^ 64)
      → best_at e.block_hash n.on_best ≡ true
      → (l : Located) × (locate (source_of n) txid ≡ ok l) × IsGood (chain_of n) txid l
  unfolding locate source_of chain_of
  served-IsGood n txid e s small few best = (
    record { subtree_path = s.l1; block_path = s.l2; header = s.sb.header },
    rw (s.subtree, s.located, s.path, s.header) refl,
    record {
      closes = rw s.closes1 s.closes2;
      shallow = s.shallow small;
      bounded = s.bounded (few s.sb s.at_block);
      on_chain = s.on_chain ∙ best;
    },
  )

  -- On every node that sequences of calls reach, each block sealed over digests and under a hash
  -- that is new, with a subtree size of at most 2^20, for every transaction that the index has in a
  -- block that is marked as on the best chain and has at most 2^64 subtrees, and every field, at a position
  -- below 2^8, of that transaction, of at most 2^64 fields, Build with the node as its source returns
  -- a bundle, and Verify accepts the bundle with the node as the view of the chain.
  pub Reachable-build :
      (cap : ℕ) (n : Node) (e : TxEntry) (sb : SealedBlock) (out : OutputRef) (fields : TxFields)
      (i : ℕ) (f : FieldLeaf) (layers : List (List Hash))
      → Reachable cap n
      → n.subtree_size ≤ 2 ^ 20
      → entry_at out.txid n.tx_index ≡ some e
      → block_at e.block_hash n.blocks ≡ some sb
      → length sb.subtree_roots ≤ 2 ^ 64
      → best_at e.block_hash n.on_best ≡ true
      → i < 2 ^ 8
      → length fields ≤ 2 ^ 64
      → get_elem? fields i ≡ some f
      → build_mtxid fields ≡ ok (out.txid, layers)
      → (b : Bundle) × (build out fields i (source_of n) ≡ ok b)
        × ((verify b (some (chain_of n))).ok ≡ true)
  Reachable-build cap n e sb out fields i f layers reached small known here few best byte short at'
        named =
      let s = IsNode-IsServed n out.txid e (Reachable-IsNode cap reached) known in
      let (l, found, good) =
        served-IsGood n out.txid e s small
          (λ b q.
            let same : sb ≡ b = cc (here, q) in
            subst (λ x. length x.subtree_roots ≤ 2 ^ 64) same few)
          best in
      good-build out fields i f (source_of n) (chain_of n) l layers short
        (ap (get_elem? fields) (u8_small i byte) ∙ at') named found good
