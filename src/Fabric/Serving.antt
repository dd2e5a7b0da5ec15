-- ===== src/Fabric/Serving.antt =====
-- Fetch of fabric/fetch.go and VerifyOne of fabric/fabric.go with a MockNode of
-- teranode/teranode.go as the source and as the view of the chain.
use mfspv.Base.{
  ℕ, ◌+◌, ◌<◌, ◌≡◌, refl, ap, ◌∙◌, subst, ◌∷◌, bytes_eq_refl, Bool, true, List, length, get_elem?,
  All, eq→bytes_eq, none, some, ok, arith,
}
use mfspv.Commitment.Hashing.{Sha256, Hash, IsHash, fold}
use mfspv.Bundle.Types.{header_merkle_root}
use mfspv.Teranode.Node.{TxEntry, Best, Node, block_at, entry_at, best_at, seal_block}
use mfspv.Teranode.Serve.{source_of, chain_of}
use mfspv.Teranode.Sealing.{seal_block-Sealing, sealed_node}
use mfspv.Teranode.Served.{IsServed, IsNode-IsServed}
use mfspv.Teranode.Indexed.{sealed_node-IsIn}
use mfspv.Teranode.Steps.{sealed, Reachable, next, Reachable-IsNode, no_empty_block}
use mfspv.Fabric.Proof.{Proof, fold_count, off_chain, verify_one, fetch, software}
use mfspv.Fabric.One.{fold_nodes-software}

best_at_new :
    (h : Hash) (bests : List Best) → best_at h (record { block = h; on = true } ∷ bests) ≡ true
unfolding best_at
best_at_new h bests = let same = bytes_eq_refl h in rw (best_at, same) refl

module _ ⦃sha : Sha256⦄ where
  -- What a node and the verifier give for a transaction.
  pub record IsFetched (n : Node) (txid : Hash) (accepted : Bool) : Type 0 where
    pub p : Proof
    pub fetched : fetch txid (source_of n) ≡ ok p
    pub own : p.leaf ≡ txid
    pub verified : verify_one software p (some (chain_of n)) ≡ (accepted, length p.l1 + length p.l2)

  served-IsFetched :
      (n : Node) (txid : Hash) (e : TxEntry)
      → IsServed n txid e
      → IsFetched n txid (best_at e.block_hash n.on_best)
  unfolding fetch source_of chain_of verify_one fold_count off_chain
  served-IsFetched n txid e s = record {
    p = record { leaf = txid; l1 = s.l1; subtree_root = s.r; l2 = s.l2; header = s.sb.header };
    fetched = rw (s.subtree, s.located, s.path, s.header) refl;
    own = refl;
    verified = ground (
      arith,
      s.on_chain,
      fold_nodes-software txid s.l1,
      fold_nodes-software s.r s.l2,
      eq→bytes_eq (fold txid s.l1) s.r s.closes1,
      eq→bytes_eq (fold s.r s.l2) (header_merkle_root s.sb.header) s.closes2,
    );
  }

  -- On every node that sequences of calls reach, each block sealed over digests and under a hash
  -- that is new, Fetch returns a proof of each transaction that the index has, and VerifyOne with
  -- the software backend accepts it exactly when the block of the transaction is marked as on the
  -- best chain, after one hash for every element of the two paths.
  pub Reachable-verify_one :
      (cap : ℕ) (n : Node) (txid : Hash) (e : TxEntry)
      → Reachable cap n
      → entry_at txid n.tx_index ≡ some e
      → (p : Proof) × (fetch txid (source_of n) ≡ ok p)
        × (p.leaf ≡ txid)
        × (verify_one software p (some (chain_of n))
            ≡ (best_at e.block_hash n.on_best, length p.l1 + length p.l2))
  Reachable-verify_one cap n txid e reached known =
      let f =
        served-IsFetched n txid e (IsNode-IsServed n txid e (Reachable-IsNode cap reached) known) in
      (f.p, f.fetched, f.own, f.verified)

  -- On every node that sequences of calls reach, each block sealed over digests and under a hash
  -- that is new, SealBlock over one or more digests returns a node and a hash.
  pub seal_block_total :
      (cap : ℕ) (n : Node) (txids : List Hash) (commit : Bool)
      → Reachable cap n
      → All IsHash txids
      → 0 < length txids
      → (n' : Node) × (h : Hash) × (seal_block n txids commit ≡ ok (n', h))
  seal_block_total cap n txids commit reached wide some_tx =
      let s = seal_block-Sealing n txids commit (Reachable-IsNode cap reached) some_tx wide in
      (sealed_node s, s.b.hash, s.seals)

  -- On every node that sequences of calls reach, each block sealed over digests and under a hash
  -- that is new, where SealBlock over digests returned another node and a hash that is of no older
  -- block, Fetch returns on the new node a proof of each of the transactions, and VerifyOne with the
  -- software backend accepts it.
  pub seal_block-verify_one :
      (cap : ℕ) (n n' : Node) (txids : List Hash) (commit : Bool) (h : Hash) (i : ℕ) (txid : Hash)
      → Reachable cap n
      → All IsHash txids
      → seal_block n txids commit ≡ ok (n', h)
      → block_at h n.blocks ≡ none
      → get_elem? txids i ≡ some txid
      → (p : Proof) × (fetch txid (source_of n') ≡ ok p)
        × (p.leaf ≡ txid)
        × ((verify_one software p (some (chain_of n'))).0 ≡ true)
  seal_block-verify_one cap n n' txids commit h i txid reached wide e fresh at' =
      let v = Reachable-IsNode cap reached in
      let s = seal_block-Sealing n txids commit v (no_empty_block n n' txids commit h e) wide in
      let same : sealed_node s ≡ n' = cc (s.seals, e) in
      let hash : s.b.hash ≡ h = cc (s.seals, e) in
      let (entry, known, under) = sealed_node-IsIn s i txid (v.sized) at' in
      let f = served-IsFetched n' txid entry (
        IsNode-IsServed n' txid entry
          (Reachable-IsNode cap (next reached (sealed txids commit h wide e fresh)))
          (subst (λ m. entry_at txid m.tx_index ≡ some entry) same known)) in
      let best : best_at entry.block_hash n'.on_best ≡ true =
        subst (λ m. best_at entry.block_hash m.on_best ≡ true) same
          (ap (λ g. best_at g (sealed_node s).on_best) under ∙ best_at_new s.b.hash n.on_best) in
      (f.p, f.fetched, f.own, ap (λ x. x.0) f.verified ∙ best)
