-- ===== src/Teranode/Steps.antt =====
-- The calls that change a MockNode, and the nodes that they reach.
use mfspv.Base.{ℕ, ◌<◌, ◌≡◌, ap, ◌∙◌, subst, Bool, List, [], ◌∷◌, length, All, none, ok, arith}
use mfspv.Commitment.Hashing.{Sha256, Hash, IsHash}
use mfspv.Teranode.Source.{Outpoint}
use mfspv.Teranode.Node.{
  Node, new_mock_node, block_at, mark_spent, set_output_value, orphan, restore, seal_block,
}
use mfspv.Teranode.Sealed.{IsNode}
use mfspv.Teranode.Sealing.{seal_block-Sealing, sealed_node, sealed_node-IsNode}

module _ ⦃sha : Sha256⦄ where
  -- A block is sealed over digests, and its own hash is new: another one would be a collision.
  pub data Step : Node → Node → Type 0 where
    sealed :
        {n n' : Node} (txids : List Hash) (commit : Bool) (h : Hash)
        → All IsHash txids
        → seal_block n txids commit ≡ ok (n', h)
        → block_at h n.blocks ≡ none
        → Step n n'
    spent : {n : Node} (o : Outpoint) → Step n (mark_spent n o)
    valued : {n : Node} (o : Outpoint) (value : ℕ) → Step n (set_output_value n o value)
    orphaned : {n : Node} (h : Hash) → Step n (orphan n h)
    restored : {n : Node} (h : Hash) → Step n (restore n h)

  pub data Reachable (cap : ℕ) : Node → Type 0 where
    start : Reachable cap (new_mock_node cap)
    next : {n n' : Node} → Reachable cap n → Step n n' → Reachable cap n'

  new_mock_node-IsNode : (cap : ℕ) → IsNode (new_mock_node cap)
  unfolding new_mock_node
  new_mock_node-IsNode cap = record { sized = ground arith; sealed = tt; placed = tt; chained = tt }

  pub no_empty_block :
      (n n' : Node) (txids : List Hash) (commit : Bool) (h : Hash)
      → seal_block n txids commit ≡ ok (n', h)
      → 0 < length txids
  unfolding seal_block
  no_empty_block n n' [] commit h e = cc
  no_empty_block n n' (t ∷ txids) commit h e = omega arith

  seal_block-IsNode :
      (n n' : Node) (txids : List Hash) (commit : Bool) (h : Hash)
      → IsNode n
      → All IsHash txids
      → seal_block n txids commit ≡ ok (n', h)
      → block_at h n.blocks ≡ none
      → IsNode n'
  seal_block-IsNode n n' txids commit h v wide e fresh =
      let s = seal_block-Sealing n txids commit v (no_empty_block n n' txids commit h e) wide in
      let same : sealed_node s ≡ n' = cc (s.seals, e) in
      let hash : s.b.hash ≡ h = cc (s.seals, e) in
      subst IsNode same (sealed_node-IsNode s v (ap (λ g. block_at g n.blocks) hash ∙ fresh))

  mark_spent-IsNode : (n : Node) (o : Outpoint) → IsNode n → IsNode (mark_spent n o)
  unfolding mark_spent
  mark_spent-IsNode n o v = record {
    sized = v.sized;
    sealed = v.sealed;
    placed = v.placed;
    chained = v.chained;
  }

  set_output_value-IsNode :
      (n : Node) (o : Outpoint) (value : ℕ) → IsNode n → IsNode (set_output_value n o value)
  unfolding set_output_value
  set_output_value-IsNode n o value v = record {
    sized = v.sized;
    sealed = v.sealed;
    placed = v.placed;
    chained = v.chained;
  }

  orphan-IsNode : (n : Node) (h : Hash) → IsNode n → IsNode (orphan n h)
  unfolding orphan
  orphan-IsNode n h v = record {
    sized = v.sized;
    sealed = v.sealed;
    placed = v.placed;
    chained = v.chained;
  }

  restore-IsNode : (n : Node) (h : Hash) → IsNode n → IsNode (restore n h)
  unfolding restore
  restore-IsNode n h v = record {
    sized = v.sized;
    sealed = v.sealed;
    placed = v.placed;
    chained = v.chained;
  }

  -- Every node that the calls reach is in the invariant.
  Step-IsNode : {n n' : Node} → Step n n' → IsNode n → IsNode n'
  Step-IsNode {n} {n'} (sealed txids commit h wide e fresh) v =
      seal_block-IsNode n n' txids commit h v wide e fresh
  Step-IsNode {n} {n'} (spent o) v = mark_spent-IsNode n o v
  Step-IsNode {n} {n'} (valued o value) v = set_output_value-IsNode n o value v
  Step-IsNode {n} {n'} (orphaned h) v = orphan-IsNode n h v
  Step-IsNode {n} {n'} (restored h) v = restore-IsNode n h v

  pub Reachable-IsNode : (cap : ℕ) {n : Node} → Reachable cap n → IsNode n
  Reachable-IsNode cap {n} start = new_mock_node-IsNode cap
  Reachable-IsNode cap {n} (next before step) = Step-IsNode step (Reachable-IsNode cap before)
