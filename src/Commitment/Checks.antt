-- ===== src/Commitment/Checks.antt =====
-- The path checks of commitment/commitment.go, from one level and from all three.
use mfspv.Base.{ℕ, ◌+◌, Bool, false, List, length, bytes_eq, ltb, ◌||◌, if◌then◌else◌}
use mfspv.Commitment.Hashing.{Sha256, Hash, PathElem, max_depth, fold}

module _ ⦃sha : Sha256⦄ where
  unfoldable pub verify_mtxid_path : Hash → List PathElem → Hash → Bool
  verify_mtxid_path leaf path mtxid =
      if ltb max_depth (length path) then false else bytes_eq (fold leaf path) mtxid

  -- A subtree holds at most 2^20 transactions.
  unfoldable pub verify_subtree_path : Hash → List PathElem → Hash → Bool
  verify_subtree_path txid path subtree_root =
      if ltb 20 (length path) then false else bytes_eq (fold txid path) subtree_root

  unfoldable pub verify_block_path : Hash → List PathElem → Hash → Bool
  verify_block_path subtree_root path block_merkle_root =
      if ltb max_depth (length path)
      then false
      else bytes_eq (fold subtree_root path) block_merkle_root

  -- The answer and the depth.
  unfoldable pub verify_to_block_root :
      Hash → List PathElem → List PathElem → List PathElem → Hash → Bool × ℕ
  verify_to_block_root leaf l0 l1 l2 block_merkle_root =
      let depth = length l0 + length l1 + length l2 in
      if ltb max_depth depth || ltb 20 (length l1)
      then (false, depth)
      else (let mtxid = fold leaf l0 in
          let sub = fold mtxid l1 in
          let root = fold sub l2 in (bytes_eq root block_merkle_root, depth))
