-- ===== src/Commitment/Composed.antt =====
-- VerifyToBlockRoot is the three checks together, and it accepts what the three trees give.
use mfspv.Base.{
  ℕ, ◌+◌, ◌^◌, ◌≤◌, ◌≡◌, true, List, length, get_elem?, some, ok, arith, eq→bytes_eq, bytes_eq_refl,
  ◌↔◌, u8, u8_le, get_elem?-lt, lt_of_get_elem?,
}
use mfspv.Commitment.Hashing.{Sha256, Hash, PathElem, FieldLeaf, TxFields, fold, max_depth}
use mfspv.Commitment.Tree.{build_merkle_tree, merkle_path, ceil_log2}
use mfspv.Commitment.Fields.{mtxid_path}
use mfspv.Commitment.Checks.{
  verify_mtxid_path, verify_subtree_path, verify_block_path, verify_to_block_root,
}
use mfspv.Commitment.Depth.{depth_law, ceil_log2_le}
use mfspv.Commitment.FieldPath.{u8-Opened}

module _ ⦃sha : Sha256⦄ where
  -- VerifyToBlockRoot accepts exactly when the paths have 255 elements together at most and each of
  -- the three checks accepts its level, the folded node of one being the leaf of the next; and it
  -- reports the sum of the lengths.
  pub verify_to_block_root_iff :
      (leaf : Hash) (l0 l1 l2 : List PathElem) (root : Hash)
      → (((verify_to_block_root leaf l0 l1 l2 root).0 ≡ true) ↔ (
          (length l0 + length l1 + length l2 ≤ max_depth)
          × (verify_mtxid_path leaf l0 (fold leaf l0) ≡ true)
          × (verify_subtree_path (fold leaf l0) l1 (fold (fold leaf l0) l1) ≡ true)
          × (verify_block_path (fold (fold leaf l0) l1) l2 root ≡ true)))
        × ((verify_to_block_root leaf l0 l1 l2 root).1 ≡ length l0 + length l1 + length l2)
  unfolding verify_to_block_root verify_mtxid_path verify_subtree_path verify_block_path
  verify_to_block_root_iff leaf l0 l1 l2 root = (
    (
      λ h. ground (arith, bytes_eq_refl (fold leaf l0), bytes_eq_refl (fold (fold leaf l0) l1)),
      λ h. ground arith,
    ),
    ground arith,
  )

  -- A field of a transaction of a subtree of at most 2^20 transactions of a block is accepted by
  -- VerifyToBlockRoot along the paths that MTxIDPath and MerklePath return, and the depth that it
  -- reports is the sum of the three CeilLog2.
  pub three_levels_accepted :
      (fields : TxFields) (txids roots : List Hash) (i j k : ℕ) (f : FieldLeaf)
      (l0 l1 l2 : List PathElem) (leaf mtxid sub root : Hash) (tx_layers layers : List (List Hash))
      → length fields ≤ 2 ^ 64
      → length txids ≤ 2 ^ 20
      → length roots ≤ 2 ^ 64
      → get_elem? fields i ≡ some f
      → mtxid_path fields i ≡ ok (leaf, l0, mtxid)
      → get_elem? txids j ≡ some mtxid
      → build_merkle_tree txids ≡ ok (sub, tx_layers)
      → merkle_path tx_layers j ≡ ok l1
      → get_elem? roots k ≡ some sub
      → build_merkle_tree roots ≡ ok (root, layers)
      → merkle_path layers k ≡ ok l2
      → verify_to_block_root leaf l0 l1 l2 root
        ≡ (true, ceil_log2 (length fields) + ceil_log2 (length txids) + ceil_log2 (length roots))
  unfolding verify_to_block_root
  three_levels_accepted fields txids roots i j k f l0 l1 l2 leaf mtxid sub root tx_layers layers
        few20 few small at_f opened at_t built1 walked1 at_s built2 walked2 =
      let (first, at_byte) =
        get_elem?-lt fields (u8 i) (omega (arith, u8_le i, lt_of_get_elem? fields i at_f)) in
      let o = u8-Opened fields i first few20 at_byte in
      let (fold1, deep1) =
        depth_law txids j mtxid sub tx_layers l1 (omega arith) at_t built1 walked1 in
      let (fold2, deep2) = depth_law roots k sub root layers l2 small at_s built2 walked2 in
      let deep0 : length l0 ≡ ceil_log2 (length fields) = cc (o.opens, opened, o.long) in
      let fold0 : fold leaf l0 ≡ mtxid = cc (o.opens, opened, o.folds) in
      let closes : fold (fold (fold leaf l0) l1) l2 ≡ root = cc (fold0, fold1, fold2) in
      ground (
        arith,
        deep0,
        deep1,
        deep2,
        eq→bytes_eq (fold (fold (fold leaf l0) l1) l2) root closes,
        ceil_log2_le 64 (length fields) few20,
        ceil_log2_le 20 (length txids) few,
        ceil_log2_le 64 (length roots) small,
      )
