-- ===== src/Commitment/Fields.antt =====
-- The L0 field tree of commitment/commitment.go: BuildMTxID, MTxIDPath and LeafForField.
use mfspv.Base.{
  ℕ, List, length, map, Result, ok, err, empty_tree, index_out_of_range, index, ◌>>=◌, leb, ◌==◌,
  if◌then◌else◌, u8,
}
use mfspv.Commitment.Hashing.{Sha256, Hash, PathElem, FieldLeaf, TxFields, leaf_hash}
use mfspv.Commitment.Tree.{build_merkle_tree, merkle_path}

module _ ⦃sha : Sha256⦄ where
  unfoldable pub build_mtxid : TxFields → Result (Hash × List (List Hash))
  build_mtxid fields =
      if length fields == 0 then err empty_tree else build_merkle_tree (map leaf_hash fields)

  -- The leaf, its path and the root. `fieldIndex` is a uint8.
  unfoldable pub mtxid_path : TxFields → ℕ → Result (Hash × List PathElem × Hash)
  mtxid_path fields field_index =
      if leb (length fields) (u8 field_index) then err index_out_of_range else (do
        (root, layers) ← build_mtxid fields
        path ← merkle_path layers (u8 field_index)
        f ← index fields (u8 field_index)
        ok (leaf_hash f, path, root))

  unfoldable pub leaf_for_field : FieldLeaf → Hash
  unfolding leaf_hash
  leaf_for_field f = leaf_hash f
