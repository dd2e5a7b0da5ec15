-- ===== src/Accumulator/Anchor.antt =====
-- VerifyBlockInChain and VerifyAnchor of accumulator/accumulator.go.
use mfspv.Base.{
  ◌+◌, Bool, false, List, [], ◌∷◌, length, Bytes, bytes_eq, Option, none, some, ltb, if◌then◌else◌,
}
use mfspv.Commitment.Hashing.{
  Sha256, Hash, PathElem, FieldLeaf, TxFields, max_depth, double_sha256, fold,
}
use mfspv.Commitment.Fields.{leaf_for_field}

-- The first field whose bytes are `acc_root`.
unfoldable pub field_of : Hash → TxFields → Option FieldLeaf
field_of acc_root [] = none
field_of acc_root (f ∷ fields) =
    let later = field_of acc_root fields in if bytes_eq f.bytes acc_root then some f else later

module _ ⦃sha : Sha256⦄ where
  unfoldable pub verify_block_in_chain : Bytes → List PathElem → Hash → Bool
  verify_block_in_chain header80 path acc_root =
      if ltb max_depth (length path)
      then false
      else bytes_eq (fold (double_sha256 header80) path) acc_root

  unfoldable pub verify_anchor :
      Hash → TxFields → List PathElem → List PathElem → List PathElem → Hash → Bool
  verify_anchor acc_root gen_fields l0 l1 l2 carrying_root =
      if ltb max_depth (length l0 + length l1 + length l2)
      then false
      else elim (field_of acc_root gen_fields) [
        | none ↦ false
        | some f ↦ bytes_eq (fold (fold (fold (leaf_for_field f) l0) l1) l2) carrying_root
      ]
