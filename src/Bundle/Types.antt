-- ===== src/Bundle/Types.antt =====
-- The types of bundle/bundle.go, and the header's Merkle root.
use mfspv.Base.{ℕ, List, Option, take, drop}
use mfspv.Commitment.Hashing.{Hash, PathElem, TxFields}
pub use mfspv.Teranode.Source.{Header}

-- The output index is a uint32.
pub record OutputRef : Type 0 where
  pub txid : Hash
  pub vout : ℕ

pub record AnchorProof : Type 0 where
  pub acc_root : Hash
  pub acc_path : List PathElem
  pub gen_tx_fields : TxFields
  pub gen_l0 : List PathElem
  pub gen_l1 : List PathElem
  pub gen_l2 : List PathElem
  pub carrying_block_merkle_root : Hash
  pub carrying_header : Header

pub record Bundle : Type 0 where
  pub output_ref : OutputRef
  pub fields : TxFields
  pub mtxid_path : List PathElem
  pub subtree_path : List PathElem
  pub block_path : List PathElem
  pub header : Header
  pub anchor : Option AnchorProof

-- `h[36:68]`
unfoldable pub header_merkle_root : Header → Hash
header_merkle_root h = take 32 (drop 36 h)
