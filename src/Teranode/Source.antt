-- ===== src/Teranode/Source.antt =====
-- The interfaces of teranode/teranode.go. Their methods only read, so each is a function.
use mfspv.Base.{ℕ, Bool, List, Bytes, Result}
use mfspv.Commitment.Hashing.{Hash, PathElem, TxFields}

-- `[80]byte`
abbrev pub Header : Type 0
Header = Bytes

-- The output index is a uint32.
pub record Outpoint : Type 0 where
  pub txid : Hash
  pub vout : ℕ

-- What a node says of a carrying block's generation transaction.
pub record GenAccumulator : Type 0 where
  pub acc_root : Hash
  pub fields : TxFields
  pub l0 : List PathElem
  pub l1 : List PathElem
  pub l2 : List PathElem

pub record ProofSource : Type 0 where
  pub subtree_path_for : Hash → Result (List PathElem × Hash)
  pub block_path_for : Hash → Hash → Result (List PathElem × Hash)
  pub header_for : Hash → Result Header
  pub locate_tx : Hash → Result Hash
  pub gen_tx_accumulator : Hash → Result GenAccumulator

pub record HeaderChain : Type 0 where
  pub contains : Header → Bool
  pub best_tip_height : ℕ

-- A query of a remote service may fail.
pub record UtxoClient : Type 0 where
  pub is_unspent : Outpoint → Result Bool

-- The value, and whether the output is unspent.
pub record ValueOracle : Type 0 where
  pub output_value : Outpoint → Result (ℕ × Bool)
