-- ===== src/Payment/Types.antt =====
-- The types of payment/payment.go. Its Outpoint has the fields of teranode's, and is that record.
use mfspv.Base.{ℕ, List, Bytes}
use mfspv.Bundle.Types.{Bundle}
use mfspv.Teranode.Source.{Outpoint}

pub record TxIn : Type 0 where
  pub prev : Outpoint
  pub sig : Bytes
  pub pub_key : Bytes

-- The value is a uint64.
pub record TxOut : Type 0 where
  pub value : ℕ
  pub script_pub_key : Bytes

-- The version and the lock time are uint32.
pub record Tx3 : Type 0 where
  pub version : ℕ
  pub inputs : List TxIn
  pub outputs : List TxOut
  pub lock_time : ℕ

pub record Message : Type 0 where
  pub tx : Tx3
  pub bundles : List Bundle
