-- ===== src/Walletbob/Store.antt =====
-- New, AddReceivingKey, StorePrivateKey and Broadcast of walletbob/walletbob.go: the wallet around the
-- till. The header view, the client and the alerts that it holds are those of a Till.
use mfspv.Base.{List, [], ◌∷◌, Bytes, Option, none, some, Error, other}
use mfspv.Crypto.{Signatures}
use mfspv.Payment.Types.{Tx3}

abbrev pub no_keys_at_till : Error
no_keys_at_till = other 20

abbrev pub no_broadcaster : Error
no_broadcaster = other 21

module _ (crypto : Signatures) where
  -- An entry of `receiving`, the newest first.
  pub record Received : Type 0 where
    pub encoded : Bytes
    pub key : crypto.PublicKey

  pub record Counter : Type 0 where
    pub broadcaster : Option (Tx3 → Option Error)
    pub receiving : List Received

  unfoldable pub new_counter : Option (Tx3 → Option Error) → Counter
  new_counter broadcaster = record { broadcaster = broadcaster; receiving = [] }

  unfoldable pub add_receiving_key : Counter → crypto.PublicKey → Counter
  add_receiving_key w key = record w {
    receiving = record { encoded = crypto.serialize_compressed key; key = key } ∷ w.receiving;
  }

  -- The wallet after the call, and the error.
  unfoldable pub store_private_key : Counter → crypto.PrivateKey → Counter × Option Error
  store_private_key w key = (w, some no_keys_at_till)

  unfoldable pub broadcast : Counter → Tx3 → Option Error
  broadcast w tx = elim w.broadcaster [ none ↦ some no_broadcaster | some send ↦ send tx ]
