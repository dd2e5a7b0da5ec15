-- ===== src/Walletalice/Wallet.antt =====
-- Wallet, Sign, FillTemplate and Export of walletalice/walletalice.go. A map is a list of its entries
-- with the newest first. A key is a pointer, so it is an Option whose `none` is nil. The outputs that
-- FillTemplate appends to are a list: Go may write the new one behind the caller's own slice.
use mfspv.Base.{
  ℕ, zero, suc, Bool, true, false, List, [], ◌∷◌, ◌++◌, length, Bytes, Option, none, some, Error,
  Result, ok, err, other, panic, ◌>>=◌, leb, ltb, ◌==◌, if◌then◌else◌,
}
use mfspv.Commitment.Hashing.{Sha256}
use mfspv.Teranode.Source.{Outpoint}
use mfspv.Crypto.{Signatures}
use mfspv.Bundle.Types.{Bundle}
use mfspv.Payment.Types.{TxIn, TxOut, Tx3}
use mfspv.Payment.Codec.{encode}
use mfspv.Payment.Sighash.{sighash}
use mfspv.Dsalert.Bus.{outpoint_eq}

abbrev pub no_key : Error
no_key = other 2

abbrev pub input_idx : Error
input_idx = other 3

abbrev pub txid_only : Error
txid_only = other 4

-- An entry of `bundles`.
pub record HeldBundle : Type 0 where
  pub out_key : Outpoint
  pub bundle : Bundle

-- `outKey{b.OutputRef.TXID, b.OutputRef.Vout}`
unfoldable pub out_key_of : Bundle → Outpoint
out_key_of b = record { txid = b.output_ref.txid; vout = b.output_ref.vout }

-- `tx.Inputs[i].Sig = sig`, with the index in range.
unfoldable pub set_sig : List TxIn → ℕ → Bytes → List TxIn
set_sig [] i sig = []
set_sig (x ∷ inputs) zero sig = record x { sig = sig } ∷ inputs
set_sig (x ∷ inputs) (suc i) sig = x ∷ set_sig inputs i sig

-- The change output; a nil script is `none`.
unfoldable pub with_change : List TxOut → Option Bytes → ℕ → List TxOut
with_change outputs none change_value = outputs
with_change outputs (some script) change_value =
    if ltb 0 change_value
    then outputs ++ (record { value = change_value; script_pub_key = script } ∷ [])
    else outputs

-- The loop of Export.
unfoldable pub all_reveal : List Bundle → Bool
all_reveal [] = true
all_reveal (b ∷ bundles) =
    let rest = all_reveal bundles in if length b.fields == 0 then false else rest

unfoldable pub export : List Bundle → Tx3 → Result Bytes
export inputs signed_tx =
    if all_reveal inputs
    then ok (encode (record { tx = signed_tx; bundles = inputs }))
    else err txid_only

module _ (crypto : Signatures) where
  -- An entry of `keys`.
  pub record HeldKey : Type 0 where
    pub out_key : Outpoint
    pub key : Option crypto.PrivateKey

  pub record Wallet : Type 0 where
    pub bundles : List HeldBundle
    pub keys : List HeldKey

  unfoldable pub new : Wallet
  new = record { bundles = []; keys = [] }

  unfoldable pub add_output : Wallet → Bundle → Option crypto.PrivateKey → Wallet
  unfolding out_key_of
  add_output w b key = record {
    bundles = record { out_key = out_key_of b; bundle = b } ∷ w.bundles;
    keys = record { out_key = out_key_of b; key = key } ∷ w.keys;
  }

  -- `w.keys[k]`
  unfoldable pub key_at : Outpoint → List HeldKey → Option (Option crypto.PrivateKey)
  key_at k [] = none
  key_at k (h ∷ keys) =
      let older = key_at k keys in if outpoint_eq k h.out_key then some h.key else older

  -- The loop of FillTemplate that adds the inputs; Public of a nil key panics.
  unfoldable pub attach : Wallet → List Bundle → Result (List TxIn)
  attach w [] = ok []
  attach w (b ∷ bundles) =
      let rest = attach w bundles in
      elim (key_at (out_key_of b) w.keys) [
        | none ↦ err no_key
        | some none ↦ err panic
        | some (some key) ↦
            (rest >>= λ inputs. ok (
              record {
                prev = out_key_of b;
                sig = [];
                pub_key = crypto.serialize_compressed (crypto.public_of key);
              }
              ∷ inputs))
      ]

  module _ ⦃sha : Sha256⦄ where
    unfoldable pub sign : Tx3 → ℕ → Option crypto.PrivateKey → Result Bytes
    sign tx i key = if leb (length tx.inputs) i then err input_idx else elim key [
      | none ↦ err no_key
      | some k ↦ (crypto.sign k (sighash tx i) >>= λ sig. ok (crypto.serialize sig))
    ]

    -- `w.Sign(&tx, i, w.keys[k])`, where a missing key is nil.
    unfoldable pub sign_held : Wallet → Tx3 → ℕ → Bundle → Result Bytes
    sign_held w tx i b = elim (key_at (out_key_of b) w.keys) [
      | none ↦ sign tx i none
      | some key ↦ sign tx i key
    ]

    -- The loop of FillTemplate that signs, from input `i` on.
    unfoldable pub sign_inputs : Wallet → List Bundle → ℕ → Tx3 → Result Tx3
    sign_inputs w [] i tx = ok tx
    sign_inputs w (b ∷ bundles) i tx = do
      sig ← sign_held w tx i b
      sign_inputs w bundles (suc i) (record tx { inputs = set_sig tx.inputs i sig })

    unfoldable pub fill_template : Wallet → Tx3 → List Bundle → Option Bytes → ℕ → Result Tx3
    fill_template w template inputs change_script change_value = do
      added ← attach w inputs
      sign_inputs w inputs 0 (record template {
        inputs = added;
        outputs = with_change template.outputs change_script change_value;
      })
