-- ===== src/Walletbob/Till.antt =====
-- RiskPolicy.Decide, AcceptPayment and templateSatisfied of walletbob/walletbob.go. The key store is
-- not read by them. A float64 is a parameter, of which they use the comparison.
use mfspv.Base.{
  ℕ, zero, suc, ◌+◌, ◌%◌, ◌^◌, Bool, true, false, not, ◌&&◌, ◌||◌, List, [], ◌∷◌, length, Bytes,
  bytes_eq, Option, none, some, Result, Error, ok, err, other, ◌>>=◌, leb, ◌==◌, if◌then◌else◌,
}
use mfspv.Commitment.Hashing.{Sha256}
use mfspv.Teranode.Source.{Outpoint, HeaderChain, UtxoClient, ValueOracle}
use mfspv.Crypto.{Signatures}
use mfspv.Bundle.Types.{Bundle}
use mfspv.Bundle.Verify.{Reason, verify}
use mfspv.Payment.Types.{TxIn, TxOut, Tx3}
use mfspv.Payment.Codec.{decode_message}
use mfspv.Payment.Sighash.{verify_input_signature}
use mfspv.Dsalert.Bus.{Bus, Owner, outpoint_eq, quiet_for_owners}

-- The reasons of a decision; `no_reason` is the empty string.
pub data Why : Type 0 where
  no_reason bundle_mismatch accepted_payment bad_signature bad_template underfunded utxo_spent : Why
  alerted exceeds_tau : Why
  not_included : Reason → Why

pub record Decision : Type 0 where
  pub accepted : Bool
  pub reason : Why
  pub inclusion_ok : Bool
  pub all_unspent : Bool
  pub alert_quiet : Bool
  pub signatures_ok : Bool
  pub template_ok : Bool
  pub value_ok : Bool

-- `errors.New("walletbob: bundle count != input count")`
abbrev pub count_mismatch : Error
count_mismatch = other 1

-- One requested output among the payment's.
unfoldable pub has_output : TxOut → List TxOut → Bool
has_output want [] = false
has_output want (got ∷ outs) =
    let rest = has_output want outs in
    if got.value == want.value && bytes_eq got.script_pub_key want.script_pub_key
    then true
    else rest

unfoldable pub outputs_satisfied : List TxOut → List TxOut → Bool
outputs_satisfied [] outs = true
outputs_satisfied (want ∷ wants) outs =
    let rest = outputs_satisfied wants outs in if has_output want outs then rest else false

unfoldable pub template_satisfied : Tx3 → Tx3 → Bool
template_satisfied template tx = outputs_satisfied template.outputs tx.outputs

-- `owners[op] = key`
unfoldable pub set_owner : Outpoint → Bytes → List Owner → List Owner
set_owner op key [] = record { outpoint = op; key = key } ∷ []
set_owner op key (o ∷ owners) =
    let later = set_owner op key owners in
    if outpoint_eq op o.outpoint then record { outpoint = op; key = key } ∷ owners else o ∷ later

-- The loop of step 3: whether all are unspent, and the owners.
unfoldable pub liveness : UtxoClient → List TxIn → Bool → List Owner → Result (Bool × List Owner)
liveness utxo [] all owners = ok (all, owners)
liveness utxo (i ∷ inputs) all owners = do
  unspent ← utxo.is_unspent i.prev
  liveness utxo inputs (if not unspent then false else all) (set_owner i.prev i.pub_key owners)

-- The sums of step 5b, over uint64.
unfoldable pub sum_in : ValueOracle → List TxIn → ℕ → Result ℕ
sum_in oracle [] acc = ok acc
sum_in oracle (i ∷ inputs) acc = do
  (v, unspent) ← oracle.output_value i.prev
  sum_in oracle inputs ((acc + v) % 2 ^ 64)

unfoldable pub sum_out : List TxOut → ℕ → ℕ
sum_out [] acc = acc
sum_out (o ∷ outs) acc = sum_out outs ((acc + o.value) % 2 ^ 64)

-- A client that is no value oracle is `none`.
unfoldable pub value_check : Option ValueOracle → Tx3 → Result Bool
value_check none tx = ok true
value_check (some oracle) tx = do
  total ← sum_in oracle tx.inputs 0
  ok (leb (sum_out tx.outputs 0) total)

module _ (Float : Type 0) (le : Float → Float → Bool) where
  pub record RiskPolicy : Type 0 where
    pub tau : Float
    pub window : ℕ

  unfoldable pub decide : RiskPolicy → Float → Bool → Bool → Bool → Bool
  decide p value_at_risk inclusion_ok all_unspent alert_quiet =
      if not inclusion_ok || not all_unspent || not alert_quiet
      then false
      else le value_at_risk p.tau

-- `w.headers`, `w.utxo` (and what its type assertion gives), `w.alerts` and the clock's answer.
pub record Till : Type 0 where
  pub headers : Option HeaderChain
  pub utxo : UtxoClient
  pub oracle : Option ValueOracle
  pub alerts : Option Bus
  pub now : ℕ

module _ ⦃sha : Sha256⦄ where
  -- The loop of step 2: the answer and the reason. Both lists have one length.
  unfoldable pub inclusion : Option HeaderChain → List Bundle → List TxIn → Bool × Why
  inclusion view [] inputs = (true, no_reason)
  inclusion view (b ∷ bundles) [] = (true, no_reason)
  inclusion view (b ∷ bundles) (i ∷ inputs) =
      let rest = inclusion view bundles inputs in
      let v = verify b view in
      if not (bytes_eq b.output_ref.txid i.prev.txid) || not (b.output_ref.vout == i.prev.vout)
      then (false, bundle_mismatch)
      else if not v.ok
      then (false, not_included v.reason)
      else rest

  unfoldable pub alert_quiet_for : Till → List Owner → ℕ → Bool
  alert_quiet_for w owners window = elim w.alerts [
    | none ↦ true
    | some bus ↦ quiet_for_owners w.now bus owners window
  ]

  module _ (crypto : Signatures) where
    -- The loop of step 5, from input `i` on for `n` inputs.
    unfoldable pub signatures : Tx3 → ℕ → ℕ → Bool
    signatures tx zero i = true
    signatures tx (suc n) i =
        let rest = signatures tx n (suc i) in
        if not (verify_input_signature crypto tx i) then false else rest

    module _ (Float : Type 0) (le : Float → Float → Bool) where
      -- The final decision of step 6.
      unfoldable pub conclude : RiskPolicy Float le → Float → Decision → Decision
      conclude policy value_at_risk d =
          let all_ok = d.inclusion_ok && (d.signatures_ok && (d.template_ok && d.value_ok)) in
          let all_good =
            all_ok
            && decide Float le policy value_at_risk d.inclusion_ok d.all_unspent d.alert_quiet in
          let why =
            if not d.signatures_ok
            then bad_signature
            else if not d.template_ok
            then bad_template
            else if not d.value_ok
            then underfunded
            else if not d.all_unspent
            then utxo_spent
            else if not d.alert_quiet
            then alerted
            else exceeds_tau in
          if all_good
          then record d { accepted = true; reason = accepted_payment }
          else (elim d.reason [
            | no_reason ↦ record d { accepted = false; reason = why }
            | _ ↦ record d { accepted = false }
          ])

      -- A decision beside an error is not accepted, and is left out.
      unfoldable pub accept_payment :
          Till → Bytes → Tx3 → Float → RiskPolicy Float le → Result Decision
      accept_payment w msg template value_at_risk policy = do
        m ← decode_message msg
        if not (length m.bundles == length m.tx.inputs) then err count_mismatch else (do
          let included = inclusion w.headers m.bundles m.tx.inputs
          live ← liveness w.utxo m.tx.inputs true []
          value_ok ← value_check w.oracle m.tx
          ok (
              conclude policy value_at_risk (record {
                accepted = false;
                reason = included.1;
                inclusion_ok = included.0;
                all_unspent = live.0;
                alert_quiet = alert_quiet_for w live.1 policy.window;
                signatures_ok = signatures m.tx (length m.tx.inputs) 0;
                template_ok = template_satisfied template m.tx;
                value_ok = value_ok;
              })))
