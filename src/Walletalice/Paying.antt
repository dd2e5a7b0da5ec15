-- ===== src/Walletalice/Paying.antt =====
-- A payment of walletalice/walletalice.go at AcceptPayment of walletbob/walletbob.go.
use mfspv.Base.{
  ℕ, zero, suc, ◌+◌, ◌<◌, ◌≡◌, refl, sym, ap, ◌∙◌, inl, inr, Bool, true, false, Bool-cases, List,
  [], ◌∷◌, ◌++◌, length, length-map, map, append_assoc, append-nil, All, Bytes, bytes_eq,
  bytes_eq_refl, eq→bytes_eq, Option, none, some, ok, ◌==◌, ltb, arith,
}
use mfspv.Commitment.Hashing.{Sha256}
use mfspv.Teranode.Source.{HeaderChain}
use mfspv.Crypto.{Signatures, SignatureLaws}
use mfspv.Bundle.Types.{Bundle}
use mfspv.Bundle.Verify.{verify}
use mfspv.Payment.Types.{TxIn, TxOut, Tx3}
use mfspv.Payment.Codec.{encode, decode_message}
use mfspv.Payment.RoundTrip.{IsWireMessage, decode_message-encode}
use mfspv.Payment.Sighash.{verify_input_signature, blank}
use mfspv.Dsalert.Bus.{Owner}
use mfspv.Walletbob.Till.{
  Decision, has_output, outputs_satisfied, template_satisfied, liveness, value_check, RiskPolicy,
  decide, Till, inclusion, alert_quiet_for, signatures, conclude, accept_payment, no_reason,
}
use mfspv.Walletalice.Wallet.{
  Wallet, out_key_of, with_change, attach, all_reveal, export, fill_template,
}
use mfspv.Walletalice.Signing.{added, attach-cons, attach-length, fill_template-IsFilled}

has_output_there :
    (x : TxOut) (before after : List TxOut) → has_output x (before ++ (x ∷ after)) ≡ true
unfolding has_output
has_output_there x [] after = ground (arith, bytes_eq_refl x.script_pub_key)
has_output_there x (y ∷ before) after = ground (arith, has_output_there x before after)

outputs_satisfied_by :
    (before wants after : List TxOut) → outputs_satisfied wants (before ++ (wants ++ after)) ≡ true
unfolding outputs_satisfied
outputs_satisfied_by before [] after = refl
outputs_satisfied_by before (x ∷ wants) after =
    let here = has_output_there x before (wants ++ after) in
    let rest =
      ap (outputs_satisfied wants) (sym (append_assoc before (x ∷ []) (wants ++ after)))
      ∙ outputs_satisfied_by (before ++ (x ∷ [])) wants after in
    rw (here, rest) refl

satisfied_alone : (outputs : List TxOut) → outputs_satisfied outputs outputs ≡ true
satisfied_alone outputs =
    ap (outputs_satisfied outputs) (sym (append-nil outputs)) ∙ outputs_satisfied_by [] outputs []

-- What is asked for is kept, with or without change.
with_change-satisfied :
    (outputs : List TxOut) (change_script : Option Bytes) (change_value : ℕ)
    → outputs_satisfied outputs (with_change outputs change_script change_value) ≡ true
unfolding with_change
with_change-satisfied outputs none change_value = satisfied_alone outputs
with_change-satisfied outputs (some script) change_value = elim (Bool-cases (ltb 0 change_value)) [
  | inl change ↦ rw (with_change, change) (outputs_satisfied_by [] outputs _)
  | inr no_change ↦ rw (with_change, no_change) (satisfied_alone outputs)
]

export-ok :
    (bundles : List Bundle) (t : Tx3) (msg : Bytes)
    → export bundles t ≡ ok msg
    → encode (record { tx = t; bundles = bundles }) ≡ msg
unfolding export
export-ok bundles t msg e = elim (Bool-cases (all_reveal bundles)) [
  | inl reveals ↦ cc (rw (export, reveals) at e)
  | inr hidden ↦ cc (rw (export, hidden) at e)
]

module _ ⦃sha : Sha256⦄ where
  -- Every bundle is accepted with the view.
  abbrev pub IsVerified : Option HeaderChain → Bundle → Type 0
  IsVerified view b = (verify b view).ok ≡ true

  module _ (crypto : Signatures) where
    attach-inclusion :
        (w : Wallet crypto) (view : Option HeaderChain) (bundles : List Bundle) (inputs : List TxIn)
        → attach crypto w bundles ≡ ok (map blank inputs)
        → All (IsVerified view) bundles
        → inclusion view bundles inputs ≡ (true, no_reason)
    unfolding inclusion blank out_key_of
    attach-inclusion w view [] inputs e good = refl
    attach-inclusion w view (b ∷ bundles) [] e good = refl
    attach-inclusion w view (b ∷ bundles) (x ∷ inputs) e (v, vs) =
        let (k, rest, held, more, same) = attach-cons crypto w b bundles _ e in
        let own : added crypto b k ≡ blank x = cc same in
        let tail : rest ≡ map blank inputs = cc same in
        let txid : bytes_eq b.output_ref.txid x.prev.txid ≡ true =
          eq→bytes_eq b.output_ref.txid x.prev.txid (ap (λ y. y.prev.txid) own) in
        let vout : b.output_ref.vout ≡ x.prev.vout = ap (λ y. y.prev.vout) own in
        let others = attach-inclusion w view bundles inputs (more ∙ ap ok tail) vs in
        ground (arith, txid, vout, v, others)

    signatures-all :
        (t : Tx3) (n i : ℕ)
        → ((j : ℕ) → j < i + n → verify_input_signature crypto t j ≡ true)
        → signatures crypto t n i ≡ true
    unfolding signatures
    signatures-all t zero i all = refl
    signatures-all t (suc n) i all =
        ground (arith, all i (omega arith), signatures-all t n (suc i) (λ j h. all j (omega arith)))

    module _ (Float : Type 0) (le : Float → Float → Bool) where
      -- The checks of a payment that fails none but perhaps the one of the alerts.
      abbrev checked : Bool → Decision
      checked quiet = record {
        accepted = false;
        reason = no_reason;
        inclusion_ok = true;
        all_unspent = true;
        alert_quiet = quiet;
        signatures_ok = true;
        template_ok = true;
        value_ok = true;
      }

      conclude-accepts :
          (policy : RiskPolicy Float le) (value_at_risk : Float) (quiet : Bool)
          → quiet ≡ true
          → le value_at_risk policy.tau ≡ true
          → (conclude crypto Float le policy value_at_risk (checked quiet)).accepted ≡ true
      unfolding conclude decide
      conclude-accepts policy value_at_risk quiet calm small = ground (arith, calm, small)

      -- With keys and signatures that keep their laws: where FillTemplate completed a template with
      -- bundles, Export made a message of them, and the message is within the widths of the format,
      -- AcceptPayment accepts the message for that template, for a till whose view accepts every one
      -- of the bundles, whose client says that every input is unspent, whose oracle, where it has one,
      -- says that they pay for the outputs, whose alerts, where it has a bus, are quiet for the owners
      -- that the inputs leave, and whose policy allows the value at risk.
      pub export-accept_payment :
          (w : Wallet crypto) (template t : Tx3) (bundles : List Bundle)
          (change_script : Option Bytes) (change_value : ℕ) (msg : Bytes) (till : Till)
          (value_at_risk : Float) (policy : RiskPolicy Float le) (owners : List Owner)
          → SignatureLaws crypto
          → fill_template crypto w template bundles change_script change_value ≡ ok t
          → export bundles t ≡ ok msg
          → IsWireMessage (record { tx = t; bundles = bundles })
          → All (IsVerified till.headers) bundles
          → liveness till.utxo t.inputs true [] ≡ ok (true, owners)
          → alert_quiet_for till owners policy.window ≡ true
          → value_check till.oracle t ≡ ok true
          → le value_at_risk policy.tau ≡ true
          → (d : Decision) × (accept_payment crypto Float le till msg template value_at_risk policy
              ≡ ok d)
            × (d.accepted ≡ true)
      unfolding accept_payment template_satisfied
      export-accept_payment w template t bundles change_script change_value msg till value_at_risk
            policy owners laws filled exported fits good live quiet paid small =
          let f =
            fill_template-IsFilled crypto w template bundles change_script change_value t laws
              filled in
          let decodes =
            ap decode_message (sym (export-ok bundles t msg exported))
            ∙ (decode_message-encode (record { tx = t; bundles = bundles }) fits).0 in
          let count : (length bundles == length t.inputs) ≡ true =
            ground (arith, attach-length crypto w bundles _ f.spends, length-map blank t.inputs) in
          let included = attach-inclusion w till.headers bundles t.inputs f.spends good in
          let signed =
            signatures-all t (length t.inputs) 0 (λ j h. f.signed j (omega (arith, h))) in
          let kept : outputs_satisfied template.outputs t.outputs ≡ true =
            ap (λ x. outputs_satisfied template.outputs x.outputs) f.same
            ∙ with_change-satisfied template.outputs change_script change_value in
          (
            conclude crypto Float le policy value_at_risk
                (checked (alert_quiet_for till owners policy.window)),
            rw (decodes, count, included, live, paid, signed, kept) refl,
            conclude-accepts policy value_at_risk _ quiet small,
          )
