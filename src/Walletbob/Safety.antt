-- ===== src/Walletbob/Safety.antt =====
-- What an accepted payment has been checked for.
use mfspv.Base.{
  ℕ, zero, suc, ◌+◌, ◌<◌, ◌≡◌, refl, ap, ◌∙◌, inl, inr, Bool, true, false, not, ◌&&◌, Bool-cases,
  List, [], ◌∷◌, length, get_elem?, Bytes, bytes_eq, bytes_eq→eq, Option, some, ok, err, ◌>>=◌,
  >>=-eq-ok, ◌==◌, if◌then◌else◌, subst, arith,
}
use mfspv.Commitment.Hashing.{Sha256}
use mfspv.Teranode.Source.{HeaderChain, UtxoClient}
use mfspv.Crypto.{Signatures}
use mfspv.Bundle.Types.{Bundle}
use mfspv.Bundle.Verify.{verify}
use mfspv.Payment.Types.{TxIn, TxOut, Tx3, Message}
use mfspv.Payment.Codec.{decode_message}
use mfspv.Payment.Sighash.{verify_input_signature}
use mfspv.Teranode.Source.{Outpoint}
use mfspv.Dsalert.Bus.{Owner, Bus, recs_of, owner_alerted, quiet_for_owners}
use mfspv.Walletbob.Owners.{last_key, liveness-quiet}
use mfspv.Walletbob.Till.{
  Decision, has_output, outputs_satisfied, template_satisfied, count_mismatch, liveness,
  value_check, RiskPolicy, decide, Till, inclusion, alert_quiet_for, signatures, conclude,
  accept_payment,
}

-- An output of the payment with the value and the script that were asked for.
pub record Paid (want : TxOut) (outs : List TxOut) : Type 0 where
  pub place : ℕ
  pub got : TxOut
  pub there : get_elem? outs place ≡ some got
  pub value : got.value ≡ want.value
  pub script : got.script_pub_key ≡ want.script_pub_key

has_output-Paid : (want : TxOut) (outs : List TxOut) → has_output want outs ≡ true → Paid want outs
unfolding has_output
has_output-Paid want [] h = cc
has_output-Paid want (got ∷ outs) h =
    elim (Bool-cases (got.value == want.value && bytes_eq got.script_pub_key want.script_pub_key)) [
      | inl same ↦ record {
        place = 0;
        got = got;
        there = refl;
        value = ground (arith, same);
        script = bytes_eq→eq got.script_pub_key want.script_pub_key (ground (arith, same));
      }
      | inr other ↦
          (let p = has_output-Paid want outs (rw (has_output, other) at h) in
            record {
              place = suc p.place;
              got = p.got;
              there = p.there;
              value = p.value;
              script = p.script;
            })
    ]

outputs_satisfied-Paid :
    (wants outs : List TxOut) (j : ℕ) (want : TxOut)
    → outputs_satisfied wants outs ≡ true
    → get_elem? wants j ≡ some want
    → Paid want outs
unfolding outputs_satisfied
outputs_satisfied-Paid [] outs j want h at = cc
outputs_satisfied-Paid (w ∷ wants) outs zero want h at =
    let same : w ≡ want = cc in
    subst (λ x. Paid x outs) same (has_output-Paid w outs (ground arith))
outputs_satisfied-Paid (w ∷ wants) outs (suc j) want h at =
    outputs_satisfied-Paid wants outs j want (ground arith) at

-- One round of the loop of step 3 that returned.
liveness-unspent :
    (utxo : UtxoClient) (inputs : List TxIn) (all : Bool) (owners owners' : List Owner)
    → liveness utxo inputs all owners ≡ ok (true, owners')
    → (all ≡ true)
      × ((i : ℕ) (x : TxIn) → get_elem? inputs i ≡ some x → utxo.is_unspent x.prev ≡ ok true)
unfolding liveness
liveness-unspent utxo [] all owners owners' h = (cc, λ i x at. cc)
liveness-unspent utxo (y ∷ inputs) all owners owners' h =
    let (unspent, asked, rest) = >>=-eq-ok (utxo.is_unspent y.prev) _ h in
    let (kept, others) = liveness-unspent utxo inputs _ _ owners' rest in
    let free : unspent ≡ true = ground (arith, kept) in
    (ground (arith, kept), λ i x at. at_index i x at (asked ∙ ap ok free) others)
  where
    at_index :
        (i : ℕ) (x : TxIn)
        → get_elem? (y ∷ inputs) i ≡ some x
        → utxo.is_unspent y.prev ≡ ok true
        → ((i : ℕ) (x : TxIn) → get_elem? inputs i ≡ some x → utxo.is_unspent x.prev ≡ ok true)
        → utxo.is_unspent x.prev ≡ ok true
    at_index zero x at here others =
        let same : y ≡ x = cc in subst (λ z. utxo.is_unspent z.prev ≡ ok true) same here
    at_index (suc i) x at here others = others i x at

module _ ⦃sha : Sha256⦄ where
  -- The bundle of an input verifies and is about the output that the input spends.
  pub record IsProved (view : Option HeaderChain) (b : Bundle) (x : TxIn) : Type 0 where
    pub verified : (verify b view).ok ≡ true
    pub txid : b.output_ref.txid ≡ x.prev.txid
    pub vout : b.output_ref.vout ≡ x.prev.vout

  inclusion-IsProved :
      (view : Option HeaderChain) (bundles : List Bundle) (inputs : List TxIn) (i : ℕ) (b : Bundle)
      (x : TxIn)
      → (inclusion view bundles inputs).0 ≡ true
      → get_elem? bundles i ≡ some b
      → get_elem? inputs i ≡ some x
      → IsProved view b x
  unfolding inclusion
  inclusion-IsProved view [] inputs i b x h at at' = cc
  inclusion-IsProved view (y ∷ bundles) [] i b x h at at' = cc
  inclusion-IsProved view (y ∷ bundles) (z ∷ inputs) zero b x h at at' =
      let same : y ≡ b = cc in
      let same' : z ≡ x = cc in
      subst (λ u. IsProved view u x) same
        (subst (λ u. IsProved view y u) same'
          (record {
            verified = ground arith;
            txid = bytes_eq→eq y.output_ref.txid z.prev.txid (ground arith);
            vout = ground arith;
          }))
  inclusion-IsProved view (y ∷ bundles) (z ∷ inputs) (suc i) b x h at at' =
      inclusion-IsProved view bundles inputs i b x (ground arith) at at'

  quiet_of :
      (w : Till) (bus : Bus) (owners : List Owner) (window : ℕ)
      → w.alerts ≡ some bus
      → alert_quiet_for w owners window ≡ true
      → quiet_for_owners w.now bus owners window ≡ true
  unfolding alert_quiet_for
  quiet_of w bus owners window on_bus quiet = rw on_bus at quiet

  module _ (crypto : Signatures) where
    signatures-each :
        (tx : Tx3) (n i k : ℕ)
        → signatures crypto tx n i ≡ true
        → k < n
        → verify_input_signature crypto tx (i + k) ≡ true
    unfolding signatures
    signatures-each tx zero i k h less = absurd (omega arith)
    signatures-each tx (suc n) i zero h less =
        let e : i + 0 ≡ i = omega arith in rw e (ground arith)
    signatures-each tx (suc n) i (suc k) h less =
        let e : i + suc k ≡ suc i + k = omega arith in
        rw e (signatures-each tx n (suc i) k (ground arith) (omega arith))

    module _ (Float : Type 0) (le : Float → Float → Bool) where
      -- What an accepted payment has been checked for: its inclusion, and apart from it that its
      -- inputs are unspent, that no alert within the window counts for the key of the last input that
      -- spends an outpoint, its signatures, its outputs, the sums of its values as uint64, and the
      -- value at risk.
      pub record IsSafe (w : Till) (msg : Bytes) (template : Tx3) (value_at_risk : Float)
          (policy : RiskPolicy Float le) : Type 0 where
        pub m : Message
        pub owners : List Owner
        pub decodes : decode_message msg ≡ ok m
        pub same_count : length m.bundles ≡ length m.tx.inputs
        pub proved :
            (i : ℕ) (b : Bundle) (x : TxIn)
            → get_elem? m.bundles i ≡ some b
            → get_elem? m.tx.inputs i ≡ some x
            → IsProved w.headers b x
        pub unspent :
            (i : ℕ) (x : TxIn)
            → get_elem? m.tx.inputs i ≡ some x
            → w.utxo.is_unspent x.prev ≡ ok true
        pub signed : (i : ℕ) → i < length m.tx.inputs → verify_input_signature crypto m.tx i ≡ true
        pub paid :
            (j : ℕ) (want : TxOut)
            → get_elem? template.outputs j ≡ some want
            → Paid want m.tx.outputs
        pub owned : liveness w.utxo m.tx.inputs true [] ≡ ok (true, owners)
        pub quiet : alert_quiet_for w owners policy.window ≡ true
        pub quiet_last :
            (bus : Bus) (op : Outpoint) (key : Bytes)
            → w.alerts ≡ some bus
            → last_key op m.tx.inputs ≡ some key
            → owner_alerted w.now policy.window key (recs_of op bus.seen) ≡ false
        pub funded : value_check w.oracle m.tx ≡ ok true
        pub small : le value_at_risk policy.tau ≡ true

      conclude-all :
          (policy : RiskPolicy Float le) (value_at_risk : Float) (d : Decision)
          → d.accepted ≡ false
          → (conclude crypto Float le policy value_at_risk d).accepted ≡ true
          → (d.inclusion_ok ≡ true)
            × (d.all_unspent ≡ true)
            × (d.alert_quiet ≡ true)
            × (d.signatures_ok ≡ true)
            × (d.template_ok ≡ true)
            × (d.value_ok ≡ true)
            × (le value_at_risk policy.tau ≡ true)
      unfolding conclude decide
      conclude-all policy value_at_risk d no_yet h = (
        ground arith,
        ground arith,
        ground arith,
        ground arith,
        ground arith,
        ground arith,
        ground arith,
      )

      -- Every payment that AcceptPayment accepts, whatever the till's view, client, oracle and alerts,
      -- decodes to a transaction with a bundle for each input, and each bundle verifies and is about
      -- the output that its input spends; each input is unspent and signed; where the till has an
      -- alert bus, QuietForOwners is true of the map that the inputs leave, so for every outpoint that
      -- they spend no alert of the window counts against the key of the last input that spends it
      -- (that of an earlier input that names the same outpoint is not looked at); every requested
      -- output is among its outputs; its values pass the check of the sums; and the value at risk is
      -- within the policy. So inclusion alone is never enough.
      pub accept_payment-IsSafe :
          (w : Till) (msg : Bytes) (template : Tx3) (value_at_risk : Float)
          (policy : RiskPolicy Float le) (d : Decision)
          → accept_payment crypto Float le w msg template value_at_risk policy ≡ ok d
          → d.accepted ≡ true
          → IsSafe w msg template value_at_risk policy
      unfolding accept_payment template_satisfied
      accept_payment-IsSafe w msg template value_at_risk policy d h taken =
          let (m, decodes, rest) = >>=-eq-ok (decode_message msg) _ h in counted m decodes rest
        where
          drafted : Message → Bool × List Owner → Bool → Decision
          drafted m live value_ok = record {
            accepted = false;
            reason = (inclusion w.headers m.bundles m.tx.inputs).1;
            inclusion_ok = (inclusion w.headers m.bundles m.tx.inputs).0;
            all_unspent = live.0;
            alert_quiet = alert_quiet_for w live.1 policy.window;
            signatures_ok = signatures crypto m.tx (length m.tx.inputs) 0;
            template_ok = outputs_satisfied template.outputs m.tx.outputs;
            value_ok = value_ok;
          }

          concluded :
              (m : Message) (live : Bool × List Owner) (value_ok : Bool)
              → decode_message msg ≡ ok m
              → length m.bundles ≡ length m.tx.inputs
              → liveness w.utxo m.tx.inputs true [] ≡ ok live
              → value_check w.oracle m.tx ≡ ok value_ok
              → (conclude crypto Float le policy value_at_risk (drafted m live value_ok)).accepted
                ≡ true
              → IsSafe w msg template value_at_risk policy
          concluded m (all, owners) value_ok decodes same lived valued taken =
              let (included, free, quiet, signed, paid, funded, small) =
                conclude-all policy value_at_risk (drafted m (all, owners) value_ok) refl taken in
              let owned : liveness w.utxo m.tx.inputs true [] ≡ ok (true, owners) =
                lived ∙ ap (λ b. ok (b, owners)) free in
              record {
                m = m;
                owners = owners;
                decodes = decodes;
                same_count = same;
                proved = λ i b x at at'.
                    inclusion-IsProved w.headers m.bundles m.tx.inputs i b x included at at';
                unspent = (liveness-unspent w.utxo m.tx.inputs true [] owners owned).1;
                signed = λ i less.
                    let e : 0 + i ≡ i = omega arith in
                    subst (λ n. verify_input_signature crypto m.tx n ≡ true) e
                      (signatures-each m.tx (length m.tx.inputs) 0 i signed less);
                paid = λ j want at.
                    outputs_satisfied-Paid template.outputs m.tx.outputs j want paid at;
                owned = owned;
                quiet = quiet;
                quiet_last = λ bus op key on_bus last.
                    liveness-quiet w.utxo m.tx.inputs true owners w.now policy.window bus op key
                      owned (quiet_of w bus owners policy.window on_bus quiet) last;
                funded = valued ∙ ap ok funded;
                small = small;
              }

          counted :
              (m : Message)
              → decode_message msg ≡ ok m
              → (if not (length m.bundles == length m.tx.inputs)
                  then err count_mismatch
                  else (liveness w.utxo m.tx.inputs true [] >>= λ live.
                      value_check w.oracle m.tx >>= λ value_ok.
                      ok (conclude crypto Float le policy value_at_risk (drafted m live value_ok))))
                ≡ ok d
              → IsSafe w msg template value_at_risk policy
          counted m decodes e = elim (Bool-cases (length m.bundles == length m.tx.inputs)) [
            | inr other ↦ cc (rw other at e)
            | inl same ↦
                (let (live, lived, rest) =
                    >>=-eq-ok (liveness w.utxo m.tx.inputs true []) _ (rw same at e) in
                  let (value_ok, valued, last) = >>=-eq-ok (value_check w.oracle m.tx) _ rest in
                  let is_d : conclude crypto Float le policy value_at_risk (drafted m live value_ok)
                      ≡ d =
                    cc in
                  concluded m live value_ok decodes (ground (arith, same)) lived valued
                    (ap (λ x. x.accepted) is_d ∙ taken))
          ]
