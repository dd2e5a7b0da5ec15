-- ===== src/Walletbob/Sums.antt =====
-- The check of AcceptPayment that the inputs pay for the outputs, against the totals without a bound.
use mfspv.Base.{
  ℕ, ◌+◌, ◌%◌, ◌^◌, ◌<◌, ◌≡◌, refl, ap, ◌∙◌, Bool, List, [], ◌∷◌, All, some, ok, leb, arith,
}
use mfspv.Teranode.Source.{Outpoint, ValueOracle}
use mfspv.Payment.Types.{TxIn, TxOut, Tx3}
use mfspv.Walletbob.Till.{sum_in, sum_out, value_check}

-- The value of a list of outputs.
unfoldable pub total_out : List TxOut → ℕ
total_out [] = 0
total_out (o ∷ outs) = o.value + total_out outs

-- The value of the outputs that a list of inputs spends, where `value` gives that of each.
unfoldable pub total_in : (Outpoint → ℕ) → List TxIn → ℕ
total_in value [] = 0
total_in value (x ∷ inputs) = value x.prev + total_in value inputs

-- The oracle's answer for the output that an input spends.
pub record Answers (oracle : ValueOracle) (value : Outpoint → ℕ) (x : TxIn) : Type 0 where
  pub unspent : Bool
  pub answers : oracle.output_value x.prev ≡ ok (value x.prev, unspent)

sum_out-from :
    (outs : List TxOut) (acc : ℕ)
    → acc < 2 ^ 64
    → sum_out outs acc ≡ (acc + total_out outs) % 2 ^ 64
unfolding sum_out total_out
sum_out-from [] acc small = omega arith
sum_out-from (o ∷ outs) acc small =
    omega (arith, sum_out-from outs ((acc + o.value) % 2 ^ 64) (omega arith))

sum_in-from :
    (oracle : ValueOracle) (value : Outpoint → ℕ) (inputs : List TxIn) (acc : ℕ)
    → All (Answers oracle value) inputs
    → acc < 2 ^ 64
    → sum_in oracle inputs acc ≡ ok ((acc + total_in value inputs) % 2 ^ 64)
unfolding sum_in total_in
sum_in-from oracle value [] acc known small =
    let e : acc ≡ (acc + 0) % 2 ^ 64 = omega arith in ap ok e
sum_in-from oracle value (x ∷ inputs) acc (k, known) small =
    let e : ((acc + value x.prev) % 2 ^ 64 + total_in value inputs) % 2 ^ 64
        ≡ (acc + (value x.prev + total_in value inputs)) % 2 ^ 64 =
      omega arith in
    rw k.answers (
      sum_in-from oracle value inputs ((acc + value x.prev) % 2 ^ 64) known (omega arith) ∙ ap ok e)

-- The comparison is that of the totals modulo 2^64.
pub value_check-wraps :
    (oracle : ValueOracle) (value : Outpoint → ℕ) (tx : Tx3)
    → All (Answers oracle value) tx.inputs
    → value_check (some oracle) tx
      ≡ ok (leb (total_out tx.outputs % 2 ^ 64) (total_in value tx.inputs % 2 ^ 64))
unfolding value_check
value_check-wraps oracle value tx known =
    let zero_in : 0 + total_in value tx.inputs ≡ total_in value tx.inputs = omega arith in
    let zero_out : 0 + total_out tx.outputs ≡ total_out tx.outputs = omega arith in
    rw
      (
        sum_in-from oracle value tx.inputs 0 known (omega arith),
        sum_out-from tx.outputs 0 (omega arith),
        zero_in,
        zero_out,
      )
      refl

-- Where the oracle answers for every input, and the values of the inputs and those of the outputs
-- each have a total below 2^64, the check of AcceptPayment gives no error, and it passes exactly when
-- the total of the outputs is at most that of the inputs.
pub value_check-conserves :
    (oracle : ValueOracle) (value : Outpoint → ℕ) (tx : Tx3)
    → All (Answers oracle value) tx.inputs
    → total_in value tx.inputs < 2 ^ 64
    → total_out tx.outputs < 2 ^ 64
    → value_check (some oracle) tx ≡ ok (leb (total_out tx.outputs) (total_in value tx.inputs))
value_check-conserves oracle value tx known few_in few_out =
    let e : total_out tx.outputs % 2 ^ 64 ≡ total_out tx.outputs = omega arith in
    let e' : total_in value tx.inputs % 2 ^ 64 ≡ total_in value tx.inputs = omega arith in
    value_check-wraps oracle value tx known ∙ ap ok (rw (e, e') refl)
