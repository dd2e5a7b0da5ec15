-- ===== src/Tests/Tills.antt =====
-- The till at an accepted payment.
use mfspv.Base.{
  ℕ, ◌+◌, ◌^◌, ◌<◌, ◌≡◌, refl, true, [], ◌∷◌, length, replicate, some, none, ok, arith, leb,
  bytes_eq, le_bytes,
}
use mfspv.Commitment.Hashing.{Hash, leaf_hash, double_sha256, fold}
use mfspv.Commitment.Fields.{leaf_for_field}
use mfspv.Bundle.Types.{Bundle, header_merkle_root}
use mfspv.Bundle.Codec.{
  serialize, put_core, put_optional, put_fields, put_leaves, put_path, put_elems,
}
use mfspv.Bundle.Verify.{verify, on_chain}
use mfspv.Payment.Types.{Tx3, Message}
use mfspv.Payment.Codec.{encode, put_out, put_sized, each}
use mfspv.Payment.RoundTrip.{IsWireMessage, decode_message-encode}
use mfspv.Payment.Sighash.{put_signed_in, preimage, sighash, verify_input_signature}
use mfspv.Dsalert.Bus.{new_bus, quiet_for_owners, owner_alerted, recs_of}
use mfspv.Walletbob.Till.{
  Decision, accepted_payment, no_reason, has_output, outputs_satisfied, template_satisfied,
  set_owner, liveness, sum_in, sum_out, value_check, RiskPolicy, decide, Till, inclusion,
  alert_quiet_for, signatures, conclude, accept_payment,
}
use mfspv.Walletbob.Safety.{IsSafe, accept_payment-IsSafe}
use mfspv.Teranode.Source.{ValueOracle}
use mfspv.Walletbob.Sums.{total_out, total_in, value_check-conserves}
use mfspv.Tests.Sample.{toy_sha, toy_crypto, toy_sum, field_of_byte, checksum}
use mfspv.Tests.Bundles.{header_of, all_headers}

-- A transaction of one field, alone in its block.
abbrev txid : Hash
txid = toy_sum (toy_sum (1 ∷ 1 ∷ 9 ∷ []))

abbrev pub bundle : Bundle
bundle = record {
  output_ref = record { txid = txid; vout = 0 };
  fields = field_of_byte 1 ∷ [];
  mtxid_path = [];
  subtree_path = [];
  block_path = [];
  header = header_of txid;
  anchor = none;
}

abbrev pub unsigned : Tx3
unsigned = record {
  version = 1;
  inputs =
      record { prev = record { txid = txid; vout = 0 }; sig = []; pub_key = 5 ∷ replicate 32 1 }
      ∷ [];
  outputs = record { value = 700; script_pub_key = 118 ∷ [] } ∷ [];
  lock_time = 0;
}

abbrev pub signed : Tx3
signed = record unsigned {
  inputs =
      record {
        prev = record { txid = txid; vout = 0 };
        sig = (5 + checksum 5 (toy_sum (toy_sum (preimage unsigned 0)))) ∷ replicate 63 0;
        pub_key = 5 ∷ replicate 32 1;
      }
      ∷ [];
}

abbrev pub paid_message : Message
paid_message = record { tx = signed; bundles = bundle ∷ [] }

abbrev pub till : Till
till = record {
  headers = some all_headers;
  utxo = record { is_unspent = λ o. ok true };
  oracle = some (record { output_value = λ o. ok (1000, true) });
  alerts = some new_bus;
  now = 50;
}

abbrev pub policy : RiskPolicy ℕ leb
policy = record { tau = 800; window = 20 }

abbrev decision : Decision
decision = record {
  accepted = true;
  reason = accepted_payment;
  inclusion_ok = true;
  all_unspent = true;
  alert_quiet = true;
  signatures_ok = true;
  template_ok = true;
  value_ok = true;
}

bundle_short : length (serialize bundle) < 2 ^ 32
unfolding serialize put_core put_optional put_fields put_leaves put_path put_elems le_bytes
bundle_short = omega arith

pub paid_message-IsWireMessage : IsWireMessage paid_message
paid_message-IsWireMessage = record {
  tx = record {
    version = omega arith;
    few_inputs = omega arith;
    inputs =
        (record { txid = refl; vout = omega arith; sig = omega arith; pub_key = omega arith }, tt);
    few_outputs = omega arith;
    outputs = (record { value = omega arith; script = omega arith }, tt);
    lock_time = omega arith;
  };
  few_bundles = omega arith;
  bundles = (
    record {
      wire = record {
        txid = refl;
        vout = omega arith;
        fields = omega arith;
        mtxid_path = omega arith;
        subtree_path = omega arith;
        block_path = omega arith;
        header = refl;
        anchor = tt;
      };
      short = bundle_short;
    },
    tt,
  );
}

pub included : inclusion (some all_headers) (bundle ∷ []) signed.inputs ≡ (true, no_reason)
unfolding inclusion verify fold leaf_for_field leaf_hash double_sha256 header_merkle_root on_chain
    bytes_eq
included = refl

pub in_order : signatures toy_crypto signed 1 0 ≡ true
unfolding signatures verify_input_signature sighash preimage put_signed_in put_out put_sized each
    double_sha256 le_bytes
in_order = refl

accepted_run :
    accept_payment toy_crypto ℕ leb till (encode paid_message) unsigned 700 policy ≡ ok decision
unfolding accept_payment has_output outputs_satisfied template_satisfied set_owner liveness sum_in
    sum_out value_check decide alert_quiet_for conclude quiet_for_owners owner_alerted recs_of
    bytes_eq
accepted_run =
    rw
      (
        accept_payment,
        (decode_message-encode paid_message paid_message-IsWireMessage).0,
        included,
        in_order,
      )
      refl

accept_payment-IsSafe_example :
    IsSafe toy_crypto ℕ leb till (encode paid_message) unsigned 700 policy
accept_payment-IsSafe_example =
    accept_payment-IsSafe toy_crypto ℕ leb till (encode paid_message) unsigned 700 policy decision
      accepted_run refl

abbrev thousand : ValueOracle
thousand = record { output_value = λ op. ok (1000, true) }

-- Outputs with a total of 2^64 from an input of 1000.
wrapped_total_passes :
    value_check (some thousand) (record signed {
      outputs =
          record { value = 2 ^ 63; script_pub_key = [] }
          ∷ record { value = 2 ^ 63; script_pub_key = [] }
          ∷ [];
    })
    ≡ ok true
unfolding value_check sum_in sum_out
wrapped_total_passes = refl

-- 700 from 1000.
value_check-conserves_example : value_check (some thousand) signed ≡ ok (leb 700 1000)
unfolding total_in total_out
value_check-conserves_example =
    value_check-conserves thousand (λ op. 1000) signed
      (record { unspent = true; answers = refl }, tt) (omega arith) (omega arith)
