-- ===== src/Tests/Payments.antt =====
-- The payment message at a concrete message, and the preimage.
use mfspv.Base.{
  ℕ, ◌^◌, ◌<◌, ◌≡◌, refl, [], ◌∷◌, ◌++◌, Bytes, length, map, replicate, err, ok, trailing_bytes,
  arith, le_bytes,
}
use mfspv.Bundle.Codec.{
  serialize, put_core, put_optional, put_fields, put_leaves, put_path, put_elems,
}
use mfspv.Payment.Types.{Tx3, Message}
use mfspv.Payment.Codec.{encode, decode_message}
use mfspv.Payment.RoundTrip.{IsWireMessage, decode_message-encode}
use mfspv.Payment.Sighash.{blank, IsSigned, preimage-injective}
use mfspv.Tests.Sample.{hash_of}
use mfspv.Tests.Bundles.{carried, carried-IsWire}

abbrev sample_tx : Tx3
sample_tx = record {
  version = 2;
  inputs =
      record {
        prev = record { txid = hash_of 4; vout = 65537 };
        sig = replicate 64 8;
        pub_key = replicate 33 3;
      }
      ∷ [];
  outputs = record { value = 5000; script_pub_key = 118 ∷ 169 ∷ [] } ∷ [];
  lock_time = 0;
}

abbrev message : Message
message = record { tx = sample_tx; bundles = carried ∷ [] }

carried_short : length (serialize carried) < 2 ^ 32
unfolding serialize put_core put_optional put_fields put_leaves put_path put_elems le_bytes
carried_short = omega arith

message-IsWireMessage : IsWireMessage message
message-IsWireMessage = record {
  tx = record {
    version = omega arith;
    few_inputs = omega arith;
    inputs =
        (record { txid = refl; vout = omega arith; sig = omega arith; pub_key = omega arith }, tt);
    few_outputs = omega arith;
    outputs = (record { value = omega arith; script = omega arith }, tt);
    lock_time = omega arith;
  };
  few_bundles = omega arith;
  bundles = (record { wire = carried-IsWire; short = carried_short }, tt);
}

decode_message-encode_example :
    (decode_message (encode message) ≡ ok message)
    × ((x : ℕ) (t : Bytes) → decode_message (encode message ++ (x ∷ t)) ≡ err trailing_bytes)
decode_message-encode_example = decode_message-encode message message-IsWireMessage

sample_tx-IsSigned : IsSigned sample_tx
sample_tx-IsSigned = record {
  version = omega arith;
  few_inputs = omega arith;
  inputs = (record { txid = refl; vout = omega arith; pub_key = refl }, tt);
  few_outputs = omega arith;
  outputs = (record { value = omega arith; script = omega arith }, tt);
  lock_time = omega arith;
}

abbrev index_zero : ℕ
index_zero = 0

preimage-injective_example :
    (sample_tx.version ≡ sample_tx.version)
    × (map blank sample_tx.inputs ≡ map blank sample_tx.inputs)
    × (sample_tx.outputs ≡ sample_tx.outputs)
    × (sample_tx.lock_time ≡ sample_tx.lock_time)
    × (index_zero ≡ index_zero)
preimage-injective_example =
    preimage-injective sample_tx sample_tx index_zero index_zero sample_tx-IsSigned
      sample_tx-IsSigned (omega arith) (omega arith) refl
