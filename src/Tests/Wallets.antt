-- ===== src/Tests/Wallets.antt =====
-- A payment from the wallet that signs to the till that accepts it.
use mfspv.Base.{ℕ, ◌≡◌, refl, true, [], ◌∷◌, none, some, ok, replicate, leb, bytes_eq, le_bytes}
use mfspv.Commitment.Hashing.{double_sha256, fold, leaf_hash}
use mfspv.Commitment.Fields.{leaf_for_field}
use mfspv.Bundle.Types.{header_merkle_root}
use mfspv.Bundle.Verify.{verify, on_chain}
use mfspv.Payment.Codec.{encode, each, put_out, put_sized}
use mfspv.Payment.Sighash.{put_signed_in, preimage, sighash}
use mfspv.Dsalert.Bus.{Owner, outpoint_eq, quiet_for_owners, owner_alerted, recs_of}
use mfspv.Walletbob.Till.{
  Decision, set_owner, liveness, sum_in, sum_out, value_check, alert_quiet_for, accept_payment,
}
use mfspv.Walletalice.Wallet.{
  Wallet, new, add_output, key_at, out_key_of, attach, sign, sign_held, set_sig, sign_inputs,
  with_change, fill_template, all_reveal, export,
}
use mfspv.Walletalice.Signing.{IsFilled, fill_template-IsFilled}
use mfspv.Walletalice.Paying.{IsVerified, export-accept_payment}
use mfspv.Tests.Sample.{toy_sha, toy_crypto, toy_laws}
use mfspv.Tests.Tills.{
  bundle, unsigned, signed, paid_message, paid_message-IsWireMessage, till, policy,
}

abbrev wallet : Wallet toy_crypto
wallet = add_output toy_crypto (new toy_crypto) bundle (some 5)

fills : fill_template toy_crypto wallet unsigned (bundle ∷ []) none 0 ≡ ok signed
unfolding new add_output key_at out_key_of attach sign sign_held set_sig sign_inputs with_change
    fill_template sighash preimage put_signed_in put_out put_sized each double_sha256 le_bytes
    outpoint_eq bytes_eq
fills = refl

exports : export (bundle ∷ []) signed ≡ ok (encode paid_message)
unfolding export all_reveal
exports = refl

verifies : IsVerified till.headers bundle
unfolding verify fold leaf_for_field leaf_hash double_sha256 header_merkle_root on_chain bytes_eq
verifies = refl

abbrev owner : Owner
owner = record {
  outpoint = record { txid = bundle.output_ref.txid; vout = 0 };
  key = 5 ∷ replicate 32 1;
}

lives : liveness till.utxo signed.inputs true [] ≡ ok (true, owner ∷ [])
unfolding liveness set_owner
lives = refl

quiet : alert_quiet_for till (owner ∷ []) policy.window ≡ true
unfolding alert_quiet_for quiet_for_owners owner_alerted recs_of
quiet = refl

pays : value_check till.oracle signed ≡ ok true
unfolding value_check sum_in sum_out
pays = refl

signed-IsFilled : IsFilled toy_crypto wallet unsigned (bundle ∷ []) none 0 signed
signed-IsFilled =
    fill_template-IsFilled toy_crypto wallet unsigned (bundle ∷ []) none 0 signed toy_laws fills

export-accept_payment_example :
    (d : Decision) × (accept_payment toy_crypto ℕ leb till (encode paid_message) unsigned 700 policy
      ≡ ok d)
    × (d.accepted ≡ true)
export-accept_payment_example =
    export-accept_payment toy_crypto ℕ leb wallet unsigned signed (bundle ∷ []) none 0
      (encode paid_message) till 700 policy (owner ∷ []) toy_laws fills exports
      paid_message-IsWireMessage (verifies, tt) lives quiet pays refl
