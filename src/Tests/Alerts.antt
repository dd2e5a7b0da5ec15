-- ===== src/Tests/Alerts.antt =====
-- The alerts at a concrete double spend.
use mfspv.Base.{
  ◌+◌, ◌≤◌, ◌≡◌, ◌≢◌, refl, true, false, [], ◌∷◌, replicate, some, ok, arith, bytes_eq, le_bytes,
}
use mfspv.Commitment.Hashing.{double_sha256}
use mfspv.Teranode.Source.{Outpoint}
use mfspv.Dsalert.Alert.{
  ConflictEvidence, Alert, pow_bits, byte_zeros, leading_zero_bits, spend_message, alert_digest,
  attest, build_evidence, verify_alert, canonical,
}
use mfspv.Dsalert.Bus.{new_bus, Owner, subscribe, publish, quiet_for_owners}
use mfspv.Dsalert.Genuine.{with_nonce, evidence_of, genuine-verify_alert}
use mfspv.Dsalert.Evidence.{IsEvidenced, start, next, subscribed, published, Reachable-IsEvidenced}
use mfspv.Dsalert.Quiet.{publish-quiet_for_owners, publish-alerts}
use mfspv.Tests.Sample.{toy_sha, toy_crypto, toy_laws, hash_of, checksum}

abbrev spent : Outpoint
spent = record { txid = hash_of 9; vout = 3 }

abbrev evidence : ConflictEvidence
evidence =
    evidence_of toy_crypto toy_laws 5 (hash_of 1) (hash_of 2)
      (5 + checksum 5 (spend_message spent (hash_of 1)))
      (5 + checksum 5 (spend_message spent (hash_of 2)))

one_ne_two : hash_of 1 ≢ hash_of 2
one_ne_two e = cc

bits_at : leading_zero_bits (alert_digest (with_nonce spent evidence 1)) ≡ 13
unfolding leading_zero_bits byte_zeros alert_digest double_sha256 spend_message le_bytes
bits_at = refl

enough_bits : pow_bits ≤ leading_zero_bits (alert_digest (with_nonce spent evidence 1))
enough_bits = omega (arith, bits_at)

genuine-verify_alert_example :
    (build_evidence toy_crypto 5 spent (hash_of 1) (hash_of 2) ≡ ok evidence)
    × ((a : Alert) × (attest 2 spent evidence ≡ some a) × (verify_alert toy_crypto a ≡ true))
genuine-verify_alert_example =
    genuine-verify_alert toy_crypto toy_laws 5 spent (hash_of 1) (hash_of 2)
      (5 + checksum 5 (spend_message spent (hash_of 1)))
      (5 + checksum 5 (spend_message spent (hash_of 2))) 1 one_ne_two (λ e. cc) (λ e. cc) refl refl
      enough_bits

abbrev alert : Alert
alert = with_nonce spent evidence 1

alert_good : verify_alert toy_crypto alert ≡ true
unfolding verify_alert canonical leading_zero_bits byte_zeros alert_digest double_sha256
    spend_message bytes_eq le_bytes
alert_good = refl

Reachable-IsEvidenced_example :
    IsEvidenced toy_crypto (publish toy_crypto 100 (subscribe new_bus) alert).0
Reachable-IsEvidenced_example =
    Reachable-IsEvidenced toy_crypto (publish toy_crypto 100 (subscribe new_bus) alert).0
      (next (next start (subscribed new_bus)) (published (subscribe new_bus) 100 alert))

abbrev honest : Owner
honest = record { outpoint = spent; key = 6 ∷ replicate 32 1 }

publish-quiet_for_owners_example :
    quiet_for_owners 120 (publish toy_crypto 100 new_bus alert).0 (honest ∷ []) 50
    ≡ quiet_for_owners 120 new_bus (honest ∷ []) 50
publish-quiet_for_owners_example =
    publish-quiet_for_owners toy_crypto 100 120 50 new_bus alert (honest ∷ [])
      ((λ same. ((λ e. cc), refl)), tt)

publish-alerts_example :
    quiet_for_owners 120
      (publish toy_crypto 100 new_bus alert).0
      (honest ∷ record { outpoint = spent; key = 5 ∷ replicate 32 1 } ∷ [])
      50
    ≡ false
publish-alerts_example =
    publish-alerts toy_crypto 100 120 50 new_bus alert (honest ∷ []) [] (omega arith) alert_good
