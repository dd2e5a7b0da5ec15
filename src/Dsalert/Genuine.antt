-- ===== src/Dsalert/Genuine.antt =====
-- Evidence that an owner really signed is admitted once it is attested.
use mfspv.Base.{
  ℕ, zero, suc, ◌+◌, ◌%◌, ◌^◌, ◌≤◌, ◌≡◌, ◌≢◌, refl, inl, inr, true, false, Bool-cases, Bytes,
  bytes_eq, bytes_eq→eq, le_bytes, some, ok, ltb, subst, arith,
}
use mfspv.Commitment.Hashing.{Sha256, Hash, zero_hash}
use mfspv.Teranode.Source.{Outpoint}
use mfspv.Crypto.{Signatures, SignatureLaws}
use mfspv.Dsalert.Alert.{
  ConflictEvidence, Alert, pow_bits, leading_zero_bits, spend_message, alert_digest, attest_from,
  attest, sign_spend, build_evidence, canonical, verify_alert,
}

bytes_eq_of_ne : (a b : Bytes) → a ≢ b → bytes_eq a b ≡ false
bytes_eq_of_ne a b differ = elim (Bool-cases (bytes_eq a b)) [
  | inl same ↦ absurd (differ (bytes_eq→eq a b same))
  | inr other ↦ other
]

module _ ⦃sha : Sha256⦄ where
  abbrev pub with_nonce : Outpoint → ConflictEvidence → ℕ → Alert
  with_nonce out ev nonce = record {
    outpoint = out;
    evidence = ev;
    attester_pow = le_bytes 8 (nonce % 2 ^ 64);
  }

  -- The result of the search: the alert with some nonce whose digest has the bits.
  record Attested (fuel nonce : ℕ) (out : Outpoint) (ev : ConflictEvidence) : Type 0 where
    at : ℕ
    found : attest_from fuel nonce out ev ≡ some (with_nonce out ev at)
    works : ltb (leading_zero_bits (alert_digest (with_nonce out ev at))) pow_bits ≡ false

  attest_from-Attested :
      (steps nonce : ℕ) (out : Outpoint) (ev : ConflictEvidence)
      → pow_bits ≤ leading_zero_bits (alert_digest (with_nonce out ev (nonce + steps)))
      → Attested (suc steps) nonce out ev
  unfolding attest_from
  attest_from-Attested zero nonce out ev enough =
      let here : pow_bits ≤ leading_zero_bits (alert_digest (with_nonce out ev nonce)) =
        subst (λ n. pow_bits ≤ leading_zero_bits (alert_digest (with_nonce out ev n))) (omega arith)
          enough in
      record { at = nonce; found = ground (arith, here); works = ground (arith, here) }
  attest_from-Attested (suc steps) nonce out ev enough =
      elim (Bool-cases
        (ltb (leading_zero_bits (alert_digest (with_nonce out ev nonce))) pow_bits)) [
          | inl short ↦
              (let more = attest_from-Attested steps (suc nonce) out ev (
                  subst (λ n. pow_bits ≤ leading_zero_bits (alert_digest (with_nonce out ev n)))
                    (omega arith) enough) in
                record {
                  at = more.at;
                  found = ground (arith, short, more.found);
                  works = more.works;
                })
          | inr meets ↦ record { at = nonce; found = ground (arith, meets); works = meets }
        ]

  module _ (crypto : Signatures) (laws : SignatureLaws crypto) where
    canonical-serialize :
        (key : crypto.PrivateKey) (h : Hash) (sig : crypto.Signature)
        → crypto.sign key h ≡ ok sig
        → canonical crypto (crypto.serialize sig) ≡ some sig
    unfolding canonical
    canonical-serialize key h sig signed =
        rw (canonical, laws.parse_sig sig, laws.low_s key h sig signed) refl

    -- What an owner's two signatures make.
    abbrev pub evidence_of :
        crypto.PrivateKey → Hash → Hash → crypto.Signature → crypto.Signature → ConflictEvidence
    evidence_of key spend_a spend_b sig_a sig_b = record {
      owner_pub_key = crypto.serialize_compressed (crypto.public_of key);
      spend_a = spend_a;
      sig_a = crypto.serialize sig_a;
      spend_b = spend_b;
      sig_b = crypto.serialize sig_b;
    }

    -- Where the signatures keep the laws of their package, an owner who signs two different spends
    -- of one output, neither of them the zero digest, builds the evidence; and where the digest of
    -- the alert with some nonce has the bits, the search for a nonce ends by then, with an alert that
    -- VerifyAlert admits.
    pub genuine-verify_alert :
        (key : crypto.PrivateKey) (out : Outpoint) (spend_a spend_b : Hash)
        (sig_a sig_b : crypto.Signature) (nonce : ℕ)
        → spend_a ≢ spend_b
        → spend_a ≢ zero_hash
        → spend_b ≢ zero_hash
        → crypto.sign key (spend_message out spend_a) ≡ ok sig_a
        → crypto.sign key (spend_message out spend_b) ≡ ok sig_b
        → pow_bits
          ≤ leading_zero_bits
              (alert_digest (with_nonce out (evidence_of key spend_a spend_b sig_a sig_b) nonce))
        → (build_evidence crypto key out spend_a spend_b
            ≡ ok (evidence_of key spend_a spend_b sig_a sig_b))
          × ((a : Alert) × (attest (suc nonce) out (evidence_of key spend_a spend_b sig_a sig_b)
                ≡ some a)
              × (verify_alert crypto a ≡ true))
    unfolding build_evidence sign_spend attest verify_alert
    genuine-verify_alert key out spend_a spend_b sig_a sig_b nonce differ full_a full_b signed_a
          signed_b enough =
        let ev = evidence_of key spend_a spend_b sig_a sig_b in
        let t = attest_from-Attested nonce 0 out ev (
          subst (λ n. pow_bits ≤ leading_zero_bits (alert_digest (with_nonce out ev n)))
            (omega arith) enough) in
        let weak : ltb (leading_zero_bits (alert_digest (with_nonce out ev t.at))) pow_bits
            ≡ false =
          t.works in
        (
          rw (signed_a, signed_b) refl,
          (
            with_nonce out ev t.at,
            t.found,
            rw
                (
                  verify_alert,
                  bytes_eq_of_ne spend_a spend_b differ,
                  bytes_eq_of_ne spend_a zero_hash full_a,
                  bytes_eq_of_ne spend_b zero_hash full_b,
                  laws.parse_key key,
                  canonical-serialize key (spend_message out spend_a) sig_a signed_a,
                  canonical-serialize key (spend_message out spend_b) sig_b signed_b,
                  laws.signed key (spend_message out spend_a) sig_a signed_a,
                  laws.signed key (spend_message out spend_b) sig_b signed_b,
                  weak,
                )
                refl,
          ),
        )
