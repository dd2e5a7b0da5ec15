-- ===== src/Dsalert/Alert.antt =====
-- The alerts of dsalert/dsalert.go: spendMessage, SignSpend, alertDigest, leadingZeroBits,
-- BuildEvidence, Attest and VerifyAlert. Outpoint has the fields of teranode's, and is that record.
use mfspv.Base.{
  ℕ, zero, suc, ◌+◌, ◌/◌, ◌%◌, ◌^◌, Bool, true, false, not, ◌||◌, [], ◌∷◌, ◌++◌, Bytes, bytes_eq,
  le_bytes, Option, none, some, Result, ok, err, ◌>>=◌, ltb, ◌==◌, if◌then◌else◌,
}
use mfspv.Commitment.Hashing.{Sha256, Hash, zero_hash, double_sha256}
use mfspv.Teranode.Source.{Outpoint}
use mfspv.Crypto.{Signatures}

pub record ConflictEvidence : Type 0 where
  pub owner_pub_key : Bytes
  pub spend_a : Hash
  pub sig_a : Bytes
  pub spend_b : Hash
  pub sig_b : Bytes

pub record Alert : Type 0 where
  pub outpoint : Outpoint
  pub evidence : ConflictEvidence
  pub attester_pow : Bytes

abbrev pub pow_bits : ℕ
pow_bits = 12

-- The bits of one byte that are 0, from bit `k - 1` down to the first 1.
unfoldable pub byte_zeros : ℕ → ℕ → ℕ
byte_zeros zero b = 0
byte_zeros (suc bit) b = let rest = byte_zeros bit b in if b / 2 ^ bit % 2 == 0 then suc rest else 0

-- A byte that is not 0 ends the count.
unfoldable pub leading_zero_bits : Hash → ℕ
leading_zero_bits [] = 0
leading_zero_bits (b ∷ h) =
    let rest = leading_zero_bits h in if b == 0 then 8 + rest else byte_zeros 8 b

module _ ⦃sha : Sha256⦄ where
  unfoldable pub spend_message : Outpoint → Hash → Hash
  spend_message out spend_tx = double_sha256 (out.txid ++ (le_bytes 4 out.vout ++ spend_tx))

  unfoldable pub alert_digest : Alert → Hash
  alert_digest a = double_sha256 (
      a.outpoint.txid
      ++ (le_bytes 4 a.outpoint.vout
          ++ (a.evidence.owner_pub_key
              ++ (a.evidence.spend_a
                  ++ (a.evidence.sig_a
                      ++ (a.evidence.spend_b ++ (a.evidence.sig_b ++ a.attester_pow)))))))

  -- The search for a nonce, on fuel: it ends when a digest has the bits, which nothing bounds.
  unfoldable pub attest_from : ℕ → ℕ → Outpoint → ConflictEvidence → Option Alert
  attest_from zero nonce out ev = none
  attest_from (suc fuel) nonce out ev =
      let a : Alert = record {
        outpoint = out;
        evidence = ev;
        attester_pow = le_bytes 8 (nonce % 2 ^ 64);
      } in
      let later = attest_from fuel (suc nonce) out ev in
      if ltb (leading_zero_bits (alert_digest a)) pow_bits then later else some a

  unfoldable pub attest : ℕ → Outpoint → ConflictEvidence → Option Alert
  attest fuel out ev = attest_from fuel 0 out ev

  module _ (crypto : Signatures) where
    unfoldable pub sign_spend : crypto.PrivateKey → Outpoint → Hash → Result Bytes
    sign_spend key out spend_tx = do
      sig ← crypto.sign key (spend_message out spend_tx)
      ok (crypto.serialize sig)

    unfoldable pub build_evidence :
        crypto.PrivateKey → Outpoint → Hash → Hash → Result ConflictEvidence
    build_evidence key out spend_a spend_b = do
      sig_a ← sign_spend key out spend_a
      sig_b ← sign_spend key out spend_b
      ok (record {
        owner_pub_key = crypto.serialize_compressed (crypto.public_of key);
        spend_a = spend_a;
        sig_a = sig_a;
        spend_b = spend_b;
        sig_b = sig_b;
      })

    -- `ParseSignature`, and the check that S is low.
    unfoldable pub canonical : Bytes → Option crypto.Signature
    canonical b = elim (crypto.parse_signature b) [
      | err e ↦ none
      | ok sig ↦ if crypto.is_low_s sig then some sig else none
    ]

    unfoldable pub verify_alert : Alert → Bool
    verify_alert a =
        let ev = a.evidence in
        if bytes_eq ev.spend_a ev.spend_b
        then false
        else if bytes_eq ev.spend_a zero_hash || bytes_eq ev.spend_b zero_hash
        then false
        else elim (crypto.parse_compressed ev.owner_pub_key) [
          | err e ↦ false
          | ok key ↦ elim (canonical ev.sig_a) [
            | none ↦ false
            | some sig_a ↦ elim (canonical ev.sig_b) [
              | none ↦ false
              | some sig_b ↦
                  if not (crypto.verify key (spend_message a.outpoint ev.spend_a) sig_a)
                    || not (crypto.verify key (spend_message a.outpoint ev.spend_b) sig_b)
                  then false
                  else if ltb (leading_zero_bits (alert_digest a)) pow_bits
                  then false
                  else true
            ]
          ]
        ]
