-- ===== src/Dsalert/Evidence.antt =====
-- What stands on the bus: every recorded alert shows a double spend that its owner signed.
use mfspv.Base.{
  ℕ, ◌≡◌, ◌≢◌, refl, inl, inr, true, Bool-cases, List, [], ◌∷◌, All, All-append, Bytes, bytes_eq→eq,
  bytes_eq_refl, bytes_eq_ne, some, Option-cases, Result-cases, ok, subst, arith,
}
use mfspv.Commitment.Hashing.{Sha256}
use mfspv.Teranode.Source.{Outpoint}
use mfspv.Crypto.{Signatures}
use mfspv.Dsalert.Alert.{Alert, spend_message, canonical, verify_alert}
use mfspv.Dsalert.Bus.{AlertRec, Seen, Bus, new_bus, outpoint_eq, record_seen, subscribe, publish}

pub outpoint_eq_refl : (op : Outpoint) → outpoint_eq op op ≡ true
unfolding outpoint_eq
outpoint_eq_refl op = ground (arith, bytes_eq_refl op.txid)

pub outpoint_eq→eq : (a b : Outpoint) → outpoint_eq a b ≡ true → a ≡ b
unfolding outpoint_eq
outpoint_eq→eq a b same =
    let txid : a.txid ≡ b.txid = bytes_eq→eq a.txid b.txid (ground arith) in
    let vout : a.vout ≡ b.vout = ground arith in λ i. record { txid = txid i; vout = vout i }

module _ ⦃sha : Sha256⦄ (crypto : Signatures) where
  -- The holder of one key signed two different spends of the outpoint, both with a low S.
  pub record IsDoubleSpend (op : Outpoint) (owner : Bytes) : Type 0 where
    pub alert : Alert
    pub key : crypto.PublicKey
    pub sig_a : crypto.Signature
    pub sig_b : crypto.Signature
    pub of_outpoint : outpoint_eq op alert.outpoint ≡ true
    pub of_owner : alert.evidence.owner_pub_key ≡ owner
    pub differ : alert.evidence.spend_a ≢ alert.evidence.spend_b
    pub parses : crypto.parse_compressed owner ≡ ok key
    pub signed_a :
        crypto.verify key (spend_message alert.outpoint alert.evidence.spend_a) sig_a ≡ true
    pub signed_b :
        crypto.verify key (spend_message alert.outpoint alert.evidence.spend_b) sig_b ≡ true
    pub low_a : crypto.is_low_s sig_a ≡ true
    pub low_b : crypto.is_low_s sig_b ≡ true

  canonical-low :
      (b : Bytes) (sig : crypto.Signature)
      → canonical crypto b ≡ some sig
      → crypto.is_low_s sig ≡ true
  unfolding canonical
  canonical-low b sig e = elim (Result-cases (crypto.parse_signature b)) [
    | inr (x, bad) ↦ cc (rw (canonical, bad) at e)
    | inl (s, good) ↦ elim (Bool-cases (crypto.is_low_s s)) [
      | inl low ↦ cc (low, rw (canonical, good, low) at e)
      | inr high ↦ cc (rw (canonical, good, high) at e)
    ]
  ]

  verify_alert-IsDoubleSpend :
      (a : Alert) → verify_alert crypto a ≡ true → IsDoubleSpend a.outpoint a.evidence.owner_pub_key
  unfolding verify_alert
  verify_alert-IsDoubleSpend a e =
      elim (Result-cases (crypto.parse_compressed a.evidence.owner_pub_key)) [
        | inr (x, bad) ↦ absurd (ground (arith, bad))
        | inl (key, parsed) ↦ elim (Option-cases (canonical crypto a.evidence.sig_a)) [
          | inl bad ↦ absurd (ground (arith, parsed, bad))
          | inr (sig_a, good_a) ↦ elim (Option-cases (canonical crypto a.evidence.sig_b)) [
            | inl bad ↦ absurd (ground (arith, parsed, good_a, bad))
            | inr (sig_b, good_b) ↦ record {
              alert = a;
              key = key;
              sig_a = sig_a;
              sig_b = sig_b;
              of_outpoint = outpoint_eq_refl a.outpoint;
              of_owner = refl;
              differ =
                  bytes_eq_ne a.evidence.spend_a a.evidence.spend_b
                    (ground (arith, parsed, good_a, good_b));
              parses = parsed;
              signed_a = ground (arith, parsed, good_a, good_b);
              signed_b = ground (arith, parsed, good_a, good_b);
              low_a = canonical-low a.evidence.sig_a sig_a good_a;
              low_b = canonical-low a.evidence.sig_b sig_b good_b;
            }
          ]
        ]
      ]

  abbrev IsEvidencedAt : Seen → Type 0
  IsEvidencedAt s = All (λ (r : AlertRec). IsDoubleSpend s.outpoint r.owner_pub) s.recs

  abbrev pub IsEvidenced : Bus → Type 0
  IsEvidenced b = All IsEvidencedAt b.seen

  -- The operations that change a bus, each at some time.
  pub data Step : Bus → Bus → Type 0 where
    subscribed : (b : Bus) → Step b (subscribe b)
    published : (b : Bus) (now : ℕ) (a : Alert) → Step b (publish crypto now b a).0

  pub data Reachable : Bus → Type 0 where
    start : Reachable new_bus
    next : {b b' : Bus} → Reachable b → Step b b' → Reachable b'

  record_seen-IsEvidenced :
      (op : Outpoint) (r : AlertRec) (seen : List Seen)
      → IsDoubleSpend op r.owner_pub
      → All IsEvidencedAt seen
      → All IsEvidencedAt (record_seen op r seen)
  unfolding record_seen
  record_seen-IsEvidenced op r [] d all = ((d, tt), tt)
  record_seen-IsEvidenced op r (s ∷ seen) d (here, rest) =
      elim (Bool-cases (outpoint_eq op s.outpoint)) [
        | inl same ↦
            rw (record_seen, same)
              (
                All-append (λ (x : AlertRec). IsDoubleSpend s.outpoint x.owner_pub) s.recs (r ∷ [])
                    here
                    (
                      subst (λ o. IsDoubleSpend o r.owner_pub) (outpoint_eq→eq op s.outpoint same)
                          d,
                      tt,
                    ),
                rest,
              )
        | inr other ↦ rw (record_seen, other) (here, record_seen-IsEvidenced op r seen d rest)
      ]

  subscribe-IsEvidenced : (b : Bus) → IsEvidenced b → IsEvidenced (subscribe b)
  unfolding subscribe
  subscribe-IsEvidenced b all = all

  publish-IsEvidenced :
      (now : ℕ) (b : Bus) (a : Alert) → IsEvidenced b → IsEvidenced (publish crypto now b a).0
  unfolding publish
  publish-IsEvidenced now b a all = elim (Bool-cases (verify_alert crypto a)) [
    | inl good ↦
        rw (publish, good)
          (record_seen-IsEvidenced a.outpoint
            (record { ts = now; owner_pub = a.evidence.owner_pub_key }) b.seen
            (verify_alert-IsDoubleSpend a good) all)
    | inr bad ↦ rw (publish, bad) all
  ]

  -- On every bus that subscriptions and publications make, whatever is published, every recorded
  -- alert shows a double spend: the recorded owner key signed two different spends of the recorded
  -- outpoint, both with a low S.
  pub Reachable-IsEvidenced : (b : Bus) → Reachable b → IsEvidenced b
  Reachable-IsEvidenced b start = tt
  Reachable-IsEvidenced b' (next r (subscribed b)) =
      subscribe-IsEvidenced b (Reachable-IsEvidenced b r)
  Reachable-IsEvidenced b' (next r (published b now a)) =
      publish-IsEvidenced now b a (Reachable-IsEvidenced b r)
