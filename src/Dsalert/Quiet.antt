-- ===== src/Dsalert/Quiet.antt =====
-- What a publication changes in the answers of QuietForOwners.
use mfspv.Base.{
  ℕ, ◌+◌, ◌<◌, ◌≡◌, ◌≢◌, refl, sym, ap, inl, inr, true, false, ◌||◌, Bool-cases, List, [], ◌∷◌,
  ◌++◌, All, Bytes, bytes_eq, bytes_eq→eq, bytes_eq_refl, length, ◌==◌, ◌∙◌, subst, arith,
}
use mfspv.Commitment.Hashing.{Sha256}
use mfspv.Teranode.Source.{Outpoint}
use mfspv.Crypto.{Signatures}
use mfspv.Dsalert.Alert.{Alert, verify_alert}
use mfspv.Dsalert.Bus.{
  AlertRec, Seen, Bus, Owner, outpoint_eq, recs_of, record_seen, recent, owner_alerted,
  quiet_for_owners, publish,
}
use mfspv.Dsalert.Evidence.{outpoint_eq_refl, outpoint_eq→eq}

outpoint_eq_sym : (a b : Outpoint) → outpoint_eq a b ≡ true → outpoint_eq b a ≡ true
outpoint_eq_sym a b same =
    subst (λ o. outpoint_eq o a ≡ true) (outpoint_eq→eq a b same) (outpoint_eq_refl a)

-- The records of the outpoint grow by one at the end, and those of any other stay.
recs_of-record_seen_same :
    (op : Outpoint) (r : AlertRec) (seen : List Seen)
    → recs_of op (record_seen op r seen) ≡ recs_of op seen ++ (r ∷ [])
unfolding recs_of record_seen
recs_of-record_seen_same op r [] = ground (arith, outpoint_eq_refl op)
recs_of-record_seen_same op r (s ∷ seen) = elim (Bool-cases (outpoint_eq op s.outpoint)) [
  | inl same ↦ rw (recs_of, record_seen, same) (rw (recs_of, same) refl)
  | inr other ↦
      rw (recs_of, record_seen, other) (rw (recs_of, other) (recs_of-record_seen_same op r seen))
]

recs_of-record_seen_other :
    (op op' : Outpoint) (r : AlertRec) (seen : List Seen)
    → outpoint_eq op op' ≡ false
    → recs_of op (record_seen op' r seen) ≡ recs_of op seen
unfolding recs_of record_seen
recs_of-record_seen_other op op' r [] other = ground (arith, other)
recs_of-record_seen_other op op' r (s ∷ seen) other =
    elim (Bool-cases (outpoint_eq op' s.outpoint)) [
      | inl same ↦ ground (
        arith,
        same,
        (subst (λ o. outpoint_eq op o ≡ false) (outpoint_eq→eq op' s.outpoint same) other),
      )
      | inr different ↦ ground (arith, different, recs_of-record_seen_other op op' r seen other)
    ]

owner_alerted-append :
    (now window : ℕ) (want : Bytes) (recs : List AlertRec) (r : AlertRec)
    → owner_alerted now window want (recs ++ (r ∷ []))
      ≡ (owner_alerted now window want recs || owner_alerted now window want (r ∷ []))
unfolding owner_alerted
owner_alerted-append now window want [] r = refl
owner_alerted-append now window want (x ∷ recs) r =
    ground (arith, owner_alerted-append now window want recs r)

owner_alerted-foreign :
    (now window : ℕ) (want : Bytes) (r : AlertRec)
    → (length want == 0) ≡ false
    → r.owner_pub ≢ want
    → owner_alerted now window want (r ∷ []) ≡ false
unfolding owner_alerted
owner_alerted-foreign now window want r full foreign =
    elim (Bool-cases (bytes_eq r.owner_pub want)) [
      | inl same ↦ absurd (foreign (bytes_eq→eq r.owner_pub want same))
      | inr other ↦ ground (arith, full, other)
    ]

-- The key of an owner of the outpoint is one that the alert is not signed with, and not empty.
abbrev pub IsForeign : Alert → Owner → Type 0
IsForeign a o =
    outpoint_eq o.outpoint a.outpoint ≡ true
    → (a.evidence.owner_pub_key ≢ o.key) × ((length o.key == 0) ≡ false)

module _ ⦃sha : Sha256⦄ (crypto : Signatures) where
  abbrev rec_of : ℕ → Alert → AlertRec
  rec_of now a = record { ts = now; owner_pub = a.evidence.owner_pub_key }

  publish_seen :
      (now : ℕ) (b : Bus) (a : Alert)
      → verify_alert crypto a ≡ true
      → (publish crypto now b a).0.seen ≡ record_seen a.outpoint (rec_of now a) b.seen
  unfolding publish
  publish_seen now b a good = ground (arith, good)

  alerted_after :
      (now then' window : ℕ) (b : Bus) (a : Alert) (o : Owner)
      → IsForeign a o
      → verify_alert crypto a ≡ true
      → owner_alerted then' window o.key (recs_of o.outpoint (publish crypto now b a).0.seen)
        ≡ owner_alerted then' window o.key (recs_of o.outpoint b.seen)
  alerted_after now then' window b a o foreign good =
      ap (λ l. owner_alerted then' window o.key (recs_of o.outpoint l)) (publish_seen now b a good)
      ∙ elim (Bool-cases (outpoint_eq o.outpoint a.outpoint)) [
        | inr other ↦
            ap (owner_alerted then' window o.key)
              (recs_of-record_seen_other o.outpoint a.outpoint (rec_of now a) b.seen other)
        | inl same ↦
            (let at = outpoint_eq→eq o.outpoint a.outpoint same in
              let (differ, full) = foreign same in
              ap
                (λ op.
                  owner_alerted then' window o.key
                    (recs_of o.outpoint (record_seen op (rec_of now a) b.seen)))
                (sym at)
              ∙ ap (owner_alerted then' window o.key)
                  (recs_of-record_seen_same o.outpoint (rec_of now a) b.seen)
              ∙ owner_alerted-append then' window o.key (recs_of o.outpoint b.seen) (rec_of now a)
              ∙ ground (arith, owner_alerted-foreign then' window o.key (rec_of now a) full differ))
      ]

  quiet_step :
      (then' window : ℕ) (b b' : Bus) (owners : List Owner)
      → All
          (λ (o : Owner).
            owner_alerted then' window o.key (recs_of o.outpoint b'.seen)
            ≡ owner_alerted then' window o.key (recs_of o.outpoint b.seen))
          owners
      → quiet_for_owners then' b' owners window ≡ quiet_for_owners then' b owners window
  unfolding quiet_for_owners
  quiet_step then' window b b' [] all = refl
  quiet_step then' window b b' (o ∷ owners) (here, rest) =
      ground (arith, here, quiet_step then' window b b' owners rest)

  foreign_all :
      (now then' window : ℕ) (b : Bus) (a : Alert) (owners : List Owner)
      → All (IsForeign a) owners
      → verify_alert crypto a ≡ true
      → All
          (λ (o : Owner).
            owner_alerted then' window o.key (recs_of o.outpoint (publish crypto now b a).0.seen)
            ≡ owner_alerted then' window o.key (recs_of o.outpoint b.seen))
          owners
  foreign_all now then' window b a [] all good = tt
  foreign_all now then' window b a (o ∷ owners) (here, rest) good = (
    alerted_after now then' window b a o here good,
    foreign_all now then' window b a owners rest good,
  )

  publish_refused :
      (now : ℕ) (b : Bus) (a : Alert)
      → verify_alert crypto a ≡ false
      → (publish crypto now b a).0 ≡ b
  unfolding publish
  publish_refused now b a bad = ground (arith, bad)

  -- Publishing an alert, admissible or not, never changes the answer of QuietForOwners, whatever
  -- the time and the window, about owners whose keys are not empty and did not sign the alert where
  -- it is about their outpoint. So an alert about an outpoint that is absent from the owners changes
  -- nothing.
  pub publish-quiet_for_owners :
      (now then' window : ℕ) (b : Bus) (a : Alert) (owners : List Owner)
      → All (IsForeign a) owners
      → quiet_for_owners then' (publish crypto now b a).0 owners window
        ≡ quiet_for_owners then' b owners window
  publish-quiet_for_owners now then' window b a owners foreign =
      elim (Bool-cases (verify_alert crypto a)) [
        | inl good ↦
            quiet_step then' window b (publish crypto now b a).0 owners
              (foreign_all now then' window b a owners foreign good)
        | inr bad ↦ ap (λ x. quiet_for_owners then' x owners window) (publish_refused now b a bad)
      ]

  alerted_at_once :
      (now then' window : ℕ) (b : Bus) (a : Alert)
      → then' < now + window
      → verify_alert crypto a ≡ true
      → owner_alerted then' window a.evidence.owner_pub_key
          (recs_of a.outpoint (publish crypto now b a).0.seen)
        ≡ true
  unfolding owner_alerted recent
  alerted_at_once now then' window b a soon good =
      ap (λ l. owner_alerted then' window a.evidence.owner_pub_key (recs_of a.outpoint l))
        (publish_seen now b a good)
      ∙ ap (owner_alerted then' window a.evidence.owner_pub_key)
          (recs_of-record_seen_same a.outpoint (rec_of now a) b.seen)
      ∙ owner_alerted-append then' window a.evidence.owner_pub_key (recs_of a.outpoint b.seen)
          (rec_of now a)
      ∙ ground (arith, bytes_eq_refl a.evidence.owner_pub_key)

  -- After an admissible alert is published, QuietForOwners is false about any owners among whom its
  -- owner stands for its outpoint, until the window from the publication is over.
  pub publish-alerts :
      (now then' window : ℕ) (b : Bus) (a : Alert) (before after : List Owner)
      → then' < now + window
      → verify_alert crypto a ≡ true
      → quiet_for_owners then'
          (publish crypto now b a).0
          (before ++ (record { outpoint = a.outpoint; key = a.evidence.owner_pub_key } ∷ after))
          window
        ≡ false
  unfolding quiet_for_owners
  publish-alerts now then' window b a [] after soon good =
      ground (arith, alerted_at_once now then' window b a soon good)
  publish-alerts now then' window b a (o ∷ before) after soon good =
      ground (arith, publish-alerts now then' window b a before after soon good)
