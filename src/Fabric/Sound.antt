-- ===== src/Fabric/Sound.antt =====
-- What an accepted batch shows of every proof in it. BatchVerify does not read the paths of a later
-- proof of a known subtree to their end, so the theorem gives paths and a header of its own.
use mfspv.Base.{
  ◌+◌, ◌<◌, length, ◌≡◌, refl, sym, ap, inl, inr, true, false, List, [], ◌∷◌, All, bytes_eq,
  bytes_eq→eq, Bool-cases, Option-cases, Option, some, subst, arith,
}
use mfspv.Commitment.Hashing.{Sha256, Hash, PathElem, double_sha256}
use mfspv.Teranode.Source.{Header, HeaderChain}
use mfspv.Bundle.Types.{header_merkle_root}
use mfspv.Fabric.Proof.{Hasher, Proof, fold_nodes, fold_count, off_chain}
use mfspv.Fabric.Batch.{
  marked, leaf_index, L1State, l1_loop, refused, Maps, l3_part, l2_part, check_proof, batch_loop,
  batch_verify,
}
use mfspv.Fabric.Closed.{
  Closes, IsClosed, marked-All, at_any_level, l1_loop-Closes, l1_loop-IsClosed,
}

module _ ⦃sha : Sha256⦄ (h : Hasher) (chain : Option HeaderChain) where
  -- A header with this digest passed the check against the chain.
  pub record IsSeen (digest : Hash) : Type 0 where
    pub header : Header
    pub digests : double_sha256 header ≡ digest
    pub on_chain : off_chain chain header ≡ false

  -- The subtree root folds to the root in a header that was seen.
  pub record IsRooted (s : Hash) : Type 0 where
    pub path : List PathElem
    pub header : Header
    pub folds : fold_nodes h s path ≡ header_merkle_root header
    pub seen : IsSeen (double_sha256 header)

  -- What the maps hold between two proofs.
  record IsSound (m : Maps) : Type 0 where
    closed : All (IsClosed h) m.memo
    rooted : All IsRooted m.subtree_ok
    seen : All IsSeen m.header_ok

  -- What an accepted proof shows.
  pub record IsBacked (p : Proof) : Type 0 where
    pub in_subtree : Closes h p.subtree_root p.leaf
    pub in_block : IsRooted p.subtree_root
    pub header : IsSeen (double_sha256 p.header)

  l3_part-seen :
      (p : Proof) (m m' : Maps)
      → All IsSeen m.header_ok
      → l3_part chain p m ≡ some m'
      → IsSeen (double_sha256 p.header)
        × All IsSeen m'.header_ok
        × (m'.memo ≡ m.memo)
        × (m'.subtree_ok ≡ m.subtree_ok)
  unfolding l3_part
  l3_part-seen p m m' seen e = elim (Bool-cases (marked (double_sha256 p.header) m.header_ok)) [
    | inl known ↦
        (let same : m ≡ m' = ground (arith, known, e) in
          (
            marked-All IsSeen (double_sha256 p.header) m.header_ok seen known,
            subst (λ x. All IsSeen x.header_ok) same seen,
            ap (λ x. x.memo) (sym same),
            ap (λ x. x.subtree_ok) (sym same),
          ))
    | inr fresh ↦ elim (Bool-cases (off_chain chain p.header)) [
      | inl off ↦ cc (rw (fresh, off) at e)
      | inr on ↦
          (let own : IsSeen (double_sha256 p.header) = record {
            header = p.header;
            digests = refl;
            on_chain = on;
          } in
            let same : record m { header_ok = double_sha256 p.header ∷ m.header_ok } ≡ m' =
              ground (arith, fresh, on, e) in
            (
              own,
              subst (λ x. All IsSeen x.header_ok) same (own, seen),
              ap (λ x. x.memo) (sym same),
              ap (λ x. x.subtree_ok) (sym same),
            ))
    ]
  ]

  -- L3 after L2, for maps whose subtree roots are rooted once the header is seen.
  finish_proof :
      (p : Proof) (m m' : Maps)
      → Closes h p.subtree_root p.leaf
      → All (IsClosed h) m.memo
      → (IsSeen (double_sha256 p.header) → IsRooted p.subtree_root × All IsRooted m.subtree_ok)
      → All IsSeen m.header_ok
      → l3_part chain p m ≡ some m'
      → IsSound m' × IsBacked p
  finish_proof p m m' closes closed root seen e =
      let (own, seen', same_memo, same_roots) = l3_part-seen p m m' seen e in
      let (rooted, all_rooted) = root own in
      (
        record {
          closed = subst (λ x. All (IsClosed h) x) (sym same_memo) closed;
          rooted = subst (λ x. All IsRooted x) (sym same_roots) all_rooted;
          seen = seen';
        },
        record { in_subtree = closes; in_block = rooted; header = own },
      )

  l2_part-IsSound :
      (p : Proof) (m m' : Maps)
      → IsSound m
      → Closes h p.subtree_root p.leaf
      → (l2_part h chain p m).0 ≡ some m'
      → IsSound m' × IsBacked p
  unfolding l2_part fold_count
  l2_part-IsSound p m m' sound closes e = elim (Bool-cases (marked p.subtree_root m.subtree_ok)) [
    | inl known ↦
        finish_proof p m m' closes sound.closed
          (λ own.
            (marked-All IsRooted p.subtree_root m.subtree_ok sound.rooted known, sound.rooted))
          sound.seen (rw known at e)
    | inr fresh ↦
        elim (Bool-cases
          (bytes_eq (fold_nodes h p.subtree_root p.l2) (header_merkle_root p.header))) [
            | inl folds ↦
                (let root : IsSeen (double_sha256 p.header) → IsRooted p.subtree_root = λ own.
                    record {
                      path = p.l2;
                      header = p.header;
                      folds = bytes_eq→eq _ _ folds;
                      seen = own;
                    } in
                  finish_proof p
                    (record m {
                      subtree_ok = p.subtree_root ∷ m.subtree_ok;
                      hashes = m.hashes + length p.l2;
                    })
                    m' closes sound.closed (λ own. (root own, (root own, sound.rooted))) sound.seen
                    (rw (fresh, folds) at e))
            | inr other ↦ cc (rw (fresh, other) at e)
          ]
  ]

  check_proof-IsSound :
      (p : Proof) (m m' : Maps)
      → IsSound m
      → (check_proof h chain p m).0 ≡ some m'
      → IsSound m' × IsBacked p
  unfolding check_proof
  check_proof-IsSound p m m' sound e = elim (Bool-cases (refused s.ending p.subtree_root)) [
    | inl bad ↦ cc (rw bad at e)
    | inr passed ↦
        l2_part-IsSound p (record m { memo = s.memo; hashes = s.hashes }) m'
          (record {
            closed =
                l1_loop-IsClosed h p.subtree_root p.l1 0 p.leaf (leaf_index p.l1) m.memo m.hashes
                  above passed sound.closed;
            rooted = sound.rooted;
            seen = sound.seen;
          })
          (l1_loop-Closes h p.subtree_root p.l1 0 p.leaf (leaf_index p.l1) m.memo m.hashes above
            passed)
          (rw passed at e)
  ]
    where
      s : L1State
      s = l1_loop h p.subtree_root 0 p.leaf (leaf_index p.l1) p.l1 m.memo m.hashes

      above : All (λ x. 0 < x.key.level → IsClosed h x) m.memo
      above = at_any_level h 0 m.memo sound.closed

  batch_loop-IsBacked :
      (proofs : List Proof) (m : Maps)
      → IsSound m
      → (batch_loop h chain proofs m).0 ≡ true
      → All IsBacked proofs
  unfolding batch_loop
  batch_loop-IsBacked [] m sound e = tt
  batch_loop-IsBacked (p ∷ proofs) m sound e = elim (Option-cases (check_proof h chain p m).0) [
    | inl bad ↦ cc (rw (batch_loop, bad) at e)
    | inr (m', good) ↦
        (let (sound', backed) = check_proof-IsSound p m m' sound good in
          (backed, batch_loop-IsBacked proofs m' sound' (rw (batch_loop, good) at e)))
  ]

  -- Where BatchVerify accepts, for any backend and chain view, every transaction of the batch folds
  -- along some path to the subtree root that its proof names, that root folds along some path to the
  -- root in some header, and the digest of that header and the digest of the proof's own header are
  -- each the digest of a header that the
  -- view contains, or of any where there is no view.
  pub batch_verify-IsBacked :
      (proofs : List Proof) → (batch_verify h proofs chain).0 ≡ true → All IsBacked proofs
  unfolding batch_verify
  batch_verify-IsBacked proofs e =
      batch_loop-IsBacked proofs (record { memo = []; subtree_ok = []; header_ok = []; hashes = 0 })
        (record { closed = tt; rooted = tt; seen = tt }) e
