-- ===== src/Fabric/One.antt =====
-- VerifyOne against the path checks of commitment/commitment.go, against Fetch, and against
-- BatchVerify on a batch of one proof.
use mfspv.Base.{
  ℕ, suc, ◌+◌, ◌/◌, ◌≤◌, ◌<◌, ◌≡◌, refl, ap, ◌∙◌, ◌↔◌, true, false, List, [], ◌∷◌, All, length,
  bytes_eq, bytes_eq→eq, eq→bytes_eq, Option, none, some, ok, arith,
}
use mfspv.Commitment.Hashing.{Sha256, Hash, PathElem, fold, fold_step}
use mfspv.Commitment.Checks.{verify_to_block_root}
use mfspv.Teranode.Source.{Header, ProofSource, HeaderChain}
use mfspv.Bundle.Types.{header_merkle_root}
use mfspv.Fabric.Proof.{
  Hasher, Proof, parent_of, fold_nodes, fold_count, off_chain, verify_one, fetch, software,
}
use mfspv.Fabric.Batch.{
  NodeKey, Entry, key_eq, lookup, marked, leaf_index, top, l1_loop, refused, l3_part, l2_part,
  check_proof, batch_loop, batch_verify,
}

module _ ⦃sha : Sha256⦄ where
  -- The software backend folds as Fold does.
  pub fold_nodes-software :
      (node : Hash) (p : List PathElem) → fold_nodes software node p ≡ fold node p
  unfolding fold_nodes fold parent_of fold_step
  fold_nodes-software node [] = refl
  fold_nodes-software node (e ∷ p) = fold_nodes-software (fold_step node e) p

  fold_nil : (node : Hash) → fold node [] ≡ node
  unfolding fold
  fold_nil node = refl

  -- With the software backend and L1 and L2 paths of at most 20 and 235 elements, VerifyOne accepts
  -- exactly when VerifyToBlockRoot accepts the transaction for the root in the header, without an L0
  -- path, the L1 path folds to the subtree root of the proof, and the header is on the chain of the
  -- view, where there is a view.
  pub verify_one_iff :
      (p : Proof) (chain : Option HeaderChain)
      → length p.l1 ≤ 20
      → length p.l2 ≤ 235
      → ((verify_one software p chain).0 ≡ true) ↔ (
          ((verify_to_block_root p.leaf [] p.l1 p.l2 (header_merkle_root p.header)).0 ≡ true)
          × (fold p.leaf p.l1 ≡ p.subtree_root)
          × (off_chain chain p.header ≡ false))
  unfolding verify_one fold_count verify_to_block_root
  verify_one_iff p chain short1 short2 = (
    λ h.
        (let sub : bytes_eq (fold p.leaf p.l1) p.subtree_root ≡ true =
            ground (arith, h, fold_nodes-software p.leaf p.l1) in
          let same = bytes_eq→eq (fold p.leaf p.l1) p.subtree_root sub in
          let br : bytes_eq (fold p.subtree_root p.l2) (header_merkle_root p.header) ≡ true =
            ground (arith, h, fold_nodes-software p.subtree_root p.l2) in
          (
            ground (
              arith,
              ap (λ n. bytes_eq (fold n p.l2) (header_merkle_root p.header)) same,
              br,
              fold_nil p.leaf,
            ),
            same,
            ground (arith, h),
          )),
    λ (h, same, on). ground (
      arith,
      ap (λ n. bytes_eq (fold n p.l2) (header_merkle_root p.header)) same,
      eq→bytes_eq (fold p.leaf p.l1) p.subtree_root same,
      fold_nil p.leaf,
      fold_nodes-software p.leaf p.l1,
      fold_nodes-software p.subtree_root p.l2,
    ),
  )

  -- A source whose answers fold to the roots that it names, and whose headers have those roots and
  -- are on the chain.
  pub record IsTruthful (src : ProofSource) (view : HeaderChain) : Type 0 where
    pub in_subtree :
        (txid : Hash) (l1 : List PathElem) (r : Hash)
        → src.subtree_path_for txid ≡ ok (l1, r)
        → fold txid l1 ≡ r
    pub in_block :
        (r b : Hash) (l2 : List PathElem) (root : Hash) (header : Header)
        → src.block_path_for r b ≡ ok (l2, root)
        → src.header_for b ≡ ok header
        → fold r l2 ≡ header_merkle_root header
    pub on_chain :
        (b : Hash) (header : Header) → src.header_for b ≡ ok header → view.contains header ≡ true

  -- Where a source answers the four questions about a transaction, and is truthful for a chain, Fetch
  -- returns a proof of that transaction, and VerifyOne accepts it with the software backend and a
  -- view of that chain, after one hash for every element of the two paths.
  pub fetch-verify_one :
      (txid : Hash) (src : ProofSource) (view : HeaderChain) (l1 l2 : List PathElem)
      (sub block root : Hash) (header : Header)
      → IsTruthful src view
      → src.subtree_path_for txid ≡ ok (l1, sub)
      → src.locate_tx txid ≡ ok block
      → src.block_path_for sub block ≡ ok (l2, root)
      → src.header_for block ≡ ok header
      → (p : Proof) × (fetch txid src ≡ ok p)
        × (p.leaf ≡ txid)
        × (verify_one software p (some view) ≡ (true, length l1 + length l2))
  unfolding fetch verify_one fold_count off_chain
  fetch-verify_one txid src view l1 l2 sub block root header truth a1 a2 a3 a4 = (
    record { leaf = txid; l1 = l1; subtree_root = sub; l2 = l2; header = header },
    rw (a1, a2, a3, a4) refl,
    refl,
    ground (
      arith,
      truth.on_chain block header a4,
      fold_nodes-software txid l1,
      fold_nodes-software sub l2,
      eq→bytes_eq (fold txid l1) sub (truth.in_subtree txid l1 sub a1),
      eq→bytes_eq (fold sub l2) (header_merkle_root header)
          (truth.in_block sub block l2 root header a3 a4),
    ),
  )

IsBelow : ℕ → Entry → Type 0
IsBelow j e = e.key.level ≤ j

lookup-none :
    (j : ℕ) (k : NodeKey) (memo : List Entry)
    → All (IsBelow j) memo
    → j < k.level
    → lookup k memo ≡ none
unfolding lookup key_eq IsBelow
lookup-none j k [] b above = refl
lookup-none j k (x ∷ memo) (bx, bs) above = ground (arith, lookup-none j k memo bs above)

IsBelow-suc : (j : ℕ) (memo : List Entry) → All (IsBelow j) memo → All (IsBelow (suc j)) memo
unfolding IsBelow
IsBelow-suc j [] b = tt
IsBelow-suc j (x ∷ memo) (bx, bs) = (omega arith, IsBelow-suc j memo bs)

-- A loop that meets no known node goes to the top.
l1_loop_alone :
    (h : Hasher) (s : Hash) (path : List PathElem) (j : ℕ) (cur : Hash) (idx : ℕ)
    (memo : List Entry) (n : ℕ)
    → All (IsBelow j) memo
    → ((l1_loop h s j cur idx path memo n).ending ≡ top (fold_nodes h cur path))
      × ((l1_loop h s j cur idx path memo n).hashes ≡ n + length path)
unfolding l1_loop fold_nodes IsBelow
l1_loop_alone h s [] j cur idx memo n b = (refl, omega arith)
l1_loop_alone h s (e ∷ path) j cur idx memo n b =
    let k : NodeKey = record { subtree = s; level = suc j; index = idx / 2 } in
    let missing : lookup k memo ≡ none = lookup-none j k memo b (omega arith) in
    let (ends, counts) =
      l1_loop_alone h s path (suc j) (parent_of h cur e) (idx / 2)
        (record { key = k; node = parent_of h cur e } ∷ memo) (suc n)
        (omega arith, IsBelow-suc j memo b) in
    (rw (l1_loop, missing) ends, rw (l1_loop, missing) (counts ∙ omega arith))

module _ ⦃sha : Sha256⦄ where
  -- A batch of one proof gives the answer and the number of hashes that VerifyOne gives, for any
  -- backend and chain view.
  pub batch_verify-single :
      (h : Hasher) (p : Proof) (chain : Option HeaderChain)
      → batch_verify h (p ∷ []) chain ≡ verify_one h p chain
  unfolding batch_verify batch_loop check_proof refused l2_part l3_part marked verify_one fold_count
  batch_verify-single h p chain =
      let (ends, counts) = l1_loop_alone h p.subtree_root p.l1 0 p.leaf (leaf_index p.l1) [] 0 tt in
      ground (arith, ends, counts)
