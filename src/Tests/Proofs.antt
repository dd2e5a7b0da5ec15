-- ===== src/Tests/Proofs.antt =====
-- The fabric at small proofs.
use mfspv.Base.{
  ◌≡◌, refl, true, false, List, [], ◌∷◌, length, All, bytes_eq, none, some, ok, ◌<◌, ◌^◌, ◌++◌,
  le_bytes, ◌↔◌, arith, Bool-cases, inl, inr, sym, ap, ◌∙◌, bytes_eq→eq, ◌==◌, if◌then◌else◌, err,
  unknown_block,
}
use mfspv.Commitment.Hashing.{Hash, PathElem, fold, double_sha256}
use mfspv.Commitment.Checks.{verify_to_block_root}
use mfspv.Teranode.Source.{Header, ProofSource}
use mfspv.Bundle.Types.{header_merkle_root}
use mfspv.Fabric.Proof.{
  Hasher, Proof, parent_of, fold_nodes, fold_count, off_chain, verify_one, fetch, software,
}
use mfspv.Fabric.Batch.{
  key_eq, lookup, marked, index_bits, leaf_index, l1_loop, refused, l3_part, l2_part, check_proof,
  batch_loop, batch_verify,
}
use mfspv.Fabric.One.{IsTruthful, verify_one_iff, fetch-verify_one, batch_verify-single}
use mfspv.Bundle.Codec.{put_path, put_elems}
use mfspv.Fabric.Codec.{encode_proof, encode_batch, decode_batch}
use mfspv.Fabric.RoundTrip.{IsCarried, decode_batch-encode_batch}
use mfspv.Fabric.Sound.{IsBacked, batch_verify-IsBacked}
use mfspv.Teranode.Pruned.{new_static_header_chain, IsGiven, new_static_header_chain-IsGiven}
use mfspv.Tests.Sample.{toy_sha, hash_of}
use mfspv.Tests.Bundles.{header_of, single, all_headers, root_of_header}

-- A backend that keeps the left child.
abbrev pub leftmost : Hasher
leftmost = record { pair = λ l r. l }

abbrev pub first_proof : Proof
first_proof = record {
  leaf = hash_of 1;
  l1 = record { sibling = hash_of 2; right = true } ∷ [];
  subtree_root = hash_of 1;
  l2 = [];
  header = header_of (hash_of 1);
}

abbrev pub second_proof : Proof
second_proof = record {
  leaf = hash_of 2;
  l1 = record { sibling = hash_of 1; right = false } ∷ [];
  subtree_root = hash_of 1;
  l2 = [];
  header = header_of (hash_of 1);
}

batch_good : (batch_verify leftmost (first_proof ∷ second_proof ∷ []) (some all_headers)).0 ≡ true
unfolding batch_verify batch_loop check_proof refused l1_loop l2_part l3_part marked lookup key_eq
    leaf_index index_bits parent_of fold_nodes fold_count off_chain header_merkle_root bytes_eq
    double_sha256
batch_good = refl

batch_verify-IsBacked_example :
    All (IsBacked leftmost (some all_headers)) (first_proof ∷ second_proof ∷ [])
batch_verify-IsBacked_example =
    batch_verify-IsBacked leftmost (some all_headers) (first_proof ∷ second_proof ∷ []) batch_good

batch_verify-single_example :
    batch_verify leftmost (first_proof ∷ []) none ≡ verify_one leftmost first_proof none
batch_verify-single_example = batch_verify-single leftmost first_proof none

verify_one_iff_example : ((verify_one software first_proof none).0 ≡ true) ↔ (
    ((verify_to_block_root
        (hash_of 1)
        []
        first_proof.l1
        []
        (header_merkle_root first_proof.header)).0
      ≡ true)
    × (fold (hash_of 1) first_proof.l1 ≡ hash_of 1)
    × (off_chain none first_proof.header ≡ false))
verify_one_iff_example = verify_one_iff first_proof none (omega arith) (omega arith)

-- Every hash is a block of the one transaction that it names.
abbrev strict : ProofSource
strict = record single {
  block_path_for = λ r b. if bytes_eq r b then ok ([], r) else err unknown_block;
  header_for = λ b. if length b == 32 then ok (header_of b) else err unknown_block;
}

strict_header :
    (b : Hash) (header : Header)
    → strict.header_for b ≡ ok header
    → (length b ≡ 32) × (header_of b ≡ header)
strict_header b header h = elim (Bool-cases (length b == 32)) [
  | inl wide ↦ (ground (arith, wide), cc (rw wide at h))
  | inr other ↦ cc (rw other at h)
]

strict_path :
    (r b : Hash) (l2 : List PathElem) (root : Hash)
    → strict.block_path_for r b ≡ ok (l2, root)
    → (r ≡ b) × ([] ≡ l2)
strict_path r b l2 root h = elim (Bool-cases (bytes_eq r b)) [
  | inl same ↦ (bytes_eq→eq r b same, cc (rw same at h))
  | inr other ↦ cc (rw other at h)
]

strict_block :
    (r b : Hash) (l2 : List PathElem) (root : Hash) (header : Header)
    → strict.block_path_for r b ≡ ok (l2, root)
    → strict.header_for b ≡ ok header
    → fold r l2 ≡ header_merkle_root header
unfolding fold
strict_block r b l2 root header h h' =
    let (same, empty) = strict_path r b l2 root h in
    let (wide, is_header) = strict_header b header h' in
    ap (fold r) (sym empty) ∙ same ∙ sym (root_of_header b wide) ∙ ap header_merkle_root is_header

strict_subtree :
    (txid : Hash) (l1 : List PathElem) (r : Hash)
    → strict.subtree_path_for txid ≡ ok (l1, r)
    → fold txid l1 ≡ r
unfolding fold
strict_subtree txid l1 r h = elim (Bool-cases (length txid == 32)) [
  | inl wide ↦
      (let empty : [] ≡ l1 = cc (rw wide at h) in
        let same : txid ≡ r = cc (rw wide at h) in ap (fold txid) (sym empty) ∙ same)
  | inr other ↦ cc (rw other at h)
]

strict-IsTruthful : IsTruthful strict all_headers
strict-IsTruthful = record {
  in_subtree = strict_subtree;
  in_block = strict_block;
  on_chain = λ b header h. refl;
}

fetched_alone :
    (p : Proof) × (fetch (hash_of 1) strict ≡ ok p)
    × (p.leaf ≡ hash_of 1)
    × (verify_one software p (some all_headers) ≡ (true, 0))
fetched_alone =
    fetch-verify_one (hash_of 1) strict all_headers [] [] (hash_of 1) (hash_of 1) (hash_of 1)
      (header_of (hash_of 1)) strict-IsTruthful refl refl (unfold bytes_eq in refl) refl

encoded_short : length (encode_proof first_proof) < 2 ^ 32
unfolding encode_proof put_path put_elems le_bytes
encoded_short = omega arith

first_proof-IsCarried : IsCarried first_proof
first_proof-IsCarried = record {
  leaf = refl;
  short1 = omega arith;
  l1 = (refl, tt);
  subtree_root = refl;
  short2 = omega arith;
  l2 = tt;
  header = refl;
  short = encoded_short;
}

decode_batch-encode_batch_example :
    decode_batch (encode_batch (first_proof ∷ []) ++ (1 ∷ 2 ∷ [])) ≡ ok (first_proof ∷ [])
decode_batch-encode_batch_example =
    decode_batch-encode_batch (first_proof ∷ []) (1 ∷ 2 ∷ []) (omega arith)
      (first_proof-IsCarried, tt)

single-IsGiven :
    (((new_static_header_chain (header_of (hash_of 1) ∷ header_of (hash_of 2) ∷ []) 9).contains
          (header_of (hash_of 2))
        ≡ true)
      ↔ IsGiven (header_of (hash_of 1) ∷ header_of (hash_of 2) ∷ []) (header_of (hash_of 2)))
    × ((new_static_header_chain
          (header_of (hash_of 1) ∷ header_of (hash_of 2) ∷ [])
          9).best_tip_height
        ≡ 9)
single-IsGiven =
    new_static_header_chain-IsGiven (header_of (hash_of 1) ∷ header_of (hash_of 2) ∷ []) 9
      (header_of (hash_of 2))
