-- ===== src/Tests/Streams.antt =====
-- A batch as bytes, and two keys of the memo that are one.
use mfspv.Base.{◌^◌, ◌≡◌, refl, true, [], ◌∷◌, some, bytes_eq, le_bytes, le_value}
use mfspv.Commitment.Hashing.{double_sha256}
use mfspv.Bundle.Types.{header_merkle_root}
use mfspv.Bundle.Codec.{put_path, put_elems}
use mfspv.Fabric.Proof.{parent_of, fold_nodes, fold_count, off_chain}
use mfspv.Fabric.Batch.{leaf_index, index_bits, refused, marked}
use mfspv.Fabric.Codec.{
  encode_proof, encode_proofs, encode_batch, take_of, byte_of, decode_elems, ◌>>=◌, done,
}
use mfspv.Fabric.Stream.{
  memo_key, node_at, id_at, holds_id, lookup_id, assign_id, wire_loop, decode_few, decode_front,
  decode_back, wire_header, wire_l2, wire_proof, wire_loop_from, verify_wire,
}
use mfspv.Tests.Sample.{toy_sha}
use mfspv.Tests.Bundles.{all_headers}
use mfspv.Tests.Proofs.{leftmost, first_proof, second_proof}

-- A node at level 1 with bit 40 of its index shares its key with a node of another subtree.
keys_meet : memo_key 0 1 (2 ^ 40) ≡ memo_key 1 1 0
unfolding memo_key
keys_meet = refl

wire_good :
    verify_wire leftmost (some all_headers) (encode_batch (first_proof ∷ second_proof ∷ []))
    ≡ (true, (2, 2))
unfolding memo_key node_at id_at holds_id lookup_id assign_id wire_loop decode_few decode_front
    decode_back wire_header wire_l2 wire_proof wire_loop_from verify_wire parent_of fold_nodes
    fold_count off_chain leaf_index index_bits refused marked encode_proof encode_proofs
    encode_batch take_of byte_of decode_elems ◌>>=◌ done header_merkle_root bytes_eq double_sha256
    put_path put_elems le_bytes le_value
wire_good = refl
