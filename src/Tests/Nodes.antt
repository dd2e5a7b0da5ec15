-- ===== src/Tests/Nodes.antt =====
-- A node over a block of three transactions.
use mfspv.Base.{
  ◌+◌, ◌≤◌, ◌^◌, ◌≡◌, refl, true, false, List, [], ◌∷◌, length, All, bytes_eq, bytes_eq_refl, none,
  some, ok, err, arith,
}
use mfspv.Commitment.Hashing.{Hash, IsHash, leaf_hash, double_sha256, hash_pair}
use mfspv.Commitment.Tree.{build_merkle_tree, layers_from, next_level, last_layer}
use mfspv.Teranode.Node.{
  TxEntry, SealedBlock, Node, new_mock_node, block_at, entry_at, best_at, last_of, prev_hash,
  header_bytes, index_leaves, index_trees, orphan, draft, seal_subtrees, finish_seal, seal_block,
  mmr_root_of_prefix, append_headers, gen_fields_of,
}
use mfspv.Commitment.Fields.{build_mtxid}
use mfspv.Accumulator.Range.{root, bag_peaks, peaks, peaks_from}
use mfspv.Teranode.Serve.{source_of, chain_of}
use mfspv.Teranode.Steps.{sealed, orphaned, Reachable, start, next}
use mfspv.Teranode.Into.{IsServedInto, serve_into-IsServedInto}
use mfspv.Fabric.Proof.{Proof, verify_one, fetch, software}
use mfspv.Fabric.Serving.{Reachable-verify_one, seal_block_total, seal_block-verify_one}
use mfspv.Bundle.Types.{OutputRef, Bundle}
use mfspv.Bundle.Verify.{build, verify}
use mfspv.Bundle.Stored.{Reachable-build}
use mfspv.Tests.Sample.{toy_sha, hash_of, field_of_byte, three_fields}

abbrev txids : List Hash
txids = hash_of 1 ∷ hash_of 2 ∷ hash_of 3 ∷ []

abbrev fresh_node : Node
fresh_node = new_mock_node 2

abbrev after_seal : Node × Hash
after_seal = elim (seal_block fresh_node txids false) [ ok x ↦ x | err e ↦ (fresh_node, []) ]

seals : seal_block fresh_node txids false ≡ ok after_seal
unfolding seal_block draft seal_subtrees finish_seal build_merkle_tree prev_hash last_of index_trees
    new_mock_node layers_from next_level last_layer index_leaves header_bytes append_headers
    mmr_root_of_prefix
seals = refl

wide : All IsHash txids
wide = (refl, (refl, (refl, tt)))

was_fresh : block_at after_seal.1 fresh_node.blocks ≡ none
unfolding block_at new_mock_node
was_fresh = refl

seal_block_total_example :
    (n' : Node) × (h : Hash) × (seal_block fresh_node txids true ≡ ok (n', h))
seal_block_total_example = seal_block_total 2 fresh_node txids true start wide (omega arith)

seal_block-verify_one_example :
    (p : Proof) × (fetch (hash_of 3) (source_of after_seal.0) ≡ ok p)
    × (p.leaf ≡ hash_of 3)
    × ((verify_one software p (some (chain_of after_seal.0))).0 ≡ true)
seal_block-verify_one_example =
    seal_block-verify_one 2 fresh_node after_seal.0 txids false after_seal.1 2 (hash_of 3) start
      wide seals was_fresh refl

-- The node after a reorganisation that drops the block.
abbrev dropped : Node
dropped = orphan after_seal.0 after_seal.1

dropped-Reachable : Reachable 2 dropped
dropped-Reachable =
    next (next start (sealed txids false after_seal.1 wide seals was_fresh)) (orphaned after_seal.1)

abbrev third_entry : TxEntry
third_entry = record { block_hash = after_seal.1; subtree_index = 1; leaf_index = 0 }

third_known : entry_at (hash_of 3) dropped.tx_index ≡ some third_entry
unfolding entry_at orphan seal_block draft seal_subtrees finish_seal build_merkle_tree prev_hash
    last_of index_trees new_mock_node layers_from next_level last_layer index_leaves header_bytes
    append_headers mmr_root_of_prefix bytes_eq
third_known = refl

Reachable-verify_one_example :
    (p : Proof) × (fetch (hash_of 3) (source_of dropped) ≡ ok p)
    × (p.leaf ≡ hash_of 3)
    × (verify_one software p (some (chain_of dropped))
        ≡ (best_at third_entry.block_hash dropped.on_best, length p.l1 + length p.l2))
Reachable-verify_one_example =
    Reachable-verify_one 2 dropped (hash_of 3) third_entry dropped-Reachable third_known

serve_into-IsServedInto_example : IsServedInto dropped (hash_of 3) third_entry [] []
serve_into-IsServedInto_example =
    serve_into-IsServedInto 2 dropped (hash_of 3) third_entry [] [] dropped-Reachable third_known

dropped_not_best : best_at third_entry.block_hash dropped.on_best ≡ false
unfolding best_at orphan bytes_eq
dropped_not_best = let same = bytes_eq_refl after_seal.1 in rw (best_at, same) refl

-- A transaction of three fields in a block of two.
abbrev field_tree : Hash × List (List Hash)
field_tree = elim (build_mtxid three_fields) [ ok x ↦ x | err e ↦ ([], []) ]

abbrev paid : Hash × Node
paid = elim (seal_block fresh_node (field_tree.0 ∷ hash_of 2 ∷ []) true) [
  | ok (n, h) ↦ (h, n)
  | err e ↦ ([], fresh_node)
]

paid_seals : seal_block fresh_node (field_tree.0 ∷ hash_of 2 ∷ []) true ≡ ok (paid.1, paid.0)
unfolding seal_block draft seal_subtrees finish_seal build_merkle_tree prev_hash last_of index_trees
    new_mock_node layers_from next_level last_layer index_leaves header_bytes append_headers
    mmr_root_of_prefix build_mtxid gen_fields_of root bag_peaks peaks peaks_from leaf_hash
    double_sha256
paid_seals = refl

abbrev paid_block : SealedBlock
paid_block = elim (block_at paid.0 paid.1.blocks) [
  | some sb ↦ sb
  | none ↦ record {
    hash = [];
    height = 0;
    header = [];
    subtree_roots = [];
    subtree_trees = [];
    block_layers = [];
    block_root = [];
    is_carrier = false;
    acc_root = [];
    acc_prefix = 0;
    gen_fields = [];
  }
]

abbrev paid_entry : TxEntry
paid_entry = record { block_hash = paid.0; subtree_index = 0; leaf_index = 1 }

paid_found :
    (entry_at field_tree.0 paid.1.tx_index ≡ some paid_entry)
    × (block_at paid.0 paid.1.blocks ≡ some paid_block)
    × (best_at paid.0 paid.1.on_best ≡ true)
unfolding seal_block draft seal_subtrees finish_seal build_merkle_tree prev_hash last_of index_trees
    new_mock_node layers_from next_level last_layer index_leaves header_bytes append_headers
    mmr_root_of_prefix build_mtxid gen_fields_of root bag_peaks peaks peaks_from leaf_hash
    double_sha256 block_at entry_at best_at bytes_eq hash_pair
paid_found = (refl, refl, refl)

paid_small : (paid.1.subtree_size ≤ 2 ^ 20) × (length paid_block.subtree_roots ≤ 2 ^ 64)
unfolding seal_block draft seal_subtrees finish_seal build_merkle_tree prev_hash last_of index_trees
    new_mock_node layers_from next_level last_layer index_leaves header_bytes append_headers
    mmr_root_of_prefix build_mtxid gen_fields_of root bag_peaks peaks peaks_from leaf_hash
    double_sha256 block_at entry_at best_at bytes_eq hash_pair
paid_small = (omega arith, omega arith)

paid_fresh : block_at paid.0 fresh_node.blocks ≡ none
unfolding block_at new_mock_node
paid_fresh = refl

paid_wide : All IsHash (field_tree.0 ∷ hash_of 2 ∷ [])
unfolding seal_block draft seal_subtrees finish_seal build_merkle_tree prev_hash last_of index_trees
    new_mock_node layers_from next_level last_layer index_leaves header_bytes append_headers
    mmr_root_of_prefix build_mtxid gen_fields_of root bag_peaks peaks peaks_from leaf_hash
    double_sha256 block_at entry_at best_at bytes_eq hash_pair
paid_wide = (refl, (refl, tt))

paid_tree : build_mtxid three_fields ≡ ok field_tree
unfolding seal_block draft seal_subtrees finish_seal build_merkle_tree prev_hash last_of index_trees
    new_mock_node layers_from next_level last_layer index_leaves header_bytes append_headers
    mmr_root_of_prefix build_mtxid gen_fields_of root bag_peaks peaks peaks_from leaf_hash
    double_sha256 block_at entry_at best_at bytes_eq hash_pair
paid_tree = refl

abbrev paid_output : OutputRef
paid_output = record { txid = field_tree.0; vout = 0 }

Reachable-build_example :
    (b : Bundle) × (build paid_output three_fields 2 (source_of paid.1) ≡ ok b)
    × ((verify b (some (chain_of paid.1))).ok ≡ true)
Reachable-build_example =
    Reachable-build 2 paid.1 paid_entry paid_block paid_output three_fields 2 (field_of_byte 2)
      field_tree.1
      (next start
        (sealed (field_tree.0 ∷ hash_of 2 ∷ []) true paid.0 paid_wide paid_seals paid_fresh))
      paid_small.0 paid_found.0 paid_found.1 paid_small.1 paid_found.2 (omega arith) (omega arith)
      refl paid_tree
