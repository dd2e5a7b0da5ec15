-- ===== src/Tests/Trees.antt =====
-- commitment/commitment.go on small trees.
use mfspv.Base.{
  ◌+◌, ◌≡◌, ◌⊎◌, ◌↔◌, ◌≤◌, refl, true, List, [], ◌∷◌, length, err, arith, index_out_of_range,
}
use mfspv.Commitment.Hashing.{Hash, fold, max_depth}
use mfspv.Commitment.Tree.{merkle_root, merkle_path, merkle_path_into, ceil_log2, bit_length}
use mfspv.Commitment.Fields.{leaf_for_field}
use mfspv.Commitment.Checks.{
  verify_mtxid_path, verify_subtree_path, verify_block_path, verify_to_block_root,
}
use mfspv.Commitment.Inclusion.{Included, leaf-Included}
use mfspv.Commitment.Depth.{depth_law, length-Included}
use mfspv.Commitment.Binding.{Collision, fold_binding, no_false_inclusion}
use mfspv.Commitment.FieldPath.{Opened, field-Opened}
use mfspv.Commitment.Composed.{verify_to_block_root_iff, three_levels_accepted}
use mfspv.Commitment.Buffer.{merkle_path_into-merkle_path}
use mfspv.Commitment.Duplication.{merkle_root-repeat_last}
use mfspv.Tests.Sample.{toy_sha, hash_of, field_of_byte, three_fields}

ceil_log2_values :
    (ceil_log2 1 ≡ 0) × (ceil_log2 5 ≡ 3) × (ceil_log2 1048576 ≡ 20) × (ceil_log2 1048577 ≡ 21)
unfolding ceil_log2 bit_length
ceil_log2_values = (refl, refl, refl, refl)

path_out_of_range : merkle_path ((hash_of 1 ∷ []) ∷ []) 1 ≡ err index_out_of_range
unfolding merkle_path
path_out_of_range = refl

abbrev five : List Hash
five = hash_of 1 ∷ hash_of 2 ∷ hash_of 3 ∷ hash_of 4 ∷ hash_of 5 ∷ []

leaf-Included_example : Included five 4 (hash_of 5)
leaf-Included_example = leaf-Included five 4 (hash_of 5) refl

abbrev last_of_five : Included five 4 (hash_of 5)
last_of_five = leaf-Included five 4 (hash_of 5) refl

depth_law_example :
    (fold (hash_of 5) last_of_five.path ≡ last_of_five.root)
    × (length last_of_five.path ≡ ceil_log2 5)
depth_law_example =
    depth_law five 4 (hash_of 5) last_of_five.root last_of_five.layers last_of_five.path
      (omega arith) refl last_of_five.builds last_of_five.paths

bound_alone :
    ((hash_of 5 ≡ hash_of 5) × (last_of_five.path ≡ last_of_five.path))
    ⊎ Collision (hash_of 5) last_of_five.path (hash_of 5) last_of_five.path
bound_alone =
    fold_binding (hash_of 5) (hash_of 5) last_of_five.path last_of_five.path refl refl
      (last_of_five.hashed (omega arith)) (last_of_five.hashed (omega arith)) refl refl

no_false_inclusion_example :
    (hash_of 5 ≡ hash_of 5) ⊎ Collision (hash_of 5) last_of_five.path (hash_of 5) last_of_five.path
no_false_inclusion_example =
    no_false_inclusion five 4 (hash_of 5) (hash_of 5) last_of_five.root last_of_five.layers
      last_of_five.path last_of_five.path (omega arith) (omega arith) refl last_of_five.builds
      last_of_five.paths refl (last_of_five.hashed (omega arith))
      (length-Included last_of_five (omega arith)) last_of_five.turns last_of_five.folds

field-Opened_example : Opened three_fields 1 (field_of_byte 1)
field-Opened_example =
    field-Opened three_fields 1 (field_of_byte 1) (omega arith) (omega arith) refl

abbrev opened : Opened three_fields 1 (field_of_byte 1)
opened = field-Opened three_fields 1 (field_of_byte 1) (omega arith) (omega arith) refl

abbrev two_txids : List Hash
two_txids = hash_of 8 ∷ opened.mtxid ∷ []

abbrev in_subtree : Included two_txids 1 opened.mtxid
in_subtree = leaf-Included two_txids 1 opened.mtxid refl

abbrev three_roots : List Hash
three_roots = hash_of 6 ∷ hash_of 7 ∷ in_subtree.root ∷ []

abbrev in_block : Included three_roots 2 in_subtree.root
in_block = leaf-Included three_roots 2 in_subtree.root refl

three_levels_accepted_example :
    verify_to_block_root
      (leaf_for_field (field_of_byte 1))
      opened.path
      in_subtree.path
      in_block.path
      in_block.root
    ≡ (true, ceil_log2 3 + ceil_log2 2 + ceil_log2 3)
three_levels_accepted_example =
    three_levels_accepted three_fields two_txids three_roots 1 1 2 (field_of_byte 1) opened.path
      in_subtree.path in_block.path (leaf_for_field (field_of_byte 1)) opened.mtxid in_subtree.root
      in_block.root in_subtree.layers in_block.layers (omega arith) (omega arith) (omega arith) refl
      opened.opens refl in_subtree.builds in_subtree.paths refl in_block.builds in_block.paths

verify_to_block_root_iff_example :
    (((verify_to_block_root (hash_of 1) [] [] [] (hash_of 1)).0 ≡ true) ↔ (
      (0 + 0 + 0 ≤ max_depth)
      × (verify_mtxid_path (hash_of 1) [] (fold (hash_of 1) []) ≡ true)
      × (verify_subtree_path (fold (hash_of 1) []) [] (fold (fold (hash_of 1) []) []) ≡ true)
      × (verify_block_path (fold (fold (hash_of 1) []) []) [] (hash_of 1) ≡ true)))
    × ((verify_to_block_root (hash_of 1) [] [] [] (hash_of 1)).1 ≡ 0 + 0 + 0)
verify_to_block_root_iff_example = verify_to_block_root_iff (hash_of 1) [] [] [] (hash_of 1)

into_alone :
    merkle_path_into last_of_five.layers 3 (last_of_five.path) ≡ merkle_path last_of_five.layers 3
into_alone = merkle_path_into-merkle_path last_of_five.layers 3 last_of_five.path

merkle_root-repeat_last_example :
    merkle_root (hash_of 1 ∷ hash_of 2 ∷ hash_of 3 ∷ hash_of 3 ∷ [])
    ≡ merkle_root (hash_of 1 ∷ hash_of 2 ∷ hash_of 3 ∷ [])
merkle_root-repeat_last_example =
    merkle_root-repeat_last (hash_of 1 ∷ hash_of 2 ∷ []) (hash_of 3) refl (omega arith)
