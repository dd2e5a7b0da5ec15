-- ===== src/Tests/Ranges.antt =====
-- accumulator/accumulator.go on small ranges.
use mfspv.Base.{◌≡◌, refl, true, List, [], ◌∷◌, some, ok, arith}
use mfspv.Commitment.Hashing.{PathElem, double_sha256}
use mfspv.Accumulator.Range.{Mmr, mountain_sizes, sizes_below, root, prove_block}
use mfspv.Accumulator.Anchor.{verify_block_in_chain}
use mfspv.Accumulator.Gaps.{
  coverage_gaps, close_gaps, gaps_at_end, no_gaps, scan_from, scan_height, is_present,
  nearest_committed, nearest_loop,
}
use mfspv.Accumulator.Sizes.{sum, sum-mountain_sizes}
use mfspv.Accumulator.Proofs.{Proved, height-Proved, append_all, append_keeps_provable}
use mfspv.Accumulator.Coverage.{Covered, coverage_gaps_exact}
use mfspv.Accumulator.Nearest.{IsNearest, nearest_committed-IsNearest}
use mfspv.Tests.Sample.{toy_sha, hash_of}

sizes_of_eleven : mountain_sizes 11 ≡ 8 ∷ 2 ∷ 1 ∷ []
unfolding mountain_sizes sizes_below
sizes_of_eleven = refl

eleven_sums : sum (mountain_sizes 11) ≡ 11
eleven_sums = sum-mountain_sizes 11 (omega arith)

abbrev two_headers : Mmr
two_headers = record { leaves = double_sha256 (hash_of 1) ∷ double_sha256 (hash_of 2) ∷ [] }

height-Proved_example : Proved two_headers 1 (double_sha256 (hash_of 2))
height-Proved_example = height-Proved two_headers 1 (double_sha256 (hash_of 2)) (omega arith) refl

append_keeps_provable_example :
    (path : List PathElem) × (prove_block (append_all two_headers (hash_of 3 ∷ [])) 1
      ≡ ok (path, root (append_all two_headers (hash_of 3 ∷ []))))
    × (verify_block_in_chain (hash_of 2) path (root (append_all two_headers (hash_of 3 ∷ [])))
        ≡ true)
append_keeps_provable_example =
    append_keeps_provable two_headers (hash_of 3 ∷ []) 1 (hash_of 2) (omega arith) refl

gaps_of_two :
    coverage_gaps (2 ∷ 3 ∷ []) 5
    ≡ some
        (record { from_height = 0; to_height = 1 } ∷ record { from_height = 4; to_height = 5 } ∷ [])
unfolding coverage_gaps close_gaps gaps_at_end no_gaps scan_from scan_height is_present
gaps_of_two = refl

coverage_gaps_exact_example : Covered (2 ∷ 3 ∷ []) 5
coverage_gaps_exact_example = coverage_gaps_exact (2 ∷ 3 ∷ []) 5 (omega arith)

nearest_of_four : nearest_committed 4 (2 ∷ 7 ∷ 3 ∷ []) ≡ (3, true)
unfolding nearest_committed nearest_loop
nearest_of_four = refl

nearest_committed-IsNearest_example :
    IsNearest 4 (2 ∷ 7 ∷ 3 ∷ []) (nearest_committed 4 (2 ∷ 7 ∷ 3 ∷ []))
nearest_committed-IsNearest_example = nearest_committed-IsNearest 4 (2 ∷ 7 ∷ 3 ∷ []) (omega arith)
