-- ===== src/Accumulator/Gaps.antt =====
-- CoverageGaps and NearestCommitted of accumulator/accumulator.go.
use mfspv.Base.{
  ℕ, zero, suc, ◌-◌, ◌+◌, ◌%◌, ◌^◌, Bool, true, false, not, ◌&&◌, ◌||◌, List, [], ◌∷◌, ◌++◌, Option,
  none, some, ltb, leb, ◌==◌, if◌then◌else◌,
}

pub record ParticipationGap : Type 0 where
  pub from_height : ℕ
  pub to_height : ℕ

-- `present[h]`: the map that is filled from `committedHeights`.
unfoldable pub is_present : List ℕ → ℕ → Bool
is_present [] h = false
is_present (c ∷ committed) h = c == h || is_present committed h

-- The loop body's variables: the gaps found, whether a gap is open, and where it began.
pub record Scan : Type 0 where
  pub gaps : List ParticipationGap
  pub in_gap : Bool
  pub from : ℕ

-- `h - 1` is that of uint64.
unfoldable pub scan_height : List ℕ → Scan → ℕ → Scan
scan_height committed s h =
    if is_present committed h
    then (if s.in_gap
        then record {
          gaps =
              s.gaps
              ++ (record { from_height = s.from; to_height = (h + (2 ^ 64 - 1)) % 2 ^ 64 } ∷ []);
          in_gap = false;
          from = s.from;
        }
        else s)
    else (if s.in_gap then s else record s { in_gap = true; from = h })

-- The loop `for h <= tipHeight`, its uint64 counter being `h`, on fuel: `none` stands for a loop that
-- has not ended.
unfoldable pub scan_from : List ℕ → ℕ → ℕ → ℕ → Scan → Option Scan
scan_from committed tip zero h s = none
scan_from committed tip (suc fuel) h s =
    let rest = scan_from committed tip fuel ((h + 1) % 2 ^ 64) (scan_height committed s h) in
    if leb h tip then rest else some s

-- The gap that is open at the end of the loop is closed at the tip.
unfoldable pub close_gaps : ℕ → Scan → List ParticipationGap
close_gaps tip s =
    if s.in_gap then s.gaps ++ (record { from_height = s.from; to_height = tip } ∷ []) else s.gaps

unfoldable pub gaps_at_end : ℕ → Option Scan → Option (List ParticipationGap)
gaps_at_end tip none = none
gaps_at_end tip (some s) = some (close_gaps tip s)

unfoldable pub no_gaps : Scan
no_gaps = record { gaps = []; in_gap = false; from = 0 }

-- A round for each height from 0 to `tip`, and the test that ends the loop.
unfoldable pub coverage_gaps : List ℕ → ℕ → Option (List ParticipationGap)
coverage_gaps committed tip = gaps_at_end tip (scan_from committed tip (tip + 2) 0 no_gaps)

-- `int64(c) > best`, where `none` stands for the first best, -1. A height of 2^63 or more is
-- negative as an int64, and so never better.
unfoldable pub better : ℕ → Option ℕ → Bool
better c none = ltb c (2 ^ 63)
better c (some b) = ltb c (2 ^ 63) && ltb b c

unfoldable pub nearest_loop : ℕ → List ℕ → Option ℕ → Bool → Option ℕ × Bool
unfolding better
nearest_loop height [] best exact = (best, exact)
nearest_loop height (c ∷ committed) best exact =
    nearest_loop height committed (if leb c height && better c best then some c else best)
      (if c == height then true else exact)

-- The height, and whether it is in a gap.
unfoldable pub nearest_committed : ℕ → List ℕ → ℕ × Bool
nearest_committed height committed =
    let (best, exact) = nearest_loop height committed none false in
    elim best [ none ↦ (0, true) | some b ↦ (b, not exact) ]
