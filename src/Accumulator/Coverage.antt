-- ===== src/Accumulator/Coverage.antt =====
-- CoverageGaps reports exactly the heights up to the tip that were not committed.
use mfspv.Base.{
  ℕ, ◌≤◌, zero, suc, ◌+◌, ◌-◌, ◌<◌, ◌≡◌, true, false, Bool, not, ◌&&◌, ◌||◌, List, [], ◌∷◌, ◌++◌,
  arith, ltb, leb, ◌%◌, ◌^◌, subst, ap, ◌∙◌, refl, some, none,
}
use mfspv.Accumulator.Gaps.{
  ParticipationGap, is_present, Scan, scan_height, scan_from, coverage_gaps, close_gaps,
  gaps_at_end, no_gaps,
}

-- Whether a height lies in one of the gaps, both ends included.
unfoldable pub in_gaps : List ParticipationGap → ℕ → Bool
in_gaps [] h = false
in_gaps (g ∷ gaps) h = (leb g.from_height h && leb h g.to_height) || in_gaps gaps h

in_gaps-append :
    (gaps : List ParticipationGap) (a b h : ℕ)
    → in_gaps (gaps ++ (record { from_height = a; to_height = b } ∷ [])) h
      ≡ (in_gaps gaps h || (leb a h && leb h b))
unfolding in_gaps
in_gaps-append [] a b h = ground arith
in_gaps-append (g ∷ gaps) a b h = ground (arith, in_gaps-append gaps a b h)

-- What is known of the heights below `n`: those in a gap, and those in the gap that is open.
abbrev seen : Scan → ℕ → ℕ → Bool
seen s n h = in_gaps s.gaps h || (s.in_gap && (leb s.from h && ltb h n))

record IsScanned (committed : List ℕ) (s : Scan) (n : ℕ) : Type 0 where
  exact : (h : ℕ) → seen s n h ≡ (ltb h n && not (is_present committed h))
  open_below : s.in_gap ≡ true → s.from < n

scan_height-IsScanned :
    (committed : List ℕ) (s : Scan) (n : ℕ)
    → n < 2 ^ 64
    → IsScanned committed s n
    → IsScanned committed (scan_height committed s n) (suc n)
unfolding scan_height
scan_height-IsScanned committed s n wide v = record {
  exact = λ h. ground (
    arith,
    v.exact h,
    v.open_below,
    in_gaps-append s.gaps s.from ((n + (2 ^ 64 - 1)) % 2 ^ 64) h,
  );
  open_below = ground (arith, v.open_below);
}

scan_step :
    (committed : List ℕ) (tip fuel n : ℕ) (s : Scan)
    → tip < 2 ^ 64 - 1
    → n ≤ tip
    → scan_from committed tip (suc fuel) n s
      ≡ scan_from committed tip fuel (suc n) (scan_height committed s n)
unfolding scan_from
scan_step committed tip fuel n s wide below =
    let within : leb n tip ≡ true = ground arith in
    let next : (n + 1) % 2 ^ 64 ≡ suc n = omega arith in
    rw within (ap (λ h. scan_from committed tip fuel h (scan_height committed s n)) next)

-- The loop ends behind the tip, whatever is left of the fuel, and all heights have been seen.
record Ended (committed : List ℕ) (tip fuel n : ℕ) (s : Scan) : Type 0 where
  last : Scan
  ends : scan_from committed tip fuel n s ≡ some last
  scanned : IsScanned committed last (suc tip)

scan_from-Ended :
    (committed : List ℕ) (tip rounds n : ℕ) (s : Scan)
    → tip < 2 ^ 64 - 1
    → rounds + n ≡ suc tip
    → IsScanned committed s n
    → Ended committed tip (suc rounds) n s
unfolding scan_from
scan_from-Ended committed tip zero n s wide all v = record {
  last = s;
  ends = let over : leb n tip ≡ false = ground arith in rw over refl;
  scanned = let over : n ≡ suc tip = omega arith in subst (IsScanned committed s) over v;
}
scan_from-Ended committed tip (suc rounds) n s wide all v =
    let e =
      scan_from-Ended committed tip rounds (suc n) (scan_height committed s n) wide (omega arith)
        (scan_height-IsScanned committed s n (omega arith) v) in
    record {
      last = e.last;
      ends = scan_step committed tip (suc rounds) n s wide (omega arith) ∙ e.ends;
      scanned = e.scanned;
    }

close_gaps_exact :
    (committed : List ℕ) (tip h : ℕ) (s : Scan)
    → IsScanned committed s (suc tip)
    → in_gaps (close_gaps tip s) h ≡ (leb h tip && not (is_present committed h))
unfolding close_gaps
close_gaps_exact committed tip h s v = ground (arith, v.exact h, in_gaps-append s.gaps s.from tip h)

no_gaps-IsScanned : (committed : List ℕ) → IsScanned committed no_gaps 0
unfolding no_gaps in_gaps
no_gaps-IsScanned committed = record { exact = λ h. ground arith; open_below = λ e. cc }

-- The gaps that are reported, and which heights lie in them.
pub record Covered (committed : List ℕ) (tip : ℕ) : Type 0 where
  pub gaps : List ParticipationGap
  pub returns : coverage_gaps committed tip ≡ some gaps
  pub exact : (h : ℕ) → in_gaps gaps h ≡ (leb h tip && not (is_present committed h))

-- For every tip below 2^64 - 1 the loop of CoverageGaps ends, and a height lies in a gap that it
-- reports exactly when it is at most the tip and is not among the committed heights.
pub coverage_gaps_exact : (committed : List ℕ) (tip : ℕ) → tip < 2 ^ 64 - 1 → Covered committed tip
unfolding coverage_gaps gaps_at_end
coverage_gaps_exact committed tip wide = record {
  gaps = close_gaps tip e.last;
  returns =
      let fuel : tip + 2 ≡ suc (suc tip) = omega arith in
      ap (gaps_at_end tip) (ap (λ rounds. scan_from committed tip rounds 0 no_gaps) fuel ∙ e.ends);
  exact = λ h. close_gaps_exact committed tip h e.last e.scanned;
}
  where
    e : Ended committed tip (suc (suc tip)) 0 no_gaps
    e =
        scan_from-Ended committed tip (suc tip) 0 no_gaps wide (omega arith)
          (no_gaps-IsScanned committed)

-- With the greatest uint64 as the tip no fuel is enough: the counter wraps before it exceeds the tip.
never_ends :
    (committed : List ℕ) (fuel h : ℕ) (s : Scan)
    → h < 2 ^ 64
    → scan_from committed (2 ^ 64 - 1) fuel h s ≡ none
unfolding scan_from
never_ends committed zero h s wide = refl
never_ends committed (suc fuel) h s wide =
    let within : leb h (2 ^ 64 - 1) ≡ true = ground arith in
    rw within
      (never_ends committed fuel ((h + 1) % 2 ^ 64) (scan_height committed s h) (omega arith))
