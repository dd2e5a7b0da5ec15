-- ===== src/Accumulator/Proofs.antt =====
-- Every header of an MMR has a proof that folds to the root.
use mfspv.Base.{
  ℕ, suc, ◌+◌, ◌-◌, ◌^◌, ◌≤◌, ◌<◌, ◌≡◌, refl, true, false, List, [], ◌∷◌, ◌++◌, length, get_elem?,
  drop, some, arith, Bool-cases, inl, inr, ◌∙◌, sym, ap, ok, ltb, leb, length-append, length-take,
  length-drop, get_elem?-take, get_elem?-drop, lt_of_get_elem?, Bytes, eq→bytes_eq,
  get_elem?-append,
}
use mfspv.Commitment.Hashing.{Sha256, Hash, PathElem, double_sha256, fold, fold-append}
use mfspv.Commitment.Tree.{build_merkle_tree, merkle_root, merkle_path}
use mfspv.Commitment.Inclusion.{Included, leaf-Included}
use mfspv.Commitment.Depth.{length-Included, ceil_log2_le}
use mfspv.Accumulator.Range.{
  Mmr, Mountain, mountain_sizes, slice, or_zero, locate, peaks_from, peaks, bag_peaks, root, append,
  bag_path, prove_block,
}
use mfspv.Accumulator.Anchor.{verify_block_in_chain}
use mfspv.Accumulator.Sizes.{sum, sum-mountain_sizes, length-mountain_sizes}
use mfspv.Accumulator.Bagging.{bag_path_total}

length-slice :
    (leaves : List Hash) (start span : ℕ)
    → start + span ≤ length leaves
    → length (slice leaves start span) ≡ span
length-slice leaves start span h =
    length-take span (drop start leaves) (omega (arith, length-drop start leaves))

get_elem?-slice :
    (leaves : List Hash) (start span i : ℕ)
    → start ≤ i
    → i < start + span
    → get_elem? (slice leaves start span) (i - start) ≡ get_elem? leaves i
get_elem?-slice leaves start span i lo hi =
    get_elem?-take span (drop start leaves) (i - start) (omega arith)
    ∙ get_elem?-drop start leaves i lo

module _ ⦃sha : Sha256⦄ where
  length-peaks_from :
      (leaves : List Hash) (start : ℕ) (sizes : List ℕ)
      → length (peaks_from leaves start sizes) ≡ length sizes
  unfolding peaks_from
  length-peaks_from leaves start [] = refl
  length-peaks_from leaves start (sz ∷ sizes) = ap suc (length-peaks_from leaves (start + sz) sizes)

  -- The mountain that the search finds for a height, and its peak.
  record Located (leaves : List Hash) (sizes : List ℕ) (number start height : ℕ) : Type 0 where
    mt : Mountain
    steps : ℕ
    finds : locate sizes number start height ≡ some mt
    counts : mt.number ≡ number + steps
    peak :
        get_elem? (peaks_from leaves start sizes) steps
        ≡ some (or_zero (merkle_root (slice leaves mt.start mt.span)))
    above : mt.start ≤ height
    below : height < mt.start + mt.span
    inside : mt.start + mt.span ≤ length leaves

  located_first :
      (leaves : List Hash) (sz : ℕ) (sizes : List ℕ) (number start height : ℕ)
      → start ≤ height
      → height < start + sz
      → start + sz ≤ length leaves
      → Located leaves (sz ∷ sizes) number start height
  unfolding locate peaks_from
  located_first leaves sz sizes number start height lo hi fits = record {
    mt = record { number = number; start = start; span = sz };
    steps = 0;
    finds = ground arith;
    counts = omega arith;
    peak = refl;
    above = lo;
    below = hi;
    inside = fits;
  }

  located_later :
      (leaves : List Hash) (sz : ℕ) (sizes : List ℕ) (number start height : ℕ)
      → start + sz ≤ height
      → Located leaves sizes (suc number) (start + sz) height
      → Located leaves (sz ∷ sizes) number start height
  unfolding locate peaks_from
  located_later leaves sz sizes number start height lo l = record {
    mt = l.mt;
    steps = suc l.steps;
    finds = ground (arith, l.finds);
    counts = omega (arith, l.counts);
    peak = l.peak;
    above = l.above;
    below = l.below;
    inside = l.inside;
  }

  located :
      (leaves : List Hash) (sizes : List ℕ) (number start height : ℕ)
      → start ≤ height
      → height < start + sum sizes
      → start + sum sizes ≤ length leaves
      → Located leaves sizes number start height
  unfolding sum
  located leaves [] number start height lo hi fits = absurd (omega arith)
  located leaves (sz ∷ sizes) number start height lo hi fits =
      elim (Bool-cases (ltb height (start + sz))) [
        | inl here ↦
            located_first leaves sz sizes number start height lo (ground arith) (omega arith)
        | inr later ↦ located_later leaves sz sizes number start height (ground arith) (
            located leaves sizes (suc number) (start + sz) height (ground arith) (omega arith)
              (omega arith))
      ]

  root_nonempty : (m : Mmr) → 0 < length m.leaves → root m ≡ bag_peaks (peaks m)
  unfolding root
  root_nonempty m h = ground arith

  length-peaks : (m : Mmr) → length (peaks m) ≤ 64
  unfolding peaks
  length-peaks m = omega (
    arith,
    length-peaks_from m.leaves 0 (mountain_sizes (length m.leaves)),
    length-mountain_sizes (length m.leaves),
  )

  -- The parts of a proof, put together.
  prove_block_parts :
      (m : Mmr) (height : ℕ) (mt : Mountain) (top : Hash) (layers : List (List Hash))
      (in_path bagging : List PathElem)
      → height < length m.leaves
      → locate (mountain_sizes (length m.leaves)) 0 0 height ≡ some mt
      → build_merkle_tree (slice m.leaves mt.start mt.span) ≡ ok (top, layers)
      → merkle_path layers (height - mt.start) ≡ ok in_path
      → bag_path (peaks m) mt.number ≡ ok bagging
      → prove_block m height ≡ ok (in_path ++ bagging, root m)
  unfolding prove_block
  prove_block_parts m height mt top layers in_path bagging h finds builds walks bags =
      let in_range : leb (length m.leaves) height ≡ false = ground arith in
      rw (in_range, finds, builds, walks, bags) refl

  -- What ProveBlock gives for the header whose digest is `leaf`.
  pub record Proved (m : Mmr) (height : ℕ) (leaf : Hash) : Type 0 where
    pub path : List PathElem
    pub proves : prove_block m height ≡ ok (path, root m)
    pub folds : fold leaf path ≡ root m
    pub long : length path ≤ 128

  -- ProveBlock returns a path for every height of an MMR of fewer than 2^64 headers, with the root
  -- of the MMR; the header's digest folds along it to that root, and it has 128 elements at most.
  pub height-Proved :
      (m : Mmr) (height : ℕ) (leaf : Hash)
      → length m.leaves < 2 ^ 64
      → get_elem? m.leaves height ≡ some leaf
      → Proved m height leaf
  unfolding peaks merkle_root or_zero
  height-Proved m height leaf small at = record {
    path = inc.path ++ bagging;
    proves =
        prove_block_parts m height mt inc.root inc.layers inc.path bagging inside l.finds inc.builds
          inc.paths (rw (l.counts ∙ steps_eq) bags);
    folds =
        fold-append leaf inc.path bagging
        ∙ ap (λ n. fold n bagging) inc.folds
        ∙ closes
        ∙ sym (root_nonempty m (omega (arith, inside)));
    long = omega (
      arith,
      length-append {0} inc.path bagging,
      length-Included inc short,
      ceil_log2_le 64 (length (slice m.leaves mt.start mt.span)) short,
      few,
      length-peaks m,
    );
  }
    where
      inside : height < length m.leaves
      inside = lt_of_get_elem? m.leaves height at

      l : Located m.leaves (mountain_sizes (length m.leaves)) 0 0 height
      l =
          located m.leaves (mountain_sizes (length m.leaves)) 0 0 height (omega arith)
            (omega (arith, inside, sum-mountain_sizes (length m.leaves) small))
            (omega (arith, sum-mountain_sizes (length m.leaves) small))

      mt : Mountain
      mt = l.mt

      steps_eq : 0 + l.steps ≡ l.steps
      steps_eq = omega arith

      inc : Included (slice m.leaves mt.start mt.span) (height - mt.start) leaf
      inc =
          leaf-Included (slice m.leaves mt.start mt.span) (height - mt.start) leaf
            (get_elem?-slice m.leaves mt.start mt.span height l.above l.below ∙ at)

      short : length (slice m.leaves mt.start mt.span) ≤ 2 ^ 64
      short = omega (arith, length-slice m.leaves mt.start mt.span l.inside, l.inside)

      peak_eq : get_elem? (peaks m) l.steps ≡ some inc.root
      peak_eq = l.peak ∙ rw inc.builds refl

      bag :
          (path : List PathElem) × (bag_path (peaks m) l.steps ≡ ok path)
          × (fold inc.root path ≡ bag_peaks (peaks m))
          × (length path ≤ length (peaks m))
      bag = bag_path_total (peaks m) l.steps inc.root peak_eq

      bagging : List PathElem
      bagging = bag.0

      bags : bag_path (peaks m) l.steps ≡ ok bagging
      bags = bag.1

      closes : fold inc.root bagging ≡ bag_peaks (peaks m)
      closes = bag.2

      few : length bagging ≤ length (peaks m)
      few = bag.3

  -- ProveBlock's path for a header of the MMR is accepted by VerifyBlockInChain against its root.
  pub proof_accepted :
      (m : Mmr) (height : ℕ) (header : Bytes)
      → length m.leaves < 2 ^ 64
      → get_elem? m.leaves height ≡ some (double_sha256 header)
      → (path : List PathElem) × (prove_block m height ≡ ok (path, root m))
        × (verify_block_in_chain header path (root m) ≡ true)
  unfolding verify_block_in_chain
  proof_accepted m height header small at =
      let p = height-Proved m height (double_sha256 header) small at in
      (
        p.path,
        p.proves,
        ground (arith, p.long, eq→bytes_eq (fold (double_sha256 header) p.path) (root m) p.folds),
      )

  -- Append, once for each header.
  unfoldable pub append_all : Mmr → List Bytes → Mmr
  append_all m [] = m
  append_all m (h ∷ headers) = append_all (append m h).0 headers

  append_all-leaves :
      (m : Mmr) (headers : List Bytes) (height : ℕ) (leaf : Hash)
      → get_elem? m.leaves height ≡ some leaf
      → get_elem? (append_all m headers).leaves height ≡ some leaf
  unfolding append_all append
  append_all-leaves m [] height leaf at = at
  append_all-leaves m (h ∷ headers) height leaf at =
      append_all-leaves (append m h).0 headers height leaf (
        get_elem?-append m.leaves (double_sha256 h ∷ []) height (lt_of_get_elem? m.leaves height at)
        ∙ at)

  length-append_all :
      (m : Mmr) (headers : List Bytes)
      → length (append_all m headers).leaves ≡ length m.leaves + length headers
  unfolding append_all append
  length-append_all m [] = omega arith
  length-append_all m (h ∷ headers) = omega (
    arith,
    length-append_all (append m h).0 headers,
    length-append {0} m.leaves (double_sha256 h ∷ []),
  )

  -- A header that is in the MMR stays provable, whatever headers are appended behind it: ProveBlock
  -- returns a path for its height against the new root, and VerifyBlockInChain accepts it.
  pub append_keeps_provable :
      (m : Mmr) (headers : List Bytes) (height : ℕ) (header : Bytes)
      → length m.leaves + length headers < 2 ^ 64
      → get_elem? m.leaves height ≡ some (double_sha256 header)
      → (path : List PathElem) × (prove_block (append_all m headers) height
          ≡ ok (path, root (append_all m headers)))
        × (verify_block_in_chain header path (root (append_all m headers)) ≡ true)
  append_keeps_provable m headers height header small at =
      proof_accepted (append_all m headers) height header
        (omega (arith, length-append_all m headers))
        (append_all-leaves m headers height (double_sha256 header) at)
