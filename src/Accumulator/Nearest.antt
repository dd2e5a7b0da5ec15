-- ===== src/Accumulator/Nearest.antt =====
-- NearestCommitted returns the greatest committed height that is not above the one asked for.
use mfspv.Base.{
  ℕ, ◌^◌, ◌≤◌, ◌<◌, ◌≡◌, refl, true, false, Bool, not, ◌&&◌, ◌||◌, List, [], ◌∷◌, arith, Bool-cases,
  inl, inr, ltb, leb, ◌==◌, if◌then◌else◌, Option, none, some,
}
use mfspv.Accumulator.Gaps.{is_present, better, nearest_loop, nearest_committed}

-- The best so far, `none` for none: the greatest of the heights that count.
abbrev IsBest : (ℕ → Bool) → ℕ → Option ℕ → Type 0
IsBest seen height none = (c : ℕ) → c ≤ height → seen c ≡ false
IsBest seen height (some b) =
    (b ≤ height) × (seen b ≡ true) × ((c : ℕ) → c ≤ height → seen c ≡ true → c ≤ b)

nearest_loop_exact :
    (height : ℕ) (committed : List ℕ) (best : Option ℕ) (exact : Bool)
    → (nearest_loop height committed best exact).1 ≡ (exact || is_present committed height)
unfolding nearest_loop is_present
nearest_loop_exact height [] best exact = ground arith
nearest_loop_exact height (c ∷ committed) best exact = ground (
  arith,
  nearest_loop_exact height committed (if leb c height && better c best then some c else best)
      (if c == height then true else exact),
)

IsBest-step :
    (seen : ℕ → Bool) (height c : ℕ) (best : Option ℕ)
    → height < 2 ^ 63
    → IsBest seen height best
    → IsBest (λ x. seen x || c == x) height (if leb c height && better c best then some c else best)
unfolding better
IsBest-step seen height c none small v = elim (Bool-cases (leb c height)) [
  | inl below ↦
      let fits : ltb c (2 ^ 63) ≡ true = ground arith in
      rw (below, fits) (ground arith, ground arith, λ x lo s. ground (arith, v x))
  | inr above ↦ rw above (λ x lo. ground (arith, v x))
]
IsBest-step seen height c (some b) small v =
    elim (Bool-cases (leb c height && (ltb c (2 ^ 63) && ltb b c))) [
      | inl better ↦ rw better (ground arith, ground arith, λ x lo s. ground (arith, v.2 x))
      | inr worse ↦ rw worse (v.0, ground (arith, v.1), λ x lo s. ground (arith, v.2 x))
    ]

IsBest-same :
    (p q : ℕ → Bool) (height : ℕ) (best : Option ℕ)
    → ((x : ℕ) → p x ≡ q x)
    → IsBest p height best
    → IsBest q height best
IsBest-same p q height none e v = λ x lo. ground (arith, e x, v x)
IsBest-same p q height (some b) e v =
    (v.0, ground (arith, e b, v.1), λ x lo s. ground (arith, e x, v.2 x))

nearest_loop-IsBest :
    (seen : ℕ → Bool) (height : ℕ) (committed : List ℕ) (best : Option ℕ) (exact : Bool)
    → height < 2 ^ 63
    → IsBest seen height best
    → IsBest
        (λ x. seen x || is_present committed x)
        height
        (nearest_loop height committed best exact).0
unfolding nearest_loop is_present
nearest_loop-IsBest seen height [] best exact small v =
    IsBest-same seen (λ x. seen x || false) height best (λ x. ground arith) v
nearest_loop-IsBest seen height (c ∷ committed) best exact small v =
    IsBest-same (λ x. (seen x || c == x) || is_present committed x)
      (λ x. seen x || (c == x || is_present committed x)) height
      (nearest_loop height committed (if leb c height && better c best then some c else best)
        (if c == height then true else exact)).0
      (λ x. ground arith)
      (nearest_loop-IsBest (λ x. seen x || c == x) height committed
        (if leb c height && better c best then some c else best)
        (if c == height then true else exact) small (IsBest-step seen height c best small v))

-- What NearestCommitted promises: the flag says that the height itself was not committed. Where a
-- committed height is not above it, the answer is the greatest such; otherwise it is 0, in a gap.
pub record IsNearest (height : ℕ) (committed : List ℕ) (answer : ℕ × Bool) : Type 0 where
  pub flag : answer.1 ≡ not (is_present committed height)
  pub greatest :
      (c : ℕ)
      → c ≤ height
      → is_present committed c ≡ true
      → (answer.0 ≤ height) × (is_present committed answer.0 ≡ true) × (c ≤ answer.0)
  pub nothing : ((c : ℕ) → c ≤ height → is_present committed c ≡ false) → answer ≡ (0, true)

-- For every height below 2^63, NearestCommitted returns the greatest committed height that is not
-- above it, or 0 and true where there is none, and its flag says that the height itself was not
-- committed.
pub nearest_committed-IsNearest :
    (height : ℕ) (committed : List ℕ)
    → height < 2 ^ 63
    → IsNearest height committed (nearest_committed height committed)
unfolding nearest_committed
nearest_committed-IsNearest height committed small =
    answer (nearest_loop height committed none false)
      (nearest_loop_exact height committed none false)
      (nearest_loop-IsBest (λ x. false) height committed none false small (λ c lo. refl))
  where
    answer :
        (r : Option ℕ × Bool)
        → r.1 ≡ is_present committed height
        → IsBest (λ x. is_present committed x) height r.0
        → IsNearest height committed
            (elim r.0 as (λ _. ℕ × Bool) [ none ↦ (0, true) | some b ↦ (b, not r.1) ])
    answer (none, exact) e v = record {
      flag = ground (arith, v height);
      greatest = λ c lo s. absurd (cc (v c lo));
      nothing = λ h. refl;
    }
    answer (some b, exact) e v = record {
      flag = ground arith;
      greatest = λ c lo s. (v.0, v.1, v.2 c lo s);
      nothing = λ h. absurd (cc (h b v.0, v.1));
    }
