-- ===== src/Commitment/Levels.antt =====
-- The layers that BuildMerkleTree builds: their widths, the single node on top, and one step up.
use mfspv.Base.{
  ℕ, zero, suc, ◌+◌, ◌-◌, ◌/◌, ◌%◌, ◌<◌, ◌≡◌, refl, true, false, List, [], ◌∷◌, length, All,
  get_elem?, ◌∙◌, some, ok, arith, ◌>>=◌, ltb, Bool-cases, inl, inr, ◌==◌,
}
use mfspv.Commitment.Hashing.{Sha256, Hash, IsHash, PathElem, hash_pair-IsHash, fold_step}
use mfspv.Commitment.Tree.{next_level, layers_from, last_layer, sibling_at, climb}

module _ ⦃sha : Sha256⦄ where
  -- A level has half the nodes of the level below it, rounded up.
  pub length-next_level : (level : List Hash) → length (next_level level) ≡ (length level + 1) / 2
  unfolding next_level
  length-next_level [] = omega arith
  length-next_level (a ∷ []) = omega arith
  length-next_level (a ∷ b ∷ rest) = omega (arith, length-next_level rest)

  -- The first layer is the level itself.
  pub layers_from_head :
      (fuel : ℕ) (level : List Hash)
      → (more : List (List Hash)) × (layers_from fuel level ≡ level ∷ more)
  unfolding layers_from
  layers_from_head zero level = ([], refl)
  layers_from_head (suc fuel) level = elim (Bool-cases (ltb 1 (length level))) [
    | inl more ↦ (layers_from fuel (next_level level), rw more)
    | inr last ↦ ([], rw last)
  ]

  pub layers_from_step :
      (fuel : ℕ) (level : List Hash)
      → 1 < length level
      → layers_from (suc fuel) level ≡ level ∷ layers_from fuel (next_level level)
  unfolding layers_from
  layers_from_step fuel level h = ground arith

  pub layers_from_single : (fuel : ℕ) (x : Hash) → layers_from fuel (x ∷ []) ≡ (x ∷ []) ∷ []
  unfolding layers_from
  layers_from_single zero x = refl
  layers_from_single (suc fuel) x = refl

  pub last_layer-layers_from :
      (layer : List Hash) (fuel : ℕ) (level : List Hash)
      → last_layer (layer ∷ layers_from fuel level) ≡ last_layer (layers_from fuel level)
  last_layer-layers_from layer fuel level =
      let (more, e) = layers_from_head fuel level in rw e (unfold last_layer in refl)

  pub climb-layers_from :
      (layer : List Hash) (fuel : ℕ) (level : List Hash) (i : ℕ)
      → climb (layer ∷ layers_from fuel level) i
        ≡ (sibling_at layer i >>= λ e. climb (layers_from fuel level) (i / 2) >>= λ p. ok (e ∷ p))
  climb-layers_from layer fuel level i =
      let (more, e) = layers_from_head fuel level in rw e (unfold climb in refl)

  -- What the node at `i` and its sibling say of the node above them.
  pub record Step (level : List Hash) (i : ℕ) : Type 0 where
    pub node : Hash
    pub elem : PathElem
    pub at_node : get_elem? level i ≡ some node
    pub at_elem : sibling_at level i ≡ ok elem
    pub at_parent : get_elem? (next_level level) (i / 2) ≡ some (fold_step node elem)
    pub side : elem.right ≡ (i % 2 == 0)
    pub hashed : All IsHash level → IsHash elem.sibling

  half_suc-suc : (i : ℕ) → suc (suc i) / 2 ≡ suc (i / 2)
  half_suc-suc i = omega arith

  two_on :
      (i n : ℕ)
      → (suc (suc i) % 2 ≡ i % 2)
        × (suc (suc i) + 1 ≡ suc (suc (i + 1)))
        × (ltb (suc (suc (i + 1))) (suc (suc n)) ≡ ltb (i + 1) n)
  two_on i n = (omega arith, omega arith, ground arith)

  -- The two nodes in front of a level do not change the siblings behind them.
  sibling_at-suc-suc :
      (a b : Hash) (rest : List Hash) (i : ℕ)
      → sibling_at (a ∷ b ∷ rest) (suc (suc i)) ≡ sibling_at rest i
  unfolding sibling_at
  sibling_at-suc-suc a b [] zero = refl
  sibling_at-suc-suc a b (c ∷ rest) zero = ground arith
  sibling_at-suc-suc a b rest (suc k) =
      let (parity, next, bound) = two_on (suc k) (length rest) in
      rw (parity, next, bound)
        (elim (Bool-cases (suc k % 2 == 0)) [
          | inl even ↦ rw even (elim (Bool-cases (ltb (suc k + 1) (length rest))) [
            | inl fits ↦ rw fits
            | inr last ↦ rw last
          ])
          | inr odd ↦ rw (odd, back (suc (suc k)), back k) refl
        ])
    where
      back : (n : ℕ) → suc n - 1 ≡ n
      back n = omega arith

  -- Every node of a level above the leaves is a digest.
  pub next_level-IsHash : (level : List Hash) → All IsHash (next_level level)
  unfolding next_level
  next_level-IsHash [] = tt
  next_level-IsHash (a ∷ []) = (hash_pair-IsHash a a, tt)
  next_level-IsHash (a ∷ b ∷ rest) = (hash_pair-IsHash a b, next_level-IsHash rest)

  Step-on :
      (a b : Hash) (rest : List Hash) (i : ℕ) → Step rest i → Step (a ∷ b ∷ rest) (suc (suc i))
  unfolding next_level
  Step-on a b rest i below = record {
    node = below.node;
    elem = below.elem;
    at_node = below.at_node;
    at_elem = sibling_at-suc-suc a b rest i ∙ below.at_elem;
    at_parent = rw half_suc-suc below.at_parent;
    side = let (parity, next, bound) = two_on i 0 in rw parity below.side;
    hashed = λ h. below.hashed (h.1).1;
  }

  -- Every node of a level has a sibling, and their hash stands above them.
  pub level-Step : (level : List Hash) (i : ℕ) → i < length level → Step level i
  unfolding sibling_at next_level fold_step
  level-Step [] i h = elim h [ ]
  level-Step (a ∷ []) zero h = record {
    node = a;
    elem = record { sibling = a; right = true };
    at_node = refl;
    at_elem = refl;
    at_parent = refl;
    side = refl;
    hashed = λ h. h.0;
  }
  level-Step (a ∷ []) (suc i) h = absurd (omega arith)
  level-Step (a ∷ b ∷ rest) zero h = record {
    node = a;
    elem = record { sibling = b; right = true };
    at_node = refl;
    at_elem = ground arith;
    at_parent = refl;
    side = refl;
    hashed = λ h. (h.1).0;
  }
  level-Step (a ∷ b ∷ rest) (suc zero) h = record {
    node = b;
    elem = record { sibling = a; right = false };
    at_node = refl;
    at_elem = refl;
    at_parent = refl;
    side = refl;
    hashed = λ h. h.0;
  }
  level-Step (a ∷ b ∷ rest) (suc (suc i)) h = Step-on a b rest i (level-Step rest i (omega arith))
