-- ===== src/Commitment/Inclusion.antt =====
-- Every leaf of a tree has a path, and the path folds to the root.
use mfspv.Base.{
  ℕ, zero, suc, ◌+◌, ◌/◌, ◌%◌, All, ◌≤◌, ◌<◌, ◌≡◌, refl, sym, ◌∙◌, Bool, false, List, [], ◌∷◌,
  length, get_elem?, some, ok, arith, ltb, ◌==◌, subst, if◌then◌else◌, lt_of_get_elem?,
  some-injective,
}
use mfspv.Commitment.Hashing.{Sha256, Hash, IsHash, PathElem, fold_step, fold}
use mfspv.Commitment.Tree.{
  next_level, layers_from, last_layer, build_merkle_tree, climb, merkle_path,
}
use mfspv.Commitment.Levels.{
  length-next_level, next_level-IsHash, layers_from_head, layers_from_step, last_layer-layers_from,
  climb-layers_from, Step, level-Step,
}

-- How many levels stand above a level of `n` nodes, on fuel.
unfoldable pub levels_above : ℕ → ℕ → ℕ
levels_above zero n = 0
levels_above (suc fuel) n =
    let rest = levels_above fuel ((n + 1) / 2) in if ltb 1 n then suc rest else 0

-- The sides on which the siblings of position `i` stand, lowest level first.
unfoldable pub sides : ℕ → ℕ → List Bool
sides zero i = []
sides (suc n) i = (i % 2 == 0) ∷ sides n (i / 2)

abbrev pub right_bits : List PathElem → List Bool
right_bits [] = []
right_bits (e ∷ path) = e.right ∷ right_bits path

abbrev pub IsHashPath : List PathElem → Type 0
IsHashPath path = All (λ (e : PathElem). IsHash e.sibling) path

-- Within the leaf level the range check passes.
merkle_path_in_range :
    (layers : List (List Hash)) (leaves : List Hash) (i : ℕ)
    → (more : List (List Hash)) × (layers ≡ leaves ∷ more)
    → i < length leaves
    → merkle_path layers i ≡ climb layers i
unfolding merkle_path
merkle_path_in_range layers leaves i (more, e) h = rw e (ground arith)

module _ ⦃sha : Sha256⦄ where
  -- A path from the node at `i` to the one node on top.
  pub record Climb (fuel : ℕ) (level : List Hash) (i : ℕ) (node : Hash) : Type 0 where
    pub path : List PathElem
    pub root : Hash
    pub climbs : climb (layers_from fuel level) i ≡ ok path
    pub tops : last_layer (layers_from fuel level) ≡ ok (root ∷ [])
    pub folds : fold node path ≡ root
    pub long : length path ≡ levels_above fuel (length level)
    pub turns : right_bits path ≡ sides (length path) i
    pub hashed : All IsHash level → IsHashPath path

  Climb-single : (fuel : ℕ) (x : Hash) → Climb fuel (x ∷ []) 0 x
  unfolding last_layer climb fold levels_above layers_from sides
  Climb-single zero x = record {
    path = [];
    root = x;
    climbs = refl;
    tops = refl;
    folds = refl;
    long = refl;
    turns = refl;
    hashed = λ h. tt;
  }
  Climb-single (suc fuel) x = record {
    path = [];
    root = x;
    climbs = refl;
    tops = refl;
    folds = refl;
    long = refl;
    turns = refl;
    hashed = λ h. tt;
  }

  Climb-up :
      (fuel : ℕ) (level : List Hash) (i : ℕ)
      → 1 < length level
      → (s : Step level i) → Climb fuel (next_level level) (i / 2) (fold_step s.node s.elem)
      → Climb (suc fuel) level i s.node
  unfolding fold levels_above sides
  Climb-up fuel level i wide s up = record {
    path = s.elem ∷ up.path;
    root = up.root;
    climbs = rw (layers_from_step fuel level wide, climb-layers_from, s.at_elem, up.climbs) refl;
    tops = rw (layers_from_step fuel level wide, last_layer-layers_from) up.tops;
    folds = up.folds;
    long = ground (arith, up.long, length-next_level level);
    turns = cc (s.side, up.turns);
    hashed = λ h. (s.hashed h, up.hashed (next_level-IsHash level));
  }

  -- With enough fuel every node of a level has such a path.
  pub Climb-total :
      (fuel : ℕ) (level : List Hash) (i : ℕ) (node : Hash)
      → get_elem? level i ≡ some node
      → length level ≤ suc fuel
      → Climb fuel level i node
  Climb-total fuel [] i node at small = cc
  Climb-total fuel (x ∷ []) zero node at small =
      subst (λ n. Climb fuel (x ∷ []) 0 n) (some-injective x node at) (Climb-single fuel x)
  Climb-total fuel (x ∷ []) (suc i) node at small = cc
  Climb-total zero (x ∷ y ∷ level) i node at small = absurd (omega arith)
  Climb-total (suc fuel) (x ∷ y ∷ level) i node at small =
      let s = level-Step (x ∷ y ∷ level) i (lt_of_get_elem? (x ∷ y ∷ level) i at) in
      let up =
        Climb-total fuel (next_level (x ∷ y ∷ level)) (i / 2) (fold_step s.node s.elem) s.at_parent
          (omega (arith, length-next_level (x ∷ y ∷ level))) in
      subst (λ n. Climb (suc fuel) (x ∷ y ∷ level) i n)
        (some-injective s.node node (sym s.at_node ∙ at))
        (Climb-up fuel (x ∷ y ∷ level) i (omega arith) s up)

  -- What MerklePath and BuildMerkleTree give for the leaf at `i`.
  pub record Included (leaves : List Hash) (i : ℕ) (leaf : Hash) : Type 0 where
    pub root : Hash
    pub layers : List (List Hash)
    pub path : List PathElem
    pub builds : build_merkle_tree leaves ≡ ok (root, layers)
    pub paths : merkle_path layers i ≡ ok path
    pub folds : fold leaf path ≡ root
    pub long : length path ≡ levels_above (length leaves) (length leaves)
    pub turns : right_bits path ≡ sides (length path) i
    pub hashed : All IsHash leaves → IsHashPath path

  -- For every leaf of a tree BuildMerkleTree and MerklePath return, neither with an error nor out of
  -- range, and the leaf folds along the path to the root.
  pub leaf-Included :
      (leaves : List Hash) (i : ℕ) (leaf : Hash)
      → get_elem? leaves i ≡ some leaf
      → Included leaves i leaf
  unfolding build_merkle_tree merkle_path
  leaf-Included leaves i leaf at = record {
    root = c.root;
    layers = layers_from (length leaves) leaves;
    path = c.path;
    builds = rw (nonempty, c.tops) refl;
    paths =
        merkle_path_in_range (layers_from (length leaves) leaves) leaves i head
          (lt_of_get_elem? leaves i at)
        ∙ c.climbs;
    folds = c.folds;
    long = c.long;
    turns = c.turns;
    hashed = c.hashed;
  }
    where
      c : Climb (length leaves) leaves i leaf
      c = Climb-total (length leaves) leaves i leaf at (omega arith)

      head : (more : List (List Hash)) × (layers_from (length leaves) leaves ≡ leaves ∷ more)
      head = layers_from_head (length leaves) leaves

      nonempty : (length leaves == 0) ≡ false
      nonempty = ground (arith, lt_of_get_elem? leaves i at)

  -- BuildMerkleTree and MerklePath have one result each.
  pub Included-unique :
      {leaves : List Hash} {i : ℕ} {leaf root : Hash} {layers : List (List Hash)}
      {path : List PathElem}
      → (inc : Included leaves i leaf) → build_merkle_tree leaves ≡ ok (root, layers)
      → merkle_path layers i ≡ ok path
      → (inc.root ≡ root) × (inc.path ≡ path)
  Included-unique inc built walked = (cc (inc.builds), cc (inc.builds, inc.paths))
