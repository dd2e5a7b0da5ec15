-- ===== src/Teranode/Trees.antt =====
-- The trees that SealBlock builds: each subtree is the tree of its leaves.
use mfspv.Base.{
  ℕ, zero, suc, ◌≤◌, ◌<◌, ◌≡◌, refl, ◌∙◌, subst, List, [], ◌∷◌, length, take, drop, All, All-take,
  All-drop, length-take_le, length-drop_le, ok, >>=-eq-ok, arith,
}
use mfspv.Commitment.Hashing.{Sha256, Hash, IsHash, fold-IsHash}
use mfspv.Commitment.Tree.{build_merkle_tree}
use mfspv.Commitment.Inclusion.{leaf-Included}
use mfspv.Teranode.Node.{seal_subtrees}

module _ ⦃sha : Sha256⦄ where
  -- A tree of a list of leaves that is not empty is built.
  pub build_total :
      (leaf : Hash) (leaves : List Hash)
      → (root : Hash) × (layers : List (List Hash)) × (build_merkle_tree (leaf ∷ leaves)
          ≡ ok (root, layers))
  build_total leaf leaves =
      let inc = leaf-Included (leaf ∷ leaves) 0 leaf refl in (inc.root, inc.layers, inc.builds)

  pub build-IsHash :
      (leaves : List Hash) (root : Hash) (layers : List (List Hash))
      → All IsHash leaves
      → build_merkle_tree leaves ≡ ok (root, layers)
      → IsHash root
  build-IsHash [] root layers hs e = unfold build_merkle_tree in cc
  build-IsHash (leaf ∷ leaves) root layers (h, hs) e =
      let inc = leaf-Included (leaf ∷ leaves) 0 leaf refl in
      let same : inc.root ≡ root = cc (inc.builds, e) in
      subst IsHash (inc.folds ∙ same) (fold-IsHash leaf inc.path h)

  -- A subtree of at most `size` leaves.
  pub record IsTree (size : ℕ) (r : Hash) (layers : List (List Hash)) : Type 0 where
    pub leaves : List Hash
    pub built : build_merkle_tree leaves ≡ ok (r, layers)
    pub hashes : All IsHash leaves
    pub few : length leaves ≤ size

  abbrev pub IsForest : ℕ → List Hash → List (List (List Hash)) → Type 0
  IsForest size [] [] = Unit {0}
  IsForest size (r ∷ roots) (t ∷ trees) = IsTree size r t × IsForest size roots trees
  IsForest size [] (t ∷ trees) = ⊥
  IsForest size (r ∷ roots) [] = ⊥

  pub seal_subtrees-IsForest :
      (rounds size : ℕ) (leaves roots : List Hash) (trees : List (List (List Hash)))
      → All IsHash leaves
      → seal_subtrees rounds size leaves ≡ ok (roots, trees)
      → IsForest size roots trees
  unfolding seal_subtrees
  seal_subtrees-IsForest zero size leaves roots trees hs e =
      let r : [] ≡ roots = cc in
      let t : [] ≡ trees = cc in
      subst (λ x. IsForest size x trees) r (subst (λ x. IsForest size [] x) t tt)
  seal_subtrees-IsForest (suc rounds) size [] roots trees hs e =
      let r : [] ≡ roots = cc in
      let t : [] ≡ trees = cc in
      subst (λ x. IsForest size x trees) r (subst (λ x. IsForest size [] x) t tt)
  seal_subtrees-IsForest (suc rounds) size (leaf ∷ leaves) roots trees hs e =
      let (first, built, more) = >>=-eq-ok (build_merkle_tree (take size (leaf ∷ leaves))) _ e in
      let (others, sealed, last) =
        >>=-eq-ok (seal_subtrees rounds size (drop size (leaf ∷ leaves))) _ more in
      let here : IsTree size first.0 first.1 = record {
        leaves = take size (leaf ∷ leaves);
        built = built;
        hashes = All-take IsHash size (leaf ∷ leaves) hs;
        few = length-take_le size (leaf ∷ leaves);
      } in
      let rest =
        seal_subtrees-IsForest rounds size (drop size (leaf ∷ leaves)) others.0 others.1
          (All-drop IsHash size (leaf ∷ leaves) hs) sealed in
      let r : first.0 ∷ others.0 ≡ roots = cc in
      let t : first.1 ∷ others.1 ≡ trees = cc in
      subst (λ x. IsForest size x trees) r
        (subst (λ x. IsForest size (first.0 ∷ others.0) x) t (here, rest))

  -- Subtrees of one leaf or more are always sealed.
  pub seal_subtrees_total :
      (rounds size : ℕ) (leaves : List Hash)
      → 0 < size
      → length leaves ≤ rounds
      → (out : List Hash × List (List (List Hash))) × (seal_subtrees rounds size leaves ≡ ok out)
        × (0 < length leaves → 0 < length out.0)
  unfolding seal_subtrees
  seal_subtrees_total zero size [] s h = (([], []), refl, λ p. p)
  seal_subtrees_total zero size (leaf ∷ leaves) s h = absurd (omega arith)
  seal_subtrees_total (suc rounds) size [] s h = (([], []), refl, λ p. p)
  seal_subtrees_total (suc rounds) zero (leaf ∷ leaves) s h = absurd (omega arith)
  seal_subtrees_total (suc rounds) (suc size) (leaf ∷ leaves) s h =
      let (r, layers, built) = build_total leaf (take size leaves) in
      let (out, sealed, some') =
        seal_subtrees_total rounds (suc size) (drop (suc size) (leaf ∷ leaves)) s
          (omega (arith, length-drop_le (suc size) leaf leaves (omega arith))) in
      ((r ∷ out.0, layers ∷ out.1), rw (built, sealed) refl, λ p. omega arith)
