-- ===== src/Commitment/Duplication.antt =====
-- The odd-node rule: repeating the last leaf of an odd level does not change the root.
use mfspv.Base.{
  ℕ, zero, suc, ◌+◌, ◌-◌, ◌≤◌, ◌%◌, ◌≡◌, refl, sym, ap, ◌∙◌, false, List, [], ◌∷◌, ◌++◌, length,
  Result, ok, err, ◌>>=◌, ◌==◌, arith, index, length-append,
}
use mfspv.Commitment.Hashing.{Sha256, Hash, hash_pair}
use mfspv.Commitment.Tree.{next_level, layers_from, last_layer, build_merkle_tree, merkle_root}
use mfspv.Commitment.Levels.{layers_from_step, last_layer-layers_from, length-next_level}

module _ ⦃sha : Sha256⦄ where
  -- The level above does not tell an odd level from the one with its last node repeated.
  next_level-repeat_last :
      (xs : List Hash) (x : Hash)
      → length xs % 2 ≡ 0
      → next_level (xs ++ (x ∷ x ∷ [])) ≡ next_level (xs ++ (x ∷ []))
  unfolding next_level
  next_level-repeat_last [] x h = refl
  next_level-repeat_last (a ∷ []) x h = absurd (omega arith)
  next_level-repeat_last (a ∷ b ∷ xs) x h =
      ap (λ t. hash_pair a b ∷ t) (next_level-repeat_last xs x (omega arith))

  -- Fuel that is enough gives one result.
  pub layers_from_fuel :
      (f g : ℕ) (level : List Hash)
      → length level ≤ suc f
      → length level ≤ suc g
      → layers_from f level ≡ layers_from g level
  unfolding layers_from
  layers_from_fuel zero zero level hf hg = refl
  layers_from_fuel zero (suc g) level hf hg = ground arith
  layers_from_fuel (suc f) zero level hf hg = ground arith
  layers_from_fuel (suc f) (suc g) level hf hg =
      ground (arith, length-next_level level, layers_from_fuel f g (next_level level))

  root_only :
      {A : Type 0} (r : Result (List Hash)) (layers : A)
      → ((r >>= λ top. ◌>>=◌ {A = Hash} {B = Hash × A} (index top 0) (λ root. ok (root, layers)))
          >>= λ p. ok p.0)
        ≡ (r >>= λ top. index top 0)
  root_only (ok []) layers = refl
  root_only (ok (root ∷ more)) layers = refl
  root_only (err e) layers = refl

  -- The root of two leaves or more is that of the level above them.
  merkle_root_above :
      (n f : ℕ) (leaves : List Hash)
      → length leaves ≡ suc (suc n)
      → suc (suc n) ≤ f
      → merkle_root leaves ≡ (last_layer (layers_from f (next_level leaves)) >>= λ top. index top 0)
  unfolding merkle_root build_merkle_tree
  merkle_root_above n f leaves wide enough =
      let nonempty : (length leaves == 0) ≡ false = ground arith in
      rw nonempty (
        root_only (last_layer (layers_from (length leaves) leaves))
          (layers_from (length leaves) leaves))
      ∙ ap (λ r. r >>= λ top. index top 0) top_layer
    where
      top_layer :
          last_layer (layers_from (length leaves) leaves)
          ≡ last_layer (layers_from f (next_level leaves))
      top_layer =
          rw
            (
              wide,
              layers_from_step (suc n) leaves (omega arith),
              last_layer-layers_from,
              layers_from_fuel (suc n) f (next_level leaves)
                  (omega (arith, length-next_level leaves))
                  (omega (arith, length-next_level leaves)),
            )
            refl

  -- Repeating the last leaf of an odd number of leaves, three or more, does not change the root.
  pub merkle_root-repeat_last :
      (xs : List Hash) (x : Hash)
      → length xs % 2 ≡ 0
      → 2 ≤ length xs
      → merkle_root (xs ++ (x ∷ x ∷ [])) ≡ merkle_root (xs ++ (x ∷ []))
  merkle_root-repeat_last xs x even wide =
      merkle_root_above (length xs) (length xs + 2) (xs ++ (x ∷ x ∷ []))
        (omega (arith, length-append {0} xs (x ∷ x ∷ []))) (omega arith)
      ∙ ap (λ level. last_layer (layers_from (length xs + 2) level) >>= λ top. index top 0)
          (next_level-repeat_last xs x even)
      ∙ sym (
          merkle_root_above (length xs - 1) (length xs + 2) (xs ++ (x ∷ []))
            (omega (arith, length-append {0} xs (x ∷ []))) (omega arith))
