-- ===== src/Commitment/Binding.antt =====
-- Soundness of a fold: two openings of one root at one position agree, or they show two messages
-- with one SHA-256d digest.
use mfspv.Base.{
  ℕ, ◌^◌, ◌≤◌, All-get_elem?, subst, ◌≡◌, ◌≢◌, refl, ◌⊎◌, inl, inr, List, [], ◌∷◌, ◌++◌, length,
  get_elem?, some, All, Bytes, bytes_eq, bytes_eq→eq, bytes_eq_ne, Bool-cases, suc, if◌then◌else◌,
  append_cancel, ok, ap, sym, ◌∙◌,
}
use mfspv.Commitment.Hashing.{
  Sha256, Hash, IsHash, PathElem, double_sha256, hash_pair, fold_step, fold, fold_step-IsHash,
}
use mfspv.Commitment.Tree.{build_merkle_tree, merkle_path, ceil_log2}
use mfspv.Commitment.Inclusion.{
  right_bits, IsHashPath, sides, Included, leaf-Included, Included-unique,
}
use mfspv.Commitment.Depth.{length-Included}

-- The message that one step of a fold hashes.
unfoldable message : Hash → PathElem → Bytes
message node e = if e.right then node ++ e.sibling else e.sibling ++ node

message_cancel :
    (a b : Hash) (e f : PathElem)
    → IsHash a
    → IsHash b
    → IsHash e.sibling
    → IsHash f.sibling
    → e.right ≡ f.right
    → message a e ≡ message b f
    → (a ≡ b) × (e ≡ f)
unfolding message
message_cancel a b e f ha hb he hf side same = elim (Bool-cases e.right) [
  | inl r ↦
      (let (p, q) =
          append_cancel a b e.sibling f.sibling (ha ∙ sym hb) (rw (r, (sym side ∙ r)) at same) in
        (p, λ i. record { sibling = q i; right = side i }))
  | inr l ↦
      (let (p, q) =
          append_cancel e.sibling f.sibling a b (he ∙ sym hf) (rw (l, (sym side ∙ l)) at same) in
        (q, λ i. record { sibling = p i; right = side i }))
]

module _ ⦃sha : Sha256⦄ where
  fold_step_hashes :
      (node : Hash) (e : PathElem) → fold_step node e ≡ double_sha256 (message node e)
  unfolding fold_step hash_pair message
  fold_step_hashes node e = elim (Bool-cases e.right) [ inl r ↦ rw r refl | inr l ↦ rw l refl ]

  -- The messages that a fold hashes, in order.
  pub messages : Hash → List PathElem → List Bytes
  messages node [] = []
  messages node (e ∷ p) = message node e ∷ messages (fold_step node e) p

  -- Two folds hash, at one level, two different messages with one digest.
  pub record Collision (a : Hash) (p : List PathElem) (b : Hash) (q : List PathElem) : Type 0 where
    pub level : ℕ
    pub first : Bytes
    pub second : Bytes
    pub of_first : get_elem? (messages a p) level ≡ some first
    pub of_second : get_elem? (messages b q) level ≡ some second
    pub differ : first ≢ second
    pub collide : double_sha256 first ≡ double_sha256 second

  collide_above :
      (a b : Hash) (e f : PathElem) (p q : List PathElem)
      → Collision (fold_step a e) p (fold_step b f) q
      → Collision a (e ∷ p) b (f ∷ q)
  unfolding messages
  collide_above a b e f p q c = record {
    level = suc c.level;
    first = c.first;
    second = c.second;
    of_first = c.of_first;
    of_second = c.of_second;
    differ = c.differ;
    collide = c.collide;
  }

  -- The first step, where the rest of the two paths is the same.
  first_step :
      (a b : Hash) (e f : PathElem) (p q : List PathElem)
      → IsHash a
      → IsHash b
      → IsHash e.sibling
      → IsHash f.sibling
      → e.right ≡ f.right
      → p ≡ q
      → fold_step a e ≡ fold_step b f
      → ((a ≡ b) × (e ∷ p ≡ f ∷ q)) ⊎ Collision a (e ∷ p) b (f ∷ q)
  unfolding messages
  first_step a b e f p q ha hb he hf side rest same =
      elim (Bool-cases (bytes_eq (message a e) (message b f))) [
        | inl one ↦
            (let (r, u) =
                message_cancel a b e f ha hb he hf side
                  (bytes_eq→eq (message a e) (message b f) one) in
              inl (r, λ i. u i ∷ rest i))
        | inr two ↦ inr (record {
          level = 0;
          first = message a e;
          second = message b f;
          of_first = refl;
          of_second = refl;
          differ = bytes_eq_ne (message a e) (message b f) two;
          collide = sym (fold_step_hashes a e) ∙ same ∙ fold_step_hashes b f;
        })
      ]

  -- Two paths with the same turns and siblings of 32 bytes that fold two leaves of 32 bytes to one
  -- root are one path over one leaf, or at some level the two folds hash different messages to one
  -- digest.
  pub fold_binding :
      (a b : Hash) (p q : List PathElem)
      → IsHash a
      → IsHash b
      → IsHashPath p
      → IsHashPath q
      → right_bits p ≡ right_bits q
      → fold a p ≡ fold b q
      → ((a ≡ b) × (p ≡ q)) ⊎ Collision a p b q
  unfolding fold
  fold_binding a b [] [] ha hb hp hq turns same = inl (same, refl)
  fold_binding a b [] (f ∷ q) ha hb hp hq turns same = cc
  fold_binding a b (e ∷ p) [] ha hb hp hq turns same = cc
  fold_binding a b (e ∷ p) (f ∷ q) ha hb (he, hp) (hf, hq) turns same =
      elim (fold_binding (fold_step a e) (fold_step b f) p q (fold_step-IsHash a e)
        (fold_step-IsHash b f) hp hq (cc) same) [
          | inl (step, rest) ↦ first_step a b e f p q ha hb he hf (cc) rest step
          | inr c ↦ inr (collide_above a b e f p q c)
        ]

  -- A path of CeilLog2 elements, with siblings of 32 bytes and the turns of position `i`, that folds
  -- `b` to the root of a tree of at most 2^64 digests opens the leaf that stands at `i`, or at some
  -- level its fold and that of the path that MerklePath returns for `i` hash different messages to
  -- one digest.
  pub no_false_inclusion :
      (leaves : List Hash) (i : ℕ) (leaf b root : Hash) (layers : List (List Hash))
      (path q : List PathElem)
      → length leaves ≤ 2 ^ 64
      → All IsHash leaves
      → get_elem? leaves i ≡ some leaf
      → build_merkle_tree leaves ≡ ok (root, layers)
      → merkle_path layers i ≡ ok path
      → IsHash b
      → IsHashPath q
      → length q ≡ ceil_log2 (length leaves)
      → right_bits q ≡ sides (length q) i
      → fold b q ≡ root
      → (b ≡ leaf) ⊎ Collision b q leaf path
  no_false_inclusion leaves i leaf b root layers path q small hashes at built walked hb hq deep
        turns folds =
      elim (fold_binding b leaf q path hb (All-get_elem? IsHash leaves i hashes at) hq
        (subst IsHashPath own.1 (inc.hashed hashes)) same_turns
        (folds ∙ sym own.0 ∙ sym inc.folds ∙ ap (fold leaf) own.1)) [
          | inl (same, _) ↦ inl same
          | inr c ↦ inr c
        ]
    where
      inc : Included leaves i leaf
      inc = leaf-Included leaves i leaf at

      own : (inc.root ≡ root) × (inc.path ≡ path)
      own = Included-unique inc built walked

      same_turns : right_bits q ≡ right_bits path
      same_turns =
          turns
          ∙ ap (λ n. sides n i) (deep ∙ sym (length-Included inc small))
          ∙ sym inc.turns
          ∙ ap right_bits own.1
