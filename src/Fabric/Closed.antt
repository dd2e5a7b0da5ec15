-- ===== src/Fabric/Closed.antt =====
-- The loop of BatchVerify over L1: what it leaves in the memo folds to the subtree root.
use mfspv.Base.{
  ℕ, suc, ◌/◌, ◌<◌, ◌≡◌, refl, sym, ap, ◌∙◌, inl, inr, true, false, not, List, [], ◌∷◌, All,
  bytes_eq, bytes_eq→eq, Bool-cases, Option-cases, none, some, subst, if◌then◌else◌, arith,
}
use mfspv.Commitment.Hashing.{Hash, PathElem}
use mfspv.Fabric.Proof.{Hasher, parent_of, fold_nodes}
use mfspv.Fabric.Batch.{
  NodeKey, Entry, key_eq, lookup, marked, inconsistent, merged, l1_loop, refused,
}

-- Some path folds the node to the subtree root.
pub record Closes (h : Hasher) (s node : Hash) : Type 0 where
  pub path : List PathElem
  pub folds : fold_nodes h node path ≡ s

-- A key that is marked has what all marked keys have.
pub marked-All :
    (P : Hash → Type 0) (k : Hash) (xs : List Hash) → All P xs → marked k xs ≡ true → P k
unfolding marked
marked-All P k [] h m = cc
marked-All P k (x ∷ xs) (p, ps) m = elim (Bool-cases (bytes_eq k x)) [
  | inl same ↦ subst P (sym (bytes_eq→eq k x same)) p
  | inr other ↦ marked-All P k xs ps (ground (arith, other))
]

module _ (h : Hasher) where
  abbrev pub IsClosed : Entry → Type 0
  IsClosed e = Closes h e.key.subtree e.node

  -- An entry above level `j` is closed.
  abbrev pub IsClosedAbove : ℕ → Entry → Type 0
  IsClosedAbove j e = j < e.key.level → IsClosed e

  step_back :
      (s cur parent : Hash) (e : PathElem)
      → parent_of h cur e ≡ parent
      → Closes h s parent
      → Closes h s cur
  unfolding fold_nodes
  step_back s cur parent e same c = record {
    path = e ∷ c.path;
    folds = ap (λ n. fold_nodes h n c.path) same ∙ c.folds;
  }

  lookup-IsClosed :
      (j : ℕ) (k : NodeKey) (memo : List Entry) (v : Hash)
      → All (IsClosedAbove j) memo
      → j < k.level
      → lookup k memo ≡ some v
      → Closes h k.subtree v
  unfolding lookup key_eq
  lookup-IsClosed j k [] v c above e = cc
  lookup-IsClosed j k (x ∷ memo) v (cx, cs) above e = elim (Bool-cases (key_eq k x.key)) [
    | inl same ↦
        (let here : x.node ≡ v = ground (arith, same, e) in
          let root : k.subtree ≡ x.key.subtree =
            bytes_eq→eq k.subtree x.key.subtree (ground (arith, same)) in
          let level : k.level ≡ x.key.level = ground (arith, same) in
          let c = cx (omega (arith, level)) in
          record {
            path = c.path;
            folds = ap (λ n. fold_nodes h n c.path) (sym here) ∙ c.folds ∙ sym root;
          })
    | inr other ↦ lookup-IsClosed j k memo v cs above (ground (arith, other, e))
  ]

  raise :
      (j : ℕ) (memo : List Entry) → All (IsClosedAbove j) memo → All (IsClosedAbove (suc j)) memo
  raise j [] c = tt
  raise j (x ∷ memo) (cx, cs) = (λ up. cx (omega arith), raise j memo cs)

  pub at_any_level : (j : ℕ) (memo : List Entry) → All IsClosed memo → All (IsClosedAbove j) memo
  at_any_level j [] c = tt
  at_any_level j (x ∷ memo) (cx, cs) = (λ up. cx, at_any_level j memo cs)

  module _ (s : Hash) where
    abbrev key_at : ℕ → ℕ → NodeKey
    key_at j idx = record { subtree = s; level = suc j; index = idx / 2 }

    l1_hit :
        (j : ℕ) (cur v : Hash) (idx n : ℕ) (e : PathElem) (path : List PathElem) (memo : List Entry)
        → lookup (key_at j idx) memo ≡ some v
        → l1_loop h s j cur idx (e ∷ path) memo n ≡ record {
          ending = if not (bytes_eq v (parent_of h cur e)) then inconsistent else merged;
          memo = memo;
          hashes = suc n;
        }
    unfolding l1_loop
    l1_hit j cur v idx n e path memo found = rw (l1_loop, found) refl

    l1_miss :
        (j : ℕ) (cur : Hash) (idx n : ℕ) (e : PathElem) (path : List PathElem) (memo : List Entry)
        → lookup (key_at j idx) memo ≡ none
        → l1_loop h s j cur idx (e ∷ path) memo n
          ≡ l1_loop h s
              (suc j)
              (parent_of h cur e)
              (idx / 2)
              path
              (record { key = key_at j idx; node = parent_of h cur e } ∷ memo)
              (suc n)
    unfolding l1_loop
    l1_miss j cur idx n e path memo missing = rw (l1_loop, missing) refl

    merged_same :
        (v parent : Hash)
        → refused (if not (bytes_eq v parent) then inconsistent else merged) s ≡ false
        → v ≡ parent
    unfolding refused
    merged_same v parent ok' = bytes_eq→eq v parent (ground arith)

    -- Where the loop is not refused, its node closes.
    pub l1_loop-Closes :
        (path : List PathElem) (j : ℕ) (cur : Hash) (idx : ℕ) (memo : List Entry) (n : ℕ)
        → All (IsClosedAbove j) memo
        → refused (l1_loop h s j cur idx path memo n).ending s ≡ false
        → Closes h s cur
    l1_loop-Closes [] j cur idx memo n c passed =
        unfold refused l1_loop fold_nodes in
        record { path = []; folds = bytes_eq→eq cur s (ground arith) }
    l1_loop-Closes (e ∷ path) j cur idx memo n c passed =
        elim (Option-cases (lookup (key_at j idx) memo)) [
          | inl missing ↦ step_back s cur (parent_of h cur e) e refl (
              l1_loop-Closes path (suc j) (parent_of h cur e) (idx / 2)
                (record { key = key_at j idx; node = parent_of h cur e } ∷ memo) (suc n)
                ((λ up. absurd (omega arith)), raise j memo c)
                (ap (λ st. refused st.ending s) (sym (l1_miss j cur idx n e path memo missing))
                  ∙ passed))
          | inr (v, found) ↦
              step_back s cur v e
                (sym (
                  merged_same v (parent_of h cur e) (
                    ap (λ st. refused st.ending s) (sym (l1_hit j cur v idx n e path memo found))
                    ∙ passed)))
                (lookup-IsClosed j (key_at j idx) memo v c (omega arith) found)
        ]

    -- And then every entry that it added is closed too.
    pub l1_loop-IsClosed :
        (path : List PathElem) (j : ℕ) (cur : Hash) (idx : ℕ) (memo : List Entry) (n : ℕ)
        → All (IsClosedAbove j) memo
        → refused (l1_loop h s j cur idx path memo n).ending s ≡ false
        → All IsClosed memo
        → All IsClosed (l1_loop h s j cur idx path memo n).memo
    l1_loop-IsClosed [] j cur idx memo n c passed all = unfold l1_loop in all
    l1_loop-IsClosed (e ∷ path) j cur idx memo n c passed all =
        elim (Option-cases (lookup (key_at j idx) memo)) [
          | inl missing ↦
              (let miss = l1_miss j cur idx n e path memo missing in
                let entry : Entry = record { key = key_at j idx; node = parent_of h cur e } in
                let above : All (IsClosedAbove (suc j)) (entry ∷ memo) =
                  ((λ up. absurd (omega arith)), raise j memo c) in
                let passed' = ap (λ st. refused st.ending s) (sym miss) ∙ passed in
                subst (λ st. All IsClosed st.memo) (sym miss)
                  (l1_loop-IsClosed path (suc j) (parent_of h cur e) (idx / 2) (entry ∷ memo)
                    (suc n) above passed'
                    (
                      l1_loop-Closes path (suc j) (parent_of h cur e) (idx / 2) (entry ∷ memo)
                          (suc n) above passed',
                      all,
                    )))
          | inr (v, found) ↦
              subst (λ st. All IsClosed st.memo) (sym (l1_hit j cur v idx n e path memo found)) all
        ]
