-- ===== src/Bundle/Frozen.antt =====
-- Sources of proofs that are honest for a chain, and Reanchor against them.
use mfspv.Base.{
  ◌≤◌, ◌≡◌, refl, inl, inr, true, ◌∷◌, length, eq→bytes_eq, Option, none, some, Error, Result-cases,
  ok, err, subst, arith, ap, ◌∙◌,
}
use mfspv.Commitment.Hashing.{Sha256, Hash, FieldLeaf, TxFields, fold}
use mfspv.Commitment.Fields.{leaf_for_field}
use mfspv.Commitment.Checks.{verify_to_block_root}
use mfspv.Teranode.Source.{ProofSource, HeaderChain}
use mfspv.Bundle.Types.{Bundle, header_merkle_root}
use mfspv.Bundle.Verify.{Located, locate, reanchor, verify}
use mfspv.Bundle.Sound.{IsAccepted, verify_iff}

abbrev relocated : Bundle → Located → Bundle
relocated b l = record b {
  subtree_path = l.subtree_path;
  block_path = l.block_path;
  header = l.header;
}

pub reanchor_found :
    (b : Bundle) (src : ProofSource) (l : Located)
    → locate src b.output_ref.txid ≡ ok l
    → reanchor b src ≡ (relocated b l, none)
unfolding reanchor
reanchor_found b src l e = ground (arith, e)

reanchor_lost :
    (b : Bundle) (src : ProofSource) (x : Error)
    → locate src b.output_ref.txid ≡ err x
    → reanchor b src ≡ (b, some x)
unfolding reanchor
reanchor_lost b src x e = ground (arith, e)

module _ ⦃sha : Sha256⦄ where
  -- What a located transaction is owed: paths that close to the header's root within the depths of a
  -- subtree and a block, and a header of the chain.
  pub record IsGood (view : HeaderChain) (txid : Hash) (l : Located) : Type 0 where
    pub closes : fold (fold txid l.subtree_path) l.block_path ≡ header_merkle_root l.header
    pub shallow : length l.subtree_path ≤ 20
    pub bounded : length l.block_path ≤ 64
    pub on_chain : view.contains l.header ≡ true

  -- A source whose answers are good for a chain.
  pub record IsHonest (src : ProofSource) (view : HeaderChain) : Type 0 where
    pub good : (txid : Hash) (l : Located) → locate src txid ≡ ok l → IsGood view txid l

  pub accept_located :
      (b : Bundle) (view : HeaderChain) (l : Located) (f : FieldLeaf) (others : TxFields)
      → b.fields ≡ f ∷ others
      → fold (leaf_for_field f) b.mtxid_path ≡ b.output_ref.txid
      → length b.mtxid_path ≤ 171
      → b.subtree_path ≡ l.subtree_path
      → b.block_path ≡ l.block_path
      → b.header ≡ l.header
      → IsGood view b.output_ref.txid l
      → IsAccepted b (some view)
  accept_located b view l f others reveals names short e1 e2 e3 g = record {
    revealed = f;
    others = others;
    reveals = reveals;
    names = names;
    includes =
        unfold verify_to_block_root in
        ground (
          arith,
          g.shallow,
          g.bounded,
          ap length e1,
          ap length e2,
          eq→bytes_eq
              (fold (fold (fold (leaf_for_field f) b.mtxid_path) b.subtree_path) b.block_path)
              (header_merkle_root b.header) closes,
        );
    chained = record {
      chain = view;
      is_view = refl;
      chained = inl (ap (view.contains) e3 ∙ g.on_chain);
    };
  }
    where
      closes :
          fold (fold (fold (leaf_for_field f) b.mtxid_path) b.subtree_path) b.block_path
          ≡ header_merkle_root b.header
      closes = cc (names, e1, e2, e3, g.closes)

  -- Reanchor changes the output, the fields, the L0 path and the anchor of no bundle, and where it
  -- fails it changes nothing.
  pub reanchor_keeps :
      (b : Bundle) (src : ProofSource)
      → ((reanchor b src).0.output_ref ≡ b.output_ref)
        × ((reanchor b src).0.fields ≡ b.fields)
        × ((reanchor b src).0.mtxid_path ≡ b.mtxid_path)
        × ((reanchor b src).0.anchor ≡ b.anchor)
        × ((e : Error) → (reanchor b src).1 ≡ some e → (reanchor b src).0 ≡ b)
  reanchor_keeps b src = elim (Result-cases (locate src b.output_ref.txid)) [
    | inl (l, found) ↦ rw (reanchor_found b src l found) (refl, refl, refl, refl, λ e h. cc)
    | inr (e, lost) ↦ rw (reanchor_lost b src e lost) (refl, refl, refl, refl, λ e h. refl)
  ]

  -- A bundle with an L0 path of at most 171 elements that some chain once accepted is accepted by the
  -- chain of an honest source after Reanchor with that source, where Reanchor succeeds, wherever its
  -- block is now.
  pub reanchor-verify :
      (b b' : Bundle) (src : ProofSource) (old : Option HeaderChain) (view : HeaderChain)
      → IsHonest src view
      → length b.mtxid_path ≤ 171
      → (verify b old).ok ≡ true
      → reanchor b src ≡ (b', none)
      → (verify b' (some view)).ok ≡ true
  reanchor-verify b b' src old view honest short was h =
      elim (Result-cases (locate src b.output_ref.txid)) [
        | inl (l, found) ↦
            let a = (verify_iff b old).0.0 was in
            let moved : Bundle = relocated b l in
            let same : moved ≡ b' = cc (reanchor_found b src l found, h) in
            subst (λ x. (verify x (some view)).ok ≡ true) same
              ((verify_iff moved (some view)).0.1 (
                accept_located moved view l a.revealed a.others a.reveals a.names short refl refl
                  refl (honest.good b.output_ref.txid l found)))
        | inr (e, lost) ↦ cc (reanchor_lost b src e lost, h)
      ]
