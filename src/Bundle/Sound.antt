-- ===== src/Bundle/Sound.antt =====
-- What an accepting Verify means, and how it meets NeedsReanchor.
use mfspv.Base.{
  ◌+◌, ◌≡◌, refl, ◌↔◌, ◌⊎◌, inl, inr, Bool, true, false, ◌||◌, [], ◌∷◌, length, bytes_eq→eq,
  eq→bytes_eq, Option, none, some, arith, Bool-cases, Option-cases,
}
use mfspv.Commitment.Hashing.{Sha256, FieldLeaf, TxFields, fold}
use mfspv.Commitment.Fields.{leaf_for_field}
use mfspv.Commitment.Checks.{verify_to_block_root}
use mfspv.Accumulator.Anchor.{verify_block_in_chain, verify_anchor}
use mfspv.Teranode.Source.{HeaderChain}
use mfspv.Bundle.Types.{AnchorProof, Bundle, header_merkle_root}
use mfspv.Bundle.Verify.{
  accepted, at_l3_l4_chain, on_chain, anchor_binds_to_chain, anchor_holds, verify, needs_reanchor,
}

module _ ⦃sha : Sha256⦄ where
  -- The carrying header is on the chain and commits to the carrying root, the accumulator root is a
  -- field of a transaction under that root, and the header is in the accumulator.
  pub record IsAnchored (b : Bundle) (view : HeaderChain) : Type 0 where
    pub anchor : AnchorProof
    pub is_anchor : b.anchor ≡ some anchor
    pub carried : view.contains anchor.carrying_header ≡ true
    pub committed : header_merkle_root anchor.carrying_header ≡ anchor.carrying_block_merkle_root
    pub bound :
        verify_anchor anchor.acc_root anchor.gen_tx_fields anchor.gen_l0 anchor.gen_l1 anchor.gen_l2
          anchor.carrying_block_merkle_root
        ≡ true
    pub member : verify_block_in_chain b.header anchor.acc_path anchor.acc_root ≡ true

  anchor_holds→IsAnchored :
      (b : Bundle) (view : HeaderChain) → anchor_holds b (some view) ≡ true → IsAnchored b view
  unfolding anchor_holds anchor_binds_to_chain
  anchor_holds→IsAnchored b view h = elim (Option-cases b.anchor) [
    | inl missing ↦ absurd (ground (arith, missing))
    | inr (a, there) ↦ record {
      anchor = a;
      is_anchor = there;
      carried = ground (arith, there);
      committed = bytes_eq→eq _ _ (ground (arith, there));
      bound = ground (arith, there);
      member = ground (arith, there);
    }
  ]

  IsAnchored→anchor_holds :
      (b : Bundle) (view : HeaderChain) → IsAnchored b view → anchor_holds b (some view) ≡ true
  unfolding anchor_holds anchor_binds_to_chain
  IsAnchored→anchor_holds b view a = ground (
    arith,
    a.is_anchor,
    a.carried,
    a.bound,
    a.member,
    eq→bytes_eq (header_merkle_root a.anchor.carrying_header) a.anchor.carrying_block_merkle_root
        a.committed,
  )

  -- The header is on the view's chain, or an anchor holds it.
  pub record IsChained (b : Bundle) (view : Option HeaderChain) : Type 0 where
    pub chain : HeaderChain
    pub is_view : view ≡ some chain
    pub chained : (chain.contains b.header ≡ true) ⊎ IsAnchored b chain

  chained_test : Bundle → Option HeaderChain → Bool
  chained_test b view = on_chain b.header view || anchor_holds b view

  test→IsChained :
      (b : Bundle) (view : Option HeaderChain) → chained_test b view ≡ true → IsChained b view
  unfolding chained_test on_chain
  test→IsChained b none h = absurd (unfold anchor_holds anchor_binds_to_chain in ground arith)
  test→IsChained b (some v) h = record {
    chain = v;
    is_view = refl;
    chained = elim (Bool-cases (v.contains b.header)) [
      | inl on ↦ inl on
      | inr off ↦ inr (anchor_holds→IsAnchored b v (ground arith))
    ];
  }

  IsChained→test :
      (b : Bundle) (view : Option HeaderChain) → IsChained b view → chained_test b view ≡ true
  unfolding chained_test on_chain
  IsChained→test b view c = elim c.chained [
    | inl on ↦ ground (arith, c.is_view)
    | inr held ↦ ground (arith, c.is_view, IsAnchored→anchor_holds b c.chain held)
  ]

  -- What Verify accepts: the revealed field folds to the transaction, the three levels close to the
  -- root that the header commits to within the depths allowed, and the header is on the chain or
  -- held by an anchor.
  pub record IsAccepted (b : Bundle) (view : Option HeaderChain) : Type 0 where
    pub revealed : FieldLeaf
    pub others : TxFields
    pub reveals : b.fields ≡ revealed ∷ others
    pub names : fold (leaf_for_field revealed) b.mtxid_path ≡ b.output_ref.txid
    pub includes :
        (verify_to_block_root
          (leaf_for_field revealed)
          b.mtxid_path
          b.subtree_path
          b.block_path
          (header_merkle_root b.header)).0
        ≡ true
    pub chained : IsChained b view

  verify→IsAccepted :
      (b : Bundle) (view : Option HeaderChain) (fs : TxFields)
      → b.fields ≡ fs
      → (verify b view).ok ≡ true
      → IsAccepted b view
  unfolding verify verify_to_block_root
  verify→IsAccepted b view [] e h = absurd (ground (arith, e))
  verify→IsAccepted b view (f ∷ fs) e h = record {
    revealed = f;
    others = fs;
    reveals = e;
    names = names;
    includes = ground (arith, e, names);
    chained = test→IsChained b view (unfold chained_test in ground (arith, e));
  }
    where
      names : fold (leaf_for_field f) b.mtxid_path ≡ b.output_ref.txid
      names = bytes_eq→eq _ _ (ground (arith, e))

  IsAccepted→verify :
      (b : Bundle) (view : Option HeaderChain) → IsAccepted b view → (verify b view).ok ≡ true
  unfolding verify verify_to_block_root chained_test
  IsAccepted→verify b view a = ground (
    arith,
    a.reveals,
    a.names,
    a.includes,
    IsChained→test b view a.chained,
    eq→bytes_eq (fold (leaf_for_field a.revealed) b.mtxid_path) b.output_ref.txid a.names,
  )

  -- Verify accepts a bundle exactly when its revealed field folds to the transaction of its output,
  -- VerifyToBlockRoot accepts its three paths for the root in its header, and the header is on the
  -- view's chain or in an accumulator that a header on that chain carries; it accepts exactly when
  -- it gives no reason; and the depth that it reports is that of L1 and L2 together, accepted or not.
  pub verify_iff :
      (b : Bundle) (view : Option HeaderChain)
      → (((verify b view).ok ≡ true) ↔ IsAccepted b view)
        × (((verify b view).ok ≡ true) ↔ ((verify b view).reason ≡ accepted))
        × ((verify b view).depth ≡ length b.subtree_path + length b.block_path)
  unfolding verify
  verify_iff b view = (
    (verify→IsAccepted b view b.fields refl, IsAccepted→verify b view),
    (λ h. ground arith, λ h. ground arith),
    ground arith,
  )

  -- On a chain, a bundle that Verify accepts needs no re-anchoring, and one that it refuses for the
  -- chain alone does.
  pub verify-needs_reanchor :
      (b : Bundle) (view : HeaderChain)
      → ((verify b (some view)).ok ≡ true → needs_reanchor b (some view) ≡ false)
        × ((verify b (some view)).reason ≡ at_l3_l4_chain → needs_reanchor b (some view) ≡ true)
  unfolding verify needs_reanchor on_chain
  verify-needs_reanchor b view = (λ h. ground arith, λ h. ground arith)
