-- ===== src/Bundle/Verify.antt =====
-- Build, Verify, NeedsReanchor and Reanchor of bundle/bundle.go.
use mfspv.Base.{
  u8, ℕ, ◌+◌, Bool, true, false, not, ◌&&◌, ◌||◌, List, [], ◌∷◌, length, bytes_eq, Option, none,
  some, Error, Result, ok, err, txid_mismatch, index, ◌>>=◌, ltb, if◌then◌else◌,
}
use mfspv.Commitment.Hashing.{Sha256, Hash, PathElem, TxFields, max_depth, fold}
use mfspv.Commitment.Fields.{mtxid_path, leaf_for_field}
use mfspv.Accumulator.Anchor.{verify_block_in_chain, verify_anchor}
use mfspv.Teranode.Source.{Header, ProofSource, HeaderChain}
use mfspv.Bundle.Types.{OutputRef, AnchorProof, Bundle, header_merkle_root}

-- The reason of a refusal; `accepted` is the empty string.
pub data Reason : Type 0 where
  accepted depth_overflow at_l0 at_l3_bind at_l3_l4_chain : Reason

pub record Verdict : Type 0 where
  pub ok : Bool
  pub depth : ℕ
  pub reason : Reason

-- The L1 path, the L2 path and the header that a source gives for a transaction, in the order in
-- which Build and Reanchor ask for them.
pub record Located : Type 0 where
  pub subtree_path : List PathElem
  pub block_path : List PathElem
  pub header : Header

unfoldable pub locate : ProofSource → Hash → Result Located
locate src txid = do
  (l1, subtree_root) ← src.subtree_path_for txid
  block_hash ← src.locate_tx txid
  (l2, block_root) ← src.block_path_for subtree_root block_hash
  hdr ← src.header_for block_hash
  ok (record { subtree_path = l1; block_path = l2; header = hdr })

-- The receiver is a pointer: the bundle after the call, and the error.
unfoldable pub reanchor : Bundle → ProofSource → Bundle × Option Error
reanchor b src = elim (locate src b.output_ref.txid) [
  | err e ↦ (b, some e)
  | ok l ↦ (
    record b { subtree_path = l.subtree_path; block_path = l.block_path; header = l.header },
    none,
  )
]

-- `headersView != nil && headersView.Contains(b.Header)`
unfoldable pub on_chain : Header → Option HeaderChain → Bool
on_chain h none = false
on_chain h (some view) = view.contains h

module _ ⦃sha : Sha256⦄ where
  -- `revealIndex` is a uint8, as the field index of MTxIDPath is.
  unfoldable pub build : OutputRef → TxFields → ℕ → ProofSource → Result Bundle
  build out fields reveal_index src = do
    (leaf, l0, mtxid) ← mtxid_path fields reveal_index
    if bytes_eq mtxid out.txid
        then (do
          l ← locate src out.txid
          revealed ← index fields (u8 reveal_index)
          ok (record {
            output_ref = out;
            fields = revealed ∷ [];
            mtxid_path = l0;
            subtree_path = l.subtree_path;
            block_path = l.block_path;
            header = l.header;
            anchor = none;
          }))
        else err txid_mismatch

  -- The nil header view is `none`.
  unfoldable pub anchor_binds_to_chain : AnchorProof → Option HeaderChain → Bool
  anchor_binds_to_chain a none = false
  anchor_binds_to_chain a (some view) =
      if not (view.contains a.carrying_header)
      then false
      else if not (bytes_eq (header_merkle_root a.carrying_header) a.carrying_block_merkle_root)
      then false
      else verify_anchor a.acc_root a.gen_tx_fields a.gen_l0 a.gen_l1 a.gen_l2
          a.carrying_block_merkle_root

  -- The anchor is there, is bound to the chain, and holds the header.
  unfoldable pub anchor_holds : Bundle → Option HeaderChain → Bool
  anchor_holds b view = elim b.anchor [
    | none ↦ false
    | some a ↦ anchor_binds_to_chain a view && verify_block_in_chain b.header a.acc_path a.acc_root
  ]

  unfoldable pub verify : Bundle → Option HeaderChain → Verdict
  verify b view =
      let depth = length b.subtree_path + length b.block_path in
      let refuse : Reason → Verdict = λ r. record { ok = false; depth = depth; reason = r } in
      let accept : Verdict = record { ok = true; depth = depth; reason = accepted } in
      if ltb max_depth (length b.mtxid_path + depth) || ltb 20 (length b.subtree_path)
      then refuse depth_overflow
      else elim b.fields [
        | [] ↦ refuse at_l0
        | revealed ∷ _ ↦
            if not (bytes_eq (fold (leaf_for_field revealed) b.mtxid_path) b.output_ref.txid)
            then refuse at_l0
            else if not (
                bytes_eq (fold (fold b.output_ref.txid b.subtree_path) b.block_path)
                  (header_merkle_root b.header))
            then refuse at_l3_bind
            else if on_chain b.header view
            then accept
            else if anchor_holds b view
            then accept
            else refuse at_l3_l4_chain
      ]

  unfoldable pub needs_reanchor : Bundle → Option HeaderChain → Bool
  needs_reanchor b none = false
  needs_reanchor b (some view) =
      if view.contains b.header then false else if anchor_holds b (some view) then false else true
