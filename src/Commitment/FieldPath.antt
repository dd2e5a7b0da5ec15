-- ===== src/Commitment/FieldPath.antt =====
-- MTxIDPath and the checks of a field's path: the fields that a uint8 can name.
use mfspv.Base.{
  ℕ, zero, suc, ◌^◌, ◌≤◌, ◌≡◌, refl, ap, ◌∙◌, true, false, List, [], ◌∷◌, map, length, get_elem?,
  some, ok, arith, u8, u8_small, ◌<◌, index_of_get_elem?, leb, ◌==◌, length-map, lt_of_get_elem?,
  eq→bytes_eq,
}
use mfspv.Commitment.Hashing.{
  Sha256, Hash, PathElem, FieldLeaf, TxFields, leaf_hash, fold, max_depth,
}
use mfspv.Commitment.Tree.{ceil_log2}
use mfspv.Commitment.Fields.{build_mtxid, mtxid_path, leaf_for_field}
use mfspv.Commitment.Checks.{verify_mtxid_path}
use mfspv.Commitment.Inclusion.{Included, leaf-Included}
use mfspv.Commitment.Depth.{length-Included, ceil_log2_le}

pub get_elem?-map {ℓ κ} :
    {A : Type ℓ} {B : Type κ} (f : A → B) (xs : List A) (i : ℕ) {x : A}
    → get_elem? xs i ≡ some x
    → get_elem? (map f xs) i ≡ some (f x)
get_elem?-map f [] i h = cc
get_elem?-map f (y ∷ xs) zero h = cc
get_elem?-map f (y ∷ xs) (suc i) h = get_elem?-map f xs i h

module _ ⦃sha : Sha256⦄ where
  -- A bound on the depth and a fold are all that the L0 check asks for.
  pub verify_mtxid_path_of_fold :
      (leaf : Hash) (path : List PathElem) (mtxid : Hash)
      → length path ≤ max_depth
      → fold leaf path ≡ mtxid
      → verify_mtxid_path leaf path mtxid ≡ true
  unfolding verify_mtxid_path
  verify_mtxid_path_of_fold leaf path mtxid h e =
      ground (arith, eq→bytes_eq (fold leaf path) mtxid e)

  -- A field opened against the root of its transaction.
  pub record Opened (fields : TxFields) (i : ℕ) (f : FieldLeaf) : Type 0 where
    pub path : List PathElem
    pub mtxid : Hash
    pub layers : List (List Hash)
    pub opens : mtxid_path fields i ≡ ok (leaf_for_field f, path, mtxid)
    pub builds : build_mtxid fields ≡ ok (mtxid, layers)
    pub accepted : verify_mtxid_path (leaf_for_field f) path mtxid ≡ true
    pub folds : fold (leaf_for_field f) path ≡ mtxid
    pub long : length path ≡ ceil_log2 (length fields)

  -- The field at the byte that the index is cut to.
  pub u8-Opened :
      (fields : TxFields) (i : ℕ) (f : FieldLeaf)
      → length fields ≤ 2 ^ 64
      → get_elem? fields (u8 i) ≡ some f
      → Opened fields i f
  unfolding mtxid_path build_mtxid leaf_for_field
  u8-Opened fields i f small at = record {
    path = inc.path;
    mtxid = inc.root;
    layers = inc.layers;
    opens =
        rw (in_range, nonempty, inc.builds, inc.paths, index_of_get_elem? fields (u8 i) at) refl;
    builds = rw (nonempty, inc.builds) refl;
    accepted =
        verify_mtxid_path_of_fold (leaf_hash f) inc.path inc.root
          (omega (arith, deep, ceil_log2_le 64 (length fields) small)) inc.folds;
    folds = inc.folds;
    long = deep;
  }
    where
      inc : Included (map leaf_hash fields) (u8 i) (leaf_hash f)
      inc =
          leaf-Included (map leaf_hash fields) (u8 i) (leaf_hash f)
            (get_elem?-map leaf_hash fields (u8 i) at)

      width : length (map leaf_hash fields) ≡ length fields
      width = length-map leaf_hash fields

      deep : length inc.path ≡ ceil_log2 (length fields)
      deep = length-Included inc (omega (arith, width)) ∙ ap ceil_log2 width

      in_range : leb (length fields) (u8 i) ≡ false
      in_range = ground (arith, lt_of_get_elem? fields (u8 i) at)

      nonempty : (length fields == 0) ≡ false
      nonempty = ground (arith, lt_of_get_elem? fields (u8 i) at)

  -- For every field of a transaction at a position below 2^8, MTxIDPath returns the leaf that
  -- LeafForField computes and the root that BuildMTxID computes, with a path of CeilLog2 elements
  -- that VerifyMTxIDPath accepts, the transaction having at most 2^64 fields.
  pub field-Opened :
      (fields : TxFields) (i : ℕ) (f : FieldLeaf)
      → i < 2 ^ 8
      → length fields ≤ 2 ^ 64
      → get_elem? fields i ≡ some f
      → Opened fields i f
  field-Opened fields i f byte small at =
      u8-Opened fields i f small (ap (get_elem? fields) (u8_small i byte) ∙ at)
