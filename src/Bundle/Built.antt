-- ===== src/Bundle/Built.antt =====
-- Build against a source of proofs: what it returns, and that Verify accepts it.
use mfspv.Base.{
  u8, u8_small, ◌<◌, ℕ, ◌^◌, ◌≤◌, ◌≡◌, refl, inl, inr, true, List, [], ◌∷◌, length, bytes_eq,
  bytes_eq→eq, none, some, get_elem?, index_of_get_elem?, bytes_eq_refl, ok, err, index,
  get_elem?_of_index, subst, >>=-eq-ok, ◌>>=◌, arith, Bool-cases, ap, ◌∙◌, if◌then◌else◌,
  txid_mismatch,
}
use mfspv.Commitment.Hashing.{Sha256, Hash, PathElem, FieldLeaf, TxFields}
use mfspv.Commitment.Fields.{build_mtxid, mtxid_path}
use mfspv.Commitment.Depth.{ceil_log2_le}
use mfspv.Commitment.FieldPath.{Opened, u8-Opened}
use mfspv.Teranode.Source.{ProofSource, HeaderChain}
use mfspv.Bundle.Types.{OutputRef, Bundle}
use mfspv.Bundle.Verify.{Located, locate, reanchor, build, verify}
use mfspv.Bundle.Sound.{verify_iff}
use mfspv.Bundle.Frozen.{IsGood, IsHonest, reanchor_found, accept_located}

module _ ⦃sha : Sha256⦄ where
  abbrev assembled : OutputRef → List PathElem → Located → FieldLeaf → Bundle
  assembled out l0 l f = record {
    output_ref = out;
    fields = f ∷ [];
    mtxid_path = l0;
    subtree_path = l.subtree_path;
    block_path = l.block_path;
    header = l.header;
    anchor = none;
  }

  -- The parts of a bundle that Build returned.
  record Built (out : OutputRef) (fields : TxFields) (i : ℕ) (src : ProofSource) (b : Bundle)
      : Type 0 where
    revealed : FieldLeaf
    l : Located
    leaf : Hash
    l0 : List PathElem
    mtxid : Hash
    opens : mtxid_path fields i ≡ ok (leaf, l0, mtxid)
    names : mtxid ≡ out.txid
    located : locate src out.txid ≡ ok l
    at : index fields (u8 i) ≡ ok revealed
    is_built : assembled out l0 l revealed ≡ b

  build→Built :
      (out : OutputRef) (fields : TxFields) (i : ℕ) (src : ProofSource) (b : Bundle)
      → build out fields i src ≡ ok b
      → Built out fields i src b
  unfolding build
  build→Built out fields i src b h =
      let (p, opened, rest) = >>=-eq-ok (mtxid_path fields i) _ h in matched p opened rest
    where
      finish :
          (leaf mtxid : Hash) (l0 : List PathElem)
          → mtxid_path fields i ≡ ok (leaf, l0, mtxid)
          → mtxid ≡ out.txid
          → (locate src out.txid >>= λ l. index fields (u8 i) >>= λ f. ok (assembled out l0 l f))
            ≡ ok b
          → Built out fields i src b
      finish leaf mtxid l0 opened same e =
          let (l, found, rest) = >>=-eq-ok (locate src out.txid) _ e in
          let (f, at, last) =
            >>=-eq-ok (index fields (u8 i)) (λ f. ok (assembled out l0 l f)) rest in
          record {
            revealed = f;
            l = l;
            leaf = leaf;
            l0 = l0;
            mtxid = mtxid;
            opens = opened;
            names = same;
            located = found;
            at = at;
            is_built = cc;
          }

      matched :
          (p : Hash × List PathElem × Hash)
          → mtxid_path fields i ≡ ok p
          → (if bytes_eq p.2 out.txid
              then (locate src out.txid >>= λ l.
                  index fields (u8 i) >>= λ f. ok (assembled out p.1 l f))
              else err txid_mismatch)
            ≡ ok b
          → Built out fields i src b
      matched (leaf, l0, mtxid) opened e = elim (Bool-cases (bytes_eq mtxid out.txid)) [
        | inl same ↦ finish leaf mtxid l0 opened (bytes_eq→eq mtxid out.txid same) (rw same at e)
        | inr other ↦ cc (rw other at e)
      ]

  -- Whatever Build returned from good answers is accepted.
  good-verify :
      (out : OutputRef) (fields : TxFields) (i : ℕ) (src : ProofSource) (view : HeaderChain)
      (b : Bundle) (l : Located)
      → length fields ≤ 2 ^ 64
      → locate src out.txid ≡ ok l
      → IsGood view out.txid l
      → build out fields i src ≡ ok b
      → (verify b (some view)).ok ≡ true
  good-verify out fields i src view b l few found good h =
      subst (λ x. (verify x (some view)).ok ≡ true) p.is_built
        ((verify_iff (assembled out p.l0 p.l p.revealed) (some view)).0.1 (
          accept_located (assembled out p.l0 p.l p.revealed) view p.l p.revealed [] refl
            (cc (o.opens, p.opens, o.folds, p.names))
            (omega (arith, ap length same_path, o.long, ceil_log2_le 64 (length fields) few)) refl
            refl refl (subst (IsGood view out.txid) same_place good)))
    where
      p : Built out fields i src b
      p = build→Built out fields i src b h

      same_place : l ≡ p.l
      same_place = cc (p.located, found)

      o : Opened fields i p.revealed
      o = u8-Opened fields i p.revealed few (get_elem?_of_index fields (u8 i) p.at)

      same_path : p.l0 ≡ o.path
      same_path = cc (o.opens, p.opens)

  -- Whatever Build returned from an honest source is accepted.
  pub Built-verify :
      (out : OutputRef) (fields : TxFields) (i : ℕ) (src : ProofSource) (view : HeaderChain)
      (b : Bundle)
      → length fields ≤ 2 ^ 64
      → IsHonest src view
      → build out fields i src ≡ ok b
      → (verify b (some view)).ok ≡ true
  Built-verify out fields i src view b few honest h =
      let p = build→Built out fields i src b h in
      good-verify out fields i src view b p.l few p.located (honest.good out.txid p.l p.located) h

  -- Build returns for the field that the index, cut to a byte, names in the transaction of the output,
  -- once the source locates it.
  build_total :
      (out : OutputRef) (fields : TxFields) (i : ℕ) (f : FieldLeaf) (src : ProofSource)
      (l : Located) (layers : List (List Hash))
      → length fields ≤ 2 ^ 64
      → get_elem? fields (u8 i) ≡ some f
      → build_mtxid fields ≡ ok (out.txid, layers)
      → locate src out.txid ≡ ok l
      → (b : Bundle) × (build out fields i src ≡ ok b)
  unfolding build
  build_total out fields i f src l layers few at named found = (
    assembled out o.path l f,
    rw (o.opens, same, bytes_eq_refl out.txid, found, index_of_get_elem? fields (u8 i) at) refl,
  )
    where
      o : Opened fields i f
      o = u8-Opened fields i f few at

      same : o.mtxid ≡ out.txid
      same = cc (o.builds, named)

  pub good-build :
      (out : OutputRef) (fields : TxFields) (i : ℕ) (f : FieldLeaf) (src : ProofSource)
      (view : HeaderChain) (l : Located) (layers : List (List Hash))
      → length fields ≤ 2 ^ 64
      → get_elem? fields (u8 i) ≡ some f
      → build_mtxid fields ≡ ok (out.txid, layers)
      → locate src out.txid ≡ ok l
      → IsGood view out.txid l
      → (b : Bundle) × (build out fields i src ≡ ok b) × ((verify b (some view)).ok ≡ true)
  good-build out fields i f src view l layers few at named found good =
      let (b, built) = build_total out fields i f src l layers few at named found in
      (b, built, good-verify out fields i src view b l few found good built)

  -- For every field, at a position below 2^8, of a transaction of at most 2^64 fields that the output
  -- names, and a source that locates the transaction and is honest for a chain, Build returns a
  -- bundle, and Verify accepts it with a view of that chain.
  pub build-verify :
      (out : OutputRef) (fields : TxFields) (i : ℕ) (f : FieldLeaf) (src : ProofSource)
      (view : HeaderChain) (l : Located) (layers : List (List Hash))
      → i < 2 ^ 8
      → length fields ≤ 2 ^ 64
      → get_elem? fields i ≡ some f
      → build_mtxid fields ≡ ok (out.txid, layers)
      → locate src out.txid ≡ ok l
      → IsHonest src view
      → (b : Bundle) × (build out fields i src ≡ ok b) × ((verify b (some view)).ok ≡ true)
  build-verify out fields i f src view l layers byte few at named found honest =
      good-build out fields i f src view l layers few (ap (get_elem? fields) (u8_small i byte) ∙ at)
        named found (honest.good out.txid l found)

  -- A bundle that Build returned is not changed by Reanchor with the same source.
  pub build-reanchor :
      (out : OutputRef) (fields : TxFields) (i : ℕ) (src : ProofSource) (b : Bundle)
      → build out fields i src ≡ ok b
      → reanchor b src ≡ (b, none)
  build-reanchor out fields i src b h =
      let p = build→Built out fields i src b h in
      subst (λ x. reanchor x src ≡ (x, none)) p.is_built
        (reanchor_found (assembled out p.l0 p.l p.revealed) src p.l p.located)
