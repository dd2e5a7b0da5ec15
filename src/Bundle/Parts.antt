-- ===== src/Bundle/Parts.antt =====
-- The readers of paths, fields and anchors read back what the writers wrote.
use mfspv.Base.{
  ℕ, suc, ◌%◌, ◌+◌, ◌^◌, ◌≤◌, ◌<◌, ◌≡◌, refl, ap, ◌∙◌, Bool, true, false, List, [], ◌∷◌, ◌++◌,
  length, All, Bytes, le_bytes, le_value, ◌*◌, some, ok, truncated, ◌==◌, if◌then◌else◌,
  append_assoc, append-nil, arith,
}
use mfspv.Commitment.Hashing.{Hash, IsHash, PathElem, FieldLeaf, TxFields}
use mfspv.Commitment.Inclusion.{IsHashPath}
use mfspv.Wire.{Reader, pure, open_at, uint}
use mfspv.Wire.Laws.{bind_step, must_step, take_bytes-append, uint-le_bytes}
use mfspv.Bundle.Types.{AnchorProof}
use mfspv.Bundle.Codec.{
  put_elems, put_path, put_leaves, put_fields, put_anchor, take_n, read_n, u8, u16, u32, path_loop,
  get_path, bytes_of, fields_loop, get_fields, get_anchor,
}

-- What the format can carry: 256 elements in a path, 32 bytes in a digest.
abbrev pub IsWirePath : List PathElem → Type 0
IsWirePath p = (length p ≤ 256) × IsHashPath p

-- 2^16 - 1 fields, and as many bytes in each.
abbrev pub IsWireFields : TxFields → Type 0
IsWireFields fs = (length fs < 2 ^ 16) × All (λ (f : FieldLeaf). length f.bytes < 2 ^ 16) fs

pub u8_reads : (v : ℕ) (t : Bytes) → u8 (open_at (v ∷ t)) ≡ (v, open_at t)
unfolding u8 uint le_value
u8_reads v t =
    let one : v + 256 * 0 ≡ v = omega arith in
    rw (take_bytes-append truncated 1 (v ∷ []) t refl, one) refl

u16_reads : (v : ℕ) (t : Bytes) → v < 2 ^ 16 → u16 (open_at (le_bytes 2 v ++ t)) ≡ (v, open_at t)
unfolding u16
u16_reads v t h = uint-le_bytes truncated 2 v t h

pub u32_reads :
    (v : ℕ) (t : Bytes) → v < 2 ^ 32 → u32 (open_at (le_bytes 4 v ++ t)) ≡ (v, open_at t)
unfolding u32
u32_reads v t h = uint-le_bytes truncated 4 v t h

take_n_reads :
    (n : ℕ) (b t : Bytes) → length b ≡ n → take_n n (open_at (b ++ t)) ≡ (some b, open_at t)
unfolding take_n
take_n_reads n b t h = take_bytes-append truncated n b t h

pub read_n_reads :
    (n : ℕ) (b t : Bytes) → length b ≡ n → read_n n (open_at (b ++ t)) ≡ (some b, open_at t)
unfolding read_n
read_n_reads n b t h = take_n_reads n b t h

flag_reads : (b : Bool) → ((if b then 1 else 0) == 1) ≡ b
flag_reads true = refl
flag_reads false = refl

-- One round of the loop of a path.
path_loop_step :
    (n flag : ℕ) (acc : List PathElem) (sib : Hash) (r r1 r2 : Reader)
    → u8 r ≡ (flag, r1)
    → read_n 32 r1 ≡ (some sib, r2)
    → path_loop (suc n) acc r
      ≡ path_loop n (acc ++ (record { sibling = sib; right = flag == 1 } ∷ [])) r2
unfolding path_loop
path_loop_step n flag acc sib r r1 r2 e1 e2 = ground (arith, e1, e2)

path_loop_reads :
    (p acc : List PathElem) (t : Bytes)
    → IsHashPath p
    → path_loop (length p) acc (open_at (put_elems p ++ t)) ≡ (acc ++ p, open_at t)
unfolding put_elems
path_loop_reads [] acc t h = unfold path_loop in rw append-nil refl
path_loop_reads (e ∷ p) acc t (he, hp) =
    path_loop_step (length p) (if e.right then 1 else 0) acc e.sibling _ _
      (open_at (put_elems p ++ t))
      (u8_reads (if e.right then 1 else 0) ((e.sibling ++ put_elems p) ++ t))
      (rw (append_assoc e.sibling (put_elems p) t)
        (read_n_reads 32 e.sibling (put_elems p ++ t) he))
    ∙ rw flag_reads (
        path_loop_reads p (acc ++ (e ∷ [])) t hp
        ∙ ap (λ l. (l, open_at t)) (append_assoc acc (e ∷ []) p))

-- One round of the loop of the fields.
fields_loop_step :
    (n idx ln : ℕ) (acc : TxFields) (b : Bytes) (r r1 r2 : Reader) (t : Bytes)
    → u8 r ≡ (idx, r1)
    → u16 r1 ≡ (ln, r2)
    → take_n ln r2 ≡ (some b, open_at t)
    → fields_loop (suc n) acc r
      ≡ fields_loop n (acc ++ (record { index = idx; bytes = b } ∷ [])) (open_at t)
unfolding fields_loop bytes_of
fields_loop_step n idx ln acc b r r1 r2 t e1 e2 e3 = ground (arith, e1, e2, e3)

u16_len_reads :
    (n : ℕ) (t : Bytes) → n < 2 ^ 16 → u16 (open_at (le_bytes 2 (n % 2 ^ 16) ++ t)) ≡ (n, open_at t)
u16_len_reads n t h = let e : n % 2 ^ 16 ≡ n = omega arith in rw e (u16_reads n t h)

fields_loop_reads :
    (fs acc : TxFields) (t : Bytes)
    → All (λ (f : FieldLeaf). length f.bytes < 2 ^ 16) fs
    → fields_loop (length fs) acc (open_at (put_leaves fs ++ t)) ≡ (acc ++ fs, open_at t)
unfolding put_leaves
fields_loop_reads [] acc t h = unfold fields_loop in rw append-nil refl
fields_loop_reads (f ∷ fs) acc t (hf, hs) =
    fields_loop_step (length fs) f.index (length f.bytes) acc f.bytes _ _
      (open_at ((f.bytes ++ put_leaves fs) ++ t)) (put_leaves fs ++ t)
      (u8_reads f.index ((le_bytes 2 (length f.bytes % 2 ^ 16) ++ (f.bytes ++ put_leaves fs)) ++ t))
      (rw (append_assoc (le_bytes 2 (length f.bytes % 2 ^ 16)) (f.bytes ++ put_leaves fs) t)
        (u16_len_reads (length f.bytes) ((f.bytes ++ put_leaves fs) ++ t) hf))
      (rw (append_assoc f.bytes (put_leaves fs) t)
        (take_n_reads (length f.bytes) f.bytes (put_leaves fs ++ t) refl))
    ∙ fields_loop_reads fs (acc ++ (f ∷ [])) t hs
    ∙ ap (λ l. (l, open_at t)) (append_assoc acc (f ∷ []) fs)

pub get_path_reads :
    (p : List PathElem) (t : Bytes)
    → IsWirePath p
    → get_path (open_at (put_path p ++ t)) ≡ (p, open_at t)
unfolding put_path
get_path_reads p t (short, hashes) =
    rw (append_assoc (le_bytes 2 (length p % 2 ^ 16)) (put_elems p) t) (
      get_path_step p (open_at (le_bytes 2 (length p % 2 ^ 16) ++ (put_elems p ++ t))) (open_at t)
        (put_elems p ++ t) short (u16_len_reads (length p) (put_elems p ++ t) (omega arith))
        (path_loop_reads p [] t hashes))
  where
    get_path_step :
        (p : List PathElem) (r r' : Reader) (t : Bytes)
        → length p ≤ 256
        → u16 r ≡ (length p, open_at t)
        → path_loop (length p) [] (open_at t) ≡ (p, r')
        → get_path r ≡ (p, r')
    get_path_step [] r r' t short e1 e2 = unfold get_path path_loop in ground (arith, e1, e2)
    get_path_step (x ∷ p) r r' t short e1 e2 = unfold get_path in ground (arith, e1, e2)

pub get_fields_reads :
    (fs : TxFields) (t : Bytes)
    → IsWireFields fs
    → get_fields (open_at (put_fields fs ++ t)) ≡ (fs, open_at t)
unfolding put_fields
get_fields_reads fs t (few, short) =
    rw (append_assoc (le_bytes 2 (length fs % 2 ^ 16)) (put_leaves fs) t) (
      get_fields_step fs (open_at (le_bytes 2 (length fs % 2 ^ 16) ++ (put_leaves fs ++ t)))
        (open_at t) (put_leaves fs ++ t) (u16_len_reads (length fs) (put_leaves fs ++ t) few)
        (fields_loop_reads fs [] t short))
  where
    get_fields_step :
        (fs : TxFields) (r r' : Reader) (t : Bytes)
        → u16 r ≡ (length fs, open_at t)
        → fields_loop (length fs) [] (open_at t) ≡ (fs, r')
        → get_fields r ≡ (fs, r')
    get_fields_step [] r r' t e1 e2 = unfold get_fields fields_loop in ground (arith, e1, e2)
    get_fields_step (x ∷ fs) r r' t e1 e2 = unfold get_fields in ground (arith, e1, e2)

pub record IsWireAnchor (a : AnchorProof) : Type 0 where
  pub acc_root : IsHash a.acc_root
  pub acc_path : IsWirePath a.acc_path
  pub gen_tx_fields : IsWireFields a.gen_tx_fields
  pub gen_l0 : IsWirePath a.gen_l0
  pub gen_l1 : IsWirePath a.gen_l1
  pub gen_l2 : IsWirePath a.gen_l2
  pub carrying_root : IsHash a.carrying_block_merkle_root
  pub carrying_header : length a.carrying_header ≡ 80

pub get_anchor_reads :
    (a : AnchorProof) (t : Bytes)
    → IsWireAnchor a
    → get_anchor (open_at (put_anchor a ++ t)) ≡ (ok a, open_at t)
unfolding put_anchor get_anchor
get_anchor_reads a t w = simp append_assoc (
    must_step _ _ (read_n_reads 32 a.acc_root _ w.acc_root) (
      bind_step _ _ (get_path_reads a.acc_path _ w.acc_path) (
        bind_step _ _ (get_fields_reads a.gen_tx_fields _ w.gen_tx_fields) (
          bind_step _ _ (get_path_reads a.gen_l0 _ w.gen_l0) (
            bind_step _ _ (get_path_reads a.gen_l1 _ w.gen_l1) (
              bind_step _ _ (get_path_reads a.gen_l2 _ w.gen_l2) (
                must_step _ _ (read_n_reads 32 a.carrying_block_merkle_root _ w.carrying_root) (
                  must_step _ _ (read_n_reads 80 a.carrying_header _ w.carrying_header)
                    (unfold pure in refl)))))))))
