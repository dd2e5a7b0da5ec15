-- ===== src/Bundle/Codec.antt =====
-- bundle/serialize.go: Serialize, Deserialize, and the writer and reader of paths and fields.
use mfspv.Base.{
  ℕ, zero, suc, ◌%◌, ◌+◌, ◌^◌, true, false, List, [], ◌∷◌, ◌++◌, length, Bytes, le_bytes, Option,
  none, some, Result, ok, err, truncated, ltb, ◌==◌, ◌||◌, if◌then◌else◌,
}
use mfspv.Commitment.Hashing.{PathElem, TxFields, max_depth}
use mfspv.Wire.{Reader, Rd, ◌>>=◌, pure, failed, error_of, open_at, must, take_bytes, uint}
use mfspv.Bundle.Types.{AnchorProof, Bundle}

-- The writer. `uint16(n)` keeps the low 16 bits, which `le_bytes 2` does.
unfoldable pub put_elems : List PathElem → Bytes
put_elems [] = []
put_elems (e ∷ p) = (if e.right then 1 else 0) ∷ (e.sibling ++ put_elems p)

unfoldable pub put_path : List PathElem → Bytes
put_path p = le_bytes 2 (length p % 2 ^ 16) ++ put_elems p

unfoldable pub put_leaves : TxFields → Bytes
put_leaves [] = []
put_leaves (f ∷ fs) = f.index ∷ (le_bytes 2 (length f.bytes % 2 ^ 16) ++ (f.bytes ++ put_leaves fs))

unfoldable pub put_fields : TxFields → Bytes
put_fields fs = le_bytes 2 (length fs % 2 ^ 16) ++ put_leaves fs

unfoldable pub put_anchor : AnchorProof → Bytes
put_anchor a =
    a.acc_root
    ++ (put_path a.acc_path
        ++ (put_fields a.gen_tx_fields
            ++ (put_path a.gen_l0
                ++ (put_path a.gen_l1
                    ++ (put_path a.gen_l2
                        ++ (a.carrying_block_merkle_root ++ a.carrying_header))))))

unfoldable pub put_optional : Option AnchorProof → Bytes
put_optional none = 0 ∷ []
put_optional (some a) = 1 ∷ put_anchor a

-- What stands before the flag of the anchor.
unfoldable pub put_core : Bundle → Bytes → Bytes
put_core b t =
    b.output_ref.txid
    ++ (le_bytes 4 b.output_ref.vout
        ++ (put_fields b.fields
            ++ (put_path b.mtxid_path
                ++ (put_path b.subtree_path ++ (put_path b.block_path ++ (b.header ++ t))))))

-- Serialize has no error.
unfoldable pub serialize : Bundle → Bytes
serialize b = put_core b (put_optional b.anchor)

-- The reader.
unfoldable pub take_n : ℕ → Rd (Option Bytes)
take_n = take_bytes truncated

-- `r.read(dst)` for a `dst` of n bytes, which copies what `take` gives.
unfoldable pub read_n : ℕ → Rd (Option Bytes)
read_n n = take_n n

unfoldable pub u8 : Rd ℕ
u8 = uint truncated 1

unfoldable pub u16 : Rd ℕ
u16 = uint truncated 2

unfoldable pub u32 : Rd ℕ
u32 = uint truncated 4

unfoldable pub path_loop : ℕ → List PathElem → Rd (List PathElem)
path_loop zero p r = (p, r)
path_loop (suc n) p r =
    let (flag, r1) = u8 r in
    let (sib, r2) = read_n 32 r1 in
    elim sib [
      | none ↦ ([], r2)
      | some s ↦ path_loop n (p ++ (record { sibling = s; right = flag == 1 } ∷ [])) r2
    ]

unfoldable pub get_path : Rd (List PathElem)
get_path r =
    let (n, r1) = u16 r in
    if failed r1 || n == 0
    then ([], r1)
    else if ltb (max_depth + 1) n
    then ([], record r1 { error = some truncated })
    else path_loop n [] r1

-- A nil slice is copied as an empty one, behind the test of the error.
unfoldable pub bytes_of : Option Bytes → Bytes
bytes_of none = []
bytes_of (some b) = b

unfoldable pub fields_loop : ℕ → TxFields → Rd TxFields
fields_loop zero fs r = (fs, r)
fields_loop (suc n) fs r =
    let (idx, r1) = u8 r in
    let (ln, r2) = u16 r1 in
    let (b, r3) = take_n ln r2 in
    elim (failed r3) [
      | true ↦ ([], r3)
      | false ↦ fields_loop n (fs ++ (record { index = idx; bytes = bytes_of b } ∷ [])) r3
    ]

unfoldable pub get_fields : Rd TxFields
get_fields r = let (n, r1) = u16 r in if failed r1 || n == 0 then ([], r1) else fields_loop n [] r1

unfoldable pub get_anchor : Rd (Result AnchorProof)
get_anchor = must (read_n 32) λ acc_root. do
  acc_path ← get_path
  gen_tx_fields ← get_fields
  gen_l0 ← get_path
  gen_l1 ← get_path
  gen_l2 ← get_path
  must (read_n 32) λ carrying_root. must (read_n 80) λ carrying_header. pure (
      ok (record {
        acc_root = acc_root;
        acc_path = acc_path;
        gen_tx_fields = gen_tx_fields;
        gen_l0 = gen_l0;
        gen_l1 = gen_l1;
        gen_l2 = gen_l2;
        carrying_block_merkle_root = carrying_root;
        carrying_header = carrying_header;
      }))

-- The checks at the end: no error, and nothing left.
unfoldable pub finish : Bundle → Reader → Result Bundle
finish b r = if failed r then error_of r else elim r.rest [ [] ↦ ok b | _ ∷ _ ↦ err truncated ]

-- Any flag but 1 stands for no anchor.
unfoldable pub finish_anchor : ℕ → Bundle → Reader → Result Bundle
finish_anchor has b r =
    if has == 1
    then (let (a, r') = get_anchor r in
        elim a [ err e ↦ err e | ok x ↦ finish (record b { anchor = some x }) r' ])
    else finish b r

unfoldable pub get_core : Rd (Result Bundle)
get_core = must (read_n 32) λ txid. do
  vout ← u32
  fields ← get_fields
  mtxid_path ← get_path
  subtree_path ← get_path
  block_path ← get_path
  must (read_n 80) λ header. pure (
      ok (record {
        output_ref = record { txid = txid; vout = vout };
        fields = fields;
        mtxid_path = mtxid_path;
        subtree_path = subtree_path;
        block_path = block_path;
        header = header;
        anchor = none;
      }))

unfoldable pub deserialize : Bytes → Result Bundle
deserialize input =
    let (core, r1) = get_core (open_at input) in
    elim core [ err e ↦ err e | ok b ↦ (let (has, r2) = u8 r1 in finish_anchor has b r2) ]
