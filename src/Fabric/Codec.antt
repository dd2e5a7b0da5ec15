-- ===== src/Fabric/Codec.antt =====
-- EncodeProof, EncodeBatch and DecodeBatch of fabric/codec.go. The loop that writes a path is that of
-- bundle/serialize.go. The decoder is its unread part, `d.b[d.off:]`; a failed read ends the decoding.
use mfspv.Base.{
  ℕ, zero, suc, ◌%◌, ◌^◌, List, [], ◌∷◌, ◌++◌, length, take, drop, Bytes, le_bytes, le_value,
  Option, none, some, Result, ok, err, truncated, ltb, ◌==◌, if◌then◌else◌,
}
use mfspv.Commitment.Hashing.{PathElem}
use mfspv.Bundle.Codec.{put_path}
use mfspv.Fabric.Proof.{Proof}

unfoldable pub encode_proof : Proof → Bytes
encode_proof p = p.leaf ++ (put_path p.l1 ++ (p.subtree_root ++ (put_path p.l2 ++ p.header)))

unfoldable pub encode_proofs : List Proof → Bytes
encode_proofs [] = []
encode_proofs (p ∷ proofs) =
    le_bytes 4 (length (encode_proof p) % 2 ^ 32) ++ (encode_proof p ++ encode_proofs proofs)

unfoldable pub encode_batch : List Proof → Bytes
encode_batch proofs = le_bytes 4 (length proofs % 2 ^ 32) ++ encode_proofs proofs

abbrev pub Decoder {ℓ} : Type ℓ → Type ℓ
Decoder A = Bytes → Option (A × Bytes)

-- `if !ok { return …, false }` between two reads.
infixl 5 ◌>>=◌
unfoldable pub ◌>>=◌ {ℓ κ} : {A : Type ℓ} {B : Type κ} → Decoder A → (A → Decoder B) → Decoder B
◌>>=◌ m f d = elim (m d) [ none ↦ none | some p ↦ f p.0 p.1 ]

unfoldable pub done {ℓ} : {A : Type ℓ} → A → Decoder A
done a d = some (a, d)

unfoldable pub take_of : ℕ → Decoder Bytes
take_of n d = if ltb (length d) n then none else some (take n d, drop n d)

-- `rb[0]` of one byte.
unfoldable pub byte_of : Bytes → ℕ
byte_of [] = 0
byte_of (b ∷ bs) = b

unfoldable pub decode_elems : ℕ → Decoder (List PathElem)
decode_elems zero = done []
decode_elems (suc n) = take_of 1 >>= λ rb. take_of 32 >>= λ sb.
    decode_elems n >>= λ rest. done (record { sibling = sb; right = byte_of rb == 1 } ∷ rest)

-- The count is read, and above 4096 refused.
unfoldable pub decode_counted : ℕ → Decoder (List PathElem)
decode_counted n d = if n == 0 then some ([], d) else if ltb 4096 n then none else decode_elems n d

unfoldable pub decode_path : Decoder (List PathElem)
decode_path = take_of 2 >>= λ cb. decode_counted (le_value cb)

unfoldable pub decode_proof : Decoder Proof
decode_proof = take_of 32 >>= λ leaf. decode_path >>= λ l1. take_of 32 >>= λ root.
    decode_path >>= λ l2. take_of 80 >>= λ header.
    done (record { leaf = leaf; l1 = l1; subtree_root = root; l2 = l2; header = header })

-- One proof in its own bytes, of which what is left over is not looked at.
unfoldable pub decode_inside : Bytes → Decoder Proof
decode_inside pb d = elim (decode_proof pb) [ none ↦ none | some p ↦ some (p.0, d) ]

unfoldable pub decode_proofs : ℕ → Decoder (List Proof)
decode_proofs zero = done []
decode_proofs (suc n) = take_of 4 >>= λ lp. take_of (le_value lp) >>= λ pb.
    decode_inside pb >>= λ p. decode_proofs n >>= λ rest. done (p ∷ rest)

-- The proofs, whatever follows them.
unfoldable pub decode_batch : Bytes → Result (List Proof)
decode_batch input =
    if ltb (length input) 4
    then err truncated
    else elim (decode_proofs (le_value (take 4 input)) (drop 4 input)) [
      | none ↦ err truncated
      | some p ↦ ok p.0
    ]
