-- ===== src/Fabric/RoundTrip.antt =====
-- DecodeBatch reads back what EncodeBatch wrote.
use mfspv.Base.{
  ℕ, ◌%◌, ◌^◌, ◌≤◌, ◌<◌, ◌≡◌, refl, sym, ap, ◌∙◌, Bool, true, false, List, [], ◌∷◌, ◌++◌, length,
  take, drop, All, Bytes, le_bytes, le_value, length-le_bytes, le_value-le_bytes, take-append,
  drop-append, length-append, append_assoc, append-nil, Option, none, some, ok, ltb, ◌==◌,
  if◌then◌else◌, arith,
}
use mfspv.Commitment.Hashing.{IsHash, PathElem}
use mfspv.Commitment.Inclusion.{IsHashPath}
use mfspv.Bundle.Codec.{put_elems, put_path}
use mfspv.Fabric.Proof.{Proof}
use mfspv.Fabric.Codec.{
  encode_proof, encode_proofs, encode_batch, Decoder, ◌>>=◌, done, take_of, byte_of, decode_elems,
  decode_counted, decode_path, decode_proof, decode_inside, decode_proofs, decode_batch,
}

-- The proofs that the format can carry: 4096 elements in a path.
pub record IsCarried (p : Proof) : Type 0 where
  pub leaf : IsHash p.leaf
  pub short1 : length p.l1 ≤ 4096
  pub l1 : IsHashPath p.l1
  pub subtree_root : IsHash p.subtree_root
  pub short2 : length p.l2 ≤ 4096
  pub l2 : IsHashPath p.l2
  pub header : length p.header ≡ 80
  pub short : length (encode_proof p) < 2 ^ 32

module _ {ℓ κ} {A : Type ℓ} {B : Type κ} where
  step :
      (m : Decoder A) (f : A → Decoder B) {d d' : Bytes} {a : A} {y : Option (B × Bytes)}
      → m d ≡ some (a, d')
      → f a d' ≡ y
      → ◌>>=◌ m f d ≡ y
  unfolding ◌>>=◌
  step m f e h =
      ap
        (λ (o : Option (A × Bytes)). elim o as (λ _. Option (B × Bytes)) [
          | none ↦ none
          | some p ↦ f p.0 p.1
        ])
        e
      ∙ h

take_of-append : (n : ℕ) (b t : Bytes) → length b ≡ n → take_of n (b ++ t) ≡ some (b, t)
unfolding take_of
take_of-append n b t h =
    let enough : ltb (length (b ++ t)) (length b) ≡ false = ground (arith, length-append {0} b t) in
    rw (sym h, enough, take-append b t, drop-append b t) refl

flag_read : (b : Bool) → (byte_of ((if b then 1 else 0) ∷ []) == 1) ≡ b
unfolding byte_of
flag_read true = refl
flag_read false = refl

elems_read :
    (p : List PathElem) (t : Bytes)
    → IsHashPath p
    → decode_elems (length p) (put_elems p ++ t) ≡ some (p, t)
unfolding put_elems decode_elems done
elems_read [] t h = refl
elems_read (e ∷ p) t (he, hp) =
    step _ _
      (take_of-append 1 ((if e.right then 1 else 0) ∷ []) ((e.sibling ++ put_elems p) ++ t) refl)
      (step _ _
        (ap (take_of 32) (append_assoc e.sibling (put_elems p) t)
          ∙ take_of-append 32 e.sibling (put_elems p ++ t) he)
        (step _ _ (elems_read p t hp) (
          ap (λ (b : Bool). some (record { sibling = e.sibling; right = b } ∷ p, t))
            (flag_read e.right))))

counted_read :
    (p : List PathElem) (t : Bytes)
    → length p ≤ 4096
    → IsHashPath p
    → decode_counted (length p) (put_elems p ++ t) ≡ some (p, t)
unfolding decode_counted
counted_read [] t short h = unfold put_elems in refl
counted_read (e ∷ p) t short h = ground (arith, elems_read (e ∷ p) t h)

path_read :
    (p : List PathElem) (t : Bytes)
    → length p ≤ 4096
    → IsHashPath p
    → decode_path (put_path p ++ t) ≡ some (p, t)
unfolding decode_path put_path
path_read p t short h =
    let fits : length p % 2 ^ 16 ≡ length p = omega arith in
    rw (append_assoc (le_bytes 2 (length p % 2 ^ 16)) (put_elems p) t, fits)
      (step _ _
        (take_of-append 2 (le_bytes 2 (length p)) (put_elems p ++ t) (length-le_bytes 2 (length p)))
        (rw (le_value-le_bytes 2 (length p) (omega arith)) (counted_read p t short h)))

proof_read :
    (p : Proof) (t : Bytes) → IsCarried p → decode_proof (encode_proof p ++ t) ≡ some (p, t)
unfolding decode_proof encode_proof done
proof_read p t c = simp append_assoc (
    step _ _ (take_of-append 32 p.leaf _ c.leaf) (
      step _ _ (path_read p.l1 _ c.short1 c.l1) (
        step _ _ (take_of-append 32 p.subtree_root _ c.subtree_root) (
          step _ _ (path_read p.l2 _ c.short2 c.l2)
            (step _ _ (take_of-append 80 p.header t c.header) refl)))))

inside_read : (p : Proof) (t : Bytes) → IsCarried p → decode_inside (encode_proof p) t ≡ some (p, t)
unfolding decode_inside
inside_read p t c =
    let e : decode_proof (encode_proof p) ≡ some (p, []) =
      ap decode_proof (sym (append-nil (encode_proof p))) ∙ proof_read p [] c in
    rw (decode_inside, e) refl

proofs_read :
    (ps : List Proof) (t : Bytes)
    → All IsCarried ps
    → decode_proofs (length ps) (encode_proofs ps ++ t) ≡ some (ps, t)
unfolding decode_proofs encode_proofs done
proofs_read [] t h = refl
proofs_read (p ∷ ps) t (c, cs) =
    let fits : length (encode_proof p) % 2 ^ 32 ≡ length (encode_proof p) =
      omega (arith, c.short) in
    simp (append_assoc, fits)
      (step _ _
        (take_of-append 4 (le_bytes 4 (length (encode_proof p))) _
          (length-le_bytes 4 (length (encode_proof p))))
        (rw (le_value-le_bytes 4 (length (encode_proof p)) c.short) (
          step _ _ (take_of-append (length (encode_proof p)) (encode_proof p) _ refl)
            (step _ _ (inside_read p _ c) (step _ _ (proofs_read ps t cs) refl)))))

-- DecodeBatch gives back every batch that the format can carry, of fewer than 2^32 proofs with paths
-- of at most 4096 elements, and does so with any bytes behind it.
pub decode_batch-encode_batch :
    (ps : List Proof) (t : Bytes)
    → length ps < 2 ^ 32
    → All IsCarried ps
    → decode_batch (encode_batch ps ++ t) ≡ ok ps
unfolding decode_batch encode_batch
decode_batch-encode_batch ps t few carried =
    let count = le_bytes 4 (length ps % 2 ^ 32) in
    let fits : le_value count ≡ length ps =
      omega (arith, le_value-le_bytes 4 (length ps % 2 ^ 32) (omega arith)) in
    let wide : length count ≡ 4 = length-le_bytes 4 (length ps % 2 ^ 32) in
    let long : ltb (length (count ++ (encode_proofs ps ++ t))) 4 ≡ false =
      ground (arith, wide, length-append {0} count (encode_proofs ps ++ t)) in
    let front : take 4 (count ++ (encode_proofs ps ++ t)) ≡ count =
      ap (λ n. take n (count ++ (encode_proofs ps ++ t))) (sym wide) ∙ take-append count _ in
    let back : drop 4 (count ++ (encode_proofs ps ++ t)) ≡ encode_proofs ps ++ t =
      ap (λ n. drop n (count ++ (encode_proofs ps ++ t))) (sym wide) ∙ drop-append count _ in
    rw (append_assoc count (encode_proofs ps) t, long, front, back, fits, proofs_read ps t carried)
      refl
