-- ===== src/Crypto/Malleable.antt =====
-- The bytes of a signature of crypto/secp256k1.go, and its second form.
use mfspv.Base.{
  ◌-◌, ◌^◌, ◌<◌, ◌≡◌, refl, sym, ap, ◌∙◌, inl, inr, true, Bool-cases, not, ◌++◌, length,
  length-append, All, All-take, All-drop, take, drop, take-append, drop-append, length-take,
  length-drop, take-append-drop, IsByte, Bytes, ok, ltb, ◌==◌, subst, arith,
}
use mfspv.Crypto.Numbers.{
  be_value, be_bytes, be_bytes-be_value, be_value-be_bytes, be_value_lt, length-be_bytes,
}
use mfspv.Crypto.Keys.{curve_n}
use mfspv.Crypto.Signature.{Signature, serialize, parse_signature, is_low_s, distance, malleate}

-- A signature whose halves fit 32 bytes.
pub record IsWide (sig : Signature) : Type 0 where
  pub r : sig.r < 256 ^ 32
  pub s : sig.s < 256 ^ 32

serialize_wide :
    (sig : Signature) → IsWide sig → serialize sig ≡ ok (be_bytes 32 sig.r ++ be_bytes 32 sig.s)
unfolding serialize
serialize_wide sig w =
    let fits_r : ltb sig.r (256 ^ 32) ≡ true = ground (arith, w.r) in
    let fits_s : ltb sig.s (256 ^ 32) ≡ true = ground (arith, w.s) in
    let fits_s' : ltb sig.s (256 ^ 64) ≡ true = ground (arith, w.s) in
    rw (serialize, fits_r, fits_s, fits_s') refl

parse_joined :
    (sig : Signature)
    → IsWide sig
    → parse_signature (be_bytes 32 sig.r ++ be_bytes 32 sig.s) ≡ ok sig
unfolding parse_signature
parse_joined sig w =
    let r = be_bytes 32 sig.r in
    let s = be_bytes 32 sig.s in
    let long : (length (r ++ s) == 64) ≡ true =
      ground (arith, length-append r s, length-be_bytes 32 sig.r, length-be_bytes 32 sig.s) in
    let first : take 32 (r ++ s) ≡ r =
      ap (λ n. take n (r ++ s)) (sym (length-be_bytes 32 sig.r)) ∙ take-append r s in
    let second : drop 32 (r ++ s) ≡ s =
      ap (λ n. drop n (r ++ s)) (sym (length-be_bytes 32 sig.r)) ∙ drop-append r s in
    rw (long, first, second, be_value-be_bytes 32 sig.r w.r, be_value-be_bytes 32 sig.s w.s) refl

-- ParseSignature gives back every signature whose halves are below 2^256 from the bytes that
-- Serialize makes of it.
pub parse_signature-serialize :
    (sig : Signature)
    → IsWide sig
    → (b : Bytes) × (serialize sig ≡ ok b) × (length b ≡ 64) × (parse_signature b ≡ ok sig)
parse_signature-serialize sig w =
    let r = be_bytes 32 sig.r in
    let s = be_bytes 32 sig.s in
    (
      r ++ s,
      serialize_wide sig w,
      omega (arith, length-append r s, length-be_bytes 32 sig.r, length-be_bytes 32 sig.s),
      parse_joined sig w,
    )

-- What was parsed is written back.
parse_signature-ok :
    (b : Bytes) (sig : Signature)
    → All IsByte b
    → parse_signature b ≡ ok sig
    → IsWide sig × (be_bytes 32 sig.r ++ be_bytes 32 sig.s ≡ b)
unfolding parse_signature
parse_signature-ok b sig h e = elim (Bool-cases (length b == 64)) [
  | inr short ↦ cc (rw (parse_signature, short) at e)
  | inl full ↦
      (let long : length b ≡ 64 = ground (arith, full) in
        let made : ok (record { r = be_value (take 32 b); s = be_value (drop 32 b) }) ≡ ok sig =
          rw (parse_signature, full) at e in
        let r_is : be_value (take 32 b) ≡ sig.r = cc made in
        let s_is : be_value (drop 32 b) ≡ sig.s = cc made in
        let long_r : length (take 32 b) ≡ 32 = length-take 32 b (omega (arith, long)) in
        let long_s : length (drop 32 b) ≡ 32 = length-drop 32 b ∙ omega (arith, long) in
        let bytes_r = All-take IsByte 32 b h in
        let bytes_s = All-drop IsByte 32 b h in
        (
          record {
            r = subst (λ x. x < 256 ^ 32) r_is (be_value_lt 32 (take 32 b) bytes_r long_r);
            s = subst (λ x. x < 256 ^ 32) s_is (be_value_lt 32 (drop 32 b) bytes_s long_s);
          },
          ap (λ x. be_bytes 32 x ++ be_bytes 32 sig.s) (sym r_is)
              ∙ ap (λ x. be_bytes 32 (be_value (take 32 b)) ++ be_bytes 32 x) (sym s_is)
              ∙ ap (λ x. x ++ be_bytes 32 (be_value (drop 32 b)))
                  (be_bytes-be_value 32 (take 32 b) bytes_r long_r)
              ∙ ap (λ x. take 32 b ++ x) (be_bytes-be_value 32 (drop 32 b) bytes_s long_s)
              ∙ take-append-drop 32 b,
        ))
]

malleate_of :
    (b : Bytes) (sig : Signature)
    → parse_signature b ≡ ok sig
    → malleate b ≡ serialize (record { r = sig.r; s = distance curve_n sig.s })
unfolding malleate
malleate_of b sig e = rw e refl

-- For 64 bytes that parse to a signature whose S is from 1 to n - 1, Malleate returns the bytes of
-- another one, which is low exactly where the first is not, and Malleate of these bytes returns the
-- first ones: of the two forms of a signature IsLowS takes one.
pub malleate-malleate :
    (b : Bytes) (sig : Signature)
    → All IsByte b
    → parse_signature b ≡ ok sig
    → 0 < sig.s
    → sig.s < curve_n
    → (b' : Bytes) × (sig' : Signature) × (malleate b ≡ ok b')
      × (parse_signature b' ≡ ok sig')
      × (is_low_s sig' ≡ not (is_low_s sig))
      × (malleate b' ≡ ok b)
unfolding distance is_low_s
malleate-malleate b sig h e low high =
    let (w, back) = parse_signature-ok b sig h e in
    let d : distance curve_n sig.s ≡ curve_n - sig.s = ground arith in
    let other : Signature = record { r = sig.r; s = curve_n - sig.s } in
    let w' : IsWide other = record { r = w.r; s = omega arith } in
    let d' : distance curve_n other.s ≡ sig.s = ground (arith, low, high) in
    (
      be_bytes 32 other.r ++ be_bytes 32 other.s,
      other,
      malleate_of b sig e
          ∙ ap (λ s. serialize (record { r = sig.r; s = s })) d
          ∙ serialize_wide other w',
      parse_joined other w',
      ground (arith, low, high),
      malleate_of _ other (parse_joined other w')
          ∙ ap (λ s. serialize (record { r = sig.r; s = s })) d'
          ∙ serialize_wide sig w
          ∙ ap ok back,
    )
