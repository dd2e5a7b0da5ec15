-- ===== src/Tests/Curves.antt =====
-- The curve at the generator, and a small signature.
use mfspv.Base.{
  ℕ, zero, suc, ◌*◌, ◌/◌, ◌%◌, ◌≡◌, refl, true, not, ◌∷◌, ◌++◌, length, All, All-append, IsByte,
  Bytes, ok, ◌==◌, le_bytes, le_value, if◌then◌else◌, arith,
}
use native.Mathlib.Nat.{mod-lt}
use mfspv.Crypto.Field.{value, curve_p, fe_mul}
use mfspv.Crypto.FieldLaws.{Stands}
use mfspv.Crypto.FieldProduct.{fe_mul-Stands}
use mfspv.Crypto.Points.{scalar_mult_ct}
use mfspv.Crypto.Complete.{Proj, Shows}
use mfspv.Crypto.Ladder.{times_p, scalar_mult_ct-Shows}
use mfspv.Crypto.Numbers.{be_value, be_bytes, be_bytes-IsByte}
use mfspv.Crypto.Keys.{
  curve_gx, curve_gy, on_curve, serialize_compressed, root_of_parity, parse_x, parse_compressed,
}
use mfspv.Crypto.Canonical.{IsRemainder, parse_compressed-canonical}
use mfspv.Crypto.Signature.{Signature, serialize, parse_signature, is_low_s, malleate}
use mfspv.Crypto.Malleable.{parse_signature-serialize, malleate-malleate}
use mfspv.Crypto.Affine.{ct_base_g}

gx-Stands : Stands ct_base_g.x curve_gx
unfolding value
gx-Stands = record {
  reduced = record {
    words = record { w0 = omega arith; w1 = omega arith; w2 = omega arith; w3 = omega arith };
    below = omega arith;
  };
  stands = refl;
}

gy-Stands : Stands ct_base_g.y curve_gy
unfolding value
gy-Stands = record {
  reduced = record {
    words = record { w0 = omega arith; w1 = omega arith; w2 = omega arith; w3 = omega arith };
    below = omega arith;
  };
  stands = refl;
}

one-Stands : Stands ct_base_g.z 1
unfolding value
one-Stands = record {
  reduced = record {
    words = record { w0 = omega arith; w1 = omega arith; w2 = omega arith; w3 = omega arith };
    below = omega arith;
  };
  stands = refl;
}

abbrev generator : Proj
generator = record { x = curve_gx; y = curve_gy; z = 1 }

fe_mul-Stands_example :
    Stands (fe_mul ct_base_g.x ct_base_g.y) (value ct_base_g.x * value ct_base_g.y % curve_p)
fe_mul-Stands_example = fe_mul-Stands ct_base_g.x ct_base_g.y gx-Stands.reduced gy-Stands.reduced

scalar_mult_ct-Shows_example :
    Shows (scalar_mult_ct ct_base_g.y ct_base_g) (times_p 256 (value ct_base_g.y) generator)
scalar_mult_ct-Shows_example =
    scalar_mult_ct-Shows ct_base_g.y ct_base_g generator gy-Stands.reduced.words
      (record { x = gx-Stands; y = gy-Stands; z = one-Stands })

-- Powers modulo m by squares, for exponents below 2^fuel.
abbrev power : ℕ → ℕ → ℕ → ℕ → ℕ
power zero b e m = 1
power (suc fuel) b e m =
    let half = power fuel (b * b % m) (e / 2) m in if e % 2 == 1 then half * b % m else half

abbrev exp : ℕ → ℕ → ℕ → ℕ
exp b e m = power 256 b e m % m

exp-IsRemainder : IsRemainder exp
exp-IsRemainder b e m h = mod-lt (power 256 b e m) h

abbrev key_bytes : Bytes
key_bytes = 2 ∷ be_bytes 32 curve_gx

key_parses : parse_compressed exp key_bytes ≡ ok (record { x = curve_gx; y = curve_gy })
unfolding parse_compressed parse_x root_of_parity on_curve be_value be_bytes le_bytes le_value
key_parses = refl

parse_compressed-canonical_example :
    (on_curve curve_gx curve_gy ≡ true)
    × (serialize_compressed (record { x = curve_gx; y = curve_gy }) ≡ ok key_bytes)
parse_compressed-canonical_example =
    parse_compressed-canonical exp key_bytes (record { x = curve_gx; y = curve_gy }) exp-IsRemainder
      (omega arith, be_bytes-IsByte 32 curve_gx) key_parses

abbrev small_signature : Signature
small_signature = record { r = 5; s = 7 }

parse_signature-serialize_example :
    (b : Bytes) × (serialize small_signature ≡ ok b)
    × (length b ≡ 64)
    × (parse_signature b ≡ ok small_signature)
parse_signature-serialize_example =
    parse_signature-serialize small_signature (record { r = omega arith; s = omega arith })

abbrev signature_bytes : Bytes
signature_bytes = be_bytes 32 5 ++ be_bytes 32 7

signature_bytes-IsByte : All IsByte signature_bytes
unfolding be_bytes le_bytes
signature_bytes-IsByte =
    All-append IsByte (be_bytes 32 5) (be_bytes 32 7) (be_bytes-IsByte 32 5) (be_bytes-IsByte 32 7)

signature_parses : parse_signature signature_bytes ≡ ok small_signature
unfolding parse_signature be_value be_bytes le_bytes le_value
signature_parses = refl

malleate-malleate_example :
    (b' : Bytes) × (sig' : Signature) × (malleate signature_bytes ≡ ok b')
    × (parse_signature b' ≡ ok sig')
    × (is_low_s sig' ≡ not (is_low_s small_signature))
    × (malleate b' ≡ ok signature_bytes)
malleate-malleate_example =
    malleate-malleate signature_bytes small_signature signature_bytes-IsByte signature_parses
      (omega arith) (omega arith)
