-- ===== src/Crypto/Keys.antt =====
-- The curve's numbers, the keys and their encoding of crypto/secp256k1.go. A `*big.Int` that is not
-- nil and not negative is a number. A key that the package makes has both coordinates.
use mfspv.Base.{
  ℕ, ◌+◌, ◌-◌, ◌*◌, ◌/◌, ◌%◌, ◌^◌, Bool, false, not, ◌&&◌, ◌||◌, [], ◌∷◌, length, Bytes, bytes_eq,
  Option, Error, Result, ok, err, other, panic, ◌>>=◌, ltb, ◌==◌, if◌then◌else◌,
}
use mfspv.Crypto.Field.{curve_p}
use mfspv.Crypto.Numbers.{be_value, be_bytes}

abbrev pub curve_n : ℕ
curve_n = 0xFFFFFFFFFFFFFFFFFFFFFFFFFFFFFFFEBAAEDCE6AF48A03BBFD25E8CD0364141

abbrev pub curve_b : ℕ
curve_b = 7

abbrev pub curve_gx : ℕ
curve_gx = 0x79BE667EF9DCBBAC55A06295CE870B07029BFCDB2DCE28D959F2815B16F81798

abbrev pub curve_gy : ℕ
curve_gy = 0x483ADA7726A3C4655DA4FBFC0E1108A8FD17B448A68554199C47D08FFB10D4B8

abbrev pub n_half : ℕ
n_half = curve_n / 2

abbrev pub bad_key : Error
bad_key = other 10

abbrev pub out_of_field : Error
out_of_field = other 11

abbrev pub off_curve : Error
off_curve = other 12

-- A point; `none` is the pair of nils, the point at infinity.
abbrev pub Point : Type 0
Point = Option (ℕ × ℕ)

pub record PublicKey : Type 0 where
  pub x : ℕ
  pub y : ℕ

unfoldable pub on_curve : ℕ → ℕ → Bool
on_curve x y =
    if not (ltb x curve_p) || not (ltb y curve_p)
    then false
    else (y * y % curve_p) == ((x * x * x + curve_b) % curve_p)

unfoldable pub new_private_key : Bytes → ℕ
new_private_key seed = be_value seed % (curve_n - 1) + 1

-- `copy(out[33-len(xb):], xb)`: an X of 33 bytes covers the prefix too, and a longer one panics.
unfoldable pub serialize_compressed : PublicKey → Result Bytes
serialize_compressed p =
    if ltb p.x (256 ^ 32)
    then ok ((if p.y % 2 == 0 then 2 else 3) ∷ be_bytes 32 p.x)
    else if ltb p.x (256 ^ 33)
    then ok (be_bytes 33 p.x)
    else err panic

-- Equal, of two keys that are not nil.
unfoldable pub equal : PublicKey → PublicKey → Result Bool
equal p q = do a ← serialize_compressed p; b ← serialize_compressed q; ok (bytes_eq a b)

-- The parity bit that the prefix asks for: `y.Sub(curveP, y)` where the other root is meant.
unfoldable pub root_of_parity : ℕ → ℕ → ℕ
root_of_parity prefix y =
    if prefix == 3
    then (if y % 2 == 1 then y else curve_p - y)
    else (if y % 2 == 1 then curve_p - y else y)

-- The root `rhs^((p+1)/4) mod p` is big.Int.Exp, a parameter.
module _ (exp : ℕ → ℕ → ℕ → ℕ) where
  unfoldable pub parse_x : ℕ → ℕ → Result PublicKey
  parse_x prefix x =
      let rhs = (x * x * x + curve_b) % curve_p in
      let root = exp rhs ((curve_p + 1) / 4) curve_p in
      let y = root_of_parity prefix root in
      if not (ltb x curve_p)
      then err out_of_field
      else if not ((root * root % curve_p) == rhs)
      then err off_curve
      else if not (on_curve x y)
      then err off_curve
      else ok (record { x = x; y = y })

  unfoldable pub parse_compressed : Bytes → Result PublicKey
  parse_compressed [] = err bad_key
  parse_compressed (prefix ∷ b) =
      if not (length b == 32) || (not (prefix == 2) && not (prefix == 3))
      then err bad_key
      else parse_x prefix (be_value b)
