-- ===== src/Crypto/Signature.antt =====
-- Signature of crypto/secp256k1.go: its bytes, IsLowS and Malleate.
use mfspv.Base.{
  ℕ, zero, suc, ◌-◌, ◌/◌, ◌^◌, Bool, not, ◌||◌, ◌++◌, length, take, drop, Bytes, Error, Result, ok,
  err, other, panic, ◌>>=◌, ltb, leb, ◌==◌, if◌then◌else◌,
}
use mfspv.Crypto.Numbers.{be_value, be_bytes}
use mfspv.Crypto.Keys.{curve_n, n_half}

pub record Signature : Type 0 where
  pub r : ℕ
  pub s : ℕ

abbrev pub bad_length : Error
bad_length = other 15

-- The length of `Bytes` of a number below 256^fuel.
unfoldable pub byte_len : ℕ → ℕ → ℕ
byte_len zero v = 0
byte_len (suc fuel) v = let rest = byte_len fuel (v / 256) in if v == 0 then 0 else suc rest

-- `copy(out[32-len(rb):32], rb)` panics on a longer R. An S of more than 32 bytes covers the end of
-- R, and panics beyond 64.
unfoldable pub serialize : Signature → Result Bytes
serialize sig =
    if not (ltb sig.r (256 ^ 32)) || not (ltb sig.s (256 ^ 64))
    then err panic
    else if ltb sig.s (256 ^ 32)
    then ok (be_bytes 32 sig.r ++ be_bytes 32 sig.s)
    else (let n = byte_len 64 sig.s in ok (take (64 - n) (be_bytes 32 sig.r) ++ be_bytes n sig.s))

unfoldable pub parse_signature : Bytes → Result Signature
parse_signature b =
    if not (length b == 64)
    then err bad_length
    else ok (record { r = be_value (take 32 b); s = be_value (drop 32 b) })

unfoldable pub is_low_s : Signature → Bool
is_low_s sig = leb sig.s n_half

-- `Bytes` is of the absolute value, where S is above n.
unfoldable pub distance : ℕ → ℕ → ℕ
distance a b = if ltb a b then b - a else a - b

unfoldable pub malleate : Bytes → Result Bytes
malleate sig64 = do
  sig ← parse_signature sig64
  serialize (record { r = sig.r; s = distance curve_n sig.s })
