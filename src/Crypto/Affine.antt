-- ===== src/Crypto/Affine.antt =====
-- The affine points of crypto/secp256k1.go, the nonce, Sign and Verify. `mod_inverse` is
-- big.Int.ModInverse on residues, and `hmac` is HMAC with SHA-256, whose 32 bytes are one candidate.
-- A difference that the source reduces modulo p is the residue `diff_p`.
use mfspv.Base.{
  ℕ, zero, suc, ◌+◌, ◌-◌, ◌*◌, ◌/◌, ◌%◌, ◌^◌, Bool, false, not, ◌&&◌, ◌||◌, [], ◌∷◌, ◌++◌, length,
  replicate, Bytes, Option, none, some, Error, Result, ok, err, other, panic, ◌>>=◌, ltb, leb, ◌==◌,
  if◌then◌else◌,
}
use mfspv.Crypto.Field.{value, curve_p, small_fe}
use mfspv.Crypto.Points.{Jac, words_of, scalar_mult_ct, affine_x}
use mfspv.Crypto.Numbers.{be_value, be_bytes}
use mfspv.Crypto.Keys.{PublicKey, Point, curve_n, curve_gx, curve_gy, n_half, on_curve, bad_key}
use mfspv.Crypto.Signature.{Signature}

abbrev pub sign_failed : Error
sign_failed = other 13

-- The search for a nonce has no bound; here its fuel is at its end.
abbrev pub no_nonce : Error
no_nonce = other 14

unfoldable pub diff_p : ℕ → ℕ → ℕ
diff_p a b = (a + (curve_p - b % curve_p)) % curve_p

-- `BitLen` of a number below 2^fuel.
unfoldable pub bit_len : ℕ → ℕ → ℕ
bit_len zero k = 0
bit_len (suc fuel) k = let rest = bit_len fuel (k / 2) in if k == 0 then 0 else suc rest

unfoldable pub bits2int : Bytes → ℕ → ℕ
bits2int b qlen =
    if ltb qlen (length b * 8) then be_value b / 2 ^ (length b * 8 - qlen) else be_value b

-- Padded, or cut to its last bytes.
unfoldable pub int2octets : ℕ → ℕ → Bytes
int2octets v rolen = be_bytes rolen v

unfoldable pub bits2octets : Bytes → ℕ → Bytes
bits2octets b rolen =
    let z1 = bits2int b 256 in
    if ltb z1 curve_n then int2octets z1 rolen else int2octets (z1 - curve_n) rolen

-- `if s.Cmp(nHalf) > 0`
unfoldable pub low_s_of : ℕ → ℕ
low_s_of s = if ltb n_half s then curve_n - s else s

module _ (hmac : Bytes → Bytes → Bytes) where
  -- The loop of rfc6979Nonce, for `fuel` candidates.
  unfoldable pub nonce_loop : ℕ → Bytes → Bytes → Option ℕ
  nonce_loop zero kk v = none
  nonce_loop (suc fuel) kk v =
      let t = hmac kk v in
      let k = bits2int t 256 in
      let kk' = hmac kk (t ++ (0 ∷ [])) in
      let later = nonce_loop fuel kk' (hmac kk' t) in
      if ltb 0 k && ltb k curve_n then some k else later

  unfoldable pub rfc6979_nonce : ℕ → ℕ → Bytes → Option ℕ
  rfc6979_nonce fuel d hash =
      let bx = int2octets d 32 ++ bits2octets hash 32 in
      let v = replicate 32 1 in
      let kk = hmac (replicate 32 0) (v ++ (0 ∷ bx)) in
      let v = hmac kk v in
      let kk = hmac kk (v ++ (1 ∷ bx)) in let v = hmac kk v in nonce_loop fuel kk v

abbrev pub ct_base_g : Jac
ct_base_g = record {
  x = record {
    l0 = 0x59F2815B16F81798;
    l1 = 0x029BFCDB2DCE28D9;
    l2 = 0x55A06295CE870B07;
    l3 = 0x79BE667EF9DCBBAC;
  };
  y = record {
    l0 = 0x9C47D08FFB10D4B8;
    l1 = 0xFD17B448A6855419;
    l2 = 0x5DA4FBFC0E1108A8;
    l3 = 0x483ADA7726A3C465;
  };
  z = small_fe 1;
}

module _ (mod_inverse : ℕ → ℕ → ℕ) where
  -- The third point of the line with this slope.
  unfoldable pub along : ℕ → ℕ → ℕ → ℕ → Point
  along lam x1 y1 x2 =
      let x3 = diff_p (lam * lam) (x1 + x2) in some (x3, diff_p (diff_p x1 x3 * lam) y1)

  unfoldable pub point_double : Point → Point
  point_double none = none
  point_double (some (x1, y1)) =
      if y1 == 0
      then none
      else along (x1 * x1 * 3 * mod_inverse (y1 * 2 % curve_p) curve_p % curve_p) x1 y1 x1

  unfoldable pub point_add : Point → Point → Point
  point_add none q = q
  point_add (some p) none = some p
  point_add (some (x1, y1)) (some (x2, y2)) =
      if x1 == x2
      then (if y1 == y2 then point_double (some (x1, y1)) else none)
      else along (diff_p y2 y1 * mod_inverse (diff_p x2 x1) curve_p % curve_p) x1 y1 x2

  -- The loop from the highest of `n` bits on.
  unfoldable pub scalar_steps : ℕ → ℕ → Point → Point → Point
  scalar_steps zero k p r = r
  scalar_steps (suc bit) k p r =
      let double = point_double r in
      scalar_steps bit k p (if k / 2 ^ bit % 2 == 1 then point_add double p else double)

  unfoldable pub scalar_mult : ℕ → Point → Point
  scalar_mult k p = scalar_steps (bit_len 256 k) k p none

  unfoldable pub scalar_base_mult : ℕ → Point
  scalar_base_mult k = scalar_mult k (some (curve_gx, curve_gy))

  -- The point of a scalar from 1 to n - 1 is not at infinity; there a nil would be dereferenced.
  unfoldable pub public : ℕ → Result PublicKey
  public d = elim (scalar_base_mult d) [
    | none ↦ err panic
    | some (x, y) ↦ ok (record { x = x; y = y })
  ]

  unfoldable pub verify : PublicKey → Bytes → Signature → Bool
  verify key hash sig =
      let w = mod_inverse sig.s curve_n in
      let u1 = bits2int hash 256 * w % curve_n in
      let u2 = sig.r * w % curve_n in
      if not (on_curve key.x key.y)
      then false
      else if (sig.r == 0 || leb curve_n sig.r) || (sig.s == 0 || leb curve_n sig.s)
      then false
      else elim (point_add (scalar_base_mult u1) (scalar_mult u2 (some (key.x, key.y)))) [
        | none ↦ false
        | some (x, y) ↦ x % curve_n == sig.r
      ]

  -- One round of the loop of Sign with a nonce: `none` continues.
  unfoldable pub attempt : ℕ → ℕ → ℕ → Result (Option Signature)
  attempt d z nonce = do
    bits ← words_of nonce
    let r = value (affine_x (scalar_mult_ct bits ct_base_g)) % curve_n
    let s = (r * d + z) * mod_inverse nonce curve_n % curve_n
    ok (if r == 0 then none else if s == 0 then none else some (record { r = r; s = low_s_of s }))

  module _ (hmac : Bytes → Bytes → Bytes) (sum256 : Bytes → Bytes) where
    -- `rounds` of the 1000, from round `i` on; the nonce of a later round is perturbed.
    unfoldable pub sign_loop : ℕ → ℕ → ℕ → ℕ → Bytes → Result Signature
    sign_loop fuel zero i d hash = err sign_failed
    sign_loop fuel (suc rounds) i d hash =
        let later = sign_loop fuel rounds (suc i) d hash in
        elim (rfc6979_nonce hmac fuel d
          (if i == 0 then hash else sum256 (hash ++ (i % 256 ∷ [])))) [
            | none ↦ err no_nonce
            | some nonce ↦
                (attempt d (bits2int hash 256) nonce >>= λ tried. (elim tried [
                  | none ↦ later
                  | some sig ↦ ok sig
                ]))
          ]

    unfoldable pub sign : ℕ → ℕ → Bytes → Result Signature
    sign fuel d hash = if d == 0 || leb curve_n d then err bad_key else sign_loop fuel 1000 0 d hash
