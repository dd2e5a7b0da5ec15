-- ===== src/Crypto/Signed.antt =====
-- What Sign of crypto/secp256k1.go returns, where it returns.
use mfspv.Base.{
  ℕ, zero, suc, ◌+◌, ◌*◌, ◌%◌, ◌<◌, ◌≤◌, ◌≡◌, ap, ◌∙◌, inl, inr, true, Bool-cases, ◌||◌, [], ◌∷◌,
  ◌++◌, length, Bytes, none, some, Option-cases, ok, >>=-eq-ok, leb, ◌==◌, if◌then◌else◌, subst,
  arith,
}
use mfspv.Crypto.Field.{value}
use mfspv.Crypto.Points.{words_of, scalar_mult_ct, affine_x}
use mfspv.Crypto.Keys.{curve_n, n_half}
use mfspv.Crypto.Signature.{Signature, serialize, parse_signature, is_low_s}
use mfspv.Crypto.Malleable.{parse_signature-serialize}
use mfspv.Crypto.Affine.{bits2int, rfc6979_nonce, low_s_of, attempt, sign_loop, sign, ct_base_g}

-- R is from 1 to n - 1, and S from 1 to the half of n.
pub record IsProper (sig : Signature) : Type 0 where
  pub r_low : 0 < sig.r
  pub r_high : sig.r < curve_n
  pub s_low : 0 < sig.s
  pub s_high : sig.s ≤ n_half

module _ (mod_inverse : ℕ → ℕ → ℕ) where
  attempt-IsProper :
      (d z nonce : ℕ) (sig : Signature)
      → attempt mod_inverse d z nonce ≡ ok (some sig)
      → IsProper sig
  unfolding attempt low_s_of
  attempt-IsProper d z nonce sig e =
      let (bits, words, rest) = >>=-eq-ok (words_of nonce) _ e in
      let r = value (affine_x (scalar_mult_ct bits ct_base_g)) % curve_n in
      let s = (r * d + z) * mod_inverse nonce curve_n % curve_n in
      proper r s (omega arith) (omega arith) sig rest
    where
      proper :
          (r s : ℕ)
          → r < curve_n
          → s < curve_n
          → (sig : Signature)
          → ok (
              if r == 0
              then none
              else if s == 0
              then none
              else some (record { r = r; s = low_s_of s }))
            ≡ ok (some sig)
          → IsProper sig
      proper r s hr hs sig e = elim (Bool-cases (r == 0)) [
        | inl zero_r ↦ cc (rw zero_r at e)
        | inr some_r ↦ elim (Bool-cases (s == 0)) [
          | inl zero_s ↦ cc (rw (some_r, zero_s) at e)
          | inr some_s ↦
              (let made : ok (some (record { r = r; s = low_s_of s })) ≡ ok (some sig) =
                  rw (some_r, some_s) at e in
                let is : record { r = r; s = low_s_of s } ≡ sig = cc made in
                subst IsProper is (record {
                  r_low = ground (arith, some_r);
                  r_high = hr;
                  s_low = ground (arith, some_s, hs);
                  s_high = ground (arith, hs);
                }))
        ]
      ]

  module _ (hmac : Bytes → Bytes → Bytes) (sum256 : Bytes → Bytes) where
    sign_loop-IsProper :
        (fuel rounds i d : ℕ) (hash : Bytes) (sig : Signature)
        → sign_loop mod_inverse hmac sum256 fuel rounds i d hash ≡ ok sig
        → IsProper sig
    unfolding sign_loop
    sign_loop-IsProper fuel zero i d hash sig e = cc
    sign_loop-IsProper fuel (suc rounds) i d hash sig e =
        elim (Option-cases
          (rfc6979_nonce hmac fuel d (if i == 0 then hash else sum256 (hash ++ (i % 256 ∷ []))))) [
            | inl missing ↦ cc (rw (sign_loop, missing) at e)
            | inr (nonce, found) ↦
                (let (tried, tries, rest) =
                    >>=-eq-ok (attempt mod_inverse d (bits2int hash 256) nonce) _
                      (rw (sign_loop, found) at e) in
                  elim (Option-cases tried) [
                    | inl again ↦
                        sign_loop-IsProper fuel rounds (suc i) d hash sig (rw again at rest)
                    | inr (first, done) ↦
                        (let same : first ≡ sig = cc (rw done at rest) in
                          subst IsProper same (
                            attempt-IsProper d (bits2int hash 256) nonce first
                              (tries ∙ ap ok done)))
                  ])
          ]

    -- Whatever Sign returns, for any ModInverse, HMAC and digest, is a signature with R from 1 to
    -- n - 1 and S from 1 to n / 2: IsLowS takes it, and ParseSignature reads it from the 64 bytes
    -- that Serialize makes of it.
    pub sign-IsProper :
        (fuel d : ℕ) (hash : Bytes) (sig : Signature)
        → sign mod_inverse hmac sum256 fuel d hash ≡ ok sig
        → IsProper sig
          × (is_low_s sig ≡ true)
          × ((b : Bytes) × (serialize sig ≡ ok b) × (length b ≡ 64) × (parse_signature b ≡ ok sig))
    unfolding sign is_low_s
    sign-IsProper fuel d hash sig e = elim (Bool-cases (d == 0 || leb curve_n d)) [
      | inl bad ↦ cc (rw (sign, bad) at e)
      | inr good ↦
          (let p = sign_loop-IsProper fuel 1000 0 d hash sig (rw (sign, good) at e) in
            (
              p,
              ground (arith, p.s_high),
              parse_signature-serialize sig
                  (record { r = omega (arith, p.r_high); s = omega (arith, p.s_high) }),
            ))
    ]
