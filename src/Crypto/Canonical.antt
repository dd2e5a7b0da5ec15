-- ===== src/Crypto/Canonical.antt =====
-- A compressed key that is accepted has one encoding.
use mfspv.Base.{
  ℕ, ◌+◌, ◌*◌, ◌/◌, ◌%◌, ◌^◌, ◌<◌, ◌≡◌, refl, sym, ap, ◌∙◌, inl, inr, ◌⊎◌, true, Bool-cases, not,
  ◌||◌, ◌&&◌, [], ◌∷◌, length, All, IsByte, Bytes, ok, ltb, ◌==◌, if◌then◌else◌, subst, arith,
}
use mfspv.Crypto.Field.{curve_p}
use mfspv.Crypto.Numbers.{be_value, be_bytes, be_bytes-be_value}
use mfspv.Crypto.Keys.{
  PublicKey, curve_n, curve_b, on_curve, new_private_key, serialize_compressed, root_of_parity,
  parse_x, parse_compressed,
}

-- What big.Int.Exp promises of a modulus that is not zero.
abbrev pub IsRemainder : (ℕ → ℕ → ℕ → ℕ) → Type 0
IsRemainder exp = (b e m : ℕ) → 0 < m → exp b e m < m

-- The root that the prefix asks for, unless it is p.
parity_lem :
    (prefix y : ℕ)
    → (prefix ≡ 2) ⊎ (prefix ≡ 3)
    → y < curve_p
    → (if root_of_parity prefix y % 2 == 0 then 2 else 3) ≡ prefix
unfolding root_of_parity
parity_lem prefix y which h = ground arith

parse_x-ok :
    (exp : ℕ → ℕ → ℕ → ℕ) (prefix x : ℕ) (key : PublicKey)
    → parse_x exp prefix x ≡ ok key
    → (key.x ≡ x)
      × (key.y
          ≡ root_of_parity prefix
              (exp ((x * x * x + curve_b) % curve_p) ((curve_p + 1) / 4) curve_p))
      × (on_curve x key.y ≡ true)
      × (x < curve_p)
unfolding parse_x
parse_x-ok exp prefix x key e =
    let rhs = (x * x * x + curve_b) % curve_p in
    let root = exp rhs ((curve_p + 1) / 4) curve_p in
    let y = root_of_parity prefix root in
    elim (Bool-cases (ltb x curve_p)) [
      | inr large ↦ cc (rw (parse_x, large) at e)
      | inl within ↦ elim (Bool-cases ((root * root % curve_p) == rhs)) [
        | inr no_root ↦ cc (rw (parse_x, within, no_root) at e)
        | inl is_root ↦ elim (Bool-cases (on_curve x y)) [
          | inr off ↦ cc (rw (parse_x, within, is_root, off) at e)
          | inl on ↦
              (let made : ok (record { x = x; y = y }) ≡ ok key =
                  rw (parse_x, within, is_root, on) at e in
                let same : y ≡ key.y = cc made in
                (
                  cc made,
                  sym same,
                  subst (λ z. on_curve x z ≡ true) same on,
                  ground (arith, within),
                ))
        ]
      ]
    ]

-- Whatever bytes ParseCompressed accepts, for an exponentiation that gives remainders, the key is a
-- point of the curve, and SerializeCompressed gives those bytes back: a key has one encoding.
pub parse_compressed-canonical :
    (exp : ℕ → ℕ → ℕ → ℕ) (b : Bytes) (key : PublicKey)
    → IsRemainder exp
    → All IsByte b
    → parse_compressed exp b ≡ ok key
    → (on_curve key.x key.y ≡ true) × (serialize_compressed key ≡ ok b)
unfolding parse_compressed serialize_compressed
parse_compressed-canonical exp [] key rem h e = cc
parse_compressed-canonical exp (prefix ∷ b) key rem (hp, h) e =
    elim (Bool-cases (not (length b == 32) || (not (prefix == 2) && not (prefix == 3)))) [
      | inl bad ↦ cc (rw (parse_compressed, bad) at e)
      | inr good ↦
          (let long : length b ≡ 32 = ground (arith, good) in
            let which : (prefix ≡ 2) ⊎ (prefix ≡ 3) = ground (arith, good) in
            let (x_is, y_is, on, within) =
              parse_x-ok exp prefix (be_value b) key (rw (parse_compressed, good) at e) in
            let small : ltb key.x (256 ^ 32) ≡ true = ground (arith, x_is, within) in
            let parity : (if key.y % 2 == 0 then 2 else 3) ≡ prefix =
              ap (λ y. if y % 2 == 0 then 2 else 3) y_is
              ∙ parity_lem prefix _ which (rem _ _ curve_p (omega arith)) in
            let body : be_bytes 32 key.x ≡ b =
              ap (be_bytes 32) x_is ∙ be_bytes-be_value 32 b h long in
            (
              ap (λ x. on_curve x key.y) x_is ∙ on,
              rw (serialize_compressed, small, parity, body) refl,
            ))
    ]

-- A seed of any bytes gives a key from 1 to n - 1.
pub new_private_key_bounds :
    (seed : Bytes) → (0 < new_private_key seed) × (new_private_key seed < curve_n)
unfolding new_private_key
new_private_key_bounds seed = (omega arith, omega arith)
