-- ===== src/Crypto/Numbers.antt =====
-- The big-endian numbers of math/big that crypto/secp256k1.go reads and writes.
use mathlib.Core.List.{reverse, reverse-cons, reverse-reverse}
use native.Mathlib.Nat.{pow-suc}
use mfspv.Base.{
  ℕ, suc, ◌+◌, ◌*◌, ◌/◌, ◌%◌, ◌^◌, ◌<◌, ◌≡◌, refl, sym, ap, ◌∙◌, subst, [], ◌∷◌, length,
  length-append, All, All-append, IsByte, Bytes, le_bytes, le_value, le_value-le_bytes,
  length-le_bytes, le_bytes-IsByte, arith,
}

-- `SetBytes`
unfoldable pub be_value : Bytes → ℕ
be_value b = le_value (reverse b)

-- `FillBytes` of `k` bytes, and `Bytes` copied to the end of `k` zero bytes.
unfoldable pub be_bytes : ℕ → ℕ → Bytes
be_bytes k v = reverse (le_bytes k v)

le_bytes-le_value : (b : Bytes) → All IsByte b → le_bytes (length b) (le_value b) ≡ b
unfolding le_bytes le_value
le_bytes-le_value [] h = refl
le_bytes-le_value (x ∷ b) (hx, h) =
    let low : (x + 256 * le_value b) % 256 ≡ x = omega arith in
    let high : (x + 256 * le_value b) / 256 ≡ le_value b = omega arith in
    rw (low, high) (ap (λ l. x ∷ l) (le_bytes-le_value b h))

length-reverse : (b : Bytes) → length (reverse b) ≡ length b
length-reverse [] = refl
length-reverse (x ∷ b) =
    ap length (reverse-cons x b)
    ∙ length-append (reverse b) (x ∷ [])
    ∙ omega (arith, length-reverse b)

reverse-IsByte : (b : Bytes) → All IsByte b → All IsByte (reverse b)
reverse-IsByte [] h = tt
reverse-IsByte (x ∷ b) (hx, h) =
    subst (All IsByte) (sym (reverse-cons x b))
      (All-append IsByte (reverse b) (x ∷ []) (reverse-IsByte b h) (hx, tt))

le_value_lt : (b : Bytes) → All IsByte b → le_value b < 256 ^ length b
unfolding le_value
le_value_lt [] h = omega arith
le_value_lt (x ∷ b) (hx, h) =
    let more : 256 ^ suc (length b) ≡ 256 ^ length b * 256 = pow-suc 256 (length b) in
    omega (arith, le_value_lt b h, more)

pub length-be_bytes : (k v : ℕ) → length (be_bytes k v) ≡ k
unfolding be_bytes
length-be_bytes k v = length-reverse (le_bytes k v) ∙ length-le_bytes k v

pub be_bytes-IsByte : (k v : ℕ) → All IsByte (be_bytes k v)
unfolding be_bytes
be_bytes-IsByte k v = reverse-IsByte (le_bytes k v) (le_bytes-IsByte k v)

pub be_value-be_bytes : (k v : ℕ) → v < 256 ^ k → be_value (be_bytes k v) ≡ v
unfolding be_bytes be_value
be_value-be_bytes k v h = ap le_value (reverse-reverse (le_bytes k v)) ∙ le_value-le_bytes k v h

pub be_bytes-be_value :
    (k : ℕ) (b : Bytes) → All IsByte b → length b ≡ k → be_bytes k (be_value b) ≡ b
unfolding be_bytes be_value
be_bytes-be_value k b h long =
    ap (λ n. reverse (le_bytes n (le_value (reverse b)))) (sym long ∙ sym (length-reverse b))
    ∙ ap reverse (le_bytes-le_value (reverse b) (reverse-IsByte b h))
    ∙ reverse-reverse b

pub be_value_lt : (k : ℕ) (b : Bytes) → All IsByte b → length b ≡ k → be_value b < 256 ^ k
unfolding be_value
be_value_lt k b h long =
    subst (λ n. le_value (reverse b) < 256 ^ n) (length-reverse b ∙ long)
      (le_value_lt (reverse b) (reverse-IsByte b h))
