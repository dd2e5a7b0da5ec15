-- ===== src/Crypto/Masks.antt =====
-- The select by a mask of ones or zeros of crypto/ct.go, on 64-bit words.
use Prim.Native.Nat.{
  ℕ, zero, suc, ◌+◌, ◌-◌, ◌*◌, ◌/◌, ◌%◌, ◌^◌, ◌≤◌, ◌<◌, min, max, bit_and, bit_or, digits,
  bit_and-bitwise, bit_or-bitwise,
}
use mfspv.Base.{◌≡◌, refl, sym, ◌∙◌, arith, ap}

-- Fuel beyond the first number changes no digit.
module _ (z : ℕ → ℕ) (f : ℕ → ℕ → ℕ) where
  more_fuel : (x fuel y : ℕ) → x ≤ fuel → digits z f (suc fuel) x y ≡ digits z f fuel x y
  more_fuel zero zero y le = refl
  more_fuel zero (suc fuel) y le = refl
  more_fuel (suc x) zero y le = absurd (omega arith)
  more_fuel (suc x) (suc fuel) y le =
      omega (arith, more_fuel (suc x / 2) fuel (y / 2) (omega arith))

  spare_fuel : (extra x y : ℕ) → digits z f (extra + x) x y ≡ digits z f x x y
  spare_fuel zero x y = let same : zero + x ≡ x = omega arith in ap (λ n. digits z f n x y) same
  spare_fuel (suc extra) x y =
      let same : suc extra + x ≡ suc (extra + x) = omega arith in
      ap (λ n. digits z f n x y) same
      ∙ more_fuel x (extra + x) y (omega arith)
      ∙ spare_fuel extra x y

  fuel_of_half : (x y : ℕ) → digits z f x (suc x / 2) y ≡ digits z f (suc x / 2) (suc x / 2) y
  fuel_of_half x y =
      let split : (x - suc x / 2) + suc x / 2 ≡ x = omega arith in
      ap (λ n. digits z f n (suc x / 2) y) (sym split) ∙ spare_fuel (x - suc x / 2) (suc x / 2) y

bit_and_half : (x y : ℕ) → bit_and x y ≡ min (x % 2) (y % 2) + 2 * bit_and (x / 2) (y / 2)
bit_and_half zero y = omega (arith, bit_and-bitwise 0 y, bit_and-bitwise 0 (y / 2))
bit_and_half (suc x) y = omega (
  arith,
  bit_and-bitwise (suc x) y,
  bit_and-bitwise (suc x / 2) (y / 2),
  fuel_of_half (λ d. zero) min x (y / 2),
)

pub bit_or_half : (x y : ℕ) → bit_or x y ≡ max (x % 2) (y % 2) + 2 * bit_or (x / 2) (y / 2)
bit_or_half zero y = omega (arith, bit_or-bitwise 0 y, bit_or-bitwise 0 (y / 2))
bit_or_half (suc x) y = omega (
  arith,
  bit_or-bitwise (suc x) y,
  bit_or-bitwise (suc x / 2) (y / 2),
  fuel_of_half (λ d. d) max x (y / 2),
)

-- A word of `k` bits under a mask of ones, of zeros, and beside zeros.
bit_and_ones : (k a : ℕ) → a < 2 ^ k → bit_and a (2 ^ k - 1) ≡ a
bit_and_ones zero a h = let z : a ≡ 0 = omega arith in rw z refl
bit_and_ones (suc k) a h =
    let half : (2 ^ suc k - 1) / 2 ≡ 2 ^ k - 1 = omega arith in
    omega (
      arith,
      bit_and_half a (2 ^ suc k - 1),
      half,
      ap (bit_and (a / 2)) half,
      bit_and_ones k (a / 2) (omega arith),
    )

bit_and_zeros : (k a : ℕ) → a < 2 ^ k → bit_and a 0 ≡ 0
bit_and_zeros zero a h = let z : a ≡ 0 = omega arith in rw z refl
bit_and_zeros (suc k) a h = omega (arith, bit_and_half a 0, bit_and_zeros k (a / 2) (omega arith))

pub bit_or_zeros : (k a : ℕ) → a < 2 ^ k → bit_or a 0 ≡ a
bit_or_zeros zero a h = let z : a ≡ 0 = omega arith in rw z refl
bit_or_zeros (suc k) a h = omega (arith, bit_or_half a 0, bit_or_zeros k (a / 2) (omega arith))

zero-bit_or : (a : ℕ) → bit_or 0 a ≡ a
zero-bit_or a = bit_or-bitwise 0 a

-- `(a & mask) | (b &^ mask)` over uint64.
unfoldable pub masked : ℕ → ℕ → ℕ → ℕ
masked mask a b = bit_or (bit_and a mask) (bit_and b (2 ^ 64 - 1 - mask))

pub masked_ones : (a b : ℕ) → a < 2 ^ 64 → b < 2 ^ 64 → masked (2 ^ 64 - 1) a b ≡ a
unfolding masked
masked_ones a b ha hb =
    ap (λ x. bit_or x (bit_and b 0)) (bit_and_ones 64 a ha)
    ∙ ap (bit_or a) (bit_and_zeros 64 b hb)
    ∙ bit_or_zeros 64 a ha

pub masked_zeros : (a b : ℕ) → a < 2 ^ 64 → b < 2 ^ 64 → masked 0 a b ≡ b
unfolding masked
masked_zeros a b ha hb =
    ap (λ x. bit_or x (bit_and b (2 ^ 64 - 1))) (bit_and_zeros 64 a ha)
    ∙ ap (bit_or 0) (bit_and_ones 64 b hb)
    ∙ zero-bit_or b
