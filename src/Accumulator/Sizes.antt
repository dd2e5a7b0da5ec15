-- ===== src/Accumulator/Sizes.antt =====
-- The mountains' sizes add up to the number of leaves, and each is a power of two below 2^64.
use mfspv.Base.{
  ℕ, zero, suc, ◌+◌, ◌*◌, ◌/◌, ◌%◌, ◌^◌, ◌≤◌, ◌<◌, ◌≡◌, List, [], ◌∷◌, length, All, arith, ◌∙◌, ap,
}
use mfspv.Accumulator.Range.{sizes_below, mountain_sizes}
use native.Mathlib.Nat.{mod-eq_of_lt, div-add-mod, mod-lt, add-mul-mod_self_left}

unfoldable pub sum : List ℕ → ℕ
sum [] = 0
sum (x ∷ xs) = x + sum xs

pub pow_pos : (b : ℕ) → 0 < 2 ^ b
pow_pos zero = omega arith
pow_pos (suc b) = omega (arith, pow_pos b)

-- The lowest `b + 1` bits are bit `b` and the bits below it.
split_bit : (n m : ℕ) → 0 < m → n % (2 * m) ≡ n / m % 2 * m + n % m
split_bit n m h =
    ap (λ (t : ℕ). t % (2 * m)) whole
    ∙ add-mul-mod_self_left (n / m % 2 * m + n % m) (2 * m) (n / m / 2)
    ∙ mod-eq_of_lt low
  where
    halves : m * (n / m) ≡ m * (2 * (n / m / 2) + n / m % 2)
    halves = ap (λ (t : ℕ). m * t) (omega arith)

    whole : n ≡ n / m % 2 * m + n % m + 2 * m * (n / m / 2)
    whole = omega (arith, halves, div-add-mod n m)

    bit_le : n / m % 2 * m ≤ 1 * m
    bit_le = grind arith

    low : n / m % 2 * m + n % m < 2 * m
    low = omega (arith, bit_le, mod-lt n h)

sum-sizes_below : (b n : ℕ) → sum (sizes_below b n) ≡ n % 2 ^ b
unfolding sum sizes_below
sum-sizes_below zero n = omega arith
sum-sizes_below (suc b) n =
    ground (arith, sum-sizes_below b n, split_bit n (2 ^ b) (pow_pos b), two_pow b, bit b)
  where
    two_pow : (b : ℕ) → 2 ^ suc b ≡ 2 * 2 ^ b
    two_pow b = omega arith

    bit : (b : ℕ) → n / 2 ^ b % 2 < 2
    bit b = omega arith

-- Below 2^64 the mountains hold all the leaves, each once.
pub sum-mountain_sizes : (n : ℕ) → n < 2 ^ 64 → sum (mountain_sizes n) ≡ n
unfolding mountain_sizes
sum-mountain_sizes n h = sum-sizes_below 64 n ∙ mod-eq_of_lt h

-- Every mountain is not empty, and fits a tree of 2^63 leaves.
sizes_below-pos : (b n : ℕ) → All (λ s. 0 < s) (sizes_below b n)
unfolding sizes_below
sizes_below-pos zero n = tt
sizes_below-pos (suc b) n = ground (arith, sizes_below-pos b n, pow_pos b)

pub mountain_sizes-pos : (n : ℕ) → All (λ s. 0 < s) (mountain_sizes n)
unfolding mountain_sizes
mountain_sizes-pos n = sizes_below-pos 64 n

length-sizes_below : (b n : ℕ) → length (sizes_below b n) ≤ b
unfolding sizes_below
length-sizes_below zero n = omega arith
length-sizes_below (suc b) n = ground (arith, length-sizes_below b n)

-- There are at most 64 mountains.
pub length-mountain_sizes : (n : ℕ) → length (mountain_sizes n) ≤ 64
unfolding mountain_sizes
length-mountain_sizes n = length-sizes_below 64 n
