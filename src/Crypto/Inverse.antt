-- ===== src/Crypto/Inverse.antt =====
-- feInv of crypto/ct.go: Fermat's inverse by squares and products.
use mfspv.Base.{
  ℕ, zero, suc, ◌+◌, ◌-◌, ◌*◌, ◌/◌, ◌%◌, ◌^◌, ◌≡◌, refl, sym, ap, ◌∙◌, subst, inl, inr, Bool-cases,
  if◌then◌else◌, ◌==◌, arith,
}
use native.Mathlib.Nat.{pow-zero, pow-suc}
use mfspv.Crypto.Field.{Fe, value, curve_p, small_fe, fe_mul, fe_sqr}
use mfspv.Crypto.FieldLaws.{IsReduced, Stands, small_fe-IsFe}
use mfspv.Crypto.FieldProduct.{mul_Stands, mod_mod}

-- The inner loop, over the lowest `n` bits of a word of the exponent, from the highest on.
unfoldable pub power_bits : ℕ → ℕ → Fe → Fe → Fe
power_bits zero word a res = res
power_bits (suc bit) word a res =
    let sq = fe_sqr res in
    power_bits bit word a (if word / 2 ^ bit % 2 == 1 then fe_mul sq a else sq)

-- The words of p - 2, the highest first.
unfoldable pub fe_inv : Fe → Fe
fe_inv a = power_bits 64 0xFFFFFFFEFFFFFC2D a (
    power_bits 64 0xFFFFFFFFFFFFFFFF a
      (power_bits 64 0xFFFFFFFFFFFFFFFF a (power_bits 64 0xFFFFFFFFFFFFFFFF a (small_fe 1))))

pow_add : (v m n : ℕ) → v ^ (m + n) ≡ v ^ m * v ^ n
pow_add v m zero =
    let z : m + zero ≡ m = omega arith in ap (λ k. v ^ k) z ∙ grind (arith, pow-zero v)
pow_add v m (suc n) =
    let shift : m + suc n ≡ suc (m + n) = omega arith in
    let regroup : v ^ m * v ^ n * v ≡ v ^ m * (v ^ n * v) = grind arith in
    ap (λ k. v ^ k) shift
    ∙ pow-suc v (m + n)
    ∙ ap (λ x. x * v) (pow_add v m n)
    ∙ regroup
    ∙ ap (λ x. v ^ m * x) (sym (pow-suc v n))

-- An element that is a power of `v`.
abbrev IsPower : ℕ → ℕ → Fe → Type 0
IsPower v n a = Stands a (v ^ n % curve_p)

sqr-IsPower : (v n : ℕ) (res : Fe) → IsPower v n res → IsPower v (n + n) (fe_sqr res)
unfolding fe_sqr
sqr-IsPower v n res p =
    subst (Stands (fe_sqr res))
      (mod_mod (v ^ n) (v ^ n) ∙ ap (λ x. x % curve_p) (sym (pow_add v n n))) (mul_Stands p p)

mul-IsPower :
    (v n : ℕ) (res a : Fe) → IsPower v n res → Stands a v → IsPower v (suc n) (fe_mul res a)
mul-IsPower v n res a p s =
    let low : v % curve_p ≡ v = omega (arith, s.stands, s.reduced.below) in
    subst (Stands (fe_mul res a))
      (ap (λ x. v ^ n % curve_p * x % curve_p) (sym low)
        ∙ mod_mod (v ^ n) v
        ∙ ap (λ x. x % curve_p) (sym (pow-suc v n)))
      (mul_Stands p s)

-- The lowest `bits` bits of a word, as a number.
unfoldable pub low_value : ℕ → ℕ → ℕ
low_value zero word = 0
low_value (suc bit) word = word / 2 ^ bit % 2 * 2 ^ bit + low_value bit word

pub regroup_bits :
    (n d bit rest : ℕ) → (n + n + d) * 2 ^ bit + rest ≡ n * 2 ^ suc bit + (d * 2 ^ bit + rest)
regroup_bits n d bit rest =
    let two : n * 2 ^ suc bit ≡ n * (2 ^ bit * 2) = ap (λ x. n * x) (pow-suc 2 bit) in
    omega (arith, two)

power_bits_lem :
    (bits word v n : ℕ) (a res : Fe)
    → Stands a v
    → IsPower v n res
    → IsPower v (n * 2 ^ bits + low_value bits word) (power_bits bits word a res)
unfolding power_bits low_value
power_bits_lem zero word v n a res s p = subst (λ k. IsPower v k res) (omega arith) p
power_bits_lem (suc bit) word v n a res s p =
    let sq = sqr-IsPower v n res p in
    elim (Bool-cases (word / 2 ^ bit % 2 == 1)) [
      | inl odd ↦
          (let one : word / 2 ^ bit % 2 ≡ 1 = ground (arith, odd) in
            let step : suc (n + n) ≡ n + n + word / 2 ^ bit % 2 = omega (arith, one) in
            subst (λ k. IsPower v k (power_bits (suc bit) word a res))
              (ap (λ m. m * 2 ^ bit + low_value bit word) step ∙ regroup_bits n _ bit _)
              (rw (power_bits, odd)
                (power_bits_lem bit word v (suc (n + n)) a _ s
                  (mul-IsPower v (n + n) (fe_sqr res) a sq s))))
      | inr even ↦
          (let none : word / 2 ^ bit % 2 ≡ 0 = ground (arith, even) in
            let step : n + n ≡ n + n + word / 2 ^ bit % 2 = omega (arith, none) in
            subst (λ k. IsPower v k (power_bits (suc bit) word a res))
              (ap (λ m. m * 2 ^ bit + low_value bit word) step ∙ regroup_bits n _ bit _)
              (rw (power_bits, even) (power_bits_lem bit word v (n + n) a _ s sq)))
    ]

one-IsPower : (v : ℕ) → IsPower v 0 (small_fe 1)
unfolding value
one-IsPower v = record {
  reduced = record { words = small_fe-IsFe 1 (omega arith); below = omega arith };
  stands = ap (λ x. x % curve_p) (sym (pow-zero v));
}

-- The inverse of a field element, as crypto/ct.go computes it, is its power p - 2 modulo p.
pub fe_inv-Stands : (a : Fe) → IsReduced a → Stands (fe_inv a) (value a ^ (curve_p - 2) % curve_p)
unfolding fe_inv
fe_inv-Stands a r =
    let s : Stands a (value a) = record { reduced = r; stands = refl } in
    let v = value a in
    subst (λ n. IsPower v n (fe_inv a)) whole
      (power_bits_lem 64 0xFFFFFFFEFFFFFC2D v _ a _ s (
        power_bits_lem 64 0xFFFFFFFFFFFFFFFF v _ a _ s (
          power_bits_lem 64 0xFFFFFFFFFFFFFFFF v _ a _ s
            (power_bits_lem 64 0xFFFFFFFFFFFFFFFF v 0 a (small_fe 1) s (one-IsPower v)))))
  where
    whole :
        (((0 * 2 ^ 64 + low_value 64 0xFFFFFFFFFFFFFFFF) * 2 ^ 64 + low_value 64 0xFFFFFFFFFFFFFFFF)
                * 2 ^ 64
              + low_value 64 0xFFFFFFFFFFFFFFFF)
            * 2 ^ 64
          + low_value 64 0xFFFFFFFEFFFFFC2D
        ≡ curve_p - 2
    whole = unfold low_value in refl
