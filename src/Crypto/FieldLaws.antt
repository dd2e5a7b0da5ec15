-- ===== src/Crypto/FieldLaws.antt =====
-- The limb arithmetic of crypto/ct.go computes in GF(p).
use mfspv.Base.{
  ℕ, ◌+◌, ◌-◌, ◌*◌, ◌%◌, ◌^◌, ◌≤◌, ◌<◌, ◌≡◌, refl, sym, ap, ◌∙◌, subst, inl, inr, Bool-cases,
  if◌then◌else◌, ltb, arith,
}
use mfspv.Crypto.Masks.{masked_ones, masked_zeros}
use mfspv.Crypto.Field.{
  Fe, value, curve_p, pl, fe_c, small_fe, add64, sub64, add_limbs, sub_limbs, select, fe_cond_sub_p,
  fold_carry, fe_add, fe_sub,
}

-- Every limb is a word.
pub record IsFe (a : Fe) : Type 0 where
  pub w0 : a.l0 < 2 ^ 64
  pub w1 : a.l1 < 2 ^ 64
  pub w2 : a.l2 < 2 ^ 64
  pub w3 : a.l3 < 2 ^ 64

pub value_lt : (a : Fe) → IsFe a → value a < 2 ^ 256
unfolding value
value_lt a w = omega (arith, w.w0, w.w1, w.w2, w.w3)

pub add64_lem :
    (x y c : ℕ)
    → ((add64 x y c).0 + 2 ^ 64 * (add64 x y c).1 ≡ x + y + c) × ((add64 x y c).0 < 2 ^ 64)
unfolding add64
add64_lem x y c = (omega arith, omega arith)

-- Addition with carry keeps the sum.
pub add_limbs_lem :
    (a b : Fe)
    → (value (add_limbs a b).0 + 2 ^ 256 * (add_limbs a b).1 ≡ value a + value b)
      × IsFe (add_limbs a b).0
unfolding add_limbs value
add_limbs_lem a b =
    let s0 = add64 a.l0 b.l0 0 in
    let s1 = add64 a.l1 b.l1 s0.1 in
    let s2 = add64 a.l2 b.l2 s1.1 in
    let (e0, w0) = add64_lem a.l0 b.l0 0 in
    let (e1, w1) = add64_lem a.l1 b.l1 s0.1 in
    let (e2, w2) = add64_lem a.l2 b.l2 s1.1 in
    let (e3, w3) = add64_lem a.l3 b.l3 s2.1 in
    (omega (arith, e0, e1, e2, e3), record { w0 = w0; w1 = w1; w2 = w2; w3 = w3 })

sub64_lem :
    (x y b : ℕ)
    → x < 2 ^ 64
    → y < 2 ^ 64
    → b ≤ 1
    → ((sub64 x y b).0 + y + b ≡ x + 2 ^ 64 * (sub64 x y b).1)
      × ((sub64 x y b).0 < 2 ^ 64)
      × ((sub64 x y b).1 ≤ 1)
unfolding sub64
sub64_lem x y b hx hy hb = (ground arith, ground arith, ground arith)

sub_limbs_lem :
    (a b : Fe)
    → IsFe a
    → IsFe b
    → (value (sub_limbs a b).0 + value b ≡ value a + 2 ^ 256 * (sub_limbs a b).1)
      × IsFe (sub_limbs a b).0
      × ((sub_limbs a b).1 ≤ 1)
unfolding sub_limbs value
sub_limbs_lem a b wa wb =
    let s0 = sub64 a.l0 b.l0 0 in
    let s1 = sub64 a.l1 b.l1 s0.1 in
    let s2 = sub64 a.l2 b.l2 s1.1 in
    let (e0, w0, c0) = sub64_lem a.l0 b.l0 0 wa.w0 wb.w0 (omega arith) in
    let (e1, w1, c1) = sub64_lem a.l1 b.l1 s0.1 wa.w1 wb.w1 c0 in
    let (e2, w2, c2) = sub64_lem a.l2 b.l2 s1.1 wa.w2 wb.w2 c1 in
    let (e3, w3, c3) = sub64_lem a.l3 b.l3 s2.1 wa.w3 wb.w3 c2 in
    (omega (arith, e0, e1, e2, e3), record { w0 = w0; w1 = w1; w2 = w2; w3 = w3 }, c3)

pub select_ones : (a b : Fe) → IsFe a → IsFe b → select (2 ^ 64 - 1) a b ≡ a
unfolding select
select_ones a b wa wb =
    rw
      (
        masked_ones a.l0 b.l0 wa.w0 wb.w0,
        masked_ones a.l1 b.l1 wa.w1 wb.w1,
        masked_ones a.l2 b.l2 wa.w2 wb.w2,
        masked_ones a.l3 b.l3 wa.w3 wb.w3,
      )
      refl

pub select_zeros : (a b : Fe) → IsFe a → IsFe b → select 0 a b ≡ b
unfolding select
select_zeros a b wa wb =
    rw
      (
        masked_zeros a.l0 b.l0 wa.w0 wb.w0,
        masked_zeros a.l1 b.l1 wa.w1 wb.w1,
        masked_zeros a.l2 b.l2 wa.w2 wb.w2,
        masked_zeros a.l3 b.l3 wa.w3 wb.w3,
      )
      refl

pub pl-IsFe : IsFe pl
pl-IsFe = record { w0 = omega arith; w1 = omega arith; w2 = omega arith; w3 = omega arith }

pub value-pl : value pl ≡ curve_p
unfolding value
value-pl = refl

-- A field element: words below p.
pub record IsReduced (a : Fe) : Type 0 where
  pub words : IsFe a
  pub below : value a < curve_p

-- A field element with a value.
pub record Stands (a : Fe) (v : ℕ) : Type 0 where
  pub reduced : IsReduced a
  pub stands : value a ≡ v

pub fe_cond_sub_p_lem : (a : Fe) → IsFe a → Stands (fe_cond_sub_p a) (value a % curve_p)
unfolding fe_cond_sub_p
fe_cond_sub_p_lem a w =
    let (e, ws, small) = sub_limbs_lem a pl w pl-IsFe in
    let s = sub_limbs a pl in
    let top = value_lt a w in
    let out = value_lt s.0 ws in
    elim (Bool-cases (ltb s.1 1)) [
      | inl no_borrow ↦
          (let z : s.1 ≡ 0 = ground (arith, no_borrow) in
            let same : select ((s.1 + 2 ^ 64 - 1) % 2 ^ 64) s.0 a ≡ s.0 =
              ap (λ c. select ((c + 2 ^ 64 - 1) % 2 ^ 64) s.0 a) z ∙ select_ones s.0 a ws w in
            let v : value s.0 ≡ value a % curve_p = omega (arith, e, z, value-pl, top, out) in
            subst (λ x. Stands x (value a % curve_p)) (sym same)
              (record { reduced = record { words = ws; below = omega (arith, v) }; stands = v }))
      | inr borrow ↦
          (let z : s.1 ≡ 1 = ground (arith, borrow, small) in
            let same : select ((s.1 + 2 ^ 64 - 1) % 2 ^ 64) s.0 a ≡ a =
              ap (λ c. select ((c + 2 ^ 64 - 1) % 2 ^ 64) s.0 a) z ∙ select_zeros s.0 a ws w in
            let v : value a ≡ value a % curve_p = omega (arith, e, z, value-pl, top, out) in
            subst (λ x. Stands x (value a % curve_p)) (sym same)
              (record { reduced = record { words = w; below = omega (arith, v) }; stands = v }))
    ]

pub small_fe-IsFe : (x : ℕ) → x < 2 ^ 64 → IsFe (small_fe x)
small_fe-IsFe x h = record { w0 = h; w1 = omega arith; w2 = omega arith; w3 = omega arith }

-- A carry comes back as `fe_c`, which is 2^256 mod p.
pub fold_carry_lem :
    (s : Fe × ℕ)
    → s.1 ≤ 1
    → (value (fold_carry s).0 + 2 ^ 256 * (fold_carry s).1 ≡ value s.0 + s.1 * fe_c)
      × IsFe (fold_carry s).0
unfolding fold_carry
fold_carry_lem s h =
    let x = s.1 * fe_c % 2 ^ 64 in
    let (e, w) = add_limbs_lem s.0 (small_fe x) in
    let v : value (small_fe x) ≡ x = unfold value in omega arith in (omega (arith, e, v), w)

-- Addition in GF(p).
pub fe_add_lem :
    (a b : Fe) → IsReduced a → IsReduced b → Stands (fe_add a b) ((value a + value b) % curve_p)
unfolding fe_add
fe_add_lem a b ra rb =
    let s = add_limbs a b in
    let (e, w) = add_limbs_lem a b in
    let top = value_lt s.0 w in
    let (e1, w1) = fold_carry_lem s (omega (arith, e, ra.below, rb.below)) in
    let s1 = fold_carry s in
    let top1 = value_lt s1.0 w1 in
    let (e2, w2) = fold_carry_lem s1 (omega (arith, e, e1, ra.below, rb.below, top)) in
    let out = fe_cond_sub_p_lem (fold_carry s1).0 w2 in
    subst (Stands (fe_add a b))
      (omega (arith, e, e1, e2, ra.below, rb.below, top, top1, value_lt (fold_carry s1).0 w2)) out

-- The mask of a bit: ones for 1, zeros for 0.
pub select_bit :
    (c : ℕ) (a b : Fe)
    → IsFe a
    → IsFe b
    → c ≤ 1
    → select ((2 ^ 64 - c) % 2 ^ 64) a b ≡ (if ltb 0 c then a else b)
select_bit c a b wa wb h = elim (Bool-cases (ltb 0 c)) [
  | inl one ↦
      (let z : (2 ^ 64 - c) % 2 ^ 64 ≡ 2 ^ 64 - 1 = ground (arith, one) in
        rw one (ap (λ m. select m a b) z ∙ select_ones a b wa wb))
  | inr none ↦
      (let z : (2 ^ 64 - c) % 2 ^ 64 ≡ 0 = ground (arith, none) in
        rw none (ap (λ m. select m a b) z ∙ select_zeros a b wa wb))
]

chosen_p : (c : ℕ) → c ≤ 1 → value (select ((2 ^ 64 - c) % 2 ^ 64) pl (small_fe 0)) ≡ c * curve_p
unfolding value
chosen_p c h =
    ap value (select_bit c pl (small_fe 0) pl-IsFe (small_fe-IsFe 0 (omega arith)) h) ∙ ground arith

-- Subtraction in GF(p).
pub fe_sub_lem :
    (a b : Fe)
    → IsReduced a
    → IsReduced b
    → Stands (fe_sub a b) ((value a + curve_p - value b) % curve_p)
unfolding fe_sub
fe_sub_lem a b ra rb =
    let s = sub_limbs a b in
    let (e, w, small) = sub_limbs_lem a b ra.words rb.words in
    let back = select ((2 ^ 64 - s.1) % 2 ^ 64) pl (small_fe 0) in
    let (e1, w1) = add_limbs_lem s.0 back in
    let top = value_lt s.0 w in
    let top1 = value_lt (add_limbs s.0 back).0 w1 in
    let v : value (add_limbs s.0 back).0 ≡ (value a + curve_p - value b) % curve_p =
      omega (arith, e, e1, chosen_p s.1 small, small, top, top1, ra.below, rb.below) in
    record { reduced = record { words = w1; below = omega (arith, v) }; stands = v }
