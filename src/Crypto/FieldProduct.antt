-- ===== src/Crypto/FieldProduct.antt =====
-- The product of crypto/ct.go: schoolbook multiplication of limbs, and the reduction.
use mfspv.Base.{ℕ, ◌+◌, ◌-◌, ◌*◌, ◌/◌, ◌%◌, ◌^◌, ◌≤◌, ◌<◌, ◌≡◌, refl, sym, ap, ◌∙◌, subst, arith}
use mfspv.Crypto.Field.{
  Fe, value, curve_p, fe_c, small_fe, add64, mul64, add_limbs, fold_carry, mul_word, mul_row,
  next_words, mul_wide, scale_word, mul256by64, reduce_wide, fe_mul, fe_add, fe_sub,
}
use mfspv.Crypto.FieldLaws.{
  IsFe, IsReduced, Stands, value_lt, add_limbs_lem, fold_carry_lem, fe_cond_sub_p_lem,
  small_fe-IsFe, fe_add_lem, fe_sub_lem,
}

-- The product of two words fits two words, with room for two more words.
product_le : (x y : ℕ) → x < 2 ^ 64 → y < 2 ^ 64 → x * y ≤ (2 ^ 64 - 1) * (2 ^ 64 - 1)
product_le x y hx hy = grind arith

mul_word_lem :
    (t x y carry : ℕ)
    → t < 2 ^ 64
    → x < 2 ^ 64
    → y < 2 ^ 64
    → carry < 2 ^ 64
    → ((mul_word t x y carry).0 + 2 ^ 64 * (mul_word t x y carry).1 ≡ t + x * y + carry)
      × ((mul_word t x y carry).0 < 2 ^ 64)
      × ((mul_word t x y carry).1 < 2 ^ 64)
unfolding mul_word mul64 add64
mul_word_lem t x y carry ht hx hy hc =
    let le = product_le x y hx hy in (omega (arith, le), omega arith, omega arith)

mul_row_lem :
    (t : Fe) (x : ℕ) (b : Fe)
    → IsFe t
    → x < 2 ^ 64
    → IsFe b
    → (value (mul_row t x b).0 + 2 ^ 256 * (mul_row t x b).1 ≡ value t + x * value b)
      × IsFe (mul_row t x b).0
      × ((mul_row t x b).1 < 2 ^ 64)
unfolding mul_row value
mul_row_lem t x b wt hx wb =
    let s0 = mul_word t.l0 x b.l0 0 in
    let s1 = mul_word t.l1 x b.l1 s0.1 in
    let s2 = mul_word t.l2 x b.l2 s1.1 in
    let (e0, w0, c0) = mul_word_lem t.l0 x b.l0 0 wt.w0 hx wb.w0 (omega arith) in
    let (e1, w1, c1) = mul_word_lem t.l1 x b.l1 s0.1 wt.w1 hx wb.w1 c0 in
    let (e2, w2, c2) = mul_word_lem t.l2 x b.l2 s1.1 wt.w2 hx wb.w2 c1 in
    let (e3, w3, c3) = mul_word_lem t.l3 x b.l3 s2.1 wt.w3 hx wb.w3 c2 in
    (omega (arith, e0, e1, e2, e3), record { w0 = w0; w1 = w1; w2 = w2; w3 = w3 }, c3)

next_words_lem :
    (r : Fe × ℕ)
    → IsFe r.0
    → r.1 < 2 ^ 64
    → (r.0.l0 + 2 ^ 64 * value (next_words r) ≡ value r.0 + 2 ^ 256 * r.1) × IsFe (next_words r)
unfolding next_words value
next_words_lem r w c = (omega arith, record { w0 = w.w1; w1 = w.w2; w2 = w.w3; w3 = c })

value-zero : value (small_fe 0) ≡ 0
unfolding value
value-zero = refl

-- The eight words are the product.
mul_wide_lem :
    (a b : Fe)
    → IsFe a
    → IsFe b
    → (value (mul_wide a b).0 + 2 ^ 256 * value (mul_wide a b).1 ≡ value a * value b)
      × IsFe (mul_wide a b).0
      × IsFe (mul_wide a b).1
unfolding mul_wide
mul_wide_lem a b wa wb =
    let r0 = mul_row (small_fe 0) a.l0 b in
    let r1 = mul_row (next_words r0) a.l1 b in
    let r2 = mul_row (next_words r1) a.l2 b in
    let r3 = mul_row (next_words r2) a.l3 b in
    let (e0, w0, c0) = mul_row_lem (small_fe 0) a.l0 b (small_fe-IsFe 0 (omega arith)) wa.w0 wb in
    let (n0, v0) = next_words_lem r0 w0 c0 in
    let (e1, w1, c1) = mul_row_lem (next_words r0) a.l1 b v0 wa.w1 wb in
    let (n1, v1) = next_words_lem r1 w1 c1 in
    let (e2, w2, c2) = mul_row_lem (next_words r1) a.l2 b v1 wa.w2 wb in
    let (n2, v2) = next_words_lem r2 w2 c2 in
    let (e3, w3, c3) = mul_row_lem (next_words r2) a.l3 b v2 wa.w3 wb in
    let (n3, v3) = next_words_lem r3 w3 c3 in
    (
      four_rows a (value b) r0.0.l0 r1.0.l0 r2.0.l0 r3.0.l0 (value (next_words r0))
          (value (next_words r1)) (value (next_words r2)) (value (next_words r3))
          (omega (arith, n0, e0, value-zero)) (n1 ∙ e1) (n2 ∙ e2) (n3 ∙ e3),
      record { w0 = w0.w0; w1 = w1.w0; w2 = w2.w0; w3 = w3.w0 },
      v3,
    )
  where
    four_rows :
        (a : Fe) (y t0 t1 t2 t3 v0 v1 v2 v3 : ℕ)
        → t0 + 2 ^ 64 * v0 ≡ a.l0 * y
        → t1 + 2 ^ 64 * v1 ≡ v0 + a.l1 * y
        → t2 + 2 ^ 64 * v2 ≡ v1 + a.l2 * y
        → t3 + 2 ^ 64 * v3 ≡ v2 + a.l3 * y
        → value (record { l0 = t0; l1 = t1; l2 = t2; l3 = t3 }) + 2 ^ 256 * v3 ≡ value a * y
    four_rows a y t0 t1 t2 t3 v0 v1 v2 v3 e0 e1 e2 e3 =
        unfold value in omega (arith, e0, e1, e2, e3)

scale_word_lem :
    (x y carry : ℕ)
    → x < 2 ^ 64
    → y < 2 ^ 64
    → carry < 2 ^ 64
    → ((scale_word x y carry).0 + 2 ^ 64 * (scale_word x y carry).1 ≡ x * y + carry)
      × ((scale_word x y carry).0 < 2 ^ 64)
      × ((scale_word x y carry).1 < 2 ^ 64)
unfolding scale_word mul64 add64
scale_word_lem x y carry hx hy hc =
    let le = product_le x y hx hy in (omega (arith, le), omega arith, omega arith)

mul256by64_lem :
    (a : Fe) (b : ℕ)
    → IsFe a
    → b < 2 ^ 64
    → (value (mul256by64 a b).0 + 2 ^ 256 * (mul256by64 a b).1 ≡ value a * b)
      × IsFe (mul256by64 a b).0
unfolding mul256by64 value
mul256by64_lem a b wa hb =
    let s0 = scale_word a.l0 b 0 in
    let s1 = scale_word a.l1 b s0.1 in
    let s2 = scale_word a.l2 b s1.1 in
    let (e0, w0, c0) = scale_word_lem a.l0 b 0 wa.w0 hb (omega arith) in
    let (e1, w1, c1) = scale_word_lem a.l1 b s0.1 wa.w1 hb c0 in
    let (e2, w2, c2) = scale_word_lem a.l2 b s1.1 wa.w2 hb c1 in
    let (e3, w3, c3) = scale_word_lem a.l3 b s2.1 wa.w3 hb c2 in
    (omega (arith, e0, e1, e2, e3), record { w0 = w0; w1 = w1; w2 = w2; w3 = w3 })

-- The reduction gives the remainder of the 512 bits.
reduce_wide_lem :
    (lo hi : Fe)
    → IsFe lo
    → IsFe hi
    → Stands (reduce_wide lo hi) ((value lo + 2 ^ 256 * value hi) % curve_p)
unfolding reduce_wide mul64
reduce_wide_lem lo hi wl wh =
    let m = mul256by64 hi fe_c in
    let (em, wm) = mul256by64_lem hi fe_c wh (omega arith) in
    let r = add_limbs lo m.0 in
    let (er, wr) = add_limbs_lem lo m.0 in
    let r4 = (m.1 + r.1) % 2 ^ 64 in
    let top_m = value_lt m.0 wm in
    let top_lo = value_lt lo wl in
    let top_hi = value_lt hi wh in
    let top_r = value_lt r.0 wr in
    let no_wrap : r4 ≡ m.1 + r.1 = omega (arith, em, er, top_m, top_lo, top_hi) in
    let few : r4 ≤ fe_c + 1 = omega (arith, em, er, top_m, top_lo, top_hi, no_wrap) in
    let x : Fe = record { l0 = r4 * fe_c % 2 ^ 64; l1 = r4 * fe_c / 2 ^ 64; l2 = 0; l3 = 0 } in
    let vx : value x ≡ r4 * fe_c = unfold value in omega arith in
    let (es, ws) = add_limbs_lem r.0 x in
    let s = add_limbs r.0 x in
    let top_s = value_lt s.0 ws in
    let (ef, wf) = fold_carry_lem s (omega (arith, es, vx, few, top_r)) in
    let f = fold_carry s in
    let top_f = value_lt f.0 wf in
    let last : f.1 ≡ 0 = omega (arith, ef, es, vx, few, top_r, top_s, top_f) in
    subst (Stands (reduce_wide lo hi)) (omega (arith, em, er, no_wrap, vx, es, ef, last))
      (fe_cond_sub_p_lem f.0 wf)

-- The product of two field elements, as crypto/ct.go computes it on limbs of 64 bits, is the field
-- element of their product modulo p, and its limbs are words below p.
pub fe_mul-Stands :
    (a b : Fe) → IsReduced a → IsReduced b → Stands (fe_mul a b) (value a * value b % curve_p)
unfolding fe_mul
fe_mul-Stands a b ra rb =
    let (e, wl, wh) = mul_wide_lem a b ra.words rb.words in
    subst (λ v. Stands (fe_mul a b) (v % curve_p)) e
      (reduce_wide_lem (mul_wide a b).0 (mul_wide a b).1 wl wh)

-- The three operations on elements with known values.
pub add_Stands :
    {a b : Fe} {u v : ℕ} → Stands a u → Stands b v → Stands (fe_add a b) ((u + v) % curve_p)
add_Stands {a} {b} {u} {v} sa sb =
    subst (Stands (fe_add a b)) (ap (λ n. n % curve_p) (omega (arith, sa.stands, sb.stands)))
      (fe_add_lem a b sa.reduced sb.reduced)

pub sub_Stands :
    {a b : Fe} {u v : ℕ}
    → Stands a u
    → Stands b v
    → Stands (fe_sub a b) ((u + curve_p - v) % curve_p)
sub_Stands {a} {b} {u} {v} sa sb =
    subst (Stands (fe_sub a b)) (ap (λ n. n % curve_p) (omega (arith, sa.stands, sb.stands)))
      (fe_sub_lem a b sa.reduced sb.reduced)

pub mul_Stands :
    {a b : Fe} {u v : ℕ} → Stands a u → Stands b v → Stands (fe_mul a b) (u * v % curve_p)
mul_Stands {a} {b} {u} {v} sa sb =
    subst (Stands (fe_mul a b))
      (ap (λ n. n * value b % curve_p) sa.stands ∙ ap (λ n. u * n % curve_p) sb.stands)
      (fe_mul-Stands a b sa.reduced sb.reduced)

remainders : (a r b s : ℕ) → (a * curve_p + r) * (b * curve_p + s) % curve_p ≡ r * s % curve_p
remainders a r b s = omega arith

-- A product modulo p is the product of the remainders.
pub mod_mod : (x y : ℕ) → x % curve_p * (y % curve_p) % curve_p ≡ x * y % curve_p
mod_mod x y =
    let split_x : (x / curve_p) * curve_p + x % curve_p ≡ x = omega arith in
    let split_y : (y / curve_p) * curve_p + y % curve_p ≡ y = omega arith in
    sym (remainders (x / curve_p) (x % curve_p) (y / curve_p) (y % curve_p))
    ∙ ap (λ n. n * ((y / curve_p) * curve_p + y % curve_p) % curve_p) split_x
    ∙ ap (λ n. x * n % curve_p) split_y
