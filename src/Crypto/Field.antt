-- ===== src/Crypto/Field.antt =====
-- The field GF(p) of crypto/ct.go on four 64-bit limbs. `bits.Add64`, `bits.Sub64` and `bits.Mul64`
-- are the remainder and the quotient by 2^64 that math/bits documents, and each uint64 wraps round.
use mfspv.Base.{ℕ, ◌+◌, ◌-◌, ◌*◌, ◌/◌, ◌%◌, ◌^◌, ltb, if◌then◌else◌}
use mfspv.Crypto.Masks.{masked}

pub record Fe : Type 0 where
  pub l0 : ℕ
  pub l1 : ℕ
  pub l2 : ℕ
  pub l3 : ℕ

-- The limbs are the least significant first.
unfoldable pub value : Fe → ℕ
value a = a.l0 + 2 ^ 64 * a.l1 + 2 ^ 128 * a.l2 + 2 ^ 192 * a.l3

-- `curveP`
abbrev pub curve_p : ℕ
curve_p = 0xFFFFFFFFFFFFFFFFFFFFFFFFFFFFFFFFFFFFFFFFFFFFFFFFFFFFFFFEFFFFFC2F

abbrev pub pl : Fe
pl = record {
  l0 = 0xFFFFFFFEFFFFFC2F;
  l1 = 0xFFFFFFFFFFFFFFFF;
  l2 = 0xFFFFFFFFFFFFFFFF;
  l3 = 0xFFFFFFFFFFFFFFFF;
}

abbrev pub fe_c : ℕ
fe_c = 0x1000003D1

abbrev pub small_fe : ℕ → Fe
small_fe x = record { l0 = x; l1 = 0; l2 = 0; l3 = 0 }

unfoldable pub add64 : ℕ → ℕ → ℕ → ℕ × ℕ
add64 x y c = ((x + y + c) % 2 ^ 64, (x + y + c) / 2 ^ 64)

unfoldable pub sub64 : ℕ → ℕ → ℕ → ℕ × ℕ
sub64 x y b = ((x + 2 ^ 64 - (y + b)) % 2 ^ 64, if ltb x (y + b) then 1 else 0)

-- The high and the low word.
unfoldable pub mul64 : ℕ → ℕ → ℕ × ℕ
mul64 x y = (x * y / 2 ^ 64, x * y % 2 ^ 64)

-- Four additions with the carry passed on, and the last carry.
unfoldable pub add_limbs : Fe → Fe → Fe × ℕ
add_limbs a b =
    let s0 = add64 a.l0 b.l0 0 in
    let s1 = add64 a.l1 b.l1 s0.1 in
    let s2 = add64 a.l2 b.l2 s1.1 in
    let s3 = add64 a.l3 b.l3 s2.1 in (record { l0 = s0.0; l1 = s1.0; l2 = s2.0; l3 = s3.0 }, s3.1)

unfoldable pub sub_limbs : Fe → Fe → Fe × ℕ
sub_limbs a b =
    let s0 = sub64 a.l0 b.l0 0 in
    let s1 = sub64 a.l1 b.l1 s0.1 in
    let s2 = sub64 a.l2 b.l2 s1.1 in
    let s3 = sub64 a.l3 b.l3 s2.1 in (record { l0 = s0.0; l1 = s1.0; l2 = s2.0; l3 = s3.0 }, s3.1)

-- `(a[i] & mask) | (b[i] &^ mask)` in each limb.
unfoldable pub select : ℕ → Fe → Fe → Fe
select mask a b = record {
  l0 = masked mask a.l0 b.l0;
  l1 = masked mask a.l1 b.l1;
  l2 = masked mask a.l2 b.l2;
  l3 = masked mask a.l3 b.l3;
}

-- `mask := b - 1`
unfoldable pub fe_cond_sub_p : Fe → Fe
fe_cond_sub_p a = let s = sub_limbs a pl in select ((s.1 + 2 ^ 64 - 1) % 2 ^ 64) s.0 a

-- `+= c*feC`, with the carry passed on.
unfoldable pub fold_carry : Fe × ℕ → Fe × ℕ
fold_carry s = add_limbs s.0 (small_fe (s.1 * fe_c % 2 ^ 64))

unfoldable pub fe_add : Fe → Fe → Fe
fe_add a b = fe_cond_sub_p (fold_carry (fold_carry (add_limbs a b))).0

-- `mask := uint64(0) - br`, and `pl[i]&mask` is p's limb or 0.
unfoldable pub fe_sub : Fe → Fe → Fe
fe_sub a b =
    let s = sub_limbs a b in
    let mask = (2 ^ 64 - s.1) % 2 ^ 64 in (add_limbs s.0 (select mask pl (small_fe 0))).0

-- One round of the inner loop: the word at i+j, and the carry.
unfoldable pub mul_word : ℕ → ℕ → ℕ → ℕ → ℕ × ℕ
mul_word t x y carry =
    let m = mul64 x y in
    let s1 = add64 t m.1 0 in let s2 = add64 s1.0 carry 0 in (s2.0, (m.0 + s1.1 + s2.1) % 2 ^ 64)

-- One round of the outer loop, on the words from i to i+3; the carry goes to the word at i+4,
-- which is 0 before.
unfoldable pub mul_row : Fe → ℕ → Fe → Fe × ℕ
mul_row t x b =
    let s0 = mul_word t.l0 x b.l0 0 in
    let s1 = mul_word t.l1 x b.l1 s0.1 in
    let s2 = mul_word t.l2 x b.l2 s1.1 in
    let s3 = mul_word t.l3 x b.l3 s2.1 in
    (record { l0 = s0.0; l1 = s1.0; l2 = s2.0; l3 = s3.0 }, s3.1)

-- The words from i+1 to i+4.
unfoldable pub next_words : Fe × ℕ → Fe
next_words r = record { l0 = r.0.l1; l1 = r.0.l2; l2 = r.0.l3; l3 = r.1 }

-- The eight words of the product: the low four and the high four.
unfoldable pub mul_wide : Fe → Fe → Fe × Fe
mul_wide a b =
    let r0 = mul_row (small_fe 0) a.l0 b in
    let r1 = mul_row (next_words r0) a.l1 b in
    let r2 = mul_row (next_words r1) a.l2 b in
    let r3 = mul_row (next_words r2) a.l3 b in
    (record { l0 = r0.0.l0; l1 = r1.0.l0; l2 = r2.0.l0; l3 = r3.0.l0 }, next_words r3)

-- One round of the loop of mul256by64.
unfoldable pub scale_word : ℕ → ℕ → ℕ → ℕ × ℕ
scale_word x y carry = let m = mul64 x y in let s = add64 m.1 carry 0 in (s.0, (m.0 + s.1) % 2 ^ 64)

unfoldable pub mul256by64 : Fe → ℕ → Fe × ℕ
mul256by64 a b =
    let s0 = scale_word a.l0 b 0 in
    let s1 = scale_word a.l1 b s0.1 in
    let s2 = scale_word a.l2 b s1.1 in
    let s3 = scale_word a.l3 b s2.1 in (record { l0 = s0.0; l1 = s1.0; l2 = s2.0; l3 = s3.0 }, s3.1)

-- From 512 bits to 256: 2^256 is `fe_c`, thrice.
unfoldable pub reduce_wide : Fe → Fe → Fe
reduce_wide lo hi =
    let m = mul256by64 hi fe_c in
    let r = add_limbs lo m.0 in
    let r4 = (m.1 + r.1) % 2 ^ 64 in
    let w = mul64 r4 fe_c in
    fe_cond_sub_p (fold_carry (add_limbs r.0 (record { l0 = w.1; l1 = w.0; l2 = 0; l3 = 0 }))).0

unfoldable pub fe_mul : Fe → Fe → Fe
fe_mul a b = let t = mul_wide a b in reduce_wide t.0 t.1

unfoldable pub fe_sqr : Fe → Fe
fe_sqr a = fe_mul a a

-- `mask := uint64(0) - choose`
unfoldable pub fe_c_select : ℕ → Fe → Fe → Fe
fe_c_select choose a b = select ((2 ^ 64 - choose) % 2 ^ 64) a b
