-- ===== src/Crypto/Ladder.antt =====
-- The ladder of crypto/ct.go, with its masked select, against the double-and-add that branches.
use mfspv.Base.{
  ℕ, zero, suc, ◌+◌, ◌*◌, ◌/◌, ◌%◌, ◌^◌, ◌≤◌, ◌<◌, ◌≡◌, refl, sym, ap, ◌∙◌, subst, inl, inr,
  Bool-cases, if◌then◌else◌, ◌==◌, arith,
}
use native.Mathlib.Nat.{pow-suc, div-div-eq-div-mul}
use mfspv.Crypto.Field.{Fe, value, small_fe, fe_c_select}
use mfspv.Crypto.FieldLaws.{IsFe, Stands, small_fe-IsFe, select_bit}
use mfspv.Crypto.Inverse.{low_value, regroup_bits}
use mfspv.Crypto.Points.{Jac, complete_add, jac_c_select, identity, ladder_bits, scalar_mult_ct}
use mfspv.Crypto.Complete.{Proj, sum_p, Shows, complete_add-Shows, small_value}

-- The reference: the double-and-add of the bits of `k`, the lowest last.
abbrev pub origin : Proj
origin = record { x = 0; y = 1; z = 0 }

pub times_p : ℕ → ℕ → Proj → Proj
times_p zero k u = origin
times_p (suc n) k u =
    let half = times_p n (k / 2) u in
    let double = sum_p half half in if k % 2 == 1 then sum_p double u else double

select_first : {a b : Fe} {u v : ℕ} → Stands a u → Stands b v → Stands (fe_c_select 1 a b) u
unfolding fe_c_select
select_first {a} {b} {u} {v} sa sb =
    subst (λ e. Stands e u) (sym (select_bit 1 a b sa.reduced.words sb.reduced.words (omega arith)))
      sa

select_second : {a b : Fe} {u v : ℕ} → Stands a u → Stands b v → Stands (fe_c_select 0 a b) v
unfolding fe_c_select
select_second {a} {b} {u} {v} sa sb =
    subst (λ e. Stands e v) (sym (select_bit 0 a b sa.reduced.words sb.reduced.words (omega arith)))
      sb

-- The masked select is the branch.
jac_c_select-Shows :
    (c : ℕ) (a b : Jac) (u v : Proj)
    → c < 2
    → Shows a u
    → Shows b v
    → Shows (jac_c_select c a b) (if c == 1 then u else v)
unfolding jac_c_select
jac_c_select-Shows c a b u v h sa sb = elim (Bool-cases (c == 1)) [
  | inl one ↦
      (let is : c ≡ 1 = ground (arith, one) in
        rw one (
          subst (λ d. Shows (jac_c_select d a b) u) (sym is)
            (record {
              x = select_first sa.x sb.x;
              y = select_first sa.y sb.y;
              z = select_first sa.z sb.z;
            })))
  | inr none ↦
      (let is : c ≡ 0 = ground (arith, none) in
        rw none (
          subst (λ d. Shows (jac_c_select d a b) v) (sym is)
            (record {
              x = select_second sa.x sb.x;
              y = select_second sa.y sb.y;
              z = select_second sa.z sb.z;
            })))
]

-- One more bit of the scalar.
times_p_step :
    (m k d : ℕ) (u : Proj)
    → d < 2
    → (if d == 1
        then sum_p (sum_p (times_p m k u) (times_p m k u)) u
        else sum_p (times_p m k u) (times_p m k u))
      ≡ times_p (suc m) (k + k + d) u
unfolding times_p
times_p_step m k d u h =
    let half : (k + k + d) / 2 ≡ k = omega arith in
    let low : (k + k + d) % 2 ≡ d = omega arith in rw (half, low) refl

ladder_bits-Shows :
    (n word m k : ℕ) (p r : Jac) (u : Proj)
    → Shows p u
    → Shows r (times_p m k u)
    → Shows (ladder_bits n word p r) (times_p (m + n) (k * 2 ^ n + low_value n word) u)
unfolding ladder_bits low_value
ladder_bits-Shows zero word m k p r u sp sr =
    let same_m : m ≡ m + 0 = omega arith in
    let same_k : k ≡ k * 2 ^ 0 + 0 = omega arith in
    subst (λ x. Shows r (times_p x (k * 2 ^ 0 + 0) u)) same_m
      (subst (λ x. Shows r (times_p m x u)) same_k sr)
ladder_bits-Shows (suc n) word m k p r u sp sr =
    let d = word / 2 ^ n % 2 in
    let double = complete_add-Shows r r (times_p m k u) (times_p m k u) sr sr in
    let sum = complete_add-Shows (complete_add r r) p _ u double sp in
    let chosen = jac_c_select-Shows d _ _ _ _ (omega arith) sum double in
    let step = subst (Shows _) (times_p_step m k d u (omega arith)) chosen in
    let rest = ladder_bits-Shows n word (suc m) (k + k + d) p _ u sp step in
    let same_m : suc m + n ≡ m + suc n = omega arith in
    subst
      (λ x.
        Shows (ladder_bits (suc n) word p r)
          (times_p x (k * 2 ^ suc n + (d * 2 ^ n + low_value n word)) u))
      same_m
      (subst (λ x. Shows (ladder_bits (suc n) word p r) (times_p (suc m + n) x u))
        (regroup_bits k d n (low_value n word)) rest)

-- The lowest bits of a word are what is left of it.
low_value_lem : (n word : ℕ) → word / 2 ^ n * 2 ^ n + low_value n word ≡ word
unfolding low_value
low_value_lem zero word = omega arith
low_value_lem (suc n) word =
    let halves : word / 2 ^ n / 2 ≡ word / 2 ^ suc n =
      div-div-eq-div-mul word (2 ^ n) 2 ∙ ap (λ x. word / x) (sym (pow-suc 2 n)) in
    let split : word / 2 ^ n ≡ word / 2 ^ n / 2 + word / 2 ^ n / 2 + word / 2 ^ n % 2 =
      omega arith in
    ap (λ h. h * 2 ^ suc n + (word / 2 ^ n % 2 * 2 ^ n + low_value n word)) (sym halves)
    ∙ sym (regroup_bits (word / 2 ^ n / 2) (word / 2 ^ n % 2) n (low_value n word))
    ∙ ap (λ h. h * 2 ^ n + low_value n word) (sym split)
    ∙ low_value_lem n word

low_value-word : (word : ℕ) → word < 2 ^ 64 → low_value 64 word ≡ word
low_value-word word h = omega (arith, low_value_lem 64 word)

identity-Shows : Shows identity origin
unfolding value
identity-Shows = record {
  x = small 0 (omega arith);
  y = small 1 (omega arith);
  z = small 0 (omega arith);
}
  where
    small : (v : ℕ) → v ≤ 1 → Stands (small_fe v) v
    small v h = record {
      reduced = record {
        words = small_fe-IsFe v (omega arith);
        below = omega (arith, small_value v);
      };
      stands = small_value v;
    }

-- For a scalar of four words and a point whose limbs are words below p, the ladder of crypto/ct.go,
-- which doubles and adds for every bit and selects by a mask, ends with limbs below p that show the
-- same point as the double-and-add that branches on the 256 bits of the scalar, in the published
-- formula of the complete addition modulo p.
pub scalar_mult_ct-Shows :
    (k : Fe) (p : Jac) (u : Proj)
    → IsFe k
    → Shows p u
    → Shows (scalar_mult_ct k p) (times_p 256 (value k) u)
unfolding scalar_mult_ct value
scalar_mult_ct-Shows k p u w sp =
    let s3 = ladder_bits-Shows 64 k.l3 0 0 p identity u sp (unfold times_p in identity-Shows) in
    let s2 = ladder_bits-Shows 64 k.l2 64 _ p _ u sp s3 in
    let s1 = ladder_bits-Shows 64 k.l1 128 _ p _ u sp s2 in
    let s0 = ladder_bits-Shows 64 k.l0 192 _ p _ u sp s1 in
    subst (λ x. Shows (scalar_mult_ct k p) (times_p 256 x u))
      (omega (
        arith,
        low_value-word k.l0 w.w0,
        low_value-word k.l1 w.w1,
        low_value-word k.l2 w.w2,
        low_value-word k.l3 w.w3,
      ))
      s0
