-- ===== src/Crypto/Points.antt =====
-- Points of crypto/ct.go in projective coordinates, and the ladder.
use mfspv.Base.{ℕ, zero, suc, ◌/◌, ◌%◌, ◌^◌, Bool, Result, ok, err, panic, ltb, ◌==◌, if◌then◌else◌}
use Prim.Native.Nat.{bit_or}
use mfspv.Crypto.Field.{Fe, small_fe, fe_add, fe_sub, fe_mul, fe_c_select}
use mfspv.Crypto.Inverse.{fe_inv}

pub record Jac : Type 0 where
  pub x : Fe
  pub y : Fe
  pub z : Fe

abbrev pub fe_b3 : Fe
fe_b3 = small_fe 21

-- The four words of a number below 2^256; FillBytes panics on a larger one.
unfoldable pub words_of : ℕ → Result Fe
words_of v =
    if ltb v (2 ^ 256)
    then ok (record {
      l0 = v % 2 ^ 64;
      l1 = v / 2 ^ 64 % 2 ^ 64;
      l2 = v / 2 ^ 128 % 2 ^ 64;
      l3 = v / 2 ^ 192 % 2 ^ 64;
    })
    else err panic

unfoldable pub fe_is_zero : Fe → Bool
fe_is_zero a = bit_or (bit_or (bit_or a.l0 a.l1) a.l2) a.l3 == 0

-- Each step of the source, under the name that it assigns.
unfoldable pub complete_add : Jac → Jac → Jac
complete_add p q =
    let t0 = fe_mul p.x q.x in
    let t1 = fe_mul p.y q.y in
    let t2 = fe_mul p.z q.z in
    let t3 = fe_add p.x p.y in
    let t4 = fe_add q.x q.y in
    let t3 = fe_mul t3 t4 in
    let t4 = fe_add t0 t1 in
    let t3 = fe_sub t3 t4 in
    let t4 = fe_add p.y p.z in
    let x3 = fe_add q.y q.z in
    let t4 = fe_mul t4 x3 in
    let x3 = fe_add t1 t2 in
    let t4 = fe_sub t4 x3 in
    let x3 = fe_add p.x p.z in
    let y3 = fe_add q.x q.z in
    let x3 = fe_mul x3 y3 in
    let y3 = fe_add t0 t2 in
    let y3 = fe_sub x3 y3 in
    let x3 = fe_add t0 t0 in
    let t0 = fe_add x3 t0 in
    let t2 = fe_mul fe_b3 t2 in
    let z3 = fe_add t1 t2 in
    let t1 = fe_sub t1 t2 in
    let y3 = fe_mul fe_b3 y3 in
    let x3 = fe_mul t4 y3 in
    let t2 = fe_mul t3 t1 in
    let x3 = fe_sub t2 x3 in
    let y3 = fe_mul y3 t0 in
    let t1 = fe_mul t1 z3 in
    let y3 = fe_add t1 y3 in
    let t0 = fe_mul t0 t3 in
    let z3 = fe_mul z3 t4 in let z3 = fe_add z3 t0 in record { x = x3; y = y3; z = z3 }

unfoldable pub jac_c_select : ℕ → Jac → Jac → Jac
jac_c_select choose a b = record {
  x = fe_c_select choose a.x b.x;
  y = fe_c_select choose a.y b.y;
  z = fe_c_select choose a.z b.z;
}

abbrev pub identity : Jac
identity = record { x = small_fe 0; y = small_fe 1; z = small_fe 0 }

-- The inner loop, over the lowest `n` bits of a word of the scalar, from the highest on.
unfoldable pub ladder_bits : ℕ → ℕ → Jac → Jac → Jac
ladder_bits zero word p r = r
ladder_bits (suc bit) word p r =
    let double = complete_add r r in
    let sum = complete_add double p in
    ladder_bits bit word p (jac_c_select (word / 2 ^ bit % 2) sum double)

unfoldable pub scalar_mult_ct : Fe → Jac → Jac
scalar_mult_ct k p =
    ladder_bits 64 k.l0 p
      (ladder_bits 64 k.l1 p (ladder_bits 64 k.l2 p (ladder_bits 64 k.l3 p identity)))

unfoldable pub affine_x : Jac → Fe
affine_x p = fe_mul p.x (fe_inv p.z)

unfoldable pub affine_xy : Jac → Fe × Fe
affine_xy p = let zi = fe_inv p.z in (fe_mul p.x zi, fe_mul p.y zi)
