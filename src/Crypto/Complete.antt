-- ===== src/Crypto/Complete.antt =====
-- The complete addition of crypto/ct.go against its published formula modulo p.
use mfspv.Base.{ℕ, ◌+◌, ◌-◌, ◌*◌, ◌%◌, ◌≡◌, ap, ◌∙◌, subst, arith}
use mfspv.Crypto.Field.{value, curve_p, small_fe}
use mfspv.Crypto.FieldLaws.{Stands, small_fe-IsFe}
use mfspv.Crypto.FieldProduct.{add_Stands, sub_Stands, mul_Stands, mod_mod}
use mfspv.Crypto.Points.{Jac, fe_b3, complete_add}

-- Residues modulo p.
abbrev pub mul_p : ℕ → ℕ → ℕ
mul_p a b = a * b % curve_p

abbrev pub add_p : ℕ → ℕ → ℕ
add_p a b = (a + b) % curve_p

abbrev pub sub_p : ℕ → ℕ → ℕ
sub_p a b = (a + curve_p - b) % curve_p

pub record Proj : Type 0 where
  pub x : ℕ
  pub y : ℕ
  pub z : ℕ

-- The complete addition of Renes, Costello and Batina for y² = x³ + 7, in its published form.
abbrev cross : ℕ → ℕ → ℕ → ℕ → ℕ
cross a b c d = (a * d + b * c) % curve_p

pub sum_p : Proj → Proj → Proj
sum_p p q =
    let xy = cross p.x p.y q.x q.y in
    let yz = cross p.y p.z q.y q.z in
    let xz = cross p.x p.z q.x q.z in
    let yy = mul_p p.y q.y in
    let xx3 = 3 * mul_p p.x q.x % curve_p in
    let zz = mul_p 21 (mul_p p.z q.z) in
    let xz21 = mul_p 21 xz in
    record {
      x = sub_p (mul_p xy (sub_p yy zz)) (mul_p yz xz21);
      y = add_p (mul_p (sub_p yy zz) (add_p yy zz)) (mul_p xz21 xx3);
      z = add_p (mul_p (add_p yy zz) yz) (mul_p xx3 xy);
    }

-- The point of the limbs.
pub record Shows (a : Jac) (u : Proj) : Type 0 where
  pub x : Stands a.x u.x
  pub y : Stands a.y u.y
  pub z : Stands a.z u.z

pub small_value : (v : ℕ) → value (small_fe v) ≡ v
unfolding value
small_value v = omega arith

crossed :
    (a b c d : ℕ)
    → sub_p (mul_p (add_p a b) (add_p c d)) (add_p (mul_p a c) (mul_p b d)) ≡ cross a b c d
crossed a b c d =
    ap (λ n. sub_p n (add_p (mul_p a c) (mul_p b d))) (mod_mod (a + b) (c + d)) ∙ omega arith

pub complete_add-Shows :
    (p q : Jac) (u v : Proj) → Shows p u → Shows q v → Shows (complete_add p q) (sum_p u v)
unfolding complete_add sum_p
complete_add-Shows p q u v sp sq =
    let t0 = mul_Stands sp.x sq.x in
    let t1 = mul_Stands sp.y sq.y in
    let t2 = mul_Stands sp.z sq.z in
    let b3 : Stands fe_b3 21 = record {
      reduced = record {
        words = small_fe-IsFe 21 (omega arith);
        below = omega (arith, small_value 21);
      };
      stands = small_value 21;
    } in
    let xy =
      subst (Stands _) (crossed u.x u.y v.x v.y) (
        sub_Stands (mul_Stands (add_Stands sp.x sp.y) (add_Stands sq.x sq.y)) (add_Stands t0 t1)) in
    let yz =
      subst (Stands _) (crossed u.y u.z v.y v.z) (
        sub_Stands (mul_Stands (add_Stands sp.y sp.z) (add_Stands sq.y sq.z)) (add_Stands t1 t2)) in
    let xz =
      subst (Stands _) (crossed u.x u.z v.x v.z) (
        sub_Stands (mul_Stands (add_Stands sp.x sp.z) (add_Stands sq.x sq.z)) (add_Stands t0 t2)) in
    let thrice : add_p (add_p (mul_p u.x v.x) (mul_p u.x v.x)) (mul_p u.x v.x)
        ≡ 3 * mul_p u.x v.x % curve_p =
      omega arith in
    let xx3 = subst (Stands _) thrice (add_Stands (add_Stands t0 t0) t0) in
    let zz = mul_Stands b3 t2 in
    let s = add_Stands t1 zz in
    let d = sub_Stands t1 zz in
    let xz21 = mul_Stands b3 xz in
    record {
      x = sub_Stands (mul_Stands xy d) (mul_Stands yz xz21);
      y = add_Stands (mul_Stands d s) (mul_Stands xz21 xx3);
      z = add_Stands (mul_Stands s yz) (mul_Stands xx3 xy);
    }
