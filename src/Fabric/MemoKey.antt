-- ===== src/Fabric/MemoKey.antt =====
-- The keys of the memo of fabric/stream.go, which pack an id, a level and an index into 64 bits.
use Prim.Native.Nat.{bit_or}
use mfspv.Base.{ℕ, zero, suc, ◌+◌, ◌*◌, ◌/◌, ◌%◌, ◌^◌, ◌<◌, ◌≡◌, sym, ap, ◌∙◌, arith}
use native.Mathlib.Nat.{pow-suc}
use mfspv.Crypto.Masks.{bit_or_half, bit_or_zeros}
use mfspv.Fabric.Stream.{memo_key}

lt_two_pow : (a : ℕ) → a < 2 ^ a
lt_two_pow zero = omega arith
lt_two_pow (suc a) = omega (arith, lt_two_pow a)

-- Bits that do not overlap add up.
bit_or_above : (k a b : ℕ) → b < 2 ^ k → bit_or (a * 2 ^ k) b ≡ a * 2 ^ k + b
bit_or_above zero a b h =
    let none : b ≡ 0 = omega arith in
    let one : a * 2 ^ 0 ≡ a = omega arith in
    rw (none, one) (bit_or_zeros a a (lt_two_pow a) ∙ omega arith)
bit_or_above (suc k) a b h =
    let shift : a * 2 ^ suc k ≡ a * 2 ^ k * 2 = ap (λ x. a * x) (pow-suc 2 k) ∙ omega arith in
    let half : a * 2 ^ k * 2 / 2 ≡ a * 2 ^ k = omega arith in
    let low : a * 2 ^ k * 2 % 2 ≡ 0 = omega arith in
    let rest = bit_or_above k a (b / 2) (omega arith) in
    ap (λ x. bit_or x b) shift
    ∙ bit_or_half (a * 2 ^ k * 2) b
    ∙ omega (arith, ap (λ x. bit_or x (b / 2)) half, rest, low, shift)

-- Within 2^24 ids, 2^8 levels and 2^32 indices the key is the three numbers side by side.
pub memo_key-sum :
    (id level pidx : ℕ)
    → id < 2 ^ 24
    → level < 2 ^ 8
    → pidx < 2 ^ 32
    → memo_key id level pidx ≡ id * 2 ^ 40 + level * 2 ^ 32 + pidx
unfolding memo_key
memo_key-sum id level pidx hi hl hp =
    let high : id * 2 ^ 40 % 2 ^ 64 ≡ id * 2 ^ 40 = omega arith in
    let mid : level * 2 ^ 32 % 2 ^ 64 ≡ level * 2 ^ 32 = omega arith in
    let joined : bit_or (id * 2 ^ 40) (level * 2 ^ 32) ≡ (id * 2 ^ 8 + level) * 2 ^ 32 =
      bit_or_above 40 id (level * 2 ^ 32) (omega arith) ∙ omega arith in
    ap (λ x. bit_or (bit_or x (level * 2 ^ 32 % 2 ^ 64)) pidx) high
    ∙ ap (λ x. bit_or (bit_or (id * 2 ^ 40) x) pidx) mid
    ∙ ap (λ x. bit_or x pidx) joined
    ∙ bit_or_above 32 (id * 2 ^ 8 + level) pidx hp
    ∙ omega arith

-- Within those bounds, which hold of L1 paths of at most 32 elements, two nodes have one key only
-- where they have one id, one level and one index.
pub memo_key-injective :
    (id level pidx id' level' pidx' : ℕ)
    → id < 2 ^ 24
    → level < 2 ^ 8
    → pidx < 2 ^ 32
    → id' < 2 ^ 24
    → level' < 2 ^ 8
    → pidx' < 2 ^ 32
    → memo_key id level pidx ≡ memo_key id' level' pidx'
    → (id ≡ id') × (level ≡ level') × (pidx ≡ pidx')
memo_key-injective id level pidx id' level' pidx' hi hl hp hi' hl' hp' e =
    let same =
      sym (memo_key-sum id level pidx hi hl hp) ∙ e ∙ memo_key-sum id' level' pidx' hi' hl' hp' in
    (omega (arith, same), omega (arith, same), omega (arith, same))
