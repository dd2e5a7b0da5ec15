-- ===== src/Wire.antt =====
-- The bounds-checked readers of bundle/serialize.go and payment/payment.go: `buf`, `off` and a
-- sticky error. `rest` is the unread part, `buf[off:]`. The two differ only in the error.
pub mod Laws
use mfspv.Base.{
  ℕ, zero, suc, Bool, true, false, List, [], ◌∷◌, length, take, drop, Bytes, le_value, Option, none,
  some, Error, Result, ok, err, panic, ltb, if◌then◌else◌,
}

pub record Reader : Type 0 where
  pub rest : Bytes
  pub error : Option Error

-- A method of the reader: its result and the reader after it.
abbrev pub Rd {ℓ} : Type ℓ → Type ℓ
Rd A = Reader → A × Reader

infixl 5 ◌>>=◌
unfoldable pub ◌>>=◌ {ℓ κ} : {A : Type ℓ} {B : Type κ} → Rd A → (A → Rd B) → Rd B
◌>>=◌ m f r = let (a, r') = m r in f a r'

unfoldable pub pure {ℓ} : {A : Type ℓ} → A → Rd A
pure a r = (a, r)

abbrev pub failed : Reader → Bool
failed r = elim r.error [ none ↦ false | some e ↦ true ]

-- `return …, r.err`
abbrev pub error_of {ℓ} : {A : Type ℓ} → Reader → Result A
error_of r = elim r.error [ none ↦ err panic | some e ↦ err e ]

-- A reader of a whole message.
abbrev pub open_at : Bytes → Reader
open_at b = record { rest = b; error = none }

module _ (too_short : Error) where
  -- `none` is the nil slice.
  unfoldable pub take_bytes : ℕ → Rd (Option Bytes)
  take_bytes n r =
      if failed r
      then (none, r)
      else if ltb (length r.rest) n
      then (none, record r { error = some too_short })
      else (some (take n r.rest), record r { rest = drop n r.rest })

  -- An unsigned little-endian integer of `k` bytes, 0 where the bytes are missing.
  unfoldable pub uint : ℕ → Rd ℕ
  uint k r = let (b, r') = take_bytes k r in (elim b [ none ↦ 0 | some bytes ↦ le_value bytes ], r')

-- `if err := r.read(dst); err != nil { return …, err }` before the rest.
unfoldable pub must {ℓ κ} :
    {A : Type ℓ} {B : Type κ} → Rd (Option A) → (A → Rd (Result B)) → Rd (Result B)
must m k r = let (o, r') = m r in elim o [ none ↦ (error_of r', r') | some a ↦ k a r' ]
