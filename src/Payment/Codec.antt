-- ===== src/Payment/Codec.antt =====
-- Encode, DecodeMessage, encodeTx and decodeTx of payment/payment.go.
use mfspv.Base.{
  ℕ, zero, suc, ◌%◌, ◌^◌, true, false, List, [], ◌∷◌, ◌++◌, length, Bytes, le_bytes, Option, none,
  some, Result, ok, err, truncated_message, trailing_bytes,
}
use mfspv.Commitment.Hashing.{Hash, zero_hash}
use mfspv.Bundle.Types.{Bundle}
use mfspv.Bundle.Codec.{serialize, deserialize}
use mfspv.Wire.{Reader, Rd, ◌>>=◌, pure, failed, error_of, open_at, take_bytes, uint}
use mfspv.Payment.Types.{TxIn, TxOut, Tx3, Message}

-- `for _, x := range xs { … }` around the writes of one `x`.
unfoldable pub each {ℓ} : {A : Type ℓ} → (A → Bytes) → List A → Bytes
each put [] = []
each put (x ∷ xs) = put x ++ each put xs

-- `w.u32(uint32(len(b))); w.bytes(b)`, and the same with a uint16.
unfoldable pub put_sized : ℕ → Bytes → Bytes
put_sized k b = le_bytes k (length b % 256 ^ k) ++ b

unfoldable pub put_in : TxIn → Bytes
put_in i = i.prev.txid ++ (le_bytes 4 i.prev.vout ++ (put_sized 2 i.sig ++ put_sized 2 i.pub_key))

unfoldable pub put_out : TxOut → Bytes
put_out o = le_bytes 8 o.value ++ put_sized 4 o.script_pub_key

unfoldable pub encode_tx : Tx3 → Bytes
encode_tx t =
    le_bytes 4 t.version
    ++ (le_bytes 4 (length t.inputs % 2 ^ 32)
        ++ (each put_in t.inputs
            ++ (le_bytes 4 (length t.outputs % 2 ^ 32)
                ++ (each put_out t.outputs ++ le_bytes 4 t.lock_time))))

unfoldable pub put_bundle : Bundle → Bytes
put_bundle b = put_sized 4 (serialize b)

-- Serialize returns no error.
unfoldable pub encode : Message → Bytes
encode m = encode_tx m.tx ++ (le_bytes 4 (length m.bundles % 2 ^ 32) ++ each put_bundle m.bundles)

-- The reader `rdr`, whose error is its own.
unfoldable pub int_of : ℕ → Rd ℕ
int_of = uint truncated_message

unfoldable pub taken : ℕ → Rd (Option Bytes)
taken = take_bytes truncated_message

-- `_ = r.read(dst)` into a zero array.
unfoldable pub read_hash : Rd Hash
read_hash r = let (b, r') = taken 32 r in (elim b [ none ↦ zero_hash | some h ↦ h ], r')

-- `append([]byte(nil), r.take(int(r.uN()))...)`
unfoldable pub get_sized : ℕ → Rd Bytes
get_sized k r =
    let (n, r1) = int_of k r in let (b, r2) = taken n r1 in (elim b [ none ↦ [] | some x ↦ x ], r2)

unfoldable pub get_in : Rd TxIn
get_in = do
  txid ← read_hash
  vout ← int_of 4
  sig ← get_sized 2
  pub_key ← get_sized 2
  pure (record { prev = record { txid = txid; vout = vout }; sig = sig; pub_key = pub_key })

unfoldable pub get_out : Rd TxOut
get_out = do
  value ← int_of 8
  script_pub_key ← get_sized 4
  pure (record { value = value; script_pub_key = script_pub_key })

-- `for i := uint32(0); i < n && r.err == nil; i++`, appending what a round reads.
unfoldable pub many {ℓ} : {A : Type ℓ} → Rd A → ℕ → List A → Rd (List A)
many one zero acc r = (acc, r)
many one (suc n) acc r =
    let (x, r') = one r in
    elim (failed r) [ true ↦ (acc, r) | false ↦ many one n (acc ++ (x ∷ [])) r' ]

-- The transaction that decodeTx fills; its error is the reader's.
unfoldable pub decode_tx : Rd Tx3
decode_tx = do
  version ← int_of 4
  ni ← int_of 4
  inputs ← many get_in ni []
  no' ← int_of 4
  outputs ← many get_out no' []
  lock_time ← int_of 4
  pure (record { version = version; inputs = inputs; outputs = outputs; lock_time = lock_time })

-- The loop over the bundles: the bytes of one, the reader's error, and the bundle's.
unfoldable pub bundles_loop : ℕ → List Bundle → Rd (Result (List Bundle))
bundles_loop zero acc r = (ok acc, r)
bundles_loop (suc n) acc r =
    let (bb, r') = get_sized 4 r in
    elim (failed r') [
      | true ↦ (error_of r', r')
      | false ↦ elim (deserialize bb) [
        | err e ↦ (err e, r')
        | ok b ↦ bundles_loop n (acc ++ (b ∷ [])) r'
      ]
    ]

-- The end of DecodeMessage: no error, and nothing left.
unfoldable pub close_message : Tx3 → Result (List Bundle) × Reader → Result Message
close_message t (err e, r) = err e
close_message t (ok bundles, r) = elim (failed r) [
  | true ↦ error_of r
  | false ↦ elim r.rest [
    | [] ↦ ok (record { tx = t; bundles = bundles })
    | _ ∷ _ ↦ err trailing_bytes
  ]
]

unfoldable pub decode_message : Bytes → Result Message
decode_message input =
    let (t, r) = decode_tx (open_at input) in
    elim (failed r) [
      | true ↦ error_of r
      | false ↦
          (let (n, r') = int_of 4 r in
            elim (failed r') [
              | true ↦ error_of r'
              | false ↦ close_message t (bundles_loop n [] r')
            ])
    ]
