-- ===== src/Payment/Sighash.antt =====
-- What is signed of a payment transaction: preimage, Sighash and VerifyInputSignature of
-- payment/payment.go. The signatures enter as the interface `Signatures`.
use mfspv.Base.{
  ℕ, ◌%◌, ◌^◌, ◌<◌, ◌≡◌, refl, sym, ap, ◌∙◌, Bool, false, List, [], ◌∷◌, ◌++◌, length, All, map,
  Bytes, le_bytes, length-le_bytes, le_value, le_value-le_bytes, ok, err, index, not, ◌||◌, ◌==◌,
  if◌then◌else◌, append_assoc, append_cancel, arith,
}
use mfspv.Commitment.Hashing.{Sha256, Hash, IsHash, double_sha256}
use mfspv.Crypto.{Signatures}
use mfspv.Payment.Types.{TxIn, TxOut, Tx3}
use mfspv.Payment.Codec.{each, put_sized, put_out}
use mfspv.Payment.RoundTrip.{IsWireOut}

-- The bytes of an input without its signature. The key has no length before it.
unfoldable pub put_signed_in : TxIn → Bytes
put_signed_in i = i.prev.txid ++ (le_bytes 4 i.prev.vout ++ i.pub_key)

unfoldable pub preimage : Tx3 → ℕ → Bytes
preimage t input_idx =
    le_bytes 4 t.version
    ++ (le_bytes 4 (length t.inputs % 2 ^ 32)
        ++ (each put_signed_in t.inputs
            ++ (le_bytes 4 (length t.outputs % 2 ^ 32)
                ++ (each put_out t.outputs
                    ++ (le_bytes 4 t.lock_time ++ le_bytes 4 (input_idx % 2 ^ 32))))))

module _ ⦃sha : Sha256⦄ where
  unfoldable pub sighash : Tx3 → ℕ → Hash
  sighash t input_idx = double_sha256 (preimage t input_idx)

  module _ (crypto : Signatures) where
    -- The checks in order; the index is not negative.
    unfoldable pub verify_input_signature : Tx3 → ℕ → Bool
    verify_input_signature t input_idx = elim (index t.inputs input_idx) [
      | err e ↦ false
      | ok i ↦
          if not (length i.sig == 64) || not (length i.pub_key == 33)
          then false
          else elim (crypto.parse_compressed i.pub_key) [
            | err e ↦ false
            | ok key ↦ elim (crypto.parse_signature i.sig) [
              | err e ↦ false
              | ok sig ↦
                  if not (crypto.is_low_s sig)
                  then false
                  else crypto.verify key (sighash t input_idx) sig
            ]
          ]
    ]

-- An input as it is signed.
unfoldable pub blank : TxIn → TxIn
blank i = record i { sig = [] }

-- The inputs whose keys have the 33 bytes that VerifyInputSignature asks of the one it checks.
pub record IsSignedIn (i : TxIn) : Type 0 where
  pub txid : IsHash i.prev.txid
  pub vout : i.prev.vout < 2 ^ 32
  pub pub_key : length i.pub_key ≡ 33

pub record IsSigned (t : Tx3) : Type 0 where
  pub version : t.version < 2 ^ 32
  pub few_inputs : length t.inputs < 2 ^ 32
  pub inputs : All IsSignedIn t.inputs
  pub few_outputs : length t.outputs < 2 ^ 32
  pub outputs : All IsWireOut t.outputs
  pub lock_time : t.lock_time < 2 ^ 32

int_cancel :
    (k v w : ℕ) (s t : Bytes)
    → v < 256 ^ k
    → w < 256 ^ k
    → le_bytes k v ++ s ≡ le_bytes k w ++ t
    → (v ≡ w) × (s ≡ t)
int_cancel k v w s t hv hw e =
    let (same, rest) =
      append_cancel (le_bytes k v) (le_bytes k w) s t
        (length-le_bytes k v ∙ sym (length-le_bytes k w)) e in
    (sym (le_value-le_bytes k v hv) ∙ ap le_value same ∙ le_value-le_bytes k w hw, rest)

count_cancel :
    (v w : ℕ) (s t : Bytes)
    → v < 2 ^ 32
    → w < 2 ^ 32
    → le_bytes 4 (v % 2 ^ 32) ++ s ≡ le_bytes 4 (w % 2 ^ 32) ++ t
    → (v ≡ w) × (s ≡ t)
count_cancel v w s t hv hw e =
    let (same, rest) = int_cancel 4 (v % 2 ^ 32) (w % 2 ^ 32) s t (omega arith) (omega arith) e in
    (omega (arith, same), rest)

signed_in_cancel :
    (i j : TxIn) (s t : Bytes)
    → IsSignedIn i
    → IsSignedIn j
    → put_signed_in i ++ s ≡ put_signed_in j ++ t
    → (blank i ≡ blank j) × (s ≡ t)
unfolding put_signed_in blank
signed_in_cancel i j s t hi hj e =
    let (txid, e1) =
      append_cancel i.prev.txid j.prev.txid _ _ (hi.txid ∙ sym hj.txid) (simp append_assoc at e) in
    let (vout, e2) = int_cancel 4 i.prev.vout j.prev.vout _ _ hi.vout hj.vout e1 in
    let (key, rest) = append_cancel i.pub_key j.pub_key s t (hi.pub_key ∙ sym hj.pub_key) e2 in
    (cc, rest)

out_cancel :
    (o p : TxOut) (s t : Bytes)
    → IsWireOut o
    → IsWireOut p
    → put_out o ++ s ≡ put_out p ++ t
    → (o ≡ p) × (s ≡ t)
unfolding put_out put_sized
out_cancel o p s t ho hp e =
    let (value, e1) = int_cancel 8 o.value p.value _ _ ho.value hp.value (simp append_assoc at e) in
    let (long, e2) =
      count_cancel (length o.script_pub_key) (length p.script_pub_key) _ _ ho.script hp.script e1 in
    let (script, rest) = append_cancel o.script_pub_key p.script_pub_key s t long e2 in (cc, rest)

-- Two lists of one length whose elements are told apart by their bytes.
module _ {A B : Type 0} (put : A → Bytes) (seen : A → B) (Fits : A → Type 0)
    (cancel : (x y : A) (s t : Bytes)
      → Fits x
      → Fits y
      → put x ++ s ≡ put y ++ t
      → (seen x ≡ seen y) × (s ≡ t)) where
  each_cancel :
      (xs ys : List A) (s t : Bytes)
      → All Fits xs
      → All Fits ys
      → length xs ≡ length ys
      → each put xs ++ s ≡ each put ys ++ t
      → (map seen xs ≡ map seen ys) × (s ≡ t)
  unfolding each
  each_cancel [] [] s t hx hy n e = (refl, e)
  each_cancel [] (y ∷ ys) s t hx hy n e = absurd (omega arith)
  each_cancel (x ∷ xs) [] s t hx hy n e = absurd (omega arith)
  each_cancel (x ∷ xs) (y ∷ ys) s t (hx, hxs) (hy, hys) n e =
      let (head, e1) = cancel x y _ _ hx hy (simp append_assoc at e) in
      let (tail, rest) = each_cancel xs ys s t hxs hys (omega arith) e1 in (cc, rest)

map_id {ℓ} : {A : Type ℓ} (xs : List A) → map (λ x. x) xs ≡ xs
map_id [] = refl
map_id (x ∷ xs) = ap (λ l. x ∷ l) (map_id xs)

-- What a digest commits to, up to the digest itself: two transactions within the widths of the
-- format whose keys have 33 bytes and whose preimages are the same agree in everything but the
-- signatures, and are signed for one input.
pub preimage-injective :
    (t u : Tx3) (i j : ℕ)
    → IsSigned t
    → IsSigned u
    → i < 2 ^ 32
    → j < 2 ^ 32
    → preimage t i ≡ preimage u j
    → (t.version ≡ u.version)
      × (map blank t.inputs ≡ map blank u.inputs)
      × (t.outputs ≡ u.outputs)
      × (t.lock_time ≡ u.lock_time)
      × (i ≡ j)
unfolding preimage
preimage-injective t u i j ht hu hi hj e =
    let (version, e1) = int_cancel 4 t.version u.version _ _ ht.version hu.version e in
    let (n_in, e2) =
      count_cancel (length t.inputs) (length u.inputs) _ _ ht.few_inputs hu.few_inputs e1 in
    let (ins, e3) =
      each_cancel put_signed_in blank IsSignedIn signed_in_cancel t.inputs u.inputs _ _ ht.inputs
        hu.inputs n_in e2 in
    let (n_out, e4) =
      count_cancel (length t.outputs) (length u.outputs) _ _ ht.few_outputs hu.few_outputs e3 in
    let (outs, e5) =
      each_cancel put_out (λ o. o) IsWireOut out_cancel t.outputs u.outputs _ _ ht.outputs
        hu.outputs n_out e4 in
    let (lock, e6) = int_cancel 4 t.lock_time u.lock_time _ _ ht.lock_time hu.lock_time e5 in
    let (same_index, _) = count_cancel i j [] [] hi hj (ap (λ b. b ++ []) e6) in
    (version, ins, sym (map_id t.outputs) ∙ outs ∙ map_id u.outputs, lock, same_index)
