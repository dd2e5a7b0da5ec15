-- ===== src/Payment/RoundTrip.antt =====
-- DecodeMessage reads back what Encode wrote.
use mfspv.Base.{
  ℕ, suc, ◌%◌, ◌^◌, ◌<◌, ◌≡◌, refl, sym, ap, ◌∙◌, List, [], ◌∷◌, ◌++◌, length, All, Bytes, le_bytes,
  some, ok, err, truncated_message, trailing_bytes, append_assoc, append-nil, arith,
}
use mfspv.Commitment.Hashing.{Hash, IsHash}
use mfspv.Wire.{Reader, Rd, pure, open_at}
use mfspv.Wire.Laws.{bind_step, take_bytes-append, uint-le_bytes}
use mfspv.Bundle.Types.{Bundle}
use mfspv.Bundle.Codec.{serialize, deserialize}
use mfspv.Bundle.RoundTrip.{IsWire, deserialize-serialize}
use mfspv.Payment.Types.{TxIn, TxOut, Tx3, Message}
use mfspv.Payment.Codec.{
  each, put_sized, put_in, put_out, encode_tx, put_bundle, encode, int_of, taken, read_hash,
  get_sized, get_in, get_out, many, decode_tx, bundles_loop, close_message, decode_message,
}

-- What the message format can carry.
pub record IsWireIn (i : TxIn) : Type 0 where
  pub txid : IsHash i.prev.txid
  pub vout : i.prev.vout < 2 ^ 32
  pub sig : length i.sig < 2 ^ 16
  pub pub_key : length i.pub_key < 2 ^ 16

pub record IsWireOut (o : TxOut) : Type 0 where
  pub value : o.value < 2 ^ 64
  pub script : length o.script_pub_key < 2 ^ 32

pub record IsWireTx (t : Tx3) : Type 0 where
  pub version : t.version < 2 ^ 32
  pub few_inputs : length t.inputs < 2 ^ 32
  pub inputs : All IsWireIn t.inputs
  pub few_outputs : length t.outputs < 2 ^ 32
  pub outputs : All IsWireOut t.outputs
  pub lock_time : t.lock_time < 2 ^ 32

pub record IsWireBundle (b : Bundle) : Type 0 where
  pub wire : IsWire b
  pub short : length (serialize b) < 2 ^ 32

pub record IsWireMessage (m : Message) : Type 0 where
  pub tx : IsWireTx m.tx
  pub few_bundles : length m.bundles < 2 ^ 32
  pub bundles : All IsWireBundle m.bundles

-- A reader reads `x` off the bytes `b` and stops behind them.
abbrev Reads {ℓ} : {A : Type ℓ} → Rd A → Bytes → A → Type ℓ
Reads m b x = (t : Bytes) → m (open_at (b ++ t)) ≡ (x, open_at t)

int_of-Reads : (k v : ℕ) → v < 256 ^ k → Reads (int_of k) (le_bytes k v) v
unfolding int_of
int_of-Reads k v h t = uint-le_bytes truncated_message k v t h

taken_reads :
    (n : ℕ) (b t : Bytes) → length b ≡ n → taken n (open_at (b ++ t)) ≡ (some b, open_at t)
unfolding taken
taken_reads n b t h = take_bytes-append truncated_message n b t h

read_hash-Reads : (h : Hash) → IsHash h → Reads read_hash h h
unfolding read_hash
read_hash-Reads h wide t = rw (taken_reads 32 h t wide) refl

get_sized-Reads : (k : ℕ) (b : Bytes) → length b < 256 ^ k → Reads (get_sized k) (put_sized k b) b
unfolding get_sized put_sized
get_sized-Reads k b h t =
    let fits : length b % 256 ^ k ≡ length b = grind arith in
    rw
      (
        fits,
        append_assoc (le_bytes k (length b)) b t,
        int_of-Reads k (length b) h (b ++ t),
        taken_reads (length b) b t refl,
      )
      refl

get_in-Reads : (i : TxIn) → IsWireIn i → Reads get_in (put_in i) i
unfolding get_in put_in
get_in-Reads i w t = simp append_assoc (
    bind_step _ _ (read_hash-Reads i.prev.txid w.txid _) (
      bind_step _ _ (int_of-Reads 4 i.prev.vout w.vout _) (
        bind_step _ _ (get_sized-Reads 2 i.sig w.sig _)
          (bind_step _ _ (get_sized-Reads 2 i.pub_key w.pub_key _) (unfold pure in refl)))))

get_out-Reads : (o : TxOut) → IsWireOut o → Reads get_out (put_out o) o
unfolding get_out put_out
get_out-Reads o w t = simp append_assoc (
    bind_step _ _ (int_of-Reads 8 o.value w.value _)
      (bind_step _ _ (get_sized-Reads 4 o.script_pub_key w.script _) (unfold pure in refl)))

-- A loop of as many rounds as there are elements reads them all.
module _ {A : Type 0} (put : A → Bytes) (one : Rd A) (Fits : A → Type 0)
    (reads : (x : A) → Fits x → Reads one (put x) x) where
  many_reads :
      (xs acc : List A)
      → All Fits xs
      → (t : Bytes) → many one (length xs) acc (open_at (each put xs ++ t)) ≡ (acc ++ xs, open_at t)
  unfolding many each
  many_reads [] acc h t = rw append-nil refl
  many_reads (x ∷ xs) acc (hx, hs) t =
      rw (append_assoc (put x) (each put xs) t, reads x hx (each put xs ++ t))
        (many_reads xs (acc ++ (x ∷ [])) hs t
          ∙ ap (λ l. (l, open_at t)) (append_assoc acc (x ∷ []) xs))

count-Reads : (n : ℕ) → n < 2 ^ 32 → Reads (int_of 4) (le_bytes 4 (n % 2 ^ 32)) n
count-Reads n h t = let e : n % 2 ^ 32 ≡ n = omega arith in rw e (int_of-Reads 4 n h t)

pub decode_tx-Reads : (x : Tx3) → IsWireTx x → Reads decode_tx (encode_tx x) x
unfolding decode_tx encode_tx
decode_tx-Reads x w t = simp append_assoc (
    bind_step _ _ (int_of-Reads 4 x.version w.version _) (
      bind_step _ _ (count-Reads (length x.inputs) w.few_inputs _) (
        bind_step _ _ (many_reads put_in get_in IsWireIn get_in-Reads x.inputs [] w.inputs _) (
          bind_step _ _ (count-Reads (length x.outputs) w.few_outputs _) (
            bind_step _ _
              (many_reads put_out get_out IsWireOut get_out-Reads x.outputs [] w.outputs _)
              (bind_step _ _ (int_of-Reads 4 x.lock_time w.lock_time _) (unfold pure in refl)))))))

bundles_loop_step :
    (n : ℕ) (acc : List Bundle) (r : Reader) (bb t : Bytes) (b : Bundle)
    → get_sized 4 r ≡ (bb, open_at t)
    → deserialize bb ≡ ok b
    → bundles_loop (suc n) acc r ≡ bundles_loop n (acc ++ (b ∷ [])) (open_at t)
unfolding bundles_loop
bundles_loop_step n acc r bb t b e1 e2 = ground (arith, e1, e2)

bundles_loop_reads :
    (bs acc : List Bundle) (t : Bytes)
    → All IsWireBundle bs
    → bundles_loop (length bs) acc (open_at (each put_bundle bs ++ t)) ≡ (ok (acc ++ bs), open_at t)
unfolding each put_bundle
bundles_loop_reads [] acc t h = unfold bundles_loop in rw append-nil refl
bundles_loop_reads (b ∷ bs) acc t (hb, hs) =
    bundles_loop_step (length bs) acc _ (serialize b) (each put_bundle bs ++ t) b
      (rw (append_assoc (put_sized 4 (serialize b)) (each put_bundle bs) t)
        (get_sized-Reads 4 (serialize b) hb.short (each put_bundle bs ++ t)))
      (deserialize-serialize b hb.wire).0
    ∙ bundles_loop_reads bs (acc ++ (b ∷ [])) t hs
    ∙ ap (λ l. (ok l, open_at t)) (append_assoc acc (b ∷ []) bs)

decode_message_step :
    (input t u : Bytes) (x : Tx3) (n : ℕ)
    → decode_tx (open_at input) ≡ (x, open_at t)
    → int_of 4 (open_at t) ≡ (n, open_at u)
    → decode_message input ≡ close_message x (bundles_loop n [] (open_at u))
unfolding decode_message
decode_message_step input t u x n e1 e2 = ground (arith, e1, e2)

decode_message_ends :
    (m : Message) (t : Bytes)
    → IsWireMessage m
    → decode_message (encode m ++ t) ≡ close_message m.tx (ok m.bundles, open_at t)
unfolding encode
decode_message_ends m t w = simp append_assoc (
    decode_message_step _ _ _ m.tx (length m.bundles)
      (decode_tx-Reads m.tx w.tx
        (le_bytes 4 (length m.bundles % 2 ^ 32) ++ (each put_bundle m.bundles ++ t)))
      (count-Reads (length m.bundles) w.few_bundles (each put_bundle m.bundles ++ t))
    ∙ ap (close_message m.tx) (bundles_loop_reads m.bundles [] t w.bundles))

-- DecodeMessage gives back every message that the format can carry, and refuses its bytes with
-- anything behind them.
pub decode_message-encode :
    (m : Message)
    → IsWireMessage m
    → (decode_message (encode m) ≡ ok m)
      × ((x : ℕ) (t : Bytes) → decode_message (encode m ++ (x ∷ t)) ≡ err trailing_bytes)
unfolding close_message
decode_message-encode m w = (
  ap decode_message (sym (append-nil (encode m))) ∙ decode_message_ends m [] w,
  λ x t. decode_message_ends m (x ∷ t) w,
)
