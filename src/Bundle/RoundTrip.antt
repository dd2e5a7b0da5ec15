-- ===== src/Bundle/RoundTrip.antt =====
-- Deserialize reads back what Serialize wrote.
use mfspv.Base.{
  ℕ, ◌≢◌, ◌^◌, ◌<◌, ◌≡◌, refl, sym, ap, ◌∙◌, [], ◌∷◌, ◌++◌, length, Bytes, Option, none, some, ok,
  err, truncated, append_assoc, append-nil, arith,
}
use mfspv.Commitment.Hashing.{IsHash}
use mfspv.Wire.{Reader, pure, open_at}
use mfspv.Wire.Laws.{bind_step, must_step}
use mfspv.Bundle.Types.{AnchorProof, Bundle}
use mfspv.Bundle.Codec.{
  put_anchor, put_optional, put_core, serialize, finish, finish_anchor, get_core, deserialize,
}
use mfspv.Bundle.Parts.{
  u8_reads, u32_reads, read_n_reads, get_path_reads, get_fields_reads, get_anchor_reads,
  IsWireAnchor, IsWirePath, IsWireFields,
}

abbrev IsWireOptional : Option AnchorProof → Type 0
IsWireOptional none = Unit {0}
IsWireOptional (some a) = IsWireAnchor a

-- The bundles that the format can carry.
pub record IsWire (b : Bundle) : Type 0 where
  pub txid : IsHash b.output_ref.txid
  pub vout : b.output_ref.vout < 2 ^ 32
  pub fields : IsWireFields b.fields
  pub mtxid_path : IsWirePath b.mtxid_path
  pub subtree_path : IsWirePath b.subtree_path
  pub block_path : IsWirePath b.block_path
  pub header : length b.header ≡ 80
  pub anchor : IsWireOptional b.anchor

abbrev core_of : Bundle → Bundle
core_of b = record b { anchor = none }

get_core_reads :
    (b : Bundle) (t : Bytes)
    → IsWire b
    → get_core (open_at (put_core b t)) ≡ (ok (core_of b), open_at t)
unfolding put_core get_core
get_core_reads b t w = must_step _ _ (read_n_reads 32 b.output_ref.txid _ w.txid) (
    bind_step _ _ (u32_reads b.output_ref.vout _ w.vout) (
      bind_step _ _ (get_fields_reads b.fields _ w.fields) (
        bind_step _ _ (get_path_reads b.mtxid_path _ w.mtxid_path) (
          bind_step _ _ (get_path_reads b.subtree_path _ w.subtree_path) (
            bind_step _ _ (get_path_reads b.block_path _ w.block_path)
              (must_step _ _ (read_n_reads 80 b.header _ w.header) (unfold pure in refl)))))))

deserialize_core :
    (b : Bundle) (flag : ℕ) (t : Bytes)
    → IsWire b
    → deserialize (put_core b (flag ∷ t)) ≡ finish_anchor flag (core_of b) (open_at t)
unfolding deserialize
deserialize_core b flag t w = ground (arith, get_core_reads b (flag ∷ t) w, u8_reads flag t)

finish_anchor_reads :
    (b : Bundle) (a : AnchorProof) (t : Bytes)
    → IsWireAnchor a
    → finish_anchor 1 b (open_at (put_anchor a ++ t))
      ≡ finish (record b { anchor = some a }) (open_at t)
unfolding finish_anchor
finish_anchor_reads b a t w = ground (arith, get_anchor_reads a t w)

finish_anchor_none :
    (flag : ℕ) (b : Bundle) (r : Reader) → flag ≢ 1 → finish_anchor flag b r ≡ finish b r
unfolding finish_anchor
finish_anchor_none flag b r h = ground arith

with_anchor :
    (b : Bundle) (o : Option AnchorProof) → b.anchor ≡ o → record (core_of b) { anchor = o } ≡ b
with_anchor b o e = λ i. record b { anchor = sym e i }

-- The flag of the anchor is read loosely: for every bundle without an anchor that the format can
-- carry, every flag but 1 behind the bytes of its core gives that bundle.
pub any_flag_is_no_anchor :
    (b : Bundle) (flag : ℕ)
    → IsWire b
    → b.anchor ≡ none
    → flag ≢ 1
    → deserialize (put_core b (flag ∷ [])) ≡ ok b
any_flag_is_no_anchor b flag w no_anchor other =
    deserialize_core b flag [] w
    ∙ finish_anchor_none flag (core_of b) (open_at []) other
    ∙ ap (λ x. finish x (open_at [])) (with_anchor b none no_anchor)
    ∙ unfold finish in refl

deserialize_ends :
    (b : Bundle) (t : Bytes)
    → IsWire b
    → deserialize (put_core b (put_optional b.anchor ++ t)) ≡ finish b (open_at t)
deserialize_ends b t w = go b.anchor refl w.anchor
  where
    go :
        (o : Option AnchorProof)
        → b.anchor ≡ o
        → IsWireOptional o
        → deserialize (put_core b (put_optional o ++ t)) ≡ finish b (open_at t)
    go none e v =
        unfold put_optional in
        deserialize_core b 0 t w
        ∙ finish_anchor_none 0 (core_of b) (open_at t) (λ p. absurd (omega arith))
        ∙ ap (λ x. finish x (open_at t)) (with_anchor b none e)
    go (some a) e v =
        unfold put_optional in
        deserialize_core b 1 (put_anchor a ++ t) w
        ∙ finish_anchor_reads (core_of b) a t v
        ∙ ap (λ x. finish x (open_at t)) (with_anchor b (some a) e)

put_core-append : (b : Bundle) (s t : Bytes) → put_core b s ++ t ≡ put_core b (s ++ t)
unfolding put_core
put_core-append b s t = simp append_assoc

-- Deserialize gives back every bundle that the format can carry, and refuses its bytes with
-- anything behind them.
pub deserialize-serialize :
    (b : Bundle)
    → IsWire b
    → (deserialize (serialize b) ≡ ok b)
      × ((x : ℕ) (t : Bytes) → deserialize (serialize b ++ (x ∷ t)) ≡ err truncated)
unfolding serialize finish
deserialize-serialize b w = (
  ap (λ s. deserialize (put_core b s)) (sym (append-nil (put_optional b.anchor)))
      ∙ deserialize_ends b [] w,
  λ x t.
      ap deserialize (put_core-append b (put_optional b.anchor) (x ∷ t))
      ∙ deserialize_ends b (x ∷ t) w,
)
