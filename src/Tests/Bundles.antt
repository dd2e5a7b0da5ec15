-- ===== src/Tests/Bundles.antt =====
-- bundle/bundle.go and bundle/serialize.go on a small bundle, against a source of one-transaction
-- blocks.
use mfspv.Base.{
  ℕ, ◌≤◌, bytes_eq_refl, ◌≡◌, ◌↔◌, refl, ap, sym, ◌∙◌, true, false, [], ◌∷◌, ◌++◌, length,
  replicate, take, take-append, none, some, Error, ok, err, unknown_tx, no_accumulator, truncated,
  arith, Bytes, if◌then◌else◌, ◌==◌, subst,
}
use mfspv.Commitment.Hashing.{Hash, fold, fold-IsHash, length-double_sha256, leaf_hash}
use mfspv.Commitment.Fields.{leaf_for_field}
use mfspv.Commitment.Depth.{ceil_log2_le}
use mfspv.Commitment.FieldPath.{Opened, field-Opened}
use mfspv.Teranode.Source.{Header, ProofSource, HeaderChain}
use mfspv.Bundle.Types.{OutputRef, Bundle, header_merkle_root}
use mfspv.Bundle.Codec.{serialize, deserialize, put_core}
use mfspv.Bundle.RoundTrip.{IsWire, deserialize-serialize, any_flag_is_no_anchor}
use mfspv.Bundle.Verify.{
  Located, accepted, at_l3_l4_chain, locate, reanchor, build, verify, needs_reanchor,
}
use mfspv.Bundle.Sound.{IsAccepted, verify_iff, verify-needs_reanchor}
use mfspv.Bundle.Frozen.{IsGood, IsHonest, reanchor_keeps, reanchor-verify}
use mfspv.Bundle.Built.{Built-verify, build-verify, build-reanchor}
use mfspv.Tests.Sample.{toy_sha, hash_of, field_of_byte, three_fields}

-- A block of the one transaction `txid`, named by it.
abbrev pub header_of : Hash → Header
header_of txid = replicate 36 0 ++ (txid ++ replicate 12 0)

abbrev pub single : ProofSource
single = record {
  subtree_path_for = λ txid. if length txid == 32 then ok ([], txid) else err unknown_tx;
  block_path_for = λ r h. ok ([], r);
  header_for = λ h. ok (header_of h);
  locate_tx = λ txid. ok txid;
  gen_tx_accumulator = λ h. err no_accumulator;
}

abbrev pub all_headers : HeaderChain
all_headers = record { contains = λ h. true; best_tip_height = 1 }

pub root_of_header : (txid : Hash) → length txid ≡ 32 → header_merkle_root (header_of txid) ≡ txid
unfolding header_merkle_root
root_of_header txid h =
    ap (λ n. take n (txid ++ replicate 12 0)) (sym h) ∙ take-append txid (replicate 12 0)

abbrev located_single : Hash → Located
located_single txid = record { subtree_path = []; block_path = []; header = header_of txid }

single_located :
    (txid : Hash) (l : Located)
    → locate single txid ≡ ok l
    → (length txid ≡ 32) × (located_single txid ≡ l)
unfolding locate
single_located txid l h = ground arith

located_single-IsGood :
    (txid : Hash) → length txid ≡ 32 → IsGood all_headers txid (located_single txid)
unfolding fold
located_single-IsGood txid h = record {
  closes = sym (root_of_header txid h);
  shallow = omega arith;
  bounded = omega arith;
  on_chain = refl;
}

single-IsHonest : IsHonest single all_headers
single-IsHonest = record {
  good = λ txid l h.
      let (wide, same) = single_located txid l h in
      subst (λ x. IsGood all_headers txid x) same (located_single-IsGood txid wide);
}

abbrev opened : Opened three_fields 2 (field_of_byte 2)
opened = field-Opened three_fields 2 (field_of_byte 2) (omega arith) (omega arith) refl

mtxid_wide : length opened.mtxid ≡ 32
unfolding leaf_for_field leaf_hash
mtxid_wide =
    subst (λ (h : Hash). length h ≡ 32) opened.folds
      (fold-IsHash (leaf_for_field (field_of_byte 2)) opened.path
        (length-double_sha256 ((field_of_byte 2).index ∷ (field_of_byte 2).bytes)))

abbrev out : OutputRef
out = record { txid = opened.mtxid; vout = 0 }

abbrev sample : Bundle
sample = record {
  output_ref = out;
  fields = field_of_byte 2 ∷ [];
  mtxid_path = opened.path;
  subtree_path = [];
  block_path = [];
  header = header_of opened.mtxid;
  anchor = none;
}

sample_located : locate single opened.mtxid ≡ ok (located_single opened.mtxid)
unfolding locate
sample_located = ground (arith, mtxid_wide)

sample_built : build out three_fields 2 single ≡ ok sample
unfolding build
sample_built = rw (opened.opens, bytes_eq_refl opened.mtxid, sample_located) refl

build-verify_example :
    (b : Bundle) × (build out three_fields 2 single ≡ ok b)
    × ((verify b (some all_headers)).ok ≡ true)
build-verify_example =
    build-verify out three_fields 2 (field_of_byte 2) single all_headers
      (located_single opened.mtxid) opened.layers (omega arith) (omega arith) refl opened.builds
      sample_located single-IsHonest

sample_accepted : (verify sample (some all_headers)).ok ≡ true
sample_accepted =
    Built-verify out three_fields 2 single all_headers sample (omega arith) single-IsHonest
      sample_built

sample_kept : reanchor sample single ≡ (sample, none)
sample_kept = build-reanchor out three_fields 2 single sample sample_built

fields_kept :
    ((reanchor sample single).0.output_ref ≡ sample.output_ref)
    × ((reanchor sample single).0.fields ≡ sample.fields)
    × ((reanchor sample single).0.mtxid_path ≡ sample.mtxid_path)
    × ((reanchor sample single).0.anchor ≡ sample.anchor)
    × ((e : Error) → (reanchor sample single).1 ≡ some e → (reanchor sample single).0 ≡ sample)
fields_kept = reanchor_keeps sample single

path_short : length sample.mtxid_path ≤ 171
path_short = omega (arith, opened.long, ceil_log2_le 2 3 (omega arith))

reanchor-verify_example : (verify sample (some all_headers)).ok ≡ true
reanchor-verify_example =
    reanchor-verify sample sample single (some all_headers) all_headers single-IsHonest path_short
      sample_accepted (build-reanchor out three_fields 2 single sample sample_built)

verify_iff_example :
    (((verify sample none).ok ≡ true) ↔ IsAccepted sample none)
    × (((verify sample none).ok ≡ true) ↔ ((verify sample none).reason ≡ accepted))
    × ((verify sample none).depth ≡ 0)
verify_iff_example = verify_iff sample none

verify-needs_reanchor_example :
    ((verify sample (some all_headers)).ok ≡ true
      → needs_reanchor sample (some all_headers) ≡ false)
    × ((verify sample (some all_headers)).reason ≡ at_l3_l4_chain
        → needs_reanchor sample (some all_headers) ≡ true)
verify-needs_reanchor_example = verify-needs_reanchor sample all_headers

-- A bundle for the wire.
abbrev pub carried : Bundle
carried = record {
  output_ref = record { txid = hash_of 4; vout = 65537 };
  fields = field_of_byte 1 ∷ field_of_byte 2 ∷ [];
  mtxid_path = record { sibling = hash_of 5; right = true } ∷ [];
  subtree_path = [];
  block_path = record { sibling = hash_of 6; right = false } ∷ [];
  header = replicate 80 3;
  anchor = none;
}

pub carried-IsWire : IsWire carried
carried-IsWire = record {
  txid = refl;
  vout = omega arith;
  fields = omega arith;
  mtxid_path = omega arith;
  subtree_path = omega arith;
  block_path = omega arith;
  header = refl;
  anchor = tt;
}

deserialize-serialize_example :
    (deserialize (serialize carried) ≡ ok carried)
    × ((x : ℕ) (t : Bytes) → deserialize (serialize carried ++ (x ∷ t)) ≡ err truncated)
deserialize-serialize_example = deserialize-serialize carried carried-IsWire

any_flag_is_no_anchor_example : deserialize (put_core carried (7 ∷ [])) ≡ ok carried
any_flag_is_no_anchor_example =
    any_flag_is_no_anchor carried 7 carried-IsWire refl (λ e. absurd (omega arith))
