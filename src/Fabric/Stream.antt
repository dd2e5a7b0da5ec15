-- ===== src/Fabric/Stream.antt =====
-- VerifyWire of fabric/stream.go. Each call clears the maps of the Verifier first, so it is a
-- function. A map is a list of its entries. The reads of a proof are those of the decoder of
-- fabric/codec.go; where one fails, the answer is the count so far.
use Prim.Native.Nat.{bit_or}
use mfspv.Base.{
  ℕ, zero, suc, ◌+◌, ◌*◌, ◌/◌, ◌%◌, ◌^◌, Bool, true, false, not, ◌||◌, List, [], ◌∷◌, length, take,
  drop, Bytes, le_value, bytes_eq, Option, none, some, ltb, ◌==◌, if◌then◌else◌,
}
use mfspv.Commitment.Hashing.{Sha256, Hash, PathElem, double_sha256}
use mfspv.Teranode.Source.{Header, HeaderChain}
use mfspv.Bundle.Types.{header_merkle_root}
use mfspv.Fabric.Proof.{Hasher, parent_of, fold_count, off_chain}
use mfspv.Fabric.Batch.{leaf_index, Climbed, inconsistent, merged, top, refused, marked}
use mfspv.Fabric.Codec.{Decoder, take_of, decode_elems, ◌>>=◌, done}

pub record WireEntry : Type 0 where
  pub key : ℕ
  pub node : Hash

-- An entry of `subID`, and `lastSub` with `lastID`.
pub record SubId : Type 0 where
  pub root : Hash
  pub id : ℕ

pub record Verifier : Type 0 where
  pub memo : List WireEntry
  pub sub_id : List SubId
  pub sub_ok : List ℕ
  pub hdr_ok : List Hash
  pub next_id : ℕ
  pub last : Option SubId
  pub hashes : ℕ

abbrev pub new_verifier : Verifier
new_verifier = record {
  memo = [];
  sub_id = [];
  sub_ok = [];
  hdr_ok = [];
  next_id = 0;
  last = none;
  hashes = 0;
}

-- `uint64(id)<<40 | uint64(j+1)<<32 | pidx`
unfoldable pub memo_key : ℕ → ℕ → ℕ → ℕ
memo_key id level pidx = bit_or (bit_or (id * 2 ^ 40 % 2 ^ 64) (level * 2 ^ 32 % 2 ^ 64)) pidx

unfoldable pub node_at : ℕ → List WireEntry → Option Hash
node_at k [] = none
node_at k (e ∷ memo) = let older = node_at k memo in if k == e.key then some e.node else older

unfoldable pub id_at : Hash → List SubId → Option ℕ
id_at s [] = none
id_at s (e ∷ ids) = let older = id_at s ids in if bytes_eq s e.root then some e.id else older

unfoldable pub holds_id : ℕ → List ℕ → Bool
holds_id k [] = false
holds_id k (x ∷ xs) = k == x || holds_id k xs

-- The id of a subtree root that is not the last one.
unfoldable pub lookup_id : Hash → Verifier → ℕ × Verifier
lookup_id s v = elim (id_at s v.sub_id) [
  | some id ↦ (id, record v { last = some (record { root = s; id = id }) })
  | none ↦ (
    v.next_id,
    record v {
      sub_id = record { root = s; id = v.next_id } ∷ v.sub_id;
      next_id = suc v.next_id % 2 ^ 32;
      last = some (record { root = s; id = v.next_id });
    },
  )
]

unfoldable pub assign_id : Hash → Verifier → ℕ × Verifier
assign_id s v = elim v.last [
  | none ↦ lookup_id s v
  | some l ↦ (let looked = lookup_id s v in if bytes_eq s l.root then (l.id, v) else looked)
]

pub record WireState : Type 0 where
  pub ending : Climbed
  pub memo : List WireEntry
  pub hashes : ℕ

-- The loop over L1 from level `j`, at node `cur` with index `idx`.
unfoldable pub wire_loop :
    Hasher → ℕ → ℕ → Hash → ℕ → List PathElem → List WireEntry → ℕ → WireState
wire_loop h id j cur idx [] memo hashes = record { ending = top cur; memo = memo; hashes = hashes }
wire_loop h id j cur idx (e ∷ path) memo hashes =
    let parent = parent_of h cur e in
    let k = memo_key id (suc j) (idx / 2) in
    elim (node_at k memo) [
      | some existing ↦ record {
        ending = if not (bytes_eq existing parent) then inconsistent else merged;
        memo = memo;
        hashes = suc hashes;
      }
      | none ↦
          wire_loop h id (suc j) parent (idx / 2) path (record { key = k; node = parent } ∷ memo)
            (suc hashes)
    ]

-- The leaf, the L1 path and the subtree root; the stack array has room for 64 elements.
pub record Front : Type 0 where
  pub leaf : Hash
  pub l1 : List PathElem
  pub root : Hash

unfoldable pub decode_few : ℕ → Decoder (List PathElem)
decode_few n d = let elems = decode_elems n d in if ltb 64 n then none else elems

unfoldable pub decode_front : Decoder Front
decode_front = take_of 32 >>= λ leaf. take_of 2 >>= λ n1. decode_few (le_value n1) >>= λ l1.
    take_of 32 >>= λ root. done (record { leaf = leaf; l1 = l1; root = root })

-- The L2 path and the header.
unfoldable pub decode_back : Decoder (List PathElem × Header)
decode_back =
    take_of 2 >>= λ n2. decode_elems (le_value n2) >>= λ l2. take_of 80 >>= λ hdr. done (l2, hdr)

module _ ⦃sha : Sha256⦄ (h : Hasher) (chain : Option HeaderChain) where
  -- The header, once per block: the maps after it, or `none` for the early return.
  unfoldable pub wire_header : Header → Verifier → Option Verifier
  wire_header hdr v =
      let hk = double_sha256 hdr in
      if marked hk v.hdr_ok
      then some v
      else if off_chain chain hdr
      then none
      else some (record v { hdr_ok = hk ∷ v.hdr_ok })

  -- L2, once per subtree, and the header; the count beside a refusal.
  unfoldable pub wire_l2 : Hash → ℕ → List PathElem → Header → Verifier → Option Verifier × ℕ
  wire_l2 root id l2 hdr v =
      let (br, n) = fold_count h root l2 in
      if holds_id id v.sub_ok
      then (wire_header hdr v, v.hashes)
      else if not (bytes_eq br (header_merkle_root hdr))
      then (none, v.hashes + n)
      else (
        wire_header hdr (record v { sub_ok = id ∷ v.sub_ok; hashes = v.hashes + n }),
        v.hashes + n,
      )

  -- The body of the loop over the proofs, on the bytes of one.
  unfoldable pub wire_proof : Bytes → Verifier → Option Verifier × ℕ
  wire_proof b v = elim (decode_front b) [
    | none ↦ (none, v.hashes)
    | some (f, rest) ↦
        (let (id, v1) = assign_id f.root v in
          let s = wire_loop h id 0 f.leaf (leaf_index f.l1) f.l1 v1.memo v1.hashes in
          let v2 : Verifier = record v1 { memo = s.memo; hashes = s.hashes } in
          if refused s.ending f.root then (none, s.hashes) else elim (decode_back rest) [
            | none ↦ (none, s.hashes)
            | some ((l2, hdr), spare) ↦ wire_l2 f.root id l2 hdr v2
          ])
  ]

  -- `n` proofs more, after `p` of them: the answer, the count of hashes and of proofs.
  unfoldable pub wire_loop_from : ℕ → ℕ → Bytes → Verifier → Bool × (ℕ × ℕ)
  wire_loop_from zero p wire v = (true, (v.hashes, p))
  wire_loop_from (suc n) p wire v = elim (take_of 4 wire) [
    | none ↦ (false, (v.hashes, p))
    | some (lp, after) ↦ elim (take_of (le_value lp) after) [
      | none ↦ (false, (v.hashes, p))
      | some (b, later) ↦
          (let (next, hashes) = wire_proof b v in
            elim next [ none ↦ (false, (hashes, p)) | some v' ↦ wire_loop_from n (suc p) later v' ])
    ]
  ]

  unfoldable pub verify_wire : Bytes → Bool × (ℕ × ℕ)
  verify_wire wire =
      let whole = wire_loop_from (le_value (take 4 wire)) 0 (drop 4 wire) new_verifier in
      if ltb (length wire) 4 then (false, (0, 0)) else whole
