-- ===== src/Fabric/Batch.antt =====
-- BatchVerify of fabric/fabric.go. Its three maps are an association list and two lists of keys.
use mfspv.Base.{
  ℕ, suc, ◌+◌, ◌/◌, ◌^◌, Bool, true, false, not, ◌&&◌, ◌||◌, List, [], ◌∷◌, bytes_eq, Option, none,
  some, ltb, ◌==◌, if◌then◌else◌,
}
use mfspv.Commitment.Hashing.{Sha256, Hash, PathElem, double_sha256}
use mfspv.Teranode.Source.{HeaderChain}
use mfspv.Bundle.Types.{header_merkle_root}
use mfspv.Fabric.Proof.{Hasher, Proof, parent_of, fold_count, off_chain}

pub record NodeKey : Type 0 where
  pub subtree : Hash
  pub level : ℕ
  pub index : ℕ

pub record Entry : Type 0 where
  pub key : NodeKey
  pub node : Hash

unfoldable pub key_eq : NodeKey → NodeKey → Bool
key_eq a b = bytes_eq a.subtree b.subtree && (a.level == b.level && a.index == b.index)

-- `memo[k]`
unfoldable pub lookup : NodeKey → List Entry → Option Hash
lookup k [] = none
lookup k (e ∷ memo) = let older = lookup k memo in if key_eq k e.key then some e.node else older

-- The keys of a map to booleans that holds only true.
unfoldable pub marked : Hash → List Hash → Bool
marked k [] = false
marked k (x ∷ xs) = bytes_eq k x || marked k xs

-- The bits from position `j` on; a shift of a uint64 by 64 or more gives 0.
unfoldable pub index_bits : ℕ → List PathElem → ℕ
index_bits j [] = 0
index_bits j (e ∷ path) = (if e.right || not (ltb j 64) then 0 else 2 ^ j) + index_bits (suc j) path

unfoldable pub leaf_index : List PathElem → ℕ
leaf_index path = index_bits 0 path

-- How the loop over L1 ends: at an inconsistent node, merged into a known one, or at the top.
pub data Climbed : Type 0 where
  inconsistent : Climbed
  merged : Climbed
  top : Hash → Climbed

pub record L1State : Type 0 where
  pub ending : Climbed
  pub memo : List Entry
  pub hashes : ℕ

-- The loop over L1 from level `j`, at node `cur` with index `idx`.
unfoldable pub l1_loop : Hasher → Hash → ℕ → Hash → ℕ → List PathElem → List Entry → ℕ → L1State
l1_loop h s j cur idx [] memo hashes = record { ending = top cur; memo = memo; hashes = hashes }
l1_loop h s j cur idx (e ∷ path) memo hashes =
    let parent = parent_of h cur e in
    let k : NodeKey = record { subtree = s; level = suc j; index = idx / 2 } in
    elim (lookup k memo) [
      | some existing ↦ record {
        ending = if not (bytes_eq existing parent) then inconsistent else merged;
        memo = memo;
        hashes = suc hashes;
      }
      | none ↦
          l1_loop h s (suc j) parent (idx / 2) path (record { key = k; node = parent } ∷ memo)
            (suc hashes)
    ]

-- `!merged && cur != p.SubtreeRoot`, and the early return.
unfoldable pub refused : Climbed → Hash → Bool
refused inconsistent s = true
refused merged s = false
refused (top cur) s = not (bytes_eq cur s)

pub record Maps : Type 0 where
  pub memo : List Entry
  pub subtree_ok : List Hash
  pub header_ok : List Hash
  pub hashes : ℕ

module _ ⦃sha : Sha256⦄ where
  -- L3, once per block: the maps after a proof, or `none` for the early return.
  unfoldable pub l3_part : Option HeaderChain → Proof → Maps → Option Maps
  l3_part chain p m =
      let hk = double_sha256 p.header in
      if marked hk m.header_ok
      then some m
      else if off_chain chain p.header
      then none
      else some (record m { header_ok = hk ∷ m.header_ok })

  -- L2, once per subtree, and then L3: the maps after it, and the count beside a refusal.
  unfoldable pub l2_part : Hasher → Option HeaderChain → Proof → Maps → Option Maps × ℕ
  l2_part h chain p m =
      let (br, n) = fold_count h p.subtree_root p.l2 in
      let counted : Maps = record m {
        subtree_ok = p.subtree_root ∷ m.subtree_ok;
        hashes = m.hashes + n;
      } in
      if marked p.subtree_root m.subtree_ok
      then (l3_part chain p m, m.hashes)
      else if not (bytes_eq br (header_merkle_root p.header))
      then (none, m.hashes + n)
      else (l3_part chain p counted, m.hashes + n)

  -- The body of the loop over the proofs.
  unfoldable pub check_proof : Hasher → Option HeaderChain → Proof → Maps → Option Maps × ℕ
  check_proof h chain p m =
      let s = l1_loop h p.subtree_root 0 p.leaf (leaf_index p.l1) p.l1 m.memo m.hashes in
      if refused s.ending p.subtree_root
      then (none, s.hashes)
      else l2_part h chain p (record m { memo = s.memo; hashes = s.hashes })

  unfoldable pub batch_loop : Hasher → Option HeaderChain → List Proof → Maps → Bool × ℕ
  batch_loop h chain [] m = (true, m.hashes)
  batch_loop h chain (p ∷ proofs) m =
      let (next, hashes) = check_proof h chain p m in
      elim next [ none ↦ (false, hashes) | some m' ↦ batch_loop h chain proofs m' ]

  unfoldable pub batch_verify : Hasher → List Proof → Option HeaderChain → Bool × ℕ
  batch_verify h proofs chain =
      batch_loop h chain proofs (record { memo = []; subtree_ok = []; header_ok = []; hashes = 0 })
