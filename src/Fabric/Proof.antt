-- ===== src/Fabric/Proof.antt =====
-- Proof, foldCount and VerifyOne of fabric/fabric.go, and Fetch of fabric/fetch.go.
use mfspv.Base.{
  ℕ, ◌+◌, Bool, true, false, not, List, [], ◌∷◌, length, bytes_eq, Option, none, some, Result, ok,
  ◌>>=◌, if◌then◌else◌,
}
use mfspv.Commitment.Hashing.{Sha256, Hash, PathElem, hash_pair}
use mfspv.Teranode.Source.{Header, ProofSource, HeaderChain}
use mfspv.Bundle.Types.{header_merkle_root}

-- A backend; its name is only printed.
pub record Hasher : Type 0 where
  pub pair : Hash → Hash → Hash

pub record Proof : Type 0 where
  pub leaf : Hash
  pub l1 : List PathElem
  pub subtree_root : Hash
  pub l2 : List PathElem
  pub header : Header

-- The body of the loop of foldCount, which BatchVerify repeats.
unfoldable pub parent_of : Hasher → Hash → PathElem → Hash
parent_of h node e = if e.right then h.pair node e.sibling else h.pair e.sibling node

unfoldable pub fold_nodes : Hasher → Hash → List PathElem → Hash
fold_nodes h node [] = node
fold_nodes h node (e ∷ path) = fold_nodes h (parent_of h node e) path

unfoldable pub fold_count : Hasher → Hash → List PathElem → Hash × ℕ
fold_count h leaf path = (fold_nodes h leaf path, length path)

-- `chain != nil && !chain.Contains(header)`
unfoldable pub off_chain : Option HeaderChain → Header → Bool
off_chain none header = false
off_chain (some chain) header = not (chain.contains header)

unfoldable pub verify_one : Hasher → Proof → Option HeaderChain → Bool × ℕ
verify_one h p chain =
    let (sub, n1) = fold_count h p.leaf p.l1 in
    let (br, n2) = fold_count h p.subtree_root p.l2 in
    if not (bytes_eq sub p.subtree_root)
    then (false, n1)
    else if not (bytes_eq br (header_merkle_root p.header))
    then (false, n1 + n2)
    else if off_chain chain p.header
    then (false, n1 + n2)
    else (true, n1 + n2)

unfoldable pub fetch : Hash → ProofSource → Result Proof
fetch txid src = do
  (l1, sub_root) ← src.subtree_path_for txid
  block_hash ← src.locate_tx txid
  (l2, block_root) ← src.block_path_for sub_root block_hash
  hdr ← src.header_for block_hash
  ok (record { leaf = txid; l1 = l1; subtree_root = sub_root; l2 = l2; header = hdr })

module _ ⦃sha : Sha256⦄ where
  -- `Software{}`, which DefaultHasher returns.
  abbrev pub software : Hasher
  software = record { pair = hash_pair }
