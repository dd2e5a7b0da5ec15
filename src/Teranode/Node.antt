-- ===== src/Teranode/Node.antt =====
-- MockNode of teranode/teranode.go: its state, SealBlock, and the calls that mark it. A Go map is a
-- list of its entries with the newest first, so an entry hides the older ones of its key. A mutex
-- makes each call a step of its own.
use mfspv.Base.{
  ℕ, zero, suc, ◌/◌, ◌%◌, Bool, true, false, List, [], ◌∷◌, ◌++◌, length, take, drop, replicate,
  Bytes, bytes_eq, Option, none, some, Result, ok, err, panic, empty_block, ◌>>=◌, index, ltb, ◌==◌,
  if◌then◌else◌,
}
use mfspv.Commitment.Hashing.{Sha256, Hash, zero_hash, TxFields, double_sha256}
use mfspv.Commitment.Tree.{build_merkle_tree}
use mfspv.Commitment.Fields.{build_mtxid}
use mfspv.Accumulator.Range.{Mmr, new_mmr, append, root}
use mfspv.Teranode.Source.{Header, Outpoint}

pub record TxEntry : Type 0 where
  pub block_hash : Hash
  pub subtree_index : ℕ
  pub leaf_index : ℕ

pub record SealedBlock : Type 0 where
  pub hash : Hash
  pub height : ℕ
  pub header : Header
  pub subtree_roots : List Hash
  pub subtree_trees : List (List (List Hash))
  pub block_layers : List (List Hash)
  pub block_root : Hash
  pub is_carrier : Bool
  pub acc_root : Hash
  pub acc_prefix : ℕ
  pub gen_fields : TxFields

-- An entry of `txIndex`.
pub record TxKey : Type 0 where
  pub txid : Hash
  pub entry : TxEntry

-- An entry of `onBest`.
pub record Best : Type 0 where
  pub block : Hash
  pub on : Bool

-- An entry of `values`.
pub record Value : Type 0 where
  pub outpoint : Outpoint
  pub amount : ℕ

-- The key of an entry of `blocks` is its hash; the outpoints of `spent` are those set to true.
pub record Node : Type 0 where
  pub blocks : List SealedBlock
  pub tx_index : List TxKey
  pub chain : List Hash
  pub headers : List Header
  pub on_best : List Best
  pub spent : List Outpoint
  pub values : List Value
  pub subtree_size : ℕ

unfoldable pub new_mock_node : ℕ → Node
new_mock_node subtree_cap = record {
  blocks = [];
  tx_index = [];
  chain = [];
  headers = [];
  on_best = [];
  spent = [];
  values = [];
  subtree_size = if ltb subtree_cap 1 then 1 else subtree_cap;
}

-- `n.blocks[h]`
unfoldable pub block_at : Hash → List SealedBlock → Option SealedBlock
block_at h [] = none
block_at h (b ∷ blocks) =
    let older = block_at h blocks in if bytes_eq h b.hash then some b else older

-- `n.txIndex[txid]`
unfoldable pub entry_at : Hash → List TxKey → Option TxEntry
entry_at t [] = none
entry_at t (k ∷ keys) =
    let older = entry_at t keys in if bytes_eq t k.txid then some k.entry else older

-- `n.onBest[h]`, false where there is none.
unfoldable pub best_at : Hash → List Best → Bool
best_at h [] = false
best_at h (b ∷ bests) = let older = best_at h bests in if bytes_eq h b.block then b.on else older

-- `n.chain[len(n.chain)-1]`
unfoldable pub last_of : List Hash → Option Hash
last_of [] = none
last_of (h ∷ []) = some h
last_of (h ∷ g ∷ rest) = last_of (g ∷ rest)

-- The bytes of "coinbase-marker".
abbrev pub coinbase_marker : Bytes
coinbase_marker =
    99 ∷ 111 ∷ 105 ∷ 110 ∷ 98 ∷ 97 ∷ 115 ∷ 101 ∷ 45 ∷ 109 ∷ 97 ∷ 114 ∷ 107 ∷ 101 ∷ 114 ∷ []

abbrev pub acc_root_field_index : ℕ
acc_root_field_index = 1

unfoldable pub gen_fields_of : Hash → TxFields
gen_fields_of acc_root =
    record { index = 0; bytes = coinbase_marker }
    ∷ record { index = acc_root_field_index; bytes = acc_root }
    ∷ []

-- The previous block's hash, zero for the first block; a missing block is a nil pointer.
unfoldable pub prev_hash : Node → Result Hash
prev_hash n = elim (last_of n.chain) [
  | none ↦ ok zero_hash
  | some h ↦ elim (block_at h n.blocks) [ none ↦ err panic | some b ↦ ok b.hash ]
]

-- version, previous hash, Merkle root, and the height in two bytes of the time.
unfoldable pub header_bytes : Hash → Hash → ℕ → Header
header_bytes prev block_root height =
    (1 ∷ 0 ∷ 0 ∷ 0 ∷ [])
    ++ (prev ++ (block_root ++ ((height % 256) ∷ (height / 256 % 256) ∷ replicate 10 0)))

-- The inner loop over the leaves of subtree `st`.
unfoldable pub index_leaves : Hash → ℕ → ℕ → List Hash → List TxKey → List TxKey
index_leaves h st li [] keys = keys
index_leaves h st li (txid ∷ leaves) keys = index_leaves h st (suc li) leaves (
    record { txid = txid; entry = record { block_hash = h; subtree_index = st; leaf_index = li } }
    ∷ keys)

-- `layers[0]` of each subtree.
unfoldable pub index_trees : Hash → ℕ → List (List (List Hash)) → List TxKey → Result (List TxKey)
index_trees h st [] keys = ok keys
index_trees h st (layers ∷ trees) keys = do
  leaves ← index layers 0
  index_trees h (suc st) trees (index_leaves h st 0 leaves keys)

unfoldable pub mark_spent : Node → Outpoint → Node
mark_spent n o = record n { spent = o ∷ n.spent }

unfoldable pub set_output_value : Node → Outpoint → ℕ → Node
set_output_value n o value = record n {
  values = record { outpoint = o; amount = value } ∷ n.values;
}

unfoldable pub orphan : Node → Hash → Node
orphan n h = record n { on_best = record { block = h; on = false } ∷ n.on_best }

unfoldable pub restore : Node → Hash → Node
restore n h = record n { on_best = record { block = h; on = true } ∷ n.on_best }

module _ ⦃sha : Sha256⦄ where
  -- The loop that appends headers to an MMR.
  unfoldable pub append_headers : List Header → Mmr → Mmr
  append_headers [] m = m
  append_headers (h ∷ headers) m = append_headers headers (append m h).0

  unfoldable pub mmr_root_of_prefix : Node → ℕ → Hash
  mmr_root_of_prefix n p = root (append_headers (take p n.headers) new_mmr)

  -- The loop over the subtrees, on as many rounds as there are leaves: a subtree takes one at least.
  unfoldable pub seal_subtrees : ℕ → ℕ → List Hash → Result (List Hash × List (List (List Hash)))
  seal_subtrees zero size leaves = ok ([], [])
  seal_subtrees (suc rounds) size [] = ok ([], [])
  seal_subtrees (suc rounds) size (leaf ∷ leaves) = do
    (r, layers) ← build_merkle_tree (take size (leaf ∷ leaves))
    (roots, trees) ← seal_subtrees rounds size (drop size (leaf ∷ leaves))
    ok (r ∷ roots, layers ∷ trees)

  -- A block before its trees: what it carries, and its leaves.
  pub record Draft : Type 0 where
    pub carries : Bool
    pub committed : Hash
    pub prefix : ℕ
    pub gen : TxFields
    pub leaf_set : List Hash

  unfoldable pub draft : Node → List Hash → Bool → Result Draft
  draft n txids commit =
      let acc = mmr_root_of_prefix n (length n.chain) in
      if commit
      then (do
        (gen_mtxid, layers) ← build_mtxid (gen_fields_of acc)
        ok (record {
          carries = true;
          committed = acc;
          prefix = length n.chain;
          gen = gen_fields_of acc;
          leaf_set = gen_mtxid ∷ txids;
        }))
      else ok (record {
        carries = false;
        committed = zero_hash;
        prefix = 0;
        gen = [];
        leaf_set = txids;
      })

  -- The header, the hash and the updates of the maps. The node after the call, and the hash.
  unfoldable pub finish_seal :
      Node
      → Draft
      → List Hash
      → List (List (List Hash))
      → Hash
      → List (List Hash)
      → Result (Node × Hash)
  finish_seal n d roots trees block_root block_layers = do
    prev ← prev_hash n
    let hdr = header_bytes prev block_root (length n.chain)
    let h = double_sha256 hdr
    keys ← index_trees h 0 trees n.tx_index
    ok (
      record n {
        blocks =
            record {
              hash = h;
              height = length n.chain;
              header = hdr;
              subtree_roots = roots;
              subtree_trees = trees;
              block_layers = block_layers;
              block_root = block_root;
              is_carrier = d.carries;
              acc_root = d.committed;
              acc_prefix = d.prefix;
              gen_fields = d.gen;
            }
            ∷ n.blocks;
        tx_index = keys;
        chain = n.chain ++ (h ∷ []);
        headers = n.headers ++ (hdr ∷ []);
        on_best = record { block = h; on = true } ∷ n.on_best;
      },
      h,
    )

  -- An error leaves the node as it was.
  unfoldable pub seal_block : Node → List Hash → Bool → Result (Node × Hash)
  seal_block n txids commit = if length txids == 0 then err empty_block else (do
    d ← draft n txids commit
    (roots, trees) ← seal_subtrees (length d.leaf_set) n.subtree_size d.leaf_set
    (block_root, block_layers) ← build_merkle_tree roots
    finish_seal n d roots trees block_root block_layers)
