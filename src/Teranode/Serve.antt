-- ===== src/Teranode/Serve.antt =====
-- What a MockNode of teranode/teranode.go answers: ProofSource, HeaderChain, UTXOClient and
-- ValueOracle over its state, ServeInto and ProveHeaderInAccumulator.
use mfspv.Base.{
  ℕ, suc, Bool, false, not, ◌&&◌, ◌||◌, List, [], ◌∷◌, length, take, bytes_eq, Option, none, some,
  Result, Error, ok, err, panic, unknown_tx, unknown_block, no_accumulator, not_in_block,
  not_in_prefix, ◌>>=◌, index, leb, ◌==◌, if◌then◌else◌,
}
use mfspv.Commitment.Hashing.{Sha256, Hash, PathElem, double_sha256}
use mfspv.Commitment.Tree.{merkle_path, merkle_path_into}
use mfspv.Commitment.Fields.{mtxid_path}
use mfspv.Accumulator.Range.{new_mmr, prove_block}
use mfspv.Teranode.Source.{
  Header, Outpoint, GenAccumulator, ProofSource, HeaderChain, UtxoClient, ValueOracle,
}
use mfspv.Teranode.Node.{
  TxEntry, SealedBlock, Value, Node, block_at, entry_at, best_at, acc_root_field_index,
  append_headers,
}

-- A block that is there, or the error of the call.
unfoldable pub found {ℓ} : {A : Type ℓ} → Error → Option A → Result A
found e none = err e
found e (some a) = ok a

-- The entry and its block; the pointer of a block that is missing is nil.
unfoldable pub entry_block : Node → Hash → Result (TxEntry × SealedBlock)
unfolding found
entry_block n txid = do
  e ← found unknown_tx (entry_at txid n.tx_index)
  sb ← found panic (block_at e.block_hash n.blocks)
  ok (e, sb)

unfoldable pub subtree_path_for : Node → Hash → Result (List PathElem × Hash)
subtree_path_for n txid = do
  (e, sb) ← entry_block n txid
  layers ← index sb.subtree_trees e.subtree_index
  path ← merkle_path layers e.leaf_index
  r ← index sb.subtree_roots e.subtree_index
  ok (path, r)

-- The loop that looks for a subtree root.
unfoldable pub root_index : Hash → List Hash → ℕ → Option ℕ
root_index r [] i = none
root_index r (x ∷ roots) i =
    let later = root_index r roots (suc i) in if bytes_eq x r then some i else later

unfoldable pub block_path_for : Node → Hash → Hash → Result (List PathElem × Hash)
unfolding found
block_path_for n subtree_root block_hash = do
  sb ← found unknown_block (block_at block_hash n.blocks)
  idx ← found not_in_block (root_index subtree_root sb.subtree_roots 0)
  path ← merkle_path sb.block_layers idx
  ok (path, sb.block_root)

unfoldable pub header_for : Node → Hash → Result Header
unfolding found
header_for n block_hash = do sb ← found unknown_block (block_at block_hash n.blocks); ok sb.header

unfoldable pub locate_tx : Node → Hash → Result Hash
unfolding found
locate_tx n txid = do e ← found unknown_tx (entry_at txid n.tx_index); ok e.block_hash

-- BlockRoot: `none` is a block that is not found.
unfoldable pub block_root_of : Node → Hash → Option Hash
block_root_of n block_hash = elim (block_at block_hash n.blocks) [
  | none ↦ none
  | some sb ↦ some sb.block_root
]

-- `path, _ := …`: the nil slice beside an error.
unfoldable pub or_nil : Result (List PathElem) → List PathElem
or_nil (ok p) = p
or_nil (err e) = []

-- What ServeInto gives beside `ok`; `none` is a transaction that is not found.
pub record Served : Type 0 where
  pub l1 : List PathElem
  pub l2 : List PathElem
  pub subtree_root : Hash
  pub header : Header

unfoldable pub serve_from : SealedBlock → TxEntry → List PathElem → List PathElem → Result Served
serve_from sb e l1dst l2dst = do
  layers ← index sb.subtree_trees e.subtree_index
  r ← index sb.subtree_roots e.subtree_index
  ok (record {
    l1 = or_nil (merkle_path_into layers e.leaf_index l1dst);
    l2 = or_nil (merkle_path_into sb.block_layers e.subtree_index l2dst);
    subtree_root = r;
    header = sb.header;
  })

unfoldable pub serve_into : Node → Hash → List PathElem → List PathElem → Option (Result Served)
serve_into n txid l1dst l2dst = elim (entry_at txid n.tx_index) [
  | none ↦ none
  | some e ↦ some (elim (block_at e.block_hash n.blocks) [
    | none ↦ err panic
    | some sb ↦ serve_from sb e l1dst l2dst
  ])
]

unfoldable pub spent_at : Outpoint → List Outpoint → Bool
spent_at o [] = false
spent_at o (s ∷ spent) = (bytes_eq o.txid s.txid && o.vout == s.vout) || spent_at o spent

unfoldable pub value_at : Outpoint → List Value → ℕ
value_at o [] = 0
value_at o (v ∷ values) =
    let older = value_at o values in
    if bytes_eq o.txid v.outpoint.txid && o.vout == v.outpoint.vout then v.amount else older

unfoldable pub utxo_of : Node → UtxoClient
utxo_of n = record { is_unspent = λ o. ok (not (spent_at o n.spent)) }

unfoldable pub oracle_of : Node → ValueOracle
oracle_of n = record { output_value = λ o. ok (value_at o n.values, not (spent_at o n.spent)) }

module _ ⦃sha : Sha256⦄ where
  -- The generation transaction is leaf 0 of subtree 0.
  unfoldable pub gen_tx_accumulator : Node → Hash → Result GenAccumulator
  unfolding found
  gen_tx_accumulator n block_hash = do
    sb ← found unknown_block (block_at block_hash n.blocks)
    if not sb.is_carrier then err no_accumulator else (do
      (leaf, l0, mtxid) ← mtxid_path sb.gen_fields acc_root_field_index
      layers ← index sb.subtree_trees 0
      l1 ← merkle_path layers 0
      l2 ← merkle_path sb.block_layers 0
      ok (record { acc_root = sb.acc_root; fields = sb.gen_fields; l0 = l0; l1 = l1; l2 = l2 }))

  unfoldable pub carrier_at : Node → Hash → Result SealedBlock
  carrier_at n h = elim (block_at h n.blocks) [
    | none ↦ err no_accumulator
    | some sb ↦ if not sb.is_carrier then err no_accumulator else ok sb
  ]

  -- The carrier's prefix is not longer than the headers, so no index is out of range.
  unfoldable pub prove_header_in_accumulator : Node → Hash → Hash → Result (List PathElem × Hash)
  unfolding found
  prove_header_in_accumulator n target_hash carrier_hash = do
    carrier ← carrier_at n carrier_hash
    target ← found unknown_block (block_at target_hash n.blocks)
    if leb carrier.acc_prefix target.height
        then err not_in_prefix
        else if not (leb carrier.acc_prefix (length n.headers))
        then err panic
        else prove_block (append_headers (take carrier.acc_prefix n.headers) new_mmr) target.height

  -- MockNode as ProofSource and as HeaderChain.
  unfoldable pub source_of : Node → ProofSource
  source_of n = record {
    subtree_path_for = subtree_path_for n;
    block_path_for = block_path_for n;
    header_for = header_for n;
    locate_tx = locate_tx n;
    gen_tx_accumulator = gen_tx_accumulator n;
  }

  unfoldable pub contains_header : Node → Header → Bool
  contains_header n h = elim (block_at (double_sha256 h) n.blocks) [
    | none ↦ false
    | some sb ↦ best_at sb.hash n.on_best
  ]

  unfoldable pub chain_of : Node → HeaderChain
  chain_of n = record { contains = contains_header n; best_tip_height = length n.chain }
