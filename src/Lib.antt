-- ===== src/Lib.antt =====
-- Multi-level Merkle inclusion evidence: commitments, the header accumulator and bundles.
--
-- A transaction's fields are the leaves of a tree (L0) whose root is the transaction's id; the ids of
-- a subtree (L1) and the subtree roots of a block (L2) close to the Merkle root of the block's header
-- (L3); the headers are the leaves of an accumulator (L4), whose root a later block may carry in a
-- field of its generation transaction. A bundle is what a payer hands to a receiver: one revealed
-- field, the three paths, the header and, optionally, an anchor through L4.
--
-- Files and code:
--   Base          numbers, lists, results and bytes that the parts share.
--   Commitment    commitment/commitment.go. Hashing is DoubleSHA256, HashPair, leafHash and Fold; Tree
--                 is BuildMerkleTree, MerkleRoot, MerklePath, MerklePathInto and CeilLog2; Fields is
--                 BuildMTxID, MTxIDPath and LeafForField; Checks is VerifyMTxIDPath,
--                 VerifySubtreePath, VerifyBlockPath and VerifyToBlockRoot.
--   Accumulator   accumulator/accumulator.go. Range is MMR with Append, Root and ProveBlock; Anchor is
--                 VerifyBlockInChain and VerifyAnchor; Gaps is CoverageGaps and NearestCommitted.
--   Wire          the bounds-checked reader with a sticky error that bundle/serialize.go and
--                 payment/payment.go declare.
--   Teranode      teranode/teranode.go. Source has the interfaces, as records of functions; Pruned is
--                 StaticHeaderChain; Node is the state of MockNode, with SealBlock and the calls that
--                 mark it; Serve is what MockNode answers; Steps is every sequence of its calls.
--   Bundle        bundle/bundle.go and bundle/serialize.go. Types, Verify (Build, Verify,
--                 NeedsReanchor, Reanchor) and Codec (Serialize, Deserialize).
--   Crypto        the interface of keys and signatures that the wallets and the alerts call, with its
--                 laws; below it crypto/ct.go (Masks, Field, Inverse and Points are its operations on
--                 limbs of 64 bits, Complete and Ladder set them against numbers modulo p) and
--                 crypto/secp256k1.go (Keys, Signature, and Affine with the nonce, Sign and Verify).
--   Payment       payment/payment.go. Types, Codec (Encode, DecodeMessage, encodeTx, decodeTx) and
--                 Sighash (preimage, Sighash, VerifyInputSignature).
--   Fabric        fabric/fabric.go, fabric/fetch.go and fabric/codec.go. Proof is VerifyOne and Fetch;
--                 Batch is BatchVerify, its loop bodies as functions on the maps that it keeps; Codec
--                 is EncodeProof, EncodeBatch and DecodeBatch; fabric/stream.go is Stream (VerifyWire).
--   Dsalert       dsalert/dsalert.go. Alert (BuildEvidence, Attest, VerifyAlert) and Bus (Subscribe,
--                 Publish, QuietFor, QuietForOwners).
--   Walletbob     walletbob/walletbob.go. Till is AcceptPayment, Decide and templateSatisfied; Owners
--                 has the key that the owners keep of an outpoint; Sums has the totals of its values;
--                 Store is the receiving keys and Broadcast.
--   Walletalice   walletalice/walletalice.go. Wallet is AddOutput, Sign, FillTemplate and Export.
--   Tests         the theorems at concrete inputs, with a toy digest in place of SHA-256
--                 and toy signatures.
--
-- How the model stands to the code:
--   * SHA-256 is Go's standard library: the record Sha256 has the function, and that its digest is 32
--     bytes. No theorem assumes that it has no collisions: where the code relies on that, the theorem
--     gives two messages of the two folds themselves with one digest as the alternative.
--   * A byte array is a list of numbers. Its length, and that each number is a byte, are hypotheses
--     where a theorem needs them. An index out of range, which panics, is the error `panic`.
--   * Numbers are natural numbers. The widths of the fields of the wire format are in `le_bytes`, which
--     takes remainders as the code's conversions do. An int of the code that counts list elements has
--     no bound in the model; CeilLog2 and mountainSizes read 64 bits, and their theorems say so.
--   * BuildMerkleTree's loop runs on fuel, as many rounds as there are leaves. A level of n nodes, n at
--     least 2, has fewer than n above it, so the fuel does not run out.
--   * The field index of MTxIDPath and the reveal index of Build are a uint8, and are cut to a byte
--     where they are used; the theorems on a chosen field are for positions below 2^8.
--   * CoverageGaps counts up to the tip in a uint64, which wraps round, and its loop runs on fuel of
--     tip + 2: a round for each height and the test that ends the loop. The fuel is enough for every
--     tip below 2^64 - 1. At 2^64 - 1 the code's loop does not end, and the model gives `none`.
--     NearestCommitted goes through int64, and its theorem is for
--     heights below 2^63.
--   * Attest searches nonces without a bound, and here on fuel. The fuel is enough where some nonce
--     below it works, which nothing promises.
--   * Keys and signatures are the record Signatures. Only the theorems on genuine evidence and on
--     filled templates assume laws of it, in the record SignatureLaws.
--   * SealBlock's loop over subtrees runs on as many rounds as there are leaves: a subtree takes one at
--     least. The theorems on a MockNode are for blocks over digests, whose own digest is new.
--   * math/big is arithmetic on natural numbers; big.Int.ModInverse, big.Int.Exp and HMAC are
--     parameters. A negative big.Int occurs only where the source reduces it at once, and is its
--     residue, and in Malleate, where its bytes are those of its absolute value. The search for a nonce has no bound, and runs on fuel. That Verify accepts what Sign made
--     rests on the group law of the curve, which is not proved here: the wallets and the alerts have it
--     as a law of the interface Signatures.
--   * A Go map is an association list or a list of keys. The owners of a payment's inputs are visited
--     in the order of the list, where Go's order is open; an outpoint that two inputs spend keeps the
--     key of the later one, as in the code. A float64 is a parameter with its comparison.
--   * The bus's mutex makes each call one step; the clock's answer is an argument.
--   * A method with a pointer receiver gives the receiver after the call beside its result.
--
-- Not modelled: the pull of the fabric, which measures, and the other measuring, command-line and
-- assembly code.
pub mod Base
pub mod Commitment
pub mod Accumulator
pub mod Wire
pub mod Teranode
pub mod Bundle
pub mod Crypto
pub mod Payment
pub mod Fabric
pub mod Dsalert
pub mod Walletbob
pub mod Walletalice
mod Tests
