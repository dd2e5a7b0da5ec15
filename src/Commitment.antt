-- ===== src/Commitment.antt =====
-- commitment/commitment.go: the SHA-256d Merkle core, the L0 field tree and the path checks.
-- `index` arguments of type int are natural numbers here: every caller passes a position.
pub mod Hashing
pub mod Tree
pub mod Fields
pub mod Checks
pub mod Levels
pub mod Inclusion
pub mod Binding
pub mod Depth
pub mod FieldPath
pub mod Composed
pub mod Buffer
pub mod Duplication
