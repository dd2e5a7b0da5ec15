-- ===== src/Accumulator.antt =====
-- accumulator/accumulator.go: the Merkle Mountain Range over headers, and the absent periods.
pub mod Range
pub mod Anchor
pub mod Gaps
pub mod Sizes
pub mod Bagging
pub mod Proofs
pub mod Coverage
pub mod Nearest
