-- ===== src/Bundle.antt =====
-- bundle/bundle.go and bundle/serialize.go.
pub mod Types
pub mod Codec
pub mod Parts
pub mod RoundTrip
pub mod Verify
pub mod Sound
pub mod Frozen
pub mod Built
pub mod Stored
