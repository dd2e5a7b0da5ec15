-- ===== src/Fabric.antt =====
-- fabric/fabric.go, fabric/fetch.go, fabric/codec.go and fabric/stream.go: the verification fabric.
pub mod Proof
pub mod Batch
pub mod One
pub mod Codec
pub mod RoundTrip
pub mod Closed
pub mod Sound
pub mod Serving
pub mod Stream
pub mod MemoKey
