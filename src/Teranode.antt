-- ===== src/Teranode.antt =====
-- teranode/teranode.go: the interfaces, the pruned view that implements one of them, and the mock node.
pub mod Source
pub mod Pruned
pub mod Node
pub mod Serve
pub mod Trees
pub mod Sealed
pub mod Sealing
pub mod Served
pub mod Indexed
pub mod Steps
pub mod Into
