-- ===== src/Walletalice.antt =====
-- walletalice/walletalice.go: the wallet that pays.
pub mod Wallet
pub mod Signing
pub mod Paying
