-- ===== src/Walletbob.antt =====
-- walletbob/walletbob.go: the merchant's decision.
pub mod Till
pub mod Owners
pub mod Safety
pub mod Sums
pub mod Store
