-- ===== src/Tests.antt =====
-- Runs on concrete inputs, and the theorems applied to them.
mod Sample
mod Trees
mod Ranges
mod Bundles
mod Payments
mod Proofs
mod Alerts
mod Tills
mod Nodes
mod Wallets
mod Curves
mod Streams
