-- ===== src/Dsalert.antt =====
-- dsalert/dsalert.go: evidence of a double spend, and the bus that collects it.
pub mod Alert
pub mod Bus
pub mod Genuine
pub mod Evidence
pub mod Quiet
