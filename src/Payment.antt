-- ===== src/Payment.antt =====
-- payment/payment.go: the payment transaction, what is signed of it, and the message.
pub mod Types
pub mod Codec
pub mod RoundTrip
pub mod Sighash
