-- ===== src/Payments.antt =====
-- src/payments: amounts and their texts, the rules of a refund, and the provider for development.
pub mod Decimal
pub mod Money
pub mod Mock
