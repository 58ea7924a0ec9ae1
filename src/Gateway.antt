-- ===== src/Gateway.antt =====
-- src/gateway.py: keys, the encryption of payloads, version negotiation and the translation of
-- SMTP messages.
pub mod Keys
pub mod Hpke
pub mod Receipt
pub mod Body
pub mod Translate
pub mod Header
pub mod Negotiate
