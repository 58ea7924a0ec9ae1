-- ===== src/Tests.antt =====
-- Concrete instances: a runtime that keeps the documented laws, and the theorems of the other
-- modules applied to small inputs.
pub mod Codec
pub mod Machine
pub mod Data
pub mod Requests
pub mod Engine
pub mod Quarantine
pub mod Envelopes
pub mod Network
pub mod Commands
pub mod Logs
pub mod Demonstration
pub mod Certificates
