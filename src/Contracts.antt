-- ===== src/Contracts.antt =====
-- src/contracts and src/core/gateway/envelope: the result contract of the facade.
pub mod Envelope
pub mod CapabilityResult
pub mod RunWait
pub mod CapabilitySource
pub mod CapabilityClient
