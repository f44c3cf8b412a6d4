-- ===== src/Verification/Hardware.antt =====
-- src/verification/hardware-verification.service.ts
pub mod SerialProof
pub mod Owner
pub mod Proof
pub mod Documents
pub mod Ownership
pub mod Soundness
pub mod Cases
pub mod Quiet
pub mod Lookup
pub mod Authentic
pub mod MessageBytes
pub mod NftIdHex
pub mod Message
pub mod Binding
pub mod Certificate
pub mod CertificateChecks
pub mod Contracts
