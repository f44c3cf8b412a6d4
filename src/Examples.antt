-- ===== src/Examples.antt =====
-- Concrete services, on which the theorems are applied.
mod Services
mod Registering
mod Validating
mod Persisting
mod Clustering
mod Devices
mod Proofs
