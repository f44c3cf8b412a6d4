-- ===== src/Validation.antt =====
-- src/validation
pub mod Dto
pub mod RelayInfoService
pub mod AtorKey
pub mod ValidationService
