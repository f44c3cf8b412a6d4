-- ===== src/Verification.antt =====
-- src/verification
pub mod Dto
pub mod HardwareService
pub mod Hardware
pub mod Claimable
pub mod Verify
pub mod Stats
pub mod HexMap
pub mod Persist
pub mod Log
pub mod MostRecent
