-- ===== src/Util.antt =====
-- src/util
pub mod SendAosMessage
pub mod HexString
pub mod EcPointCompress
pub mod Config
