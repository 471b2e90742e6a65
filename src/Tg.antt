-- ===== src/Tg.antt =====
-- What stands between the storage and Telegram.
pub mod AccountPool
pub mod TlCodec
