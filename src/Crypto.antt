-- ===== src/Crypto.antt =====
-- src/crypto: the hash that an upload is checked by, and the numbers of the key exchange.
pub mod Sha256
pub mod BigInt
