-- ===== src/Utils.antt =====
-- src/utils and src/services/auth.rs: signatures, the node's key pair, enrollment tokens.
pub mod Keys
pub mod Crypto
pub mod Tokens
pub mod KeyFile
