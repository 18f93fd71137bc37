-- ===== src/Auth.antt =====
-- src/middlewares: the extractors that authenticate peer nodes and client devices.
pub mod Window
pub mod Node
pub mod Device
