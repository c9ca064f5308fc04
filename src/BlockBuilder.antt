-- ===== src/BlockBuilder.antt =====
-- block-builder/src/app: the service that collects transactions into blocks.
pub mod NonceManager
pub mod Types
pub mod BlockPost
pub mod Posting
pub mod Fee
pub mod Storage
