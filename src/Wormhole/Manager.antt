-- ===== src/Wormhole/Manager.antt =====
-- doge/src/wormhole/manager.rs: manager sets, VAAs, and the local manager service.
pub mod Errors
pub mod Set
pub mod Vaa
pub mod Signatures
pub mod Local
