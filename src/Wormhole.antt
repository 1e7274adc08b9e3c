-- ===== src/Wormhole.antt =====
-- doge/src/wormhole: the Wormhole side of a withdrawal, and the Dogecoin transaction that pays it.
pub mod Utx0
pub mod Redeem
pub mod Tx
pub mod Manager
