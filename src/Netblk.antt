-- ===== src/Netblk.antt =====
-- src/netblk: block devices over the network.
pub mod Lru
pub mod Align
pub mod Backend
pub mod Cache
pub mod Nbd
pub mod Readcache
mod Tests
