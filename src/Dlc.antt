-- ===== src/Dlc.antt =====
-- The crate `dlc`: the transactions of a discreet log contract. The children follow dlc/src/lib.rs,
-- dlc/src/util.rs and dlc/src/channel/mod.rs.
pub mod Tests
pub mod Types
pub mod Fee
pub mod Party
pub mod Order
pub mod Fund
pub mod Cet
pub mod Channel
