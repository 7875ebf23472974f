-- ===== src/Oms.antt =====
-- engine/net/oms_core.hpp: the order management system.
-- Oms/Order.antt has the order records and the identifiers, Oms/Index.antt the maps, Oms/Core.antt
-- the operations of `OMSCore`; the other children prove what these do.
pub mod Order
pub mod Index
pub mod Core
pub mod Inv
pub mod Runs
pub mod Fills
pub mod Identity
pub mod Stale
mod Tests
