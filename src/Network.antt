-- ===== src/Network.antt =====
-- The network of the packages (ssamd/src/network): addresses, the actor that hands them out, and the
-- restoring of its state.
pub mod Slots
pub mod Ipnet
pub mod Bridge
pub mod Pool
pub mod Actor
pub mod Restore
