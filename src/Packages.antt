-- ===== src/Packages.antt =====
-- Installing, upgrading and removing packages (ssamd/src/package_manager.rs and the folder beside it).
pub mod Transaction
pub mod Manager
pub mod Parser
