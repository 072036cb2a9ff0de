-- ===== src/Volume.antt =====
-- The volumes of the packages: the project ids of the data directories and their quota limits
-- (ssamd/src/package_volume/data_directory.rs), and the actor that acquires and purges volumes
-- (ssamd/src/package_volume.rs).
pub mod Projects
pub mod Directory
pub mod Manager
