-- ===== src/Tests.antt =====
-- Concrete inputs, and the theorems applied to them.
mod Ipv4
mod Addresses
mod Subnets
mod Restoring
mod Packages
mod Payloads
mod Volumes
mod Installs
mod Managing
mod Images
mod Units
mod Bundles
mod Wrapping
mod Mounting
