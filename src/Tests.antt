-- ===== src/Tests.antt =====
-- The theorems at concrete inputs.
mod Partitions
mod Transfers
mod Shapes
mod Proxies
mod Merges
mod Configurations
mod Descriptors
mod Transits
mod Accepts
