-- ===== src/Cloud.antt =====
-- cloud.go: the cloud client's devices and homes.
pub mod Pages
pub mod Homes
pub mod Base
