-- ===== src/Miot.antt =====
-- client.go: the runtime client, which coordinates the cloud, the gateways and the LAN.
pub mod Entry
pub mod Refresh
pub mod Local
pub mod Update
pub mod Subs
pub mod Route
pub mod Queue
