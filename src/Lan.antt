-- ===== src/Lan.antt =====
-- Direct control over the local network: lan_types.go and lan.go.
pub mod Padding
pub mod Packet
pub mod Probe
pub mod Runtime
pub mod Client
pub mod Dispatch
pub mod Session
pub mod Scan
