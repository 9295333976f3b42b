-- ===== src/Lan/Runtime.antt =====
-- lan.go: the background probing of LAN devices. Durations and times are numbers of nanoseconds, and a
-- time of 0 is the zero time.Time. WithLANRuntimeConfig stores positive values only, so that no
-- duration of the configuration is negative.
pub mod Config
pub mod Device
pub mod Broadcast
pub mod Uplink
