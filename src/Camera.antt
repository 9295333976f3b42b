-- ===== src/Camera.antt =====
-- The camera package: the native transport of camera/native_cs2.go and the media payloads of
-- camera/native_miss.go, and the latest pictures of camera/stream_manager.go.
pub mod Channel
pub mod Command
pub mod Payload
pub mod Snapshot
