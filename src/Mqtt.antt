-- ===== src/Mqtt.antt =====
-- mqtt.go: the connection to a broker. Its configuration, and the connection itself.
pub mod Config
pub mod Conn
