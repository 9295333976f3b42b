-- ===== src/Tests.antt =====
-- Concrete inputs, on which the theorems are applied.
mod Data
mod Lan
mod Session
mod Runtime
mod Scan
mod Mips
mod Mqtt
mod Camera
mod Stores
mod Client
mod Cloud
