-- ===== src/Mips.antt =====
-- The MIPS protocol: the envelope of mips_types.go, the client of mips_client.go, and the topics of
-- common.go.
pub mod Message
pub mod Client
pub mod Topic
