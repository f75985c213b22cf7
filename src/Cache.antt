-- ===== src/Cache.antt =====
-- common/src/Cache: the send buffer (Chunk) and the process state (State).
pub mod Chunk
pub mod State
