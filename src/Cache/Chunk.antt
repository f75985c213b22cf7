-- ===== src/Cache/Chunk.antt =====
-- common/src/Cache/Chunk.h and Chunk.cpp: the send buffer. Buffer and Flow model the code, the
-- other modules are about it.
pub mod Buffer
pub mod Flow
pub mod Ceil
pub mod Valid
pub mod Fill
pub mod Copy
pub mod Reuse
pub mod Fifo
pub mod Queue
pub mod Water
pub mod Reset
pub mod Drain
pub mod Pipe
pub mod Capacity
