-- ===== src/ConnectionPool.antt =====
-- common/src/ConnectionPool/TransLayer.h and TransLayer.cpp: the connection to the collector agent.
pub mod Frame
pub mod Send
pub mod Receive
pub mod Submit
pub mod Connect
pub mod Trans
pub mod Events
pub mod Spans
pub mod Network
pub mod Sound
