-- ===== src/NodePool.antt =====
-- common/src/NodePool: the nodes of a trace (Node) and the pool that owns them (Pool).
pub mod Node
pub mod Pool
pub mod Cells
pub mod Marks
pub mod Valid
pub mod Pop
pub mod Get
pub mod Return
pub mod Free
pub mod Chain
pub mod Settings
pub mod Append
pub mod Touch
pub mod Tree
pub mod Finish
