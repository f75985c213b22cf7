-- ===== src/Examples.antt =====
-- Tests: the operations on concrete inputs, and the theorems at inputs where their hypotheses hold.
mod Cache
mod Pool
mod Append
mod Stream
mod Network
mod Calls
mod Traces
mod Events
