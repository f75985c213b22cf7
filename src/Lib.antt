-- ===== src/Lib.antt =====
-- The common library of the Pinpoint C agent: the parts of common/src that carry its logic.
--
-- A traced program reports what it does as trees of nodes. A node comes from the node pool, is
-- filled with annotations and hung under its parent, and goes back to the pool when the trace ends.
-- A rate limit decides how many traces of a second are kept. A finished trace is written, with a
-- frame header, into the send buffer of a connection, from where it goes to the collector agent when
-- the socket takes it; the collector agent answers with frames of its own.
--
-- Base: what all share: tests on numbers, lists and blocks of memory, integers, uint32_t words.
-- Cache: common/src/Cache.
--   Cache/Chunk/Buffer, Cache/Chunk/Flow: class Chunks of Chunk.h and Chunk.cpp, one definition for
--     each function: copyDataIntoChunks is `copy_data_into_chunks`, drainOutWithPipe is
--     `drain_out_with_pipe`, checkCapacity is `check_capacity`, and so on.
--   Cache/Chunk/Valid: its invariant, and its view as a queue of bytes, `pending`. The other files of
--     Cache/Chunk are proofs: Ceil (the size of a block), Fill, Copy, Reuse, Fifo, Queue (data in),
--     Drain, Pipe (data out), Water, Reset, Capacity.
--   Cache/State: ProcessState of State.h and State.cpp; Limit is about CheckTraceLimit, Start about
--     the start time and the unique ids.
-- NodePool: common/src/NodePool.
--   NodePool/Node: TraceNode and the contexts of Context/ContextType.h.
--   NodePool/Pool: PoolManager; GetNode is `get_ready_node`, ReturnNode `return_node`, FreeNodeTree
--     `free_node_tree`. The other files are proofs: Cells and Marks (the vectors), Valid (the
--     invariant), Pop and Get (requests), Return, Free, Chain, and Settings (contexts and options).
--   NodePool/Append: AppendToRootTrace; Linked and Call are its proofs.
--   NodePool/Finish: TraceNode::EndTrace, setNodeUserOption, EncodeTraceToJsonSpan and the list of
--     Status; Encode and Options are its proofs, on Touch, which is about writes through a TraceNode&. Tree is what
--     a trace is in the pool.
-- ConnectionPool: common/src/ConnectionPool.
--   ConnectionPool/Frame: TransLayer::HandleMsgStream; Bytes writes frames, Stream and Stops are the
--     proofs.
--   ConnectionPool/Send: _do_write_data and _send_msg_to_collector; Write and Queue are the proofs,
--     which use those of the send buffer.
--   ConnectionPool/Receive: recvByteStream; Bounded is its proofs.
--   ConnectionPool/Submit: copy_into_send_buffer; Framed is its proofs.
--   ConnectionPool/Connect: connect_stream_remote, connect_unix_remote and strcasecmp_, with the
--     system as the record `Sockets`.
--   ConnectionPool/Trans: class TransLayer as a whole, connect_remote and _reset_remote.
--   ConnectionPool/Events: PoolEventOnce is `pool_event_once`, SyncSendAll `sync_send_all`. Turn and
--     Once are the proofs, on Network (what the system's calls promise) and Sound (the invariant of
--     a connection).
--   ConnectionPool/Spans: SpanConnectionPool; Sound is its proofs.
-- Version: compare_version of common/src/common.cpp; Order and Texts are its proofs.
-- Agent: class Agent of common/src/common.cpp. A method is an action on the node pool of its thread,
--   which returns a result or an error; Annotate has the annotations, Trace has StartTrace, EndTrace,
--   TrySendSpan and SendSpanTrace, Greeting has HandleHelloMsg. Valid, Runs, Send, Sent, Finish, Start,
--   Contexts, Child and Event are proofs.
-- Api: the C interface of common/src/common.cpp, on what one thread sees, `Runtime`: its pool and
--   current id, the agent of the process and the kernel; Calls has the annotations and questions.
--   Steps has a run as a sequence of calls, with what other threads do between them, and Runs is
--   about all runs.
-- Examples: tests, and the theorems at concrete inputs.
--
-- State is passed explicitly: an operation takes the state and returns it with its result. A thrown
-- exception is `err` or `none`. uint32_t arithmetic wraps around as written (`add32`, `sub32`,
-- `shl32`); counters that the code bounds by the size of the pool are not wrapped. What the
-- operating system does is a parameter: malloc, send(2), recv(2), the clock, and what other threads do to
-- the pool while ReturnNode sleeps. The values of annotations are those of the vendored jsoncpp, a
-- type with the operations that the nodes call.
--
-- Fuel: the loop of ck_ceil_to_k has 33 rounds, which take 0x80000000 to 0; the drain has one round
-- more than there are queued bytes, since a pipe that goes on takes one; _do_write_data and
-- HandleMsgStream have one round more than they have bytes; recvByteStream has one round
-- more than there are bytes to come; FreeNodeTree needs two rounds more than
-- there are nodes in use, since a node is freed at most once; ReturnNode has its 1000 attempts;
-- EncodeTraceToJsonSpan has one round more than the chain of the trace is long; SyncSendAll has its
-- 20 rounds; compare_version has one round more than the two texts have bytes. PoolEventOnce and
-- what calls it take one fuel for all of these loops. pinpoint_force_end_trace has rounds, one for
-- each node that it ends, and the fuel of EndTrace.
--
-- The Agent is that of the build for one pool to each thread (without PINPOINT_MT). A text that the
-- program passes is a string of ASCII characters, a text that is scanned a list of bytes. The
-- references that a call takes of a node are given back before it returns, and are left out. Null
-- pointers that a program passes are left out, but for the buffer of pinpoint_get_context_key.
--
-- A callback of a connection may throw: it says -1 and leaves a state on which `threw` is true, and
-- the exception then goes through the event loop, SyncSendAll and TrySendSpan, which destroys its
-- connection, to EndTrace. What recv(2) had put into the buffer in that round is forgotten, since
-- the connection is destroyed. The (int) casts of the sizes of blocks and of what is sent in one call
-- are left out; they change nothing below 2 ^ 31 bytes. A null pointer to the record of a root,
-- which the code would dereference, is the error `logic_error`.
--
-- Not modelled: logging, Cache/NodeTreeWriter and
-- debug_nodeid, which are output; the Windows and macOS variants; the Python and PHP bindings, the
-- plugins and the collector agent, which are programs around the library; the error record of a
-- node, which is written and never read.
pub mod Base
pub mod Cache
pub mod NodePool
pub mod ConnectionPool
pub mod Version
pub mod Agent
pub mod Api
pub mod Examples
