-- ===== src/ConnectionPool/Submit.antt =====
-- TransLayer::copy_into_send_buffer: a span is queued behind a frame header.
pub mod Framed
use pinpoint_c_agent.Base.{
  ℕ, ◌+◌, ◌%◌, Bool, true, false, List, ◌++◌, Option, if◌then◌else◌, length, take, u32_mod,
}
use pinpoint_c_agent.Cache.Chunk.Buffer.{Chunks, copy_data_into_chunks}
use pinpoint_c_agent.Cache.Chunk.Flow.{check_capacity}
use pinpoint_c_agent.ConnectionPool.Frame.{header_size}
use pinpoint_c_agent.ConnectionPool.Frame.Bytes.{htonl}

-- The message type of a span.
abbrev pub req_update_span : ℕ
req_update_span = 1

-- The answer, the send buffer and the S_WRITING bit. Each of the two copies may allocate once. A
-- size_t is passed on as a uint32_t.
unfoldable pub copy_into_send_buffer :
    (malloc₁ malloc₂ : ℕ → Option (List ℕ)) → List ℕ → Chunks → Bool → Bool × Chunks × Bool
copy_into_send_buffer malloc₁ malloc₂ data_ c writing =
    let header = htonl req_update_span ++ htonl (length data_ % u32_mod) in
    let c₁ = (copy_data_into_chunks malloc₁ c header).1 in
    let c₂ = (copy_data_into_chunks malloc₂ c₁ (take (length data_ % u32_mod) data_)).1 in
    if check_capacity c ((header_size + length data_) % u32_mod)
    then (true, c₂, true)
    else (false, c, writing)
