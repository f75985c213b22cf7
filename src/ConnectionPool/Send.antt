-- ===== src/ConnectionPool/Send.antt =====
-- TransLayer::_do_write_data and _send_msg_to_collector: the send queue goes out through send(2),
-- which is a parameter. Its state is that of the kernel.
pub mod Write
pub mod Queue
use pinpoint_c_agent.Base.{
  ℕ, zero, suc, ◌+◌, ◌-◌, ◌≤◌, ◌<◌, ◌≡◌, Bool, true, false, List, ◌++◌, Option, none, some, ltb,
  if◌then◌else◌, ℤ, pos, negsuc, length, take, drop,
}
use pinpoint_c_agent.Cache.Chunk.Buffer.{Chunks}
use pinpoint_c_agent.Cache.Chunk.Flow.{drain_out_with_pipe}

-- What send(2) returns: the number of bytes that it took, 0 (`closed`), or -1 with an error that
-- says to wait (`would_block`) or another one (`broken`).
pub data SendResult : Type 0 where
  wrote : ℕ → SendResult
  closed would_block broken : SendResult

-- The S_WRITING bit of _state, and the kernel's side of the socket.
pub record Peer (K : Type 0) : Type 0 where
  pub writing : Bool
  pub kernel : K

module _ {K : Type 0} (send : List ℕ → K → SendResult × K) where
  -- What the loop does with an answer of send(2) at `ofs`; `again` is the loop.
  abbrev pub write_answer :
      SendResult × K → ℕ → Peer K → (ℕ → Peer K → Option (ℤ × Peer K)) → Option (ℤ × Peer K)
  write_answer (wrote n, k) ofs p again = again (ofs + n) (record p { kernel = k })
  write_answer (closed, k) ofs p again = some (negsuc 0, record p { kernel = k })
  write_answer (would_block, k) ofs p again = some (pos ofs, record { writing = true; kernel = k })
  write_answer (broken, k) ofs p again = some (negsuc 0, record p { kernel = k })

  -- The loop at the offset `ofs`, with fuel; `none` means that the fuel ran out.
  unfoldable pub write_loop : ℕ → List ℕ → ℕ → Peer K → Option (ℤ × Peer K)
  write_loop zero data_ ofs p = none
  write_loop (suc fuel) data_ ofs p =
      let next = write_answer (send (drop ofs data_) p.kernel) ofs p (write_loop fuel data_) in
      if ltb ofs (length data_)
      then next
      else some (pos (length data_), record p { writing = false })

  -- Each send takes a byte at least, so the length is enough fuel.
  unfoldable pub do_write_data : List ℕ → Peer K → Option (ℤ × Peer K)
  do_write_data data_ p = write_loop (suc (length data_)) data_ 0 p

  abbrev pub or_broken : Peer K → Option (ℤ × Peer K) → ℤ × Peer K
  or_broken p none = (negsuc 0, p)
  or_broken p (some r) = r

  -- _do_write_data as the pipe of a drain. (It always returns: do_write_data-Writes.)
  abbrev pub write_pipe : List ℕ → Peer K → ℤ × Peer K
  write_pipe data_ p = or_broken p (do_write_data data_ p)

  unfoldable pub send_msg_to_collector : ℕ → Chunks → Peer K → Option (ℤ × Chunks × Peer K)
  send_msg_to_collector fuel c p = drain_out_with_pipe write_pipe fuel c p
