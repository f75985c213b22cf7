-- ===== src/ConnectionPool/Receive.antt =====
-- TransLayer::recvByteStream: bytes from recv(2), which is a parameter, are put behind those in the
-- receive buffer, and the frames that are whole are handled. `in_buf` is what the buffer holds, and
-- in_buf_size_ its length.
pub mod Bounded
pub mod Quiet
use pinpoint_c_agent.Base.{
  ℕ, zero, suc, ◌-◌, Bool, List, [], ◌++◌, Option, none, some, ltb, if◌then◌else◌, ℤ, pos, negsuc,
  length, drop,
}
use pinpoint_c_agent.ConnectionPool.Frame.{in_msg_buf_size, handle_msg_stream}

-- What recv(2) returns: bytes, 0 (`closed`), or -1 with an error that says to wait (`would_block`)
-- or another one (`broken`).
pub data RecvResult : Type 0 where
  received : List ℕ → RecvResult
  closed would_block broken : RecvResult

-- The receive buffer, the state of the callbacks, and the kernel's side of the socket.
pub record Receiver (S K : Type 0) : Type 0 where
  pub in_buf : List ℕ
  pub handlers : S
  pub kernel : K

module _ {S K : Type 0} (route : ℕ → Option (List ℕ → S → ℤ × S))
    (recv : ℕ → K → RecvResult × K) where
  -- What the loop does when HandleMsgStream has seen the bytes `buf`; `again` is the loop.
  abbrev pub stream_answer :
      Option (ℤ × S)
      → List ℕ
      → K
      → Receiver S K
      → (Receiver S K → Option (ℤ × Receiver S K))
      → Option (ℤ × Receiver S K)
  stream_answer none buf k c again = none
  stream_answer (some (negsuc e, s)) buf k c again =
      some (negsuc 0, record c { handlers = s; kernel = k })
  stream_answer (some (pos offset, s)) buf k c again =
      if ltb offset (length buf)
      then again (record { in_buf = drop offset buf; handlers = s; kernel = k })
      else again (record { in_buf = []; handlers = s; kernel = k })

  -- What it does with an answer of recv(2).
  abbrev pub recv_answer :
      RecvResult × K
      → Receiver S K
      → (Receiver S K → Option (ℤ × Receiver S K))
      → Option (ℤ × Receiver S K)
  recv_answer (received bytes, k) c again =
      stream_answer (handle_msg_stream route (c.in_buf ++ bytes) c.handlers) (c.in_buf ++ bytes) k c
        again
  recv_answer (closed, k) c again = some (negsuc 0, record c { kernel = k })
  recv_answer (would_block, k) c again = some (pos 0, record c { kernel = k })
  recv_answer (broken, k) c again = some (negsuc 0, record c { kernel = k })

  -- The loop, with fuel; `none` means that the fuel ran out.
  unfoldable pub recv_byte_stream : ℕ → Receiver S K → Option (ℤ × Receiver S K)
  recv_byte_stream zero c = none
  recv_byte_stream (suc fuel) c =
      let next =
        recv_answer (recv (in_msg_buf_size - length c.in_buf) c.kernel) c (recv_byte_stream fuel) in
      if ltb (length c.in_buf) in_msg_buf_size then next else some (negsuc 0, c)
