-- ===== src/ConnectionPool/Events.antt =====
-- TransLayer::PoolEventOnce and SyncSendAll: the event loop, on the whole state of a connection.
pub mod Turn
pub mod Once
use pinpoint_c_agent.Base.{
  ℕ, zero, suc, ◌-◌, ◌/◌, ◌%◌, ◌^◌, Bool, ◌&&◌, ◌||◌, Option, none, some, ltb, if◌then◌else◌, ℤ,
  pos, negsuc, eqb_ℤ, ltb_ℤ, leb_ℤ, sub_ℕ,
}
use pinpoint_c_agent.Cache.Chunk.Buffer.{Chunks}
use pinpoint_c_agent.ConnectionPool.Send.{Peer, send_msg_to_collector}
use pinpoint_c_agent.ConnectionPool.Receive.{Receiver, recv_byte_stream}
use pinpoint_c_agent.ConnectionPool.Connect.{Sockets, SelectResult, select_failed, timed_out, ready}
use pinpoint_c_agent.ConnectionPool.Trans.{
  TransLayer, World, fd_setsize, connect_remote, reset_remote,
}

-- (int)timeout % 1000.
abbrev pub int_rem_1000 : ℕ → ℤ
int_rem_1000 timeout =
    if ltb timeout (2 ^ 31) then pos (timeout % 1000) else sub_ℕ 0 ((2 ^ 32 - timeout) % 1000)

module _ {S K : Type 0} (sys : Sockets K) where
  -- _send_msg_to_collector on the whole state.
  abbrev pub after_send :
      TransLayer S
      → World S K
      → Option (ℤ × Chunks × Peer K)
      → Option (ℤ × TransLayer S × World S K)
  after_send t w none = none
  after_send t w (some (ret, c, p)) =
      some (ret, record t { chunks = c; writing = p.writing }, record w { kernel = p.kernel })

  unfoldable pub send_event : ℕ → TransLayer S → World S K → Option (ℤ × TransLayer S × World S K)
  send_event fuel t w = after_send t w (
      send_msg_to_collector (sys.send t.c_fd) fuel t.chunks
        (record { writing = t.writing; kernel = w.kernel }))

  -- recvByteStream on the whole state.
  abbrev pub after_recv :
      TransLayer S → Option (ℤ × Receiver S K) → Option (ℤ × TransLayer S × World S K)
  after_recv t none = none
  after_recv t (some (ret, c)) =
      some
        (ret, record t { in_buf = c.in_buf }, record { handlers = c.handlers; kernel = c.kernel })

  unfoldable pub recv_event : ℕ → TransLayer S → World S K → Option (ℤ × TransLayer S × World S K)
  recv_event fuel t w = after_recv t (
      recv_byte_stream t.msg_route_map (sys.recv t.c_fd) fuel
        (record { in_buf = t.in_buf; handlers = w.handlers; kernel = w.kernel }))

  -- ERR_NETWORK of PoolEventOnce.
  unfoldable pub err_network : TransLayer S → World S K → ℤ × TransLayer S × World S K
  err_network t w =
      let (t₁, w₁) = reset_remote sys t w in
      let (fd, t₂, k) = connect_remote sys t₁ w₁.kernel in (negsuc 0, t₂, record w₁ { kernel = k })

  -- A step of the event handling: -1 goes to ERR_NETWORK, and else `next` goes on.
  abbrev pub or_err_network :
      Option (ℤ × TransLayer S × World S K)
      → (TransLayer S → World S K → Option (ℤ × TransLayer S × World S K))
      → Option (ℤ × TransLayer S × World S K)
  or_err_network none next = none
  or_err_network (some (ret, t, w)) next =
      if eqb_ℤ ret (negsuc 0) then some (err_network t w) else next t w

  abbrev pub write_event :
      ℕ → Bool → TransLayer S → World S K → Option (ℤ × TransLayer S × World S K)
  write_event fuel writable t w =
      if t.writing && writable
      then or_err_network (send_event fuel t w) (λ t' w'. some (pos 0, t', w'))
      else some (pos 0, t, w)

  -- The callbacks of HandleMsgStream may throw: they say -1 then, and leave a state on which `threw`
  -- is true. The exception goes through the event loop as it is, without ERR_NETWORK.
  module _ (threw : S → Bool) where
    abbrev pub after_callbacks :
        Option (ℤ × TransLayer S × World S K)
        → (TransLayer S → World S K → Option (ℤ × TransLayer S × World S K))
        → Option (ℤ × TransLayer S × World S K)
    after_callbacks none next = none
    after_callbacks (some (ret, t, w)) next =
        let answered = or_err_network (some (ret, t, w)) next in
        if threw w.handlers then some (negsuc 0, t, w) else answered

    abbrev pub read_event :
        ℕ → Bool → Bool → TransLayer S → World S K → Option (ℤ × TransLayer S × World S K)
    read_event fuel readable writable t w =
        if t.reading && readable
        then after_callbacks (recv_event fuel t w) (write_event fuel writable)
        else write_event fuel writable t w

    -- The sets that select(2) left. The descriptor was in the set for writing if S_WRITING was on.
    abbrev pub on_events :
        ℕ → SelectResult × K → TransLayer S → World S K → Option (ℤ × TransLayer S × World S K)
    on_events fuel (select_failed, k) t w = some (negsuc 0, t, record w { kernel = k })
    on_events fuel (timed_out, k) t w = some (pos 0, t, record w { kernel = k })
    on_events fuel (ready readable writable failed, k) t w =
        if t.failing && failed
        then some (err_network t (record w { kernel = k }))
        else read_event fuel readable (t.writing && writable) t (record w { kernel = k })

    -- From the descriptor on.
    abbrev pub poll : ℕ → ℕ → TransLayer S → World S K → Option (ℤ × TransLayer S × World S K)
    poll fuel timeout t w =
        if ltb_ℤ t.c_fd (pos 0) || leb_ℤ (pos fd_setsize) t.c_fd
        then (let (t', w') = reset_remote sys t w in some (negsuc 0, t', w'))
        else on_events fuel
            (sys.select t.c_fd t.writing (timeout / 1000) (int_rem_1000 timeout) w.kernel) t w

    -- -1 is the greatest size_t, and stands for an exception as well. `fuel` is for the two loops of
    -- reading and writing.
    unfoldable pub pool_event_once :
        ℕ → ℕ → TransLayer S → World S K → Option (ℤ × TransLayer S × World S K)
    pool_event_once fuel timeout t w =
        let (fd, t₁, k) = connect_remote sys t w.kernel in
        let w₁ = record w { kernel = k } in
        if eqb_ℤ t.c_fd (negsuc 0)
        then (if eqb_ℤ t₁.c_fd (negsuc 0) then some (negsuc 0, t₁, w₁) else poll fuel timeout t₁ w₁)
        else poll fuel timeout t w

    abbrev pub sync_next :
        Option (ℤ × TransLayer S × World S K)
        → (TransLayer S → World S K → Option (TransLayer S × World S K))
        → Option (TransLayer S × World S K)
    sync_next none next = none
    sync_next (some (ret, t, w)) next =
        let rest = next t w in if threw w.handlers then some (t, w) else rest

    -- The rounds of SyncSendAll that are left; an exception ends them.
    unfoldable pub sync_rounds :
        ℕ → ℕ → ℕ → TransLayer S → World S K → Option (TransLayer S × World S K)
    sync_rounds zero fuel timeout t w = some (t, w)
    sync_rounds (suc n) fuel timeout t w =
        let rest = sync_next (pool_event_once fuel timeout t w) (sync_rounds n fuel timeout) in
        if t.writing then rest else some (t, w)

    unfoldable pub sync_send_all :
        ℕ → ℕ → TransLayer S → World S K → Option (TransLayer S × World S K)
    sync_send_all fuel timeout t w = sync_rounds 20 fuel timeout t w
