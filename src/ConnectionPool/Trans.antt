-- ===== src/ConnectionPool/Trans.antt =====
-- TransLayer as a whole: its state, its (re)connection and its event loop. The callbacks act on a
-- state `S`, and the calls of the system on a state `K`.
use pinpoint_c_agent.Base.{
  ℕ, ◌+◌, Bool, true, false, List, [], ◌∷◌, Option, none, some, ltb, ◌==◌, if◌then◌else◌, ℤ, pos,
  negsuc, eqb_ℤ, ◌*◌, drop,
}
use pinpoint_c_agent.Cache.Chunk.Buffer.{Chunks, empty_chunks}
use pinpoint_c_agent.Cache.Chunk.Flow.{reset_chunks}
use pinpoint_c_agent.ConnectionPool.Submit.{copy_into_send_buffer}
use pinpoint_c_agent.ConnectionPool.Connect.{
  Sockets, invalid_socket, strcasecmp_, unix_socket, tcp_socket, connect_stream_remote,
  connect_unix_remote,
}
use pinpoint_c_agent.NodePool.Node.{e_offline}

abbrev pub chunk_max_size : ℕ
chunk_max_size = 10 * 1024 * 1024

abbrev pub chunk_hold_size : ℕ
chunk_hold_size = 40 * 1024

abbrev pub reconnect_time_sec : ℕ
reconnect_time_sec = 5

abbrev pub fd_setsize : ℕ
fd_setsize = 1024

-- The bits of _state are three Booleans.
pub record TransLayer (S : Type 0) : Type 0 where
  pub co_host : List ℕ
  pub chunks : Chunks
  pub writing : Bool
  pub reading : Bool
  pub failing : Bool
  pub in_buf : List ℕ
  pub c_fd : ℤ
  pub last_connect_time : ℕ
  pub status_changed : Option (ℤ → S → S)
  pub msg_route_map : ℕ → Option (List ℕ → S → ℤ × S)

-- What the callbacks and the system keep.
pub record World (S K : Type 0) : Type 0 where
  pub handlers : S
  pub kernel : K

module _ {S : Type 0} where
  unfoldable pub new_trans_layer : List ℕ → TransLayer S
  new_trans_layer co_host = record {
    co_host = co_host;
    chunks = empty_chunks chunk_max_size chunk_hold_size;
    writing = false;
    reading = false;
    failing = false;
    in_buf = [];
    c_fd = invalid_socket;
    last_connect_time = 0;
    status_changed = none;
    msg_route_map = λ type. none;
  }

  unfoldable pub reg_peer_msg_callback : ℕ → (List ℕ → S → ℤ × S) → TransLayer S → TransLayer S
  reg_peer_msg_callback type f t = record t {
    msg_route_map = λ k. if k == type then some f else t.msg_route_map k;
  }

  unfoldable pub reg_status_changed_callback : (ℤ → S → S) → TransLayer S → TransLayer S
  reg_status_changed_callback f t = record t { status_changed = some f }

  unfoldable pub reset_msg_handler : TransLayer S → TransLayer S
  reset_msg_handler t = record t { status_changed = none; msg_route_map = λ type. none }

  -- copy_into_send_buffer on the whole state.
  unfoldable pub submit :
      (malloc₁ malloc₂ : ℕ → Option (List ℕ)) → List ℕ → TransLayer S → Bool × TransLayer S
  submit malloc₁ malloc₂ span t =
      let (answer, c, writing) = copy_into_send_buffer malloc₁ malloc₂ span t.chunks t.writing in
      (answer, record t { chunks = c; writing = writing })

module _ {S K : Type 0} (sys : Sockets K) where
  -- DONE of connect_remote.
  abbrev pub connect_done : ℤ × K → TransLayer S → ℤ × TransLayer S × K
  connect_done (fd, k) t =
      (fd, record t { c_fd = fd; writing = true; reading = true; failing = true }, k)

  -- What is tried after the time limit. (Both prefixes are skipped by the length of "tcp:".)
  abbrev pub connect_now : TransLayer S → K → ℤ × TransLayer S × K
  connect_now t k =
      if eqb_ℤ (strcasecmp_ t.co_host unix_socket) (pos 0)
      then connect_done (connect_unix_remote sys (drop 4 t.co_host) k) t
      else (if eqb_ℤ (strcasecmp_ t.co_host tcp_socket) (pos 0)
          then connect_done (connect_stream_remote sys (drop 4 t.co_host) k) t
          else (negsuc 0, t, k))

  -- connect_remote(co_host). The clock is read twice.
  unfoldable pub connect_remote : TransLayer S → K → ℤ × TransLayer S × K
  connect_remote t k =
      let (now, k₁) = sys.time k in
      let (again, k₂) = sys.time k₁ in
      elim t.co_host [
        | [] ↦ (negsuc 0, t, k)
        | c ∷ rest ↦
            if ltb now (t.last_connect_time + reconnect_time_sec)
            then (negsuc 0, t, k₁)
            else connect_now (record t { last_connect_time = again }) k₂
      ]

  -- statusChangedCallback_(E_OFFLINE).
  abbrev pub notify_offline : Option (ℤ → S → S) → S → S
  notify_offline none s = s
  notify_offline (some f) s = f e_offline s

  unfoldable pub reset_remote : TransLayer S → World S K → TransLayer S × World S K
  reset_remote t w =
      let t₁ = record t { in_buf = []; chunks = reset_chunks t.chunks } in
      let s = notify_offline t.status_changed w.handlers in
      if eqb_ℤ t.c_fd invalid_socket then (t₁, record w { handlers = s }) else (
        record t₁ { c_fd = invalid_socket; writing = false; reading = false; failing = false },
        record { handlers = s; kernel = sys.close t.c_fd w.kernel },
      )

  -- ~TransLayer.
  unfoldable pub destroy : TransLayer S → K → K
  destroy t k = if eqb_ℤ t.c_fd invalid_socket then k else sys.close t.c_fd k
