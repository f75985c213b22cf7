-- ===== src/Examples/Network.antt =====
-- A connection to a peer that takes four bytes, on a clock that stands.
use pinpoint_c_agent.Base.{
  String, slice, ℕ, ◌≡◌, refl, true, false, List, [], ◌∷◌, some, none, ℤ, pos, negsuc, length,
  arith, replicate,
}
use pinpoint_c_agent.Cache.State.{new_state}
use pinpoint_c_agent.ConnectionPool.Receive.{RecvResult}
use pinpoint_c_agent.ConnectionPool.Connect.{Sockets, connected, ready}
use pinpoint_c_agent.ConnectionPool.Trans.{TransLayer, World, connect_remote}
use pinpoint_c_agent.ConnectionPool.Events.{pool_event_once, sync_send_all}
use pinpoint_c_agent.ConnectionPool.Events.Once.{
  Turned, Flushes, pool_event_once-Turned, sync_send_all-Sound,
}
use pinpoint_c_agent.ConnectionPool.Network.{Still, Network}
use pinpoint_c_agent.ConnectionPool.Sound.{IsSound, Forward, Tries, connect_remote-Tries}
use pinpoint_c_agent.ConnectionPool.Spans.Sound.{AllSound}
use pinpoint_c_agent.Agent.Greeting.{Handlers, has_thrown}
use pinpoint_c_agent.Agent.Trace.{Agent, Outside}
use pinpoint_c_agent.Agent.Send.{Relies}
use pinpoint_c_agent.Examples.Stream.{
  narrow, narrow-Kernel, waiting_chunks, waiting_chunks-IsValid, zeroed, zeroed-Gives,
}

abbrev pub small_net : Sockets (List ℕ)
small_net = record {
  time = λ k. (100, k);
  getaddrinfo = λ host port k. (some (1 ∷ []), k);
  socket = λ k. (pos 5, k);
  connect = λ fd a k. (connected, k);
  socket_unix = λ k. (pos 5, k);
  connect_unix = λ fd path k. (connected, k);
  close = λ fd k. k;
  select = λ fd writing s us k. (ready true true false, k);
  send = λ fd bytes k. narrow bytes k;
  recv = λ fd room k. (RecvResult.would_block, k);
}

abbrev pub sent : ℤ → List ℕ → List ℕ
sent fd k = k

abbrev pub none_waiting : ℤ → List ℕ → ℕ
none_waiting fd k = 0

small_net-Still : (fd : ℤ) → Still small_net (sent fd)
small_net-Still fd = record {
  time = λ k. refl;
  getaddrinfo = λ host port k. refl;
  socket = λ k. refl;
  connect = λ fd a k. refl;
  socket_unix = λ k. refl;
  connect_unix = λ fd path k. refl;
  close = λ fd k. refl;
  select = λ fd writing s us k. refl;
  recv = λ fd room k. refl;
}

small_net-Network : Network small_net sent none_waiting 1
small_net-Network = record {
  sends = λ fd. narrow-Kernel;
  receives = λ fd. record { gave = λ room k bytes e. cc };
  few = λ fd k. omega arith;
  still = small_net-Still;
}

small_net-Forward : Forward small_net
small_net-Forward k = omega arith

-- "tcp:h:9".
abbrev host : List ℕ
host = b't' ∷ b'c' ∷ b'p' ∷ b':' ∷ b'h' ∷ b':' ∷ b'9' ∷ []

abbrev queueing : TransLayer Handlers
queueing = record {
  co_host = host;
  chunks = waiting_chunks;
  writing = true;
  reading = false;
  failing = false;
  in_buf = [];
  c_fd = negsuc 0;
  last_connect_time = 10;
  status_changed = none;
  msg_route_map = λ type. none;
}

queueing-IsSound : IsSound queueing
queueing-IsSound = record { queue = waiting_chunks-IsValid; room = omega arith; fresh = λ e. refl }

abbrev quiet_world : World Handlers (List ℕ)
quiet_world = record {
  handlers = record { process = new_state 1 (pos 0); thrown = none };
  kernel = [];
}

pool_event_once-Turned_example :
    (r : ℤ × TransLayer Handlers × World Handlers (List ℕ)) × (pool_event_once small_net has_thrown
        6 0 queueing quiet_world
      ≡ some r)
    × IsSound r.1
    × Turned small_net has_thrown sent none_waiting 1 queueing [] r
unfolding slice
pool_event_once-Turned_example =
    pool_event_once-Turned small_net has_thrown sent none_waiting 1 6 0 queueing quiet_world
      small_net-Network small_net-Forward queueing-IsSound (omega arith) (omega arith)

sync_send_all-Sound_example :
    (r : TransLayer Handlers × World Handlers (List ℕ)) × (sync_send_all small_net has_thrown 6 1000
        queueing quiet_world
      ≡ some r)
    × Flushes small_net has_thrown sent none_waiting 1 20 6 1000 queueing quiet_world r
unfolding slice
sync_send_all-Sound_example =
    sync_send_all-Sound small_net has_thrown sent none_waiting 1 6 1000 queueing quiet_world
      small_net-Network small_net-Forward queueing-IsSound (omega arith) (omega arith)

connect_remote-Tries_example : Tries queueing (connect_remote small_net queueing []).1
connect_remote-Tries_example = connect_remote-Tries small_net queueing [] small_net-Forward

abbrev pub outside : Outside (List String) (List ℕ)
outside = record {
  sys = small_net;
  malloc₁ = zeroed;
  malloc₂ = zeroed;
  write_value = λ v. replicate (length v) 34;
  clock = λ n. 0;
}

pub outside-Relies : Relies outside sent none_waiting 1
outside-Relies = record {
  network = small_net-Network;
  forward = small_net-Forward;
  alloc₁ = zeroed-Gives.sized;
  alloc₂ = zeroed-Gives.sized;
}

abbrev pub an_agent : Agent (List ℕ)
an_agent = record {
  span_timeout = pos 0;
  agent_type = pos 1;
  connection_pool = record {
    co_host = host;
    con_counter = 1;
    stack = queueing ∷ [];
    route_vec = [];
  };
  state = new_state 1 (pos 0);
  raw_span_handler = none;
}

pub an_agent-AllSound : AllSound 6 an_agent.connection_pool
unfolding slice
an_agent-AllSound = ((queueing-IsSound, omega arith), tt)
