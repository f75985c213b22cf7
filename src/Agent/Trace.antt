-- ===== src/Agent/Trace.antt =====
-- Agent::StartTrace and Agent::EndTrace, with the sending of a finished trace.
use pinpoint_c_agent.Base.{
  ℕ, List, [], ◌∷◌, Option, none, some, if◌then◌else◌, ℤ, pos, eqb_ℤ, leb_ℤ, ltb_ℤ, pos_part, Error,
  Result, ok, err, out_of_range, to_int32,
}
use pinpoint_c_agent.Cache.State.{ProcessState, new_state}
use pinpoint_c_agent.NodePool.Node.{
  Json, TraceNode, upgrade_to_root_node, start_trace, bind_parent_trace, is_root_node,
  e_invalid_node, e_root_node, e_trace_pass,
}
use pinpoint_c_agent.NodePool.Pool.{
  PoolManager, node_at, get_used_node, get_ready_node, free_node_tree,
}
use pinpoint_c_agent.NodePool.Append.{update, append_to_root_trace}
use pinpoint_c_agent.NodePool.Finish.{
  set_node_user_option, end_trace, encode_trace_to_json_span, value_of,
}
use pinpoint_c_agent.ConnectionPool.Connect.{Sockets}
use pinpoint_c_agent.ConnectionPool.Trans.{TransLayer, World, submit, destroy}
use pinpoint_c_agent.ConnectionPool.Events.{pool_event_once, sync_send_all}
use pinpoint_c_agent.ConnectionPool.Spans.{SpanConnectionPool, new_span_connection_pool, get, free}
use pinpoint_c_agent.Agent.{Action, ◌>>>◌, pure, throw, refer, read, write, status_of}
use pinpoint_c_agent.Agent.Greeting.{Hello, Handlers, has_thrown, on_hello}

-- setNodeUserOption of the node `i`, which keeps the options before one that throws.
module _ {V : Type 0} where
  abbrev pub store_options : ℕ → Result ℕ × TraceNode V → Action V ℕ
  store_options i (ret, node) p = (ret, update i (λ n. node) p)

module _ {V : Type 0} ⦃j : Json V⦄ where
  -- GetNode.
  abbrev pub ready_node : PoolManager V → Result (ℕ × PoolManager V) → Result ℕ × PoolManager V
  ready_node p (err e) = (err e, p)
  ready_node p (ok (i, q)) = (ok i, q)

  abbrev pub get_node : Action V ℕ
  get_node p = ready_node p (get_ready_node p)

  unfoldable pub start_root : ℤ → ℕ → Action V ℤ
  start_root agent_type now = get_node >>> λ i. write i (upgrade_to_root_node agent_type) >>> λ _.
      write i (start_trace now) >>> λ _. read i >>> λ node. pure node.id

  -- The options are the arguments up to the null pointer.
  unfoldable pub start_child : ℤ → List (List ℕ) → ℕ → Action V ℤ
  start_child parent_id opts now = refer parent_id >>> read >>> λ parent.
      refer parent.root_id >>> λ r. get_node >>> λ i. write i (start_trace now) >>> λ _.
      write i (bind_parent_trace parent) >>> λ _. append_to_root_trace r i >>> λ _.
      read i >>> λ node. store_options i (set_node_user_option opts node) >>> λ _. pure node.id

  -- Agent::StartTrace at the time `now`.
  unfoldable pub agent_start_trace : ℤ → ℤ → List (List ℕ) → ℕ → Action V ℤ
  agent_start_trace agent_type parent_id opts now =
      if leb_ℤ parent_id e_invalid_node
      then throw out_of_range
      else (if eqb_ℤ parent_id e_root_node
          then start_root agent_type now
          else start_child parent_id opts now)

-- The members of Agent that its thread does not own; a span handler acts on the kernel's state.
pub record Agent (K : Type 0) : Type 0 where
  pub span_timeout : ℤ
  pub agent_type : ℤ
  pub connection_pool : SpanConnectionPool Handlers
  pub state : ProcessState
  pub raw_span_handler : Option (List ℕ → K → K)

module _ {K : Type 0} where
  unfoldable pub new_agent : (List ℕ → Result Hello) → List ℕ → ℤ → ℤ → ℤ → ℕ → Agent K
  new_agent parse host timeout_ms trace_limit agent_type now = record {
    span_timeout = to_int32 timeout_ms;
    agent_type = agent_type;
    connection_pool = new_span_connection_pool host ((0, on_hello parse) ∷ []);
    state = new_state now trace_limit;
    raw_span_handler = none;
  }

  abbrev pub run_handler : Option (List ℕ → K → K) → List ℕ → K → K
  run_handler none span k = k
  run_handler (some f) span k = f span k

-- The outside: the system's calls, the allocations that a span may make, the text of a value, and
-- the clock during the writing of a span.
pub record Outside (V K : Type 0) : Type 0 where
  pub sys : Sockets K
  pub malloc₁ : ℕ → Option (List ℕ)
  pub malloc₂ : ℕ → Option (List ℕ)
  pub write_value : V → List ℕ
  pub clock : ℕ → ℕ

module _ {V K : Type 0} (out : Outside V K) where
  abbrev pub events_done :
      Option (ℤ × TransLayer Handlers × World Handlers K)
      → Option (TransLayer Handlers × World Handlers K)
  events_done none = none
  events_done (some (ret, t, w)) = some (t, w)

  -- The event loop that a span timeout asks for.
  abbrev pub send_events :
      ℕ
      → ℤ
      → TransLayer Handlers
      → World Handlers K
      → Option (TransLayer Handlers × World Handlers K)
  send_events fuel timeout t w =
      if ltb_ℤ (pos 0) timeout
      then sync_send_all out.sys has_thrown fuel (pos_part timeout) t w
      else (if ltb_ℤ timeout (pos 0)
          then some (t, w)
          else events_done (pool_event_once out.sys has_thrown fuel 0 t w))

  -- The connection goes back to the pool; an exception of the event loop destroys it instead.
  abbrev pub after_events :
      SpanConnectionPool Handlers
      → Agent K
      → TransLayer Handlers
      → World Handlers K
      → Option Error
      → Result ℕ × Agent K × K
  after_events pool a t w none =
      (ok 0, record a { connection_pool = free t pool; state = w.handlers.process }, w.kernel)
  after_events pool a t w (some e) = (
    err e,
    record a { connection_pool = pool; state = w.handlers.process },
    destroy out.sys t w.kernel,
  )

  abbrev pub give_back_connection :
      SpanConnectionPool Handlers
      → Agent K
      → Option (TransLayer Handlers × World Handlers K)
      → Option (Result ℕ × Agent K × K)
  give_back_connection pool a none = none
  give_back_connection pool a (some (t, w)) = some (after_events pool a t w w.handlers.thrown)

  -- TrySendSpan. A span that the buffer refuses is dropped.
  unfoldable pub try_send_span : ℕ → List ℕ → ℤ → Agent K → K → Option (Result ℕ × Agent K × K)
  try_send_span fuel span timeout a k =
      let (t, pool) = get a.connection_pool in
      let (queued, t₁) = submit out.malloc₁ out.malloc₂ span t in
      give_back_connection pool a (
        send_events fuel timeout t₁
          (record { handlers = record { process = a.state; thrown = none }; kernel = k }))

  abbrev pub handed_over :
      List ℕ → Option (Result ℕ × Agent K × K) → Option (Result ℕ × Agent K × K)
  handed_over span none = none
  handed_over span (some (err e, a, k)) = some (err e, a, k)
  handed_over span (some (ok n, a, k)) = some (ok n, a, run_handler a.raw_span_handler span k)

module _ {V K : Type 0} ⦃j : Json V⦄ (out : Outside V K) where
  abbrev pub with_pool :
      PoolManager V
      → Option (Result ℕ × Agent K × K)
      → Option (Result ℕ × Agent K × PoolManager V × K)
  with_pool p none = none
  with_pool p (some (r, a, k)) = some (r, a, p, k)

  abbrev pub send_encoded :
      ℕ
      → ℕ
      → ℤ
      → Agent K
      → K
      → Option (Result ℕ × PoolManager V)
      → Option (Result ℕ × Agent K × PoolManager V × K)
  send_encoded fuel r timeout a k none = none
  send_encoded fuel r timeout a k (some (err e, p)) = some (err e, a, p, k)
  send_encoded fuel r timeout a k (some (ok _, p)) =
      let span = out.write_value (value_of (node_at p r)) in
      with_pool p (handed_over out span (try_send_span out fuel span timeout a k))

  -- SendSpanTrace of the root with the index `r`.
  unfoldable pub send_span_trace :
      ℕ → ℕ → ℤ → Agent K → PoolManager V → K → Option (Result ℕ × Agent K × PoolManager V × K)
  send_span_trace fuel r timeout a p k =
      send_encoded fuel r timeout a k (encode_trace_to_json_span fuel out.clock r p)

  abbrev pub free_tree :
      ℕ
      → ℤ
      → Option (Result ℕ × Agent K × PoolManager V × K)
      → Option (Result ℤ × Agent K × PoolManager V × K)
  free_tree fuel id none = none
  free_tree fuel id (some (err e, a, p, k)) = some (err e, a, p, k)
  free_tree fuel id (some (ok _, a, p, k)) = elim (free_node_tree fuel (λ n q. q) id p) [
    | none ↦ none
    | some q ↦ some (ok e_root_node, a, q, k)
  ]

  -- A root: it is ended and sent if its status says so, and its tree is freed.
  abbrev pub end_by_status :
      ℕ
      → ℕ
      → ℤ
      → ℤ
      → ℕ
      → Result ℤ
      → Agent K
      → PoolManager V
      → K
      → Option (Result ℤ × Agent K × PoolManager V × K)
  end_by_status fuel now timeout id i (err e) a p k = some (err e, a, p, k)
  end_by_status fuel now timeout id i (ok status) a p k =
      let wait = if eqb_ℤ timeout (pos 0) then a.span_timeout else timeout in
      free_tree fuel id (
        if eqb_ℤ status e_trace_pass
        then send_span_trace fuel i wait a (update i (end_trace now) p) k
        else some (ok i, a, p, k))

  abbrev pub end_root :
      ℕ
      → ℕ
      → ℤ
      → ℤ
      → ℕ
      → TraceNode V
      → Agent K
      → PoolManager V
      → K
      → Option (Result ℤ × Agent K × PoolManager V × K)
  end_root fuel now timeout id i node a p k =
      end_by_status fuel now timeout id i (status_of node.extra) a p k

  abbrev pub end_node :
      ℕ
      → ℕ
      → ℤ
      → ℤ
      → ℕ
      → Option (TraceNode V)
      → Agent K
      → PoolManager V
      → K
      → Option (Result ℤ × Agent K × PoolManager V × K)
  end_node fuel now timeout id i none a p k = some (err out_of_range, a, p, k)
  end_node fuel now timeout id i (some node) a p k =
      if is_root_node node
      then end_root fuel now timeout id i node a p k
      else some (ok node.parent_id, a, update i (end_trace now) p, k)

  -- Agent::EndTrace at the time `now`; `fuel` is for the loops over nodes and bytes.
  unfoldable pub agent_end_trace :
      ℕ → ℕ → ℤ → ℤ → Agent K → PoolManager V → K → Option (Result ℤ × Agent K × PoolManager V × K)
  agent_end_trace fuel now id timeout a p k = elim (get_used_node p id) [
    | err e ↦ some (err e, a, p, k)
    | ok i ↦ end_node fuel now timeout id i (node_at p i) a p k
  ]
