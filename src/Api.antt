-- ===== src/Api.antt =====
-- The C interface of common/src/common.cpp: each function runs on the one agent of the process, if
-- there is one, and turns an exception into the value that says so.
pub mod Calls
pub mod Steps
pub mod Runs
use pinpoint_c_agent.Base.{
  ℕ, zero, suc, Bool, true, false, List, [], Option, none, some, if◌then◌else◌, String, ℤ, pos,
  negsuc, eqb_ℤ, ◌==◌, Result, ok, err,
}
use pinpoint_c_agent.Cache.State.{
  ProcessState, get_unique_id, reset_unique_id, get_start_time, check_trace_limit,
}
use pinpoint_c_agent.NodePool.Node.{Json, e_invalid_node, e_root_node}
use pinpoint_c_agent.NodePool.Pool.{PoolManager}
use pinpoint_c_agent.ConnectionPool.Connect.{Sockets}
use pinpoint_c_agent.ConnectionPool.Spans.{destroy_all}
use pinpoint_c_agent.Agent.{Action}
use pinpoint_c_agent.Agent.Greeting.{Hello}
use pinpoint_c_agent.Agent.Trace.{Agent, Outside, new_agent, agent_start_trace, agent_end_trace}

-- What a thread sees: _agentPtr, its node pool and current id, and the outside.
pub record Runtime (V K : Type 0) : Type 0 where
  pub agent : Option (Agent K)
  pub local_node_pool : PoolManager V
  pub per_thread_current_id : ℤ
  pub kernel : K

module _ {V K : Type 0} where
  unfoldable pub pinpoint_get_per_thread_id : Runtime V K → ℤ
  pinpoint_get_per_thread_id s = s.per_thread_current_id

  unfoldable pub pinpoint_update_per_thread_id : ℤ → Runtime V K → Runtime V K
  pinpoint_update_per_thread_id id s = record s { per_thread_current_id = id }

  -- There is one agent at most.
  unfoldable pub pinpoint_set_agent :
      (List ℕ → Result Hello) → List ℕ → ℤ → ℤ → ℤ → ℕ → Runtime V K → Bool × Runtime V K
  pinpoint_set_agent parse host timeout_ms trace_limit agent_type now s = elim s.agent [
    | none ↦ (
      true,
      record s { agent = some (new_agent parse host timeout_ms trace_limit agent_type now) },
    )
    | some a ↦ (false, s)
  ]

  -- The agent is destroyed, and closes its connections.
  unfoldable pub pinpoint_stop_agent : Sockets K → Runtime V K → Runtime V K
  pinpoint_stop_agent sys s = elim s.agent [
    | none ↦ s
    | some a ↦ record s { agent = none; kernel = destroy_all sys a.connection_pool.stack s.kernel }
  ]

  -- An action of the agent on the pool, with the answer for no agent and for an exception.
  abbrev pub answer :
      {A B : Type 0} → (A → B) → B → Runtime V K → Result A × PoolManager V → B × Runtime V K
  answer f default s (ok a, p) = (f a, record s { local_node_pool = p })
  answer f default s (err e, p) = (default, record s { local_node_pool = p })

  unfoldable pub guarded :
      {A B : Type 0} → (A → B) → B → (Agent K → Action V A) → Runtime V K → B × Runtime V K
  guarded f default action s = elim s.agent [
    | none ↦ (default, s)
    | some a ↦ answer f default s (action a s.local_node_pool)
  ]

  -- The calls that only read or write the state of the process.
  abbrev pub on_state :
      {A : Type 0} → A → (ProcessState → A × ProcessState) → Runtime V K → A × Runtime V K
  on_state default f s = elim s.agent [
    | none ↦ (default, s)
    | some a ↦
        let (x, state) = f a.state in (x, record s { agent = some (record a { state = state }) })
  ]

  -- 1 for a trace that is to be dropped.
  unfoldable pub api_check_trace_limit : ℤ → ℤ → Runtime V K → ℤ × Runtime V K
  api_check_trace_limit clock timestamp = on_state (pos 0) (λ st.
      let (limited, st') = check_trace_limit clock timestamp st in
      (if limited then pos 1 else pos 0, st'))

  unfoldable pub generate_unique_id : Runtime V K → ℤ × Runtime V K
  generate_unique_id = on_state (pos 0) get_unique_id

  unfoldable pub api_reset_unique_id : Runtime V K → ℤ × Runtime V K
  api_reset_unique_id = on_state (pos 0) (λ st. (pos 0, reset_unique_id st))

  unfoldable pub pinpoint_start_time : ℕ → Runtime V K → ℕ
  pinpoint_start_time now s = elim s.agent [
    | none ↦ now
    | some a ↦ if get_start_time a.state == 0 then now else get_start_time a.state
  ]

  unfoldable pub register_span_handler : Option (List ℕ → K → K) → Runtime V K → Runtime V K
  register_span_handler handler s = elim s.agent [
    | none ↦ s
    | some a ↦ record s { agent = some (record a { raw_span_handler = handler }) }
  ]

module _ {V K : Type 0} ⦃j : Json V⦄ where
  unfoldable pub pinpoint_start_trace_v1 : ℤ → List (List ℕ) → ℕ → Runtime V K → ℤ × Runtime V K
  pinpoint_start_trace_v1 parent_id opts now =
      guarded (λ id. id) e_invalid_node (λ a. agent_start_trace a.agent_type parent_id opts now)

  unfoldable pub pinpoint_start_trace : ℤ → ℕ → Runtime V K → ℤ × Runtime V K
  pinpoint_start_trace parent_id now = pinpoint_start_trace_v1 parent_id [] now

  abbrev pub ended :
      Runtime V K
      → Option (Result ℤ × Agent K × PoolManager V × K)
      → Option (Result ℤ × Runtime V K)
  ended s none = none
  ended s (some (r, a, p, k)) =
      some (r, record s { agent = some a; local_node_pool = p; kernel = k })

  -- EndTrace of the agent, if there is one.
  abbrev pub end_with_agent :
      Outside V K → ℕ → ℕ → ℤ → ℤ → Option (Agent K) → Runtime V K → Option (Result ℤ × Runtime V K)
  end_with_agent out fuel now id timeout none s = some (ok e_invalid_node, s)
  end_with_agent out fuel now id timeout (some a) s =
      ended s (agent_end_trace out fuel now id timeout a s.local_node_pool s.kernel)

  abbrev pub or_invalid : Option (Result ℤ × Runtime V K) → Option (ℤ × Runtime V K)
  or_invalid none = none
  or_invalid (some (ok id, s)) = some (id, s)
  or_invalid (some (err e, s)) = some (e_invalid_node, s)

  unfoldable pub pinpoint_end_trace :
      Outside V K → ℕ → ℕ → ℤ → Runtime V K → Option (ℤ × Runtime V K)
  pinpoint_end_trace out fuel now id s =
      or_invalid (end_with_agent out fuel now id (pos 0) s.agent s)

  -- The loop of pinpoint_force_end_trace, with rounds; `none` means that they ran out. `clock` is
  -- the time at each round.
  abbrev pub force_next :
      (ℤ → Runtime V K → Option (ℤ × Runtime V K))
      → Option (Result ℤ × Runtime V K)
      → Option (ℤ × Runtime V K)
  force_next again none = none
  force_next again (some (err e, s)) = some (e_invalid_node, s)
  force_next again (some (ok id, s)) =
      if eqb_ℤ id e_invalid_node then some (e_root_node, s) else again id s

  unfoldable pub force_loop :
      Outside V K → ℕ → ℕ → (ℕ → ℕ) → ℤ → ℤ → Runtime V K → Option (ℤ × Runtime V K)
  force_loop out zero fuel clock id timeout s = none
  force_loop out (suc rounds) fuel clock id timeout s =
      let next =
        force_next (λ id' s'. force_loop out rounds fuel clock id' timeout s')
          (end_with_agent out fuel (clock rounds) id timeout s.agent s) in
      if eqb_ℤ id e_root_node then some (e_root_node, s) else next

  unfoldable pub pinpoint_force_end_trace :
      Outside V K → ℕ → ℕ → (ℕ → ℕ) → ℤ → ℤ → Runtime V K → Option (ℤ × Runtime V K)
  pinpoint_force_end_trace out rounds fuel clock id timeout s = elim s.agent [
    | none ↦ some (e_invalid_node, s)
    | some a ↦ force_loop out rounds fuel clock id timeout s
  ]
