-- ===== src/Examples/Traces.antt =====
-- Traces from their start to their end, and contexts, on concrete pools.
use pinpoint_c_agent.Base.{
  false, ◌++◌, ℕ, ◌+◌, ◌<◌, ◌≡◌, refl, ◌⊎◌, true, List, [], ◌∷◌, Option, none, some, Result, ℤ, ◌≤◌,
  length, subst, ap, String, pos, if◌then◌else◌, ok, err, out_of_range, arith,
}
use text.Mathlib.Text.{◌==◌ as str_eq}
use pinpoint_c_agent.NodePool.Node.{
  TraceNode, reset, new_node, upgrade_to_root_node, start_trace, add_annotation, e_root_node,
  run_user_option_func, run_options,
}
use pinpoint_c_agent.NodePool.Pool.{
  PoolManager, pool_max_nodes_limit, id_of, node_at, set_node, new_pool, expand_once, push_range,
  get_ready_node, pop_ready,
}
use pinpoint_c_agent.NodePool.Valid.{IsValid, new_pool-IsValid}
use pinpoint_c_agent.NodePool.Pop.{is_alive, set_node-IsValid}
use pinpoint_c_agent.NodePool.Append.{update}
use pinpoint_c_agent.NodePool.Finish.{end_trace, encode_trace_to_json_span, encode_chain}
use pinpoint_c_agent.NodePool.Chain.{Links}
use pinpoint_c_agent.ConnectionPool.Frame.{header_size}
use pinpoint_c_agent.Agent.{◌>>>◌, add_trace_context, get_trace_context}
use pinpoint_c_agent.Agent.Trace.{start_root, start_child, agent_start_trace, agent_end_trace}
use pinpoint_c_agent.Agent.Finish.{Ended, agent_end_trace-Ended}
use pinpoint_c_agent.Agent.Sent.{span_text, Enough}
use pinpoint_c_agent.Agent.Start.{
  Started, agent_start_trace-Started, Balanced, agent_end_trace-agent_start_trace,
}
use pinpoint_c_agent.Agent.Contexts.{InTrace, buffered, get_trace_context-add_trace_context}
use pinpoint_c_agent.Agent.Child.{IsChild, start_child-Tree}
use pinpoint_c_agent.NodePool.Tree.{Tree}
use pinpoint_c_agent.Examples.Pool.{key_json, fresh_pool}
use pinpoint_c_agent.Examples.Append.{a_node, a_root, root_extra, with_nodes, with_nodes-IsValid}
use pinpoint_c_agent.Examples.Network.{
  sent, none_waiting, outside, outside-Relies, an_agent, an_agent-AllSound,
}

-- The nodes of the pool that an encoding leaves.
abbrev left : Option (Result ℕ × PoolManager (List String)) → PoolManager (List String)
left none = fresh_pool
left (some (r, q)) = q

with_nodes_span :
    length (
      span_text outside 127
        (left (encode_trace_to_json_span 40 (λ n. 0) 127 (update 127 (end_trace 120) with_nodes))))
    ≤ 20
unfolding new_pool expand_once set_node node_at update end_trace add_annotation
    encode_trace_to_json_span encode_chain run_user_option_func run_options
with_nodes_span = omega arith

with_nodes-Enough : Enough outside sent none_waiting 1 40 120 6 20 0 127 an_agent with_nodes
with_nodes-Enough = record {
  relies = outside-Relies;
  some_ = omega arith;
  sound = an_agent-AllSound;
  span = λ q e. subst (λ q. length (span_text outside 127 q) ≤ 20) (ap left e) with_nodes_span;
  fits = omega arith;
  bytes = omega arith;
  events = omega arith;
  nodes = omega arith;
}

root_alone : Links with_nodes (id_of 127) (127 ∷ [])
unfolding new_pool expand_once set_node node_at
root_alone = (refl, refl, refl, (a_root, refl, refl))

a_root_at : node_at with_nodes 127 ≡ some a_root
unfolding new_pool expand_once set_node node_at
a_root_at = refl

agent_end_trace-Ended_example :
    Ended outside sent none_waiting 1 40 120
      (6 + (header_size + 20))
      127
      []
      (pos 0)
      root_extra
      an_agent
      with_nodes
      []
      (agent_end_trace outside 40 120 (id_of 127) (pos 0) an_agent with_nodes [])
agent_end_trace-Ended_example =
    agent_end_trace-Ended outside sent none_waiting 1 40 120 6 20 127 [] (pos 0) a_root root_extra
      an_agent with_nodes [] with_nodes-Enough with_nodes-IsValid a_root_at refl refl root_alone

agent_start_trace-Started_example :
    ((fresh_pool.free_node_list ≡ [])
      × (pool_max_nodes_limit < fresh_pool.max_id)
      × (agent_start_trace (pos 1500) e_root_node [] 5 fresh_pool ≡ (err out_of_range, fresh_pool)))
    ⊎ ((i : ℕ) × (q : PoolManager (List String)) × (agent_start_trace
            (pos 1500)
            e_root_node
            []
            5
            fresh_pool
          ≡ (ok (id_of i), q))
        × Started fresh_pool q i 5)
agent_start_trace-Started_example =
    agent_start_trace-Started (pos 1500) [] 5 fresh_pool new_pool-IsValid

abbrev started_pool : PoolManager (List String)
started_pool = (agent_start_trace (pos 1500) e_root_node [] 5 fresh_pool).1

started_pool_lem :
    agent_start_trace (pos 1500) e_root_node [] 5 fresh_pool ≡ (ok (id_of 127), started_pool)
unfolding agent_start_trace start_root ◌>>>◌ get_ready_node pop_ready new_pool expand_once
    push_range set_node node_at update upgrade_to_root_node start_trace add_annotation reset
    new_node
started_pool_lem = refl

started_pool_span :
    length (
      span_text outside 127 (
        left (encode_trace_to_json_span 40 (λ n. 0) 127 (update 127 (end_trace 120) started_pool))))
    ≤ 20
unfolding agent_start_trace start_root ◌>>>◌ get_ready_node pop_ready new_pool expand_once
    push_range set_node node_at update upgrade_to_root_node start_trace add_annotation reset
    new_node end_trace encode_trace_to_json_span encode_chain run_user_option_func run_options
started_pool_span = omega arith

started_pool-Enough : Enough outside sent none_waiting 1 40 120 6 20 0 127 an_agent started_pool
started_pool-Enough = record {
  relies = outside-Relies;
  some_ = omega arith;
  sound = an_agent-AllSound;
  span = λ q e. subst (λ q. length (span_text outside 127 q) ≤ 20) (ap left e) started_pool_span;
  fits = omega arith;
  bytes = omega arith;
  events = omega arith;
  nodes = omega arith;
}

agent_end_trace-agent_start_trace_example :
    Balanced outside sent none_waiting 1 40 120
      (6 + (header_size + 20))
      127
      (pos 0)
      an_agent
      fresh_pool
      started_pool
      []
      (agent_end_trace outside 40 120 (id_of 127) (pos 0) an_agent started_pool [])
agent_end_trace-agent_start_trace_example =
    agent_end_trace-agent_start_trace outside sent none_waiting 1 40 120 6 20 5 127 (pos 1500)
      (pos 0) [] an_agent fresh_pool started_pool [] started_pool-Enough new_pool-IsValid
      started_pool_lem

abbrev an_event : TraceNode (List String)
an_event = record (a_node (pos 127)) { root_id = pos 128 }

abbrev in_trace : PoolManager (List String)
in_trace = set_node with_nodes 126 an_event

in_trace-IsValid : IsValid in_trace
unfolding new_pool expand_once set_node
in_trace-IsValid = set_node-IsValid with_nodes 126 an_event with_nodes-IsValid (omega arith)

root-InTrace : InTrace in_trace 127 127
unfolding new_pool expand_once set_node node_at
root-InTrace = record { used = refl; node = a_root; at = refl; root = refl }

in_trace_root : node_at in_trace 127 ≡ some a_root
unfolding new_pool expand_once set_node node_at
in_trace_root = refl

event-InTrace : InTrace in_trace 127 126
unfolding new_pool expand_once set_node node_at
event-InTrace = record { used = refl; node = an_event; at = refl; root = refl }

get_trace_context-add_trace_context_example :
    let q = (add_trace_context (id_of 127) "sid" "1^2" in_trace).1 in
    ((add_trace_context (id_of 127) "sid" "1^2" in_trace).0 ≡ ok 127)
    × ((get_trace_context (id_of 126) "sid" true (pos 4) q).0 ≡ (
        if str_eq "sid" "sid"
        then ok (buffered (pos 4) "1^2")
        else (get_trace_context (id_of 126) "sid" true (pos 4) in_trace).0))
get_trace_context-add_trace_context_example =
    get_trace_context-add_trace_context in_trace 127 127 126 a_root "sid" "sid" "1^2" (pos 4)
      in_trace-IsValid root-InTrace event-InTrace root-InTrace.used in_trace_root

lone_root : Tree with_nodes 127 []
unfolding new_pool expand_once set_node node_at
lone_root = record {
  valid = with_nodes-IsValid;
  used = refl;
  root = a_root;
  at = refl;
  own_root = refl;
  extra = root_extra;
  is_root = refl;
  last = refl;
  apart = refl;
  chain = refl;
}

lone_root-InTrace : InTrace with_nodes 127 127
unfolding new_pool expand_once set_node node_at
lone_root-InTrace = record { used = refl; node = a_root; at = refl; root = refl }

-- "TraceMinTimeMs:x", which is no number.
abbrev bad_options : List (List ℕ)
bad_options =
    (b'T' ∷ b'r' ∷ b'a' ∷ b'c' ∷ b'e' ∷ b'M' ∷ b'i' ∷ b'n' ∷ b'T' ∷ b'i' ∷ b'm' ∷ b'e' ∷ b'M' ∷ b's'
      ∷ b':' ∷ b'x' ∷ [])
    ∷ []

start_child-Tree_example :
    ((pool_max_nodes_limit < with_nodes.max_id)
      × (start_child (id_of 127) bad_options 7 with_nodes ≡ (err out_of_range, with_nodes)))
    ⊎ ((i : ℕ) × (q : PoolManager (List String)) × (ret : Result ℤ) × (start_child
            (id_of 127)
            bad_options
            7
            with_nodes
          ≡ (ret, q))
        × (is_alive with_nodes i ≡ false)
        × Tree q 127 ([] ++ i ∷ [])
        × IsChild bad_options q i lone_root-InTrace.node ret)
start_child-Tree_example =
    start_child-Tree with_nodes 127 127 7 bad_options [] lone_root lone_root-InTrace
