-- ===== src/Examples/Events.antt =====
-- A root with one node behind it, and that node ended.
use pinpoint_c_agent.Base.{◌≡◌, refl, List, [], ◌∷◌, some, true, String, pos, ok, arith}
use pinpoint_c_agent.NodePool.Node.{TraceNode, RootTraceNodeExtra}
use pinpoint_c_agent.NodePool.Pool.{PoolManager, id_of, node_at, set_node, new_pool, expand_once}
use pinpoint_c_agent.NodePool.Valid.{IsValid}
use pinpoint_c_agent.NodePool.Pop.{is_alive, set_node-IsValid}
use pinpoint_c_agent.NodePool.Tree.{Tree}
use pinpoint_c_agent.Agent.Trace.{agent_end_trace}
use pinpoint_c_agent.Agent.Event.{EndsEvent, agent_end_trace-EndsEvent}
use pinpoint_c_agent.Examples.Pool.{key_json}
use pinpoint_c_agent.Examples.Append.{a_node, a_root, root_extra, two_out, two_out-IsValid}
use pinpoint_c_agent.Examples.Network.{outside, an_agent}

abbrev linked_extra : RootTraceNodeExtra
linked_extra = record root_extra { last = pos 127; seq = pos 1 }

abbrev linked_root : TraceNode (List String)
linked_root = record a_root { next = pos 127; extra = some linked_extra }

abbrev last_event : TraceNode (List String)
last_event = record (a_node (pos 127)) { root_id = pos 128; parent_id = pos 128 }

abbrev two_linked : PoolManager (List String)
two_linked = set_node (set_node two_out 127 linked_root) 126 last_event

two_linked-IsValid : IsValid two_linked
unfolding new_pool expand_once set_node
two_linked-IsValid =
    set_node-IsValid (set_node two_out 127 linked_root) 126 last_event
      (set_node-IsValid two_out 127 linked_root two_out-IsValid (omega arith)) (omega arith)

two_linked-Tree : Tree two_linked 127 (126 ∷ [])
unfolding new_pool expand_once set_node node_at
two_linked-Tree = record {
  valid = two_linked-IsValid;
  used = refl;
  root = linked_root;
  at = refl;
  own_root = refl;
  extra = linked_extra;
  is_root = refl;
  last = refl;
  apart = refl;
  chain = (refl, refl, refl, (last_event, refl, refl));
}

event_used : is_alive two_linked 126 ≡ true
unfolding new_pool expand_once set_node
event_used = refl

event_at : node_at two_linked 126 ≡ some last_event
unfolding new_pool expand_once set_node node_at
event_at = refl

agent_end_trace-EndsEvent_example :
    (q : PoolManager (List String)) × (agent_end_trace outside 0 120
        (id_of 126)
        (pos 0)
        an_agent
        two_linked
        []
      ≡ some (ok (pos 128), an_agent, q, []))
    × EndsEvent outside two_linked q 127 126 120 (126 ∷ []) last_event
agent_end_trace-EndsEvent_example =
    agent_end_trace-EndsEvent outside 0 120 127 126 (pos 0) (126 ∷ []) last_event an_agent
      two_linked [] two_linked-Tree event_used event_at refl
