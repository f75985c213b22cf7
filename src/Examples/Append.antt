-- ===== src/Examples/Append.antt =====
-- A root and a new node in one pool, and the new node hung under the root.
use pinpoint_c_agent.Base.{
  ℕ, ◌≡◌, refl, List, [], none, some, arith, false, String, ℤ, pos, negsuc, ok,
}
use pinpoint_c_agent.NodePool.Node.{TraceNode, RootTraceNodeExtra, e_invalid_node}
use pinpoint_c_agent.NodePool.Pool.{
  PoolManager, new_pool, expand_once, push_range, node_at, set_node,
}
use pinpoint_c_agent.NodePool.Pop.{popped, popped-IsValid, set_node-IsValid}
use pinpoint_c_agent.NodePool.Valid.{IsValid, new_pool-IsValid}
use pinpoint_c_agent.NodePool.Append.{append_to_root_trace}
use pinpoint_c_agent.NodePool.Append.Linked.{Appended}
use pinpoint_c_agent.NodePool.Append.Call.{CanAppend, append_to_root_trace-Appended}
use pinpoint_c_agent.Examples.Pool.{key_json, fresh_pool, below_top, fresh_stack}

abbrev below_second : List ℕ
below_second = push_range 126 0 []

abbrev pub two_out : PoolManager (List String)
two_out = popped (popped fresh_pool 127 below_top) 126 below_second

pub two_out-IsValid : IsValid two_out
unfolding push_range
two_out-IsValid =
    popped-IsValid (popped fresh_pool 127 below_top) 126 below_second
      (popped-IsValid fresh_pool 127 below_top new_pool-IsValid fresh_stack) refl

abbrev pub a_node : ℤ → TraceNode (List String)
a_node id = record {
  extra = none;
  root_id = e_invalid_node;
  parent_id = e_invalid_node;
  id = id;
  next = e_invalid_node;
  depth = pos 1;
  sequence = negsuc 0;
  trace_start_time = 100;
  pre_trace_time = 0;
  expired_time = negsuc 0;
  set_exp = false;
  reference_count = pos 0;
  value = [];
  context_map = [];
  user_options = [];
  skipped = false;
}

abbrev pub root_extra : RootTraceNodeExtra
root_extra = record { last = e_invalid_node; status = pos 2; seq = pos 0 }

abbrev pub a_root : TraceNode (List String)
a_root = record (a_node (pos 128)) { extra = some root_extra; root_id = pos 128; depth = pos 0 }

abbrev pub with_nodes : PoolManager (List String)
with_nodes = set_node (set_node two_out 127 a_root) 126 (a_node (pos 127))

pub with_nodes-IsValid : IsValid with_nodes
unfolding new_pool expand_once set_node
with_nodes-IsValid =
    set_node-IsValid (set_node two_out 127 a_root) 126 (a_node (pos 127))
      (set_node-IsValid two_out 127 a_root two_out-IsValid (omega arith)) (omega arith)

with_nodes-CanAppend : CanAppend 127 126 [] a_root (a_node (pos 127)) root_extra with_nodes
unfolding new_pool expand_once set_node node_at
with_nodes-CanAppend = record {
  valid = with_nodes-IsValid;
  root_alive = refl;
  node_alive = refl;
  differ = λ e. omega arith;
  root_at = refl;
  node_at_i = refl;
  is_root = refl;
  is_new = refl;
  own_id = refl;
  unlinked = refl;
  last = refl;
  root_apart = refl;
  node_apart = refl;
  chain = refl;
}

append_to_root_trace-Appended_example :
    (q : PoolManager (List String)) × (append_to_root_trace 127 126 with_nodes ≡ (ok 126, q))
    × Appended 127 126 [] root_extra with_nodes q
append_to_root_trace-Appended_example =
    append_to_root_trace-Appended 127 126 [] a_root (a_node (pos 127)) root_extra with_nodes
      with_nodes-CanAppend
