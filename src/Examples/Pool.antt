-- ===== src/Examples/Pool.antt =====
-- The node pool on concrete inputs.
use pinpoint_c_agent.Base.{
  ℕ, ◌≤◌, ◌<◌, ◌≡◌, refl, ◌⊎◌, ◌↔◌, true, List, [], ◌∷◌, some, arith, String, pos, ok, err,
  out_of_range,
}
use pinpoint_c_agent.NodePool.Node.{Json, reset}
use pinpoint_c_agent.NodePool.Pool.{
  PoolManager, pool_max_nodes_limit, index_of, id_of, new_pool, expand_once, push_range, pop_ready,
  get_ready_node, return_node, no_nodes_leak, free_node_tree,
}
use pinpoint_c_agent.NodePool.Marks.{alive}
use pinpoint_c_agent.NodePool.Pop.{Hands, pop_ready-Hands}
use pinpoint_c_agent.NodePool.Valid.{
  IsValid, new_pool-IsValid, expand_once-IsValid, no_nodes_leak_iff,
}
use pinpoint_c_agent.NodePool.Get.{get_ready_node-Hands}
use pinpoint_c_agent.NodePool.Return.{Returned, return_node-Returned}
use pinpoint_c_agent.NodePool.Free.{quiet, Ends, free_node_tree-Ends}
use pinpoint_c_agent.NodePool.Chain.{Links, Frees, free_node_tree-Frees}
use pinpoint_c_agent.Base.{◌≢◌, none, false}
use pinpoint_c_agent.NodePool.Node.{
  ContextType, string_context, long_context, TraceNode, trace_min_time_ms, trace_only_exception,
  e_invalid_node, run_option, run_options, run_user_option_func,
}
use pinpoint_c_agent.NodePool.Settings.{Decides, run_user_option_func-keeps}

-- Values of which only the member names are kept.
instance abbrev pub key_json : Json (List String)
key_json = record {
  empty = [];
  clear = λ v. [];
  of_int = λ n. [];
  of_text = λ s. s ∷ [];
  set_member = λ v k w. k ∷ v;
  append_member = λ v k w. ok (k ∷ v);
}

abbrev pub fresh_pool : PoolManager (List String)
fresh_pool = new_pool

-- The pool after one request, which takes the top of the stack.
abbrev pub below_top : List ℕ
below_top = push_range 127 0 []

pub fresh_stack : fresh_pool.free_node_list ≡ 127 ∷ below_top
unfolding new_pool expand_once push_range
fresh_stack = refl

abbrev first_request :
    (q : PoolManager (List String)) × (pop_ready (127 ∷ below_top) fresh_pool ≡ ok (127, q))
    × Hands fresh_pool q 127
first_request = pop_ready-Hands fresh_pool 127 below_top new_pool-IsValid fresh_stack

abbrev one_out : PoolManager (List String)
one_out = first_request.0

abbrev one_out-Hands : Hands fresh_pool one_out 127
one_out-Hands = first_request.2

fresh_room : fresh_pool.max_id ≤ pool_max_nodes_limit
unfolding new_pool expand_once
fresh_room = omega arith

expand_once-IsValid_example : IsValid (expand_once fresh_pool)
expand_once-IsValid_example = expand_once-IsValid fresh_pool new_pool-IsValid fresh_room

get_ready_node-Hands_example :
    ((fresh_pool.free_node_list ≡ [])
      × (pool_max_nodes_limit < fresh_pool.max_id)
      × (get_ready_node fresh_pool ≡ err out_of_range))
    ⊎ ((i : ℕ) × (q : PoolManager (List String)) × (get_ready_node fresh_pool ≡ ok (i, q))
        × Hands fresh_pool q i)
get_ready_node-Hands_example = get_ready_node-Hands fresh_pool new_pool-IsValid

no_nodes_leak_iff_example : (no_nodes_leak one_out ≡ true) ↔ (alive one_out.used_node_set ≡ 0)
no_nodes_leak_iff_example = no_nodes_leak_iff one_out one_out-Hands.valid

return_node-Returned_example : Returned (index_of (pos 128)) (return_node quiet (pos 128) one_out).1
return_node-Returned_example =
    return_node-Returned quiet (pos 128) one_out (λ k q v. v) one_out-Hands.valid

fresh-alive : alive fresh_pool.used_node_set ≡ 0
unfolding new_pool expand_once
fresh-alive = refl

free_node_tree-Ends_example : Ends (free_node_tree 3 quiet (pos 128) one_out) one_out
free_node_tree-Ends_example =
    free_node_tree-Ends 3 (pos 128) one_out one_out-Hands.valid
      (omega (arith, one_out-Hands.one_more, fresh-alive))

one_out-Links : Links one_out (id_of 127) (127 ∷ [])
unfolding reset
one_out-Links = (
  refl,
  one_out-Hands.now_used,
  refl,
  (reset (id_of 127) one_out-Hands.old, one_out-Hands.handed, refl),
)

free_node_tree-Frees_example :
    (q : PoolManager (List String)) × (free_node_tree 2 quiet (pos 128) one_out ≡ some q)
    × Frees (127 ∷ []) one_out q
free_node_tree-Frees_example =
    free_node_tree-Frees 2 127 [] one_out one_out-Hands.valid one_out-Links (omega arith)

abbrev two_contexts : List (String × ContextType)
two_contexts = ("sid", string_context "1^2") ∷ ("seq", long_context (pos 7)) ∷ []

-- A node that took 12 ms, and is to be kept from 20 ms on or with an exception.
abbrev quick_node : TraceNode (List String)
quick_node = record {
  extra = none;
  root_id = pos 1;
  parent_id = pos 1;
  id = pos 2;
  next = e_invalid_node;
  depth = pos 1;
  sequence = pos 0;
  trace_start_time = 100;
  pre_trace_time = 90;
  expired_time = pos 12;
  set_exp = false;
  reference_count = pos 0;
  value = [];
  context_map = [];
  user_options = trace_min_time_ms (pos 20) ∷ trace_only_exception ∷ [];
  skipped = false;
}

quick_node_skipped : (run_user_option_func quick_node).1.skipped ≡ true
unfolding run_user_option_func run_options run_option
quick_node_skipped = refl

run_user_option_func-keeps_example :
    let r = run_user_option_func quick_node in
    ((quick_node.user_options ≡ []) × (r ≡ (true, quick_node)))
    ⊎ ((quick_node.user_options ≢ []) × Decides quick_node.user_options quick_node r)
run_user_option_func-keeps_example = run_user_option_func-keeps quick_node
