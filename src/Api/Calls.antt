-- ===== src/Api/Calls.antt =====
-- The calls of the C interface that annotate a trace or ask about one.
use pinpoint_c_agent.Base.{
  ℕ, Bool, List, Option, none, some, if◌then◌else◌, String, ℤ, pos, negsuc, eqb_ℤ,
}
use pinpoint_c_agent.NodePool.Node.{Json, e_root_node}
use pinpoint_c_agent.NodePool.Finish.{alive_ids}
use pinpoint_c_agent.NodePool.Pool.{total_nodes_count, free_nodes_count}
use pinpoint_c_agent.Agent.{
  NodeLoc, get_depth, is_root_trace, change_trace_status, get_sequence_id, add_trace_context,
  get_trace_context,
}
use pinpoint_c_agent.Agent.Annotate.{
  annotate_trace_v1, annotate_trace_v2, annotate_error_trace, annotate_exception_trace,
  set_async_context,
}
use pinpoint_c_agent.Api.{Runtime, guarded}

module _ {V K : Type 0} where
  unfoldable pub pinpoint_trace_is_root : ℤ → Runtime V K → ℤ × Runtime V K
  pinpoint_trace_is_root id s =
      let asked =
        guarded (λ root. if root then pos 1 else pos 0) (negsuc 0) (λ a. is_root_trace id) s in
      if eqb_ℤ id e_root_node then (negsuc 0, s) else asked

  unfoldable pub pinpoint_get_depth : ℤ → Runtime V K → ℤ × Runtime V K
  pinpoint_get_depth id s =
      let asked = guarded (λ depth. depth) (negsuc 0) (λ a. get_depth id) s in
      if eqb_ℤ id e_root_node then (negsuc 0, s) else asked

  unfoldable pub api_change_trace_status : ℤ → ℤ → Runtime V K → ℤ × Runtime V K
  api_change_trace_status id status =
      guarded (λ older. older) (pos 0) (λ a. change_trace_status id status)

  unfoldable pub mark_current_trace_status : ℤ → ℤ → Runtime V K → ℤ × Runtime V K
  mark_current_trace_status id status = api_change_trace_status id status

  unfoldable pub pinpoint_get_sequence_id : ℤ → Runtime V K → ℤ × Runtime V K
  pinpoint_get_sequence_id id = guarded (λ n. n) (negsuc 0) (λ a. get_sequence_id id)

  unfoldable pub pinpoint_set_context_key : ℤ → String → String → Runtime V K → ℕ × Runtime V K
  pinpoint_set_context_key id key value = guarded (λ _. 0) 0 (λ a. add_trace_context id key value)

  -- The answer, and what stands in the buffer after it.
  unfoldable pub pinpoint_get_context_key :
      ℤ → String → Bool → ℤ → Runtime V K → (ℤ × Option String) × Runtime V K
  pinpoint_get_context_key id key has_buf buf_size =
      guarded (λ r. r) (pos 0, none) (λ a. get_trace_context id key has_buf buf_size)

module _ {V K : Type 0} ⦃j : Json V⦄ where
  unfoldable pub pinpoint_add_clue : ℤ → String → String → NodeLoc → Runtime V K → ℕ × Runtime V K
  pinpoint_add_clue id key value flag =
      guarded (λ _. 0) 0 (λ a. annotate_trace_v1 id key value flag)

  unfoldable pub pinpoint_add_clues : ℤ → String → String → NodeLoc → Runtime V K → ℕ × Runtime V K
  pinpoint_add_clues id key value flag =
      guarded (λ _. 0) 0 (λ a. annotate_trace_v2 id key value flag)

  unfoldable pub pinpoint_add_exception : ℕ → ℤ → String → Runtime V K → ℕ × Runtime V K
  pinpoint_add_exception now id text =
      guarded (λ _. 0) 0 (λ a. annotate_exception_trace now id text)

  unfoldable pub catch_error : ℤ → String → String → ℕ → Runtime V K → ℕ × Runtime V K
  catch_error id msg file line = guarded (λ _. 0) 0 (λ a. annotate_error_trace id msg file line)

  unfoldable pub pinpoint_set_async_ctx : ℤ → ℤ → ℤ → Runtime V K → ℕ × Runtime V K
  pinpoint_set_async_ctx id async_node_id node_sequence =
      guarded (λ _. 0) 0 (λ a. set_async_context id async_node_id node_sequence)

-- What PoolManager::Status reports for show_status.
pub record PoolStatus : Type 0 where
  pub pool_total_node : ℕ
  pub pool_free_node : ℕ
  pub pool_alive_nodes : List ℕ

module _ {V K : Type 0} where
  unfoldable pub show_status : Runtime V K → Option PoolStatus
  show_status s = elim s.agent [
    | none ↦ none
    | some a ↦ some (record {
      pool_total_node = total_nodes_count s.local_node_pool;
      pool_free_node = free_nodes_count s.local_node_pool;
      pool_alive_nodes = alive_ids s.local_node_pool.used_node_set 0;
    })
  ]
