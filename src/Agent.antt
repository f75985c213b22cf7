-- ===== src/Agent.antt =====
-- class Agent of common/src/common.cpp: what a traced program calls, on the node pool of its thread.
-- An action takes the pool and returns it with a result or an error; what was written before an
-- error stays written. The references that an action takes of its nodes are given back before it
-- returns, so they are left out.
pub mod Annotate
pub mod Valid
pub mod Greeting
pub mod Trace
pub mod Send
pub mod Sent
pub mod Runs
pub mod Finish
pub mod Start
pub mod Contexts
pub mod Child
pub mod Event
use pinpoint_c_agent.Base.{
  ℕ, zero, suc, ◌+◌, ◌-◌, Bool, true, false, not, List, [], ◌∷◌, Option, none, some, ltb,
  if◌then◌else◌, String, ℤ, pos, negsuc, eqb_ℤ, leb_ℤ, ltb_ℤ, sub64, Error, Result, ok, err,
  out_of_range, invalid_argument, logic_error, length, ◌>>=◌,
}
use pinpoint_c_agent.NodePool.Node.{
  Json, TraceNode, RootTraceNodeExtra, ContextType, string_context, as_string_value, put_context,
  find_context, add_annotation, upgrade_to_root_node, start_trace, bind_parent_trace, is_root_node,
  e_invalid_node, e_root_node, e_trace_pass,
}
use pinpoint_c_agent.NodePool.Pool.{PoolManager, node_at, get_used_node, get_ready_node, id_of}
use pinpoint_c_agent.NodePool.Append.{update, append_to_root_trace}
use pinpoint_c_agent.NodePool.Finish.{set_node_user_option}

abbrev pub Action : Type 0 → Type 0 → Type 0
Action V A = PoolManager V → Result A × PoolManager V

module _ {V A : Type 0} where
  abbrev pub pure : A → Action V A
  pure a p = (ok a, p)

  abbrev pub throw : Error → Action V A
  throw e p = (err e, p)

-- E_NODE_LOC.
pub data NodeLoc : Type 0 where
  loc_current loc_root : NodeLoc

-- GetStatus of a root. A null record is dereferenced, which is `logic_error`.
abbrev pub status_of : Option RootTraceNodeExtra → Result ℤ
status_of none = err logic_error
status_of (some extra) = ok extra.status

abbrev pub set_status : ℤ → Option RootTraceNodeExtra → Option RootTraceNodeExtra
set_status status none = none
set_status status (some extra) = some (record extra { status = status })

-- The bytes of a text. (ASCII: a character is a byte.)
abbrev pub text_size : String → ℕ
text_size String.[] = 0
text_size (String.◌∷◌ c s) = suc (text_size s)

infixl 5 ◌>>>◌
module _ {V A B : Type 0} where
  abbrev pub bind_result : Result A × PoolManager V → (A → Action V B) → Result B × PoolManager V
  bind_result (ok a, p) f = f a p
  bind_result (err e, p) f = (err e, p)

  unfoldable pub ◌>>>◌ : Action V A → (A → Action V B) → Action V B
  ◌>>>◌ m f p = bind_result (m p) f

module _ {V : Type 0} where
  -- ReferNode: the index of a node in use.
  abbrev pub refer : ℤ → Action V ℕ
  refer id p = (get_used_node p id, p)

  abbrev pub node_or_throw : Option (TraceNode V) → Action V (TraceNode V)
  node_or_throw none p = (err out_of_range, p)
  node_or_throw (some node) p = (ok node, p)

  -- What the node holds.
  abbrev pub read : ℕ → Action V (TraceNode V)
  read i p = node_or_throw (node_at p i) p

  abbrev pub write : ℕ → (TraceNode V → TraceNode V) → Action V ℕ
  write i f p = (ok i, update i f p)

  -- GetWrapperTraceNode: the node, or the root of its trace.
  unfoldable pub get_wrapper_trace_node : ℤ → NodeLoc → Action V ℕ
  get_wrapper_trace_node id loc_current = refer id
  get_wrapper_trace_node id loc_root = (refer id >>> read) >>> λ node. refer node.root_id

  unfoldable pub is_root_trace : ℤ → Action V Bool
  is_root_trace id = (refer id >>> read) >>> λ node. pure (is_root_node node)

  unfoldable pub get_depth : ℤ → Action V ℤ
  get_depth id = (refer id >>> read) >>> λ node. pure node.depth

  abbrev pub lift : {A : Type 0} → Result A → Action V A
  lift r p = (r, p)

  -- The older status of the root comes back.
  unfoldable pub change_trace_status : ℤ → ℤ → Action V ℤ
  change_trace_status id status = get_wrapper_trace_node id loc_root >>> λ r. read r >>> λ root.
      lift (status_of root.extra) >>> λ old.
      write r (λ n. record n { extra = set_status status n.extra }) >>> λ _. pure old

  unfoldable pub get_sequence_id : ℤ → Action V ℤ
  get_sequence_id id =
      (get_wrapper_trace_node id loc_current >>> read) >>> λ node. pure node.sequence

  unfoldable pub add_trace_context : ℤ → String → String → Action V ℕ
  add_trace_context id key value = get_wrapper_trace_node id loc_root >>> λ r.
      write r (λ n. record n { context_map = put_context key (string_context value) n.context_map })

  -- The answer and what is copied into the buffer, where there is a buffer with room.
  unfoldable pub get_trace_context : ℤ → String → Bool → ℤ → Action V (ℤ × Option String)
  get_trace_context id key has_buf buf_size =
      (get_wrapper_trace_node id loc_root >>> read) >>> λ root.
      lift (find_context key root.context_map >>= as_string_value) >>> λ value. pure (
        if has_buf
        then (if ltb_ℤ (pos (text_size value)) buf_size
            then (pos (text_size value), some value)
            else (negsuc 0, none))
        else (negsuc 0, none))
