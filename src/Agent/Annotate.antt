-- ===== src/Agent/Annotate.antt =====
-- The annotations that a program sets through the agent. A text is a string; a key is not null.
use Prim.Native.Char.{code}
use Prim.Native.String.{◌++◌ as str_append}
use pinpoint_c_agent.Base.{
  ℕ, Bool, true, false, String, ℤ, pos, sub64, invalid_argument, ◌==◌, if◌then◌else◌,
}
use pinpoint_c_agent.NodePool.Node.{Json, add_annotation}
use pinpoint_c_agent.NodePool.Finish.{append_annotation}
use pinpoint_c_agent.Agent.{
  Action, ◌>>>◌, pure, throw, NodeLoc, loc_current, loc_root, read, write, get_wrapper_trace_node,
}

abbrev pub is_internal : String → Bool
is_internal String.[] = false
is_internal (String.◌∷◌ c s) = code c == b':'

module _ {V : Type 0} where
  -- NotInternalKey: a key that begins with ':' is thrown.
  unfoldable pub not_internal_key : String → Action V ℕ
  not_internal_key key = if is_internal key then throw invalid_argument else pure 0

module _ {V : Type 0} ⦃j : Json V⦄ where
  unfoldable pub annotate_trace_v1 : ℤ → String → String → NodeLoc → Action V ℕ
  annotate_trace_v1 id key value flag = not_internal_key key >>> λ _.
      get_wrapper_trace_node id flag >>> λ i. write i (add_annotation key (j.of_text value))

  unfoldable pub annotate_trace_v2 : ℤ → String → String → NodeLoc → Action V ℕ
  annotate_trace_v2 id key value flag = not_internal_key key >>> λ _.
      get_wrapper_trace_node id flag >>> λ i.
      append_annotation i "anno" (j.of_text (str_append key (str_append ":" value)))

  abbrev pub error_value : String → String → ℕ → V
  error_value msg file line =
      j.set_member
        (j.set_member (j.set_member j.empty "msg" (j.of_text msg)) "file" (j.of_text file)) "line"
        (j.of_int (pos line))

  unfoldable pub annotate_error_trace : ℤ → String → String → ℕ → Action V ℕ
  annotate_error_trace id msg file line = get_wrapper_trace_node id loc_root >>> λ r.
      write r (add_annotation "ERR" (error_value msg file line))

  abbrev pub exception_value : ℕ → String → V
  exception_value since text =
      j.set_member
        (j.set_member (j.set_member j.empty "M" (j.of_text text)) "C" (j.of_text "class")) ":S"
        (j.of_int (pos since))

  -- At the time `now`. Both the node and its root are marked.
  unfoldable pub annotate_exception_trace : ℕ → ℤ → String → Action V ℕ
  annotate_exception_trace now id text = get_wrapper_trace_node id loc_current >>> λ i.
      write i (λ n. record n { set_exp = true }) >>> λ _.
      get_wrapper_trace_node id loc_root >>> λ r.
      write r (λ n. record n { set_exp = true }) >>> λ _. read r >>> λ root.
      write i (add_annotation "EXP_V2" (exception_value (sub64 now root.trace_start_time) text))

  unfoldable pub set_async_context : ℤ → ℤ → ℤ → Action V ℕ
  set_async_context id async_node_id node_sequence = get_wrapper_trace_node id loc_root >>> λ r.
      write r (
        add_annotation "asy" (
          j.set_member (j.set_member j.empty "id" (j.of_int async_node_id)) "seq"
            (j.of_int node_sequence)))
