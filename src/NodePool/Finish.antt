-- ===== src/NodePool/Finish.antt =====
-- TraceNode::EndTrace, the user options of a node, and PoolManager::EncodeTraceToJsonSpan.
pub mod Encode
pub mod Options
use pinpoint_c_agent.Base.{
  ℕ, zero, suc, ◌+◌, Bool, true, false, ◌&&◌, List, [], ◌∷◌, ◌++◌, Option, none, some, ◌==◌,
  if◌then◌else◌, String, ℤ, pos, negsuc, eqb_ℤ, sub64, to_int64, stoll, Result, ok, err, ◌>>=◌,
}
use pinpoint_c_agent.NodePool.Node.{
  Json, TraceNode, RootTraceNodeExtra, UserOption, trace_min_time_ms, trace_only_exception,
  add_annotation, is_root_node, run_user_option_func, e_invalid_node,
}
use pinpoint_c_agent.NodePool.Pool.{PoolManager, node_at, get_used_node}
use pinpoint_c_agent.NodePool.Append.{update}

module _ {V : Type 0} ⦃j : Json V⦄ where
  -- The annotations of a node that is no root.
  abbrev pub end_annotations : Option RootTraceNodeExtra → TraceNode V → TraceNode V
  end_annotations (some extra) node = node
  end_annotations none node =
      add_annotation ":depth" (j.of_int node.depth)
        (add_annotation ":seq" (j.of_int node.sequence) node)

  abbrev pub exception_annotation : TraceNode V → TraceNode V
  exception_annotation node =
      if node.set_exp then add_annotation "EA" (j.of_int (pos 1)) node else node

  -- EndTrace at the time `now`.
  unfoldable pub end_trace : ℕ → TraceNode V → TraceNode V
  end_trace now node =
      let expired = to_int64 (sub64 now node.trace_start_time) in
      let timed =
        add_annotation ":S" (j.of_int (pos (sub64 node.trace_start_time node.pre_trace_time)))
          (add_annotation ":E" (j.of_int expired) (record node { expired_time = expired })) in
      end_annotations node.extra (exception_annotation timed)

-- The text at the first ':', and what is behind it.
unfoldable pub split_colon : List ℕ → List ℕ × Option (List ℕ)
split_colon [] = ([], none)
split_colon (c ∷ cs) =
    let (key, value) = split_colon cs in if c == b':' then ([], some cs) else (c ∷ key, value)

unfoldable pub same_text : List ℕ → List ℕ → Bool
same_text [] [] = true
same_text [] (c ∷ cs) = false
same_text (c ∷ cs) [] = false
same_text (c ∷ cs) (d ∷ ds) = c == d && same_text cs ds

abbrev pub min_time_key : List ℕ
min_time_key =
    b'T' ∷ b'r' ∷ b'a' ∷ b'c' ∷ b'e' ∷ b'M' ∷ b'i' ∷ b'n' ∷ b'T' ∷ b'i' ∷ b'm' ∷ b'e' ∷ b'M' ∷ b's'
    ∷ []

abbrev pub only_exception_key : List ℕ
only_exception_key =
    b'T' ∷ b'r' ∷ b'a' ∷ b'c' ∷ b'e' ∷ b'O' ∷ b'n' ∷ b'l' ∷ b'y' ∷ b'E' ∷ b'x' ∷ b'c' ∷ b'e' ∷ b'p'
    ∷ b't' ∷ b'i' ∷ b'o' ∷ b'n' ∷ []

abbrev pub option_text : Option (List ℕ) → List ℕ
option_text none = []
option_text (some value) = value

module _ {V : Type 0} where
  abbrev pub push_option : UserOption → TraceNode V → TraceNode V
  push_option o node = record node { user_options = node.user_options ++ o ∷ [] }

  -- A number that std::stoll refuses is thrown.
  unfoldable pub parse_user_option : List ℕ → List ℕ → TraceNode V → Result (TraceNode V)
  parse_user_option key value node =
      if same_text key min_time_key
      then (stoll value >>= λ min. ok (push_option (trace_min_time_ms min) node))
      else (if same_text key only_exception_key
          then ok (push_option trace_only_exception node)
          else ok node)

  -- The options up to the null pointer; those before one that throws are kept.
  unfoldable pub set_node_user_option : List (List ℕ) → TraceNode V → Result ℕ × TraceNode V
  set_node_user_option [] node = (ok 0, node)
  set_node_user_option (o ∷ os) node =
      let (key, value) = split_colon o in
      elim (parse_user_option key (option_text value) node) [
        | err e ↦ (err e, node)
        | ok node' ↦ set_node_user_option os node'
      ]

module _ {V : Type 0} ⦃j : Json V⦄ where
  -- XXX: if not end, force end.
  abbrev pub force_end : ℕ → TraceNode V → TraceNode V
  force_end now node = if eqb_ℤ node.expired_time (negsuc 0) then end_trace now node else node

  abbrev pub value_of : Option (TraceNode V) → V
  value_of none = j.empty
  value_of (some node) = node.value

  abbrev pub next_of : Option (TraceNode V) → ℤ
  next_of none = e_invalid_node
  next_of (some node) = node.next

  -- AppendAnnotation of the node `i`. A member that is there and is no array is thrown.
  abbrev pub store_value : ℕ → PoolManager V → Result V → Result ℕ × PoolManager V
  store_value i p (err e) = (err e, p)
  store_value i p (ok value) = (ok i, update i (λ n. record n { value = value }) p)

  unfoldable pub append_annotation : ℕ → String → V → PoolManager V → Result ℕ × PoolManager V
  append_annotation i key v p = store_value i p (j.append_member (value_of (node_at p i)) key v)

  -- The node `i` is ended and its value appended to the root's `event`.
  abbrev pub encode_node : ℕ → ℕ → ℕ → PoolManager V → Result ℕ × PoolManager V
  encode_node now r i p =
      let p₁ = update i (force_end now) p in
      append_annotation r "event" (value_of (node_at p₁ i)) p₁

  abbrev pub encode_next :
      (PoolManager V → Option (Result ℕ × PoolManager V))
      → Result ℕ × PoolManager V
      → Option (Result ℕ × PoolManager V)
  encode_next again (err e, p) = some (err e, p)
  encode_next again (ok i, p) = again p

  -- The loop over the nodes behind the root `r`, with fuel; `none` means that the fuel ran out.
  -- `clock` is the time at each round. (The references that a round takes are given back in it.)
  unfoldable pub encode_chain :
      ℕ → (ℕ → ℕ) → ℕ → ℤ → PoolManager V → Option (Result ℕ × PoolManager V)
  encode_chain zero clock r next p = none
  encode_chain (suc fuel) clock r next p =
      if eqb_ℤ next e_invalid_node then some (ok r, p) else elim (get_used_node p next) [
        | err e ↦ some (err e, p)
        | ok i ↦
            encode_next (encode_chain fuel clock r (next_of (node_at p i)))
              (encode_node (clock fuel) r i p)
      ]

  abbrev pub run_options_of :
      ℕ → Option (Result ℕ × PoolManager V) → Option (Result ℕ × PoolManager V)
  run_options_of r none = none
  run_options_of r (some (err e, p)) = some (err e, p)
  run_options_of r (some (ok i, p)) = some (ok r, update r (λ n. (run_user_option_func n).1) p)

  -- EncodeTraceToJsonSpan of the root with the index `r`; the value that it returns is that of `r`.
  unfoldable pub encode_trace_to_json_span :
      ℕ → (ℕ → ℕ) → ℕ → PoolManager V → Option (Result ℕ × PoolManager V)
  encode_trace_to_json_span fuel clock r p = elim (node_at p r) [
    | none ↦ some (ok r, p)
    | some root ↦
        if is_root_node root
        then run_options_of r (encode_chain fuel clock r root.next p)
        else some (ok r, p)
  ]

-- The ids that Status lists: foreachAliveNode runs over the indices below maxId.
unfoldable pub alive_ids : List Bool → ℕ → List ℕ
alive_ids [] i = []
alive_ids (b ∷ bs) i = let rest = alive_ids bs (i + 1) in if b then (i + 1) ∷ rest else rest
