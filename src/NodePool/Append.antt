-- ===== src/NodePool/Append.antt =====
-- PoolManager::AppendToRootTrace: a new node is hung behind the last node of its trace, under the
-- lock of the root. (The reference that the call takes of the last node is given back before it
-- returns.)
pub mod Linked
pub mod Call
use pinpoint_c_agent.Base.{
  ℕ, Bool, not, Option, none, some, if◌then◌else◌, ℤ, pos, eqb_ℤ, ◌+ℤ◌, Result, ok, err,
  out_of_range, logic_error,
}
use pinpoint_c_agent.NodePool.Node.{TraceNode, RootTraceNodeExtra, e_invalid_node}
use pinpoint_c_agent.NodePool.Pool.{PoolManager, node_at, set_node, get_used_node}

-- SetLastNode and CreateNewSequence.
abbrev pub set_last : ℤ → Option RootTraceNodeExtra → Option RootTraceNodeExtra
set_last id none = none
set_last id (some extra) = some (record extra { last = id; seq = extra.seq +ℤ pos 1 })

abbrev pub seq_of : Option RootTraceNodeExtra → ℤ
seq_of none = pos 0
seq_of (some extra) = extra.seq

module _ {V : Type 0} where
  -- A write through the TraceNode& of an index.
  unfoldable pub update : ℕ → (TraceNode V → TraceNode V) → PoolManager V → PoolManager V
  update i f p = elim (node_at p i) [ none ↦ p | some node ↦ set_node p i (f node) ]

  -- The writes behind the search for the last node, whose start time is `pre`.
  abbrev pub hang : ℕ → ℕ → TraceNode V → TraceNode V → ℕ → PoolManager V → PoolManager V
  hang r i root node pre p =
      update r
        (λ n. record n {
          extra = set_last node.id n.extra;
          next = if eqb_ℤ n.next e_invalid_node then node.id else n.next;
        })
        (update i (λ n. record n { pre_trace_time = pre; sequence = seq_of root.extra }) p)

  -- ReferNode(last): the start time of the last node, which gets the new one as its successor.
  abbrev pub behind_node :
      ℕ
      → ℕ
      → TraceNode V
      → TraceNode V
      → ℕ
      → Option (TraceNode V)
      → PoolManager V
      → Result ℕ × PoolManager V
  behind_node r i root node l none p = (err out_of_range, p)
  behind_node r i root node l (some last) p = (
    ok i,
    hang r i root node last.trace_start_time (update l (λ n. record n { next = node.id }) p),
  )

  abbrev pub behind_last :
      ℕ → ℕ → TraceNode V → TraceNode V → Result ℕ → PoolManager V → Result ℕ × PoolManager V
  behind_last r i root node (err e) p = (err e, p)
  behind_last r i root node (ok l) p = behind_node r i root node l (node_at p l) p

  abbrev pub with_root : ℕ → TraceNode V → PoolManager V → PoolManager V
  with_root i root p = update i (λ n. record n { root_id = root.id }) p

  abbrev pub append_node :
      ℕ
      → ℕ
      → TraceNode V
      → TraceNode V
      → Option RootTraceNodeExtra
      → PoolManager V
      → Result ℕ × PoolManager V
  append_node r i root node none p = (err logic_error, p)
  append_node r i root node (some extra) p =
      let p₁ = with_root i root p in
      if not (eqb_ℤ node.root_id e_invalid_node)
      then (ok i, p)
      else (if eqb_ℤ extra.last e_invalid_node
          then (ok i, hang r i root node root.trace_start_time p₁)
          else behind_last r i root node (get_used_node p₁ extra.last) p₁)

  abbrev pub append_found :
      ℕ → ℕ → Option (TraceNode V) → Option (TraceNode V) → PoolManager V → Result ℕ × PoolManager V
  append_found r i none o p = (err logic_error, p)
  append_found r i (some root) none p = (err logic_error, p)
  append_found r i (some root) (some node) p = append_node r i root node root.extra p

  -- `r` and `i` are the root and the new node. A root has its extra record; without one the code
  -- has no lock to take, which is `logic_error`.
  unfoldable pub append_to_root_trace : ℕ → ℕ → PoolManager V → Result ℕ × PoolManager V
  append_to_root_trace r i p = append_found r i (node_at p r) (node_at p i) p
