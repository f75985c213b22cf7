-- ===== src/Agent/Valid.antt =====
-- Every action of the agent keeps the node pool well formed, whether it succeeds or throws.
pub mod Notes
pub mod Start
pub mod End
use pinpoint_c_agent.Base.{
  ℕ, zero, suc, ◌/◌, ◌%◌, ◌<◌, ◌≡◌, sym, ap, ◌∙◌, subst, inl, inr, Option-cases, List, [], ◌∷◌,
  Option, none, some, ℤ, Result, ok, err, arith, length, get_elem?,
}
use pinpoint_c_agent.NodePool.Node.{TraceNode}
use pinpoint_c_agent.NodePool.Pool.{PoolManager, cell_size, cell_at, node_at, set_node}
use pinpoint_c_agent.NodePool.Touch.{update-IsValid}
use pinpoint_c_agent.NodePool.Valid.{IsValid}
use pinpoint_c_agent.NodePool.Pop.{set_node-IsValid}
use pinpoint_c_agent.NodePool.Append.{update}
use pinpoint_c_agent.Base.{Error}
use pinpoint_c_agent.Agent.{
  pure, throw, Action, ◌>>>◌, bind_result, NodeLoc, loc_current, loc_root, node_or_throw, refer,
  read, write, get_wrapper_trace_node,
}

-- An action that keeps a well-formed pool well formed.
abbrev pub Keeps : {V A : Type 0} → Action V A → Type 0
Keeps {V} m = (p : PoolManager V) → IsValid p → IsValid (m p).1

module _ {V A B : Type 0} where
  pub bind_result-Keeps :
      (r : Result A × PoolManager V) (f : A → Action V B)
      → IsValid r.1
      → ((a : A) → Keeps (f a))
      → IsValid (bind_result r f).1
  bind_result-Keeps (ok a, p) f v k = k a p v
  bind_result-Keeps (err e, p) f v k = v

  pub >>>-Keeps :
      (m : Action V A) (f : A → Action V B) → Keeps m → ((a : A) → Keeps (f a)) → Keeps (m >>> f)
  unfolding ◌>>>◌
  >>>-Keeps m f k l p v = bind_result-Keeps (m p) f (k p v) l

module _ {V : Type 0} where
  pub refer-Keeps : (id : ℤ) → Keeps (refer {V = V} id)
  refer-Keeps id p v = v

  pub read-Keeps : (i : ℕ) → Keeps (read {V = V} i)
  read-Keeps i p v = by_node (node_at p i)
    where
      by_node : (o : Option (TraceNode V)) → IsValid (node_or_throw o p).1
      by_node none = v
      by_node (some n) = v

  pub write-Keeps : (i : ℕ) (f : TraceNode V → TraceNode V) → Keeps (write i f)
  write-Keeps i f p v = update-IsValid i f p v

  pub refer-read-Keeps : (id : ℤ) → Keeps (refer {V = V} id >>> read)
  refer-read-Keeps id = >>>-Keeps (refer id) read (refer-Keeps id) read-Keeps

  pub get_wrapper_trace_node-Keeps :
      (id : ℤ) (loc : NodeLoc) → Keeps (get_wrapper_trace_node {V = V} id loc)
  unfolding get_wrapper_trace_node
  get_wrapper_trace_node-Keeps id loc_current = refer-Keeps id
  get_wrapper_trace_node-Keeps id loc_root =
      >>>-Keeps (refer id >>> read) (λ node. refer node.root_id) (refer-read-Keeps id)
        (λ node. refer-Keeps node.root_id)

  -- A node is read, and what follows writes or asks nothing of the pool.
  pub wrapper-read-Keeps :
      (id : ℤ) (loc : NodeLoc) → Keeps (get_wrapper_trace_node {V = V} id loc >>> read)
  wrapper-read-Keeps id loc =
      >>>-Keeps (get_wrapper_trace_node id loc) read (get_wrapper_trace_node-Keeps id loc)
        read-Keeps

  pub wrapper-write-Keeps :
      (id : ℤ) (loc : NodeLoc) (f : TraceNode V → TraceNode V)
      → Keeps (get_wrapper_trace_node id loc >>> λ i. write i f)
  wrapper-write-Keeps id loc f =
      >>>-Keeps (get_wrapper_trace_node id loc) (λ i. write i f)
        (get_wrapper_trace_node-Keeps id loc) (λ i. write-Keeps i f)
