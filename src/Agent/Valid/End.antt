-- ===== src/Agent/Valid/End.antt =====
-- EndTrace of the agent keeps the node pool well formed.
use pinpoint_c_agent.Base.{
  ℕ, zero, suc, ◌≡◌, refl, sym, subst, inl, inr, true, ◌||◌, Bool-cases, List, Option, none, some,
  if◌then◌else◌, ℤ, pos, eqb_ℤ, Result, ok, err, out_of_range, some-injective,
}
use pinpoint_c_agent.NodePool.Node.{
  Json, TraceNode, e_invalid_node, e_root_node, e_trace_pass, is_root_node,
}
use pinpoint_c_agent.NodePool.Pool.{
  PoolManager, node_at, get_used_node, index_of, return_node, free_chain, free_node_tree,
}
use pinpoint_c_agent.NodePool.Return.{id_alive, alive_node, released-IsValid}
use pinpoint_c_agent.NodePool.Valid.{IsValid}
use pinpoint_c_agent.NodePool.Touch.{update-IsValid}
use pinpoint_c_agent.NodePool.Free.{quiet, return_node_dead, return_node_alive}
use pinpoint_c_agent.NodePool.Append.{update}
use pinpoint_c_agent.NodePool.Finish.{end_trace, encode_trace_to_json_span, value_of}
use pinpoint_c_agent.Agent.{status_of}
use pinpoint_c_agent.Agent.Trace.{
  Agent, Outside, try_send_span, handed_over, with_pool, send_encoded, send_span_trace, free_tree,
  end_by_status, end_node, agent_end_trace,
}
use pinpoint_c_agent.Agent.Valid.Start.{encode_trace_to_json_span-IsValid}

module _ {V : Type 0} where
  return_node-IsValid :
      (o : Option ℕ) (id : ℤ) (p : PoolManager V)
      → index_of id ≡ o
      → IsValid p
      → IsValid (return_node quiet id p).1
  return_node-IsValid o id p e v = elim (Bool-cases (id_alive p o)) [
    | inr dead ↦ subst (λ r. IsValid r.1) (sym (return_node_dead o id p e v dead)) v
    | inl used ↦ of_used o e used
  ]
    where
      of_used :
          (o : Option ℕ)
          → index_of id ≡ o
          → id_alive p o ≡ true
          → IsValid (return_node quiet id p).1
      of_used none e used = cc
      of_used (some i) e used =
          let (node, n) = alive_node p i v used in
          subst (λ r. IsValid r.1) (sym (return_node_alive i node id p e v used n))
            (released-IsValid p i v used)

  free_chain-IsValid :
      (fuel : ℕ) (next : ℤ) (p q : PoolManager V)
      → IsValid p
      → free_chain fuel quiet next p ≡ some q
      → IsValid q
  unfolding free_chain
  free_chain-IsValid zero next p q v = λ e. cc
  free_chain-IsValid (suc fuel) next p q v = elim (Bool-cases (eqb_ℤ next e_invalid_node)) [
    | inl end ↦ rw end (λ e. subst IsValid (some-injective e) v)
    | inr more ↦ rw more (
        free_chain-IsValid fuel (return_node quiet next p).0 (return_node quiet next p).1 q
          (return_node-IsValid (index_of next) next p refl v))
  ]

  free_node_tree-IsValid :
      (fuel : ℕ) (root : ℤ) (p q : PoolManager V)
      → IsValid p
      → free_node_tree fuel quiet root p ≡ some q
      → IsValid q
  unfolding free_node_tree
  free_node_tree-IsValid fuel root p q v =
      elim (Bool-cases (eqb_ℤ root e_invalid_node || eqb_ℤ root e_root_node)) [
        | inl skip ↦ rw skip (λ e. subst IsValid (some-injective e) v)
        | inr run ↦ rw run (free_chain-IsValid fuel root p q v)
      ]

module _ {V K A : Type 0} where
  -- A call of EndTrace leaves a well-formed pool, where it returns.
  abbrev pub Leaves : Option (Result A × Agent K × PoolManager V × K) → Type 0
  Leaves o =
      (r : Result A) (a : Agent K) (p : PoolManager V) (k : K) → o ≡ some (r, a, p, k) → IsValid p

  Leaves-some :
      (r : Result A) (a : Agent K) (p : PoolManager V) (k : K)
      → IsValid p
      → Leaves (some (r, a, p, k))
  Leaves-some r a p k v = λ r' a' p' k' e. subst (λ t. IsValid t.2) (some-injective e) v

module _ {V K : Type 0} ⦃j : Json V⦄ (out : Outside V K) where
  send_encoded-Leaves :
      (fuel r : ℕ) (timeout : ℤ) (a : Agent K) (k : K) (o : Option (Result ℕ × PoolManager V))
      → ((b : Result ℕ × PoolManager V) → o ≡ some b → IsValid b.1)
      → Leaves (send_encoded out fuel r timeout a k o)
  send_encoded-Leaves fuel r timeout a k none l = λ r' a' p' k' e. cc
  send_encoded-Leaves fuel r timeout a k (some (err e, p)) l =
      Leaves-some (err e) a p k (l (err e, p) refl)
  send_encoded-Leaves fuel r timeout a k (some (ok i, p)) l =
      by_sent (handed_over out span (try_send_span out fuel span timeout a k))
    where
      span : List ℕ
      span = out.write_value (value_of (node_at p r))

      by_sent : (o : Option (Result ℕ × Agent K × K)) → Leaves (with_pool out p o)
      by_sent none = λ r' a' p' k' e. cc
      by_sent (some (r', a', k')) = Leaves-some r' a' p k' (l (ok i, p) refl)

  send_span_trace-Leaves :
      (fuel r : ℕ) (timeout : ℤ) (a : Agent K) (p : PoolManager V) (k : K)
      → IsValid p
      → Leaves (send_span_trace out fuel r timeout a p k)
  unfolding send_span_trace
  send_span_trace-Leaves fuel r timeout a p k v =
      send_encoded-Leaves fuel r timeout a k (encode_trace_to_json_span fuel out.clock r p)
        (λ b e. encode_trace_to_json_span-IsValid fuel out.clock r p b v e)

  free_tree-Leaves :
      (fuel : ℕ) (id : ℤ) (o : Option (Result ℕ × Agent K × PoolManager V × K))
      → Leaves o
      → Leaves (free_tree out fuel id o)
  free_tree-Leaves fuel id none l = λ r' a' p' k' e. cc
  free_tree-Leaves fuel id (some (err e, a, p, k)) l =
      Leaves-some (err e) a p k (l (err e) a p k refl)
  free_tree-Leaves fuel id (some (ok i, a, p, k)) l =
      by_pool (free_node_tree fuel quiet id p) (free_node_tree-IsValid fuel id p)
    where
      by_pool :
          (o : Option (PoolManager V))
          → ((q : PoolManager V) → IsValid p → o ≡ some q → IsValid q)
          → Leaves (elim o [ none ↦ none | some q ↦ some (ok e_root_node, a, q, k) ])
      by_pool none f = λ r' a' p' k' e. cc
      by_pool (some q) f = Leaves-some (ok e_root_node) a q k (f q (l (ok i) a p k refl) refl)

  end_by_status-Leaves :
      (fuel now : ℕ) (timeout id : ℤ) (i : ℕ) (status : Result ℤ) (a : Agent K) (p : PoolManager V)
      (k : K)
      → IsValid p
      → Leaves (end_by_status out fuel now timeout id i status a p k)
  end_by_status-Leaves fuel now timeout id i (err e) a p k v = Leaves-some (err e) a p k v
  end_by_status-Leaves fuel now timeout id i (ok status) a p k v =
      elim (Bool-cases (eqb_ℤ status e_trace_pass)) [
        | inl pass ↦ rw pass (
            free_tree-Leaves fuel id _ (
              send_span_trace-Leaves fuel i
                (if eqb_ℤ timeout (pos 0) then a.span_timeout else timeout) a
                (update i (end_trace now) p) k (update-IsValid i (end_trace now) p v)))
        | inr drop_ ↦
            rw drop_ (free_tree-Leaves fuel id (some (ok i, a, p, k)) (Leaves-some (ok i) a p k v))
      ]

  end_node-Leaves :
      (fuel now : ℕ) (timeout id : ℤ) (i : ℕ) (o : Option (TraceNode V)) (a : Agent K)
      (p : PoolManager V) (k : K)
      → IsValid p
      → Leaves (end_node out fuel now timeout id i o a p k)
  end_node-Leaves fuel now timeout id i none a p k v = Leaves-some (err out_of_range) a p k v
  end_node-Leaves fuel now timeout id i (some node) a p k v =
      elim (Bool-cases (is_root_node node)) [
        | inl root ↦
            rw root (end_by_status-Leaves fuel now timeout id i (status_of node.extra) a p k v)
        | inr event ↦ rw event (
            Leaves-some (ok node.parent_id) a (update i (end_trace now) p) k
              (update-IsValid i (end_trace now) p v))
      ]

  pub agent_end_trace-Leaves :
      (fuel now : ℕ) (id timeout : ℤ) (a : Agent K) (p : PoolManager V) (k : K)
      → IsValid p
      → Leaves (agent_end_trace out fuel now id timeout a p k)
  unfolding agent_end_trace
  agent_end_trace-Leaves fuel now id timeout a p k v = by_index (get_used_node p id)
    where
      by_index :
          (r : Result ℕ)
          → Leaves (elim r [
            | err e ↦ some (err e, a, p, k)
            | ok i ↦ end_node out fuel now timeout id i (node_at p i) a p k
          ])
      by_index (err e) = Leaves-some (err e) a p k v
      by_index (ok i) = end_node-Leaves fuel now timeout id i (node_at p i) a p k v
