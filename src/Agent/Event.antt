-- ===== src/Agent/Event.antt =====
-- Ending a node that is no root.
use pinpoint_c_agent.Base.{
  ℕ, ◌≡◌, ◌≢◌, refl, sym, ap, ◌∙◌, true, false, List, Option, some, some-injective, ℤ, eqb_ℤ_iff,
  Result, ok, err,
}
use pinpoint_c_agent.NodePool.Node.{Json, TraceNode, is_root_node}
use pinpoint_c_agent.NodePool.Pool.{PoolManager, id_of, node_at}
use pinpoint_c_agent.NodePool.Pop.{is_alive}
use pinpoint_c_agent.NodePool.Append.{update}
use pinpoint_c_agent.NodePool.Append.Linked.{update-Writes, get_used_node_alive}
use pinpoint_c_agent.NodePool.Touch.{update-Same, Links-Same}
use pinpoint_c_agent.NodePool.Tree.{Tree}
use pinpoint_c_agent.NodePool.Finish.{end_trace}
use pinpoint_c_agent.NodePool.Finish.Encode.{end_trace-IsLight}
use pinpoint_c_agent.Agent.Trace.{Agent, Outside, end_node, agent_end_trace}

module _ {V K : Type 0} ⦃j : Json V⦄ (out : Outside V K) where
  -- The node `k` is ended, and nothing else is touched.
  pub record EndsEvent (p q : PoolManager V) (r k now : ℕ) (is : List ℕ) (n : TraceNode V)
      : Type 0 where
    pub tree : Tree q r is
    pub marks : q.used_node_set ≡ p.used_node_set
    pub ended : node_at q k ≡ some (end_trace now n)
    pub others : (i : ℕ) → k ≢ i → node_at q i ≡ node_at p i

  event-EndsEvent :
      (p : PoolManager V) (r k now : ℕ) (is : List ℕ) (n : TraceNode V)
      → Tree p r is
      → is_alive p k ≡ true
      → node_at p k ≡ some n
      → is_root_node n ≡ false
      → EndsEvent p (update k (end_trace now) p) r k now is n
  event-EndsEvent p r k now is n t a at event =
      let q = update k (end_trace now) p in
      let w = update-Writes k (end_trace now) n p t.valid a at in
      let s = update-Same k (end_trace now) p (end_trace-IsLight now) t.valid in
      let root_mark : is_root_node t.root ≡ true =
        (eqb_ℤ_iff t.root.root_id t.root.id).1 t.own_root in
      let off : k ≢ r = λ e.
        let same : n ≡ t.root = some-injective (sym at ∙ (ap (λ z. node_at p z) e ∙ t.at)) in
        cc (sym event ∙ (ap (λ z. is_root_node z) same ∙ root_mark)) in
      record {
        tree = record {
          valid = w.valid;
          used = w.marks r ∙ t.used;
          root = t.root;
          at = w.there r off ∙ t.at;
          own_root = t.own_root;
          extra = t.extra;
          is_root = t.is_root;
          last = t.last;
          apart = t.apart;
          chain = Links-Same p q t.root.next is s t.chain;
        };
        marks = s.used;
        ended = w.here;
        others = w.there;
      }

  -- For a trace in a well-formed pool and a node in use that is no root: EndTrace returns the id of
  -- its parent, whatever the fuel and the time limit are. The node is ended at the time of the call,
  -- no other node changes, none is freed, the trace is whole, and nothing is sent.
  pub agent_end_trace-EndsEvent :
      (fuel now r k : ℕ) (timeout : ℤ) (is : List ℕ) (n : TraceNode V) (a : Agent K)
      (p : PoolManager V) (kernel : K)
      → Tree p r is
      → is_alive p k ≡ true
      → node_at p k ≡ some n
      → is_root_node n ≡ false
      → (q : PoolManager V) × (agent_end_trace out fuel now (id_of k) timeout a p kernel
          ≡ some (ok n.parent_id, a, q, kernel))
        × EndsEvent p q r k now is n
  unfolding agent_end_trace
  agent_end_trace-EndsEvent fuel now r k timeout is n a p kernel t u at event = (
    update k (end_trace now) p,
    ap by_index (get_used_node_alive p k t.valid u)
        ∙ (ap (λ o. end_node out fuel now timeout (id_of k) k o a p kernel) at ∙ rw event refl),
    event-EndsEvent p r k now is n t u at event,
  )
    where
      by_index : Result ℕ → Option (Result ℤ × Agent K × PoolManager V × K)
      by_index (err e) = some (err e, a, p, kernel)
      by_index (ok i) = end_node out fuel now timeout (id_of k) i (node_at p i) a p kernel
