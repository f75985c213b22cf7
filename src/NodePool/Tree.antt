-- ===== src/NodePool/Tree.antt =====
-- A trace in the pool: a root and the chain of its nodes.
use pinpoint_c_agent.Base.{
  ℕ, ◌≡◌, ◌≢◌, refl, sym, ap, ◌∙◌, true, false, List, [], ◌∷◌, some, ℤ, arith,
}
use pinpoint_c_agent.NodePool.Node.{TraceNode, RootTraceNodeExtra}
use pinpoint_c_agent.NodePool.Pool.{PoolManager, is_used, node_at}
use pinpoint_c_agent.NodePool.Valid.{IsValid}
use pinpoint_c_agent.NodePool.Marks.{occurrences}
use pinpoint_c_agent.NodePool.Pop.{is_alive}
use pinpoint_c_agent.NodePool.Chain.{Links}
use pinpoint_c_agent.NodePool.Touch.{Same, Links-Same}
use pinpoint_c_agent.NodePool.Append.Call.{last_id}

module _ {V : Type 0} where
  -- A trace: its root `r` is in use and a root, and its links lead through the nodes `is`, all in use,
  -- to -1; the root knows the last of them.
  pub record Tree (p : PoolManager V) (r : ℕ) (is : List ℕ) : Type 0 where
    pub valid : IsValid p
    pub used : is_alive p r ≡ true
    pub root : TraceNode V
    pub at : node_at p r ≡ some root
    pub own_root : root.root_id ≡ root.id
    pub extra : RootTraceNodeExtra
    pub is_root : root.extra ≡ some extra
    pub last : extra.last ≡ last_id is
    pub apart : occurrences r is ≡ 0
    pub chain : Links p root.next is

  -- A chain does not see a change of nodes that are not on it.
  pub Links-other :
      (p q : PoolManager V) (next : ℤ) (is : List ℕ)
      → ((k : ℕ) (n : TraceNode V)
          → is_alive p k ≡ true
          → node_at p k ≡ some n
          → (is_alive q k ≡ true) × (node_at q k ≡ some n))
      → Links p next is
      → Links q next is
  Links-other p q next [] same l = l
  Links-other p q next (k ∷ is) same (e, a, d, (n, at, rest)) =
      let (a', at') = same k n a at in (e, a', d, (n, at', Links-other p q n.next is same rest))

  -- A node that is not in use is on no chain.
  pub Links-free :
      (p : PoolManager V) (i : ℕ) (next : ℤ) (is : List ℕ)
      → is_alive p i ≡ false
      → Links p next is
      → occurrences i is ≡ 0
  Links-free p i next [] free l = refl
  Links-free p i next (k ∷ is) free (e, a, d, (n, at, rest)) =
      let differ : i ≢ k = λ z. cc (sym free ∙ (ap (λ z. is_alive p z) z ∙ a)) in
      ground (arith, Links-free p i n.next is free rest, differ)

  -- Light writes besides the root keep a trace.
  pub Tree-Same :
      (p q : PoolManager V) (r : ℕ) (is : List ℕ)
      → Same p q
      → node_at q r ≡ node_at p r
      → Tree p r is
      → Tree q r is
  Tree-Same p q r is s e t = record {
    valid = s.valid;
    used = ap (λ u. is_used u r) s.used ∙ t.used;
    root = t.root;
    at = e ∙ t.at;
    own_root = t.own_root;
    extra = t.extra;
    is_root = t.is_root;
    last = t.last;
    apart = t.apart;
    chain = Links-Same p q t.root.next is s t.chain;
  }
