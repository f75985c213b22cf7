-- ===== src/NodePool/Get.antt =====
-- GetNode hands out a node that was free, reset, and leaves the others alone; where none is free the
-- pool grows, up to its limit.
use pinpoint_c_agent.Base.{
  ℕ, zero, suc, ◌+◌, ◌≤◌, ◌<◌, ◌≡◌, refl, ap, sym, ◌∙◌, ◌⊎◌, inl, inr, List, [], ◌∷◌, arith, ltb,
  ltb→lt, Bool-cases, Result, ok, err, out_of_range, if◌then◌else◌,
}
use pinpoint_c_agent.NodePool.Node.{Json}
use pinpoint_c_agent.NodePool.Pool.{
  PoolManager, cell_size, pool_max_nodes_limit, is_empty, expand_once, pop_ready, get_ready_node,
  node_at, push_range,
}
use pinpoint_c_agent.NodePool.Cells.{node_in-append}
use pinpoint_c_agent.NodePool.Marks.{alive, is_used-append_free, alive-append_free}
use pinpoint_c_agent.NodePool.Valid.{IsValid, expand_once-IsValid}
use pinpoint_c_agent.NodePool.Pop.{is_alive, Hands, pop_ready-Hands}

push_range_last :
    (n from : ℕ) (stack : List ℕ)
    → (i : ℕ) × (rest : List ℕ) × (push_range (suc n) from stack ≡ i ∷ rest)
unfolding push_range
push_range_last zero from stack = (from, stack, refl)
push_range_last (suc n) from stack = push_range_last n (from + 1) (from ∷ stack)

module _ {V : Type 0} ⦃j : Json V⦄ where
  -- After an expansion the stack is not empty, and the marks and nodes that were there stay.
  pub record Grows (p q : PoolManager V) : Type 0 where
    pub valid : IsValid q
    pub marks : (k : ℕ) → is_alive q k ≡ is_alive p k
    pub nodes : (k : ℕ) → k < p.max_id → node_at q k ≡ node_at p k
    pub larger : p.max_id ≤ q.max_id
    pub same_alive : alive q.used_node_set ≡ alive p.used_node_set
    pub top : ℕ
    pub below : List ℕ
    pub stacked : q.free_node_list ≡ top ∷ below

  expand_once-Grows :
      (p : PoolManager V) → IsValid p → p.max_id ≤ pool_max_nodes_limit → Grows p (expand_once p)
  unfolding expand_once node_at
  expand_once-Grows p v h =
      let (i, rest, e) = push_range_last 127 p.max_id p.free_node_list in
      record {
        valid = expand_once-IsValid p v h;
        marks = λ k. is_used-append_free p.used_node_set cell_size k;
        nodes = λ k h. node_in-append p.node_index_vec _ k (omega (arith, v.sized));
        larger = omega arith;
        same_alive = alive-append_free p.used_node_set cell_size;
        top = i;
        below = rest;
        stacked = e;
      }

  Hands-after : (p p' q : PoolManager V) (i : ℕ) → Grows p p' → Hands p' q i → Hands p q i
  Hands-after p p' q i g h = record {
    valid = h.valid;
    was_free = sym (g.marks i) ∙ h.was_free;
    now_used = h.now_used;
    old = h.old;
    handed = h.handed;
    marks = λ k ne. h.marks k ne ∙ g.marks k;
    nodes = λ k ne low. h.nodes k ne (omega (arith, g.larger)) ∙ g.nodes k low;
    one_more = omega (arith, h.one_more, g.same_alive);
  }

  abbrev pick : List ℕ → PoolManager V → PoolManager V → Result (ℕ × PoolManager V)
  pick l p grown =
      if is_empty l
      then (if ltb pool_max_nodes_limit p.max_id
          then err out_of_range
          else pop_ready grown.free_node_list grown)
      else pop_ready l p

  get_grown :
      (p : PoolManager V)
      → IsValid p
      → p.free_node_list ≡ []
      → ((pool_max_nodes_limit < p.max_id) × (get_ready_node p ≡ err out_of_range))
        ⊎ ((i : ℕ) × (q : PoolManager V) × (get_ready_node p ≡ ok (i, q)) × Hands p q i)
  unfolding get_ready_node
  get_grown p v e = elim (Bool-cases (ltb pool_max_nodes_limit p.max_id)) [
    | inl over ↦ inl (
      ltb→lt _ _ over,
      ap (λ l. pick l p (expand_once p)) e
          ∙ ap
              (λ b.
                if b
                then err out_of_range
                else pop_ready (expand_once p).free_node_list (expand_once p))
              over,
    )
    | inr room ↦
        let g = expand_once-Grows p v (ground arith) in
        let (q, run, h) = pop_ready-Hands (expand_once p) g.top g.below g.valid g.stacked in
        inr (
          g.top,
          q,
          ap (λ l. pick l p (expand_once p)) e
              ∙ (ap
                    (λ b.
                      if b
                      then err out_of_range
                      else pop_ready (expand_once p).free_node_list (expand_once p))
                    room
                  ∙ (ap (λ l. pop_ready l (expand_once p)) g.stacked ∙ run)),
          Hands-after p (expand_once p) q g.top g h,
        )
  ]

  get_by :
      (p : PoolManager V) (stack : List ℕ)
      → IsValid p
      → p.free_node_list ≡ stack
      → ((p.free_node_list ≡ [])
          × (pool_max_nodes_limit < p.max_id)
          × (get_ready_node p ≡ err out_of_range))
        ⊎ ((i : ℕ) × (q : PoolManager V) × (get_ready_node p ≡ ok (i, q)) × Hands p q i)
  unfolding get_ready_node
  get_by p [] v e = elim (get_grown p v e) [
    | inl (over, run) ↦ inl (e, over, run)
    | inr found ↦ inr found
  ]
  get_by p (i ∷ rest) v e =
      let (q, run, h) = pop_ready-Hands p i rest v e in
      inr (i, q, ap (λ l. pick l p (expand_once p)) e ∙ run, h)

  -- From a well-formed pool a request either throws, exactly where no node is free and the pool is
  -- past its limit of 12800 nodes, or hands out a node: one that was not in use, now in use, reset,
  -- and carrying its own id. The pool stays well formed, one more node is in use, and every other
  -- node keeps its mark and its contents.
  pub get_ready_node-Hands :
      (p : PoolManager V)
      → IsValid p
      → ((p.free_node_list ≡ [])
          × (pool_max_nodes_limit < p.max_id)
          × (get_ready_node p ≡ err out_of_range))
        ⊎ ((i : ℕ) × (q : PoolManager V) × (get_ready_node p ≡ ok (i, q)) × Hands p q i)
  get_ready_node-Hands p v = get_by p p.free_node_list v refl
