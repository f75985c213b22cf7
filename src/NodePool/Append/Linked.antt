-- ===== src/NodePool/Append/Linked.antt =====
-- AppendToRootTrace puts the new node at the end of the chain of its trace.
use pinpoint_c_agent.Base.{
  ℕ, ◌*◌, ◌<◌, ◌≡◌, ◌≢◌, refl, ap, sym, ◌∙◌, subst, true, false, List, [], ◌∷◌, ◌++◌, none, some,
  if◌then◌else◌, ℤ, pos, eqb_ℤ, ◌+ℤ◌, ok, err, out_of_range, arith, length,
}
use pinpoint_c_agent.NodePool.Node.{TraceNode, RootTraceNodeExtra, e_invalid_node}
use pinpoint_c_agent.NodePool.Pool.{
  PoolManager, cell_size, id_of, node_at, set_node, get_used_node, index_in_used_vec,
}
use pinpoint_c_agent.NodePool.Cells.{node_in-set_in_self, node_in-set_in_ne}
use pinpoint_c_agent.NodePool.Marks.{occurrences, occurrences-append, is_used-lt}
use pinpoint_c_agent.NodePool.Valid.{IsValid}
use pinpoint_c_agent.NodePool.Pop.{is_alive, set_node-IsValid}
use pinpoint_c_agent.NodePool.Chain.{Links, index_of-id_of}
use pinpoint_c_agent.NodePool.Return.{index_in_used_vec-alive}
use pinpoint_c_agent.NodePool.Append.{update, set_last, seq_of, hang}

module _ {V : Type 0} where
  -- What a write through the reference of a live node does.
  pub record Writes (i : ℕ) (node : TraceNode V) (p q : PoolManager V) : Type 0 where
    pub valid : IsValid q
    pub marks : (k : ℕ) → is_alive q k ≡ is_alive p k
    pub here : node_at q i ≡ some node
    pub there : (k : ℕ) → i ≢ k → node_at q k ≡ node_at p k

  pub update_known :
      (i : ℕ) (f : TraceNode V → TraceNode V) (node : TraceNode V) (p : PoolManager V)
      → node_at p i ≡ some node
      → update i f p ≡ set_node p i (f node)
  unfolding update
  update_known i f node p n = ap (λ o. elim o [ none ↦ p | some m ↦ set_node p i (f m) ]) n

  set_node-Writes :
      (i : ℕ) (node : TraceNode V) (p : PoolManager V)
      → IsValid p
      → is_alive p i ≡ true
      → Writes i node p (set_node p i node)
  unfolding set_node node_at
  set_node-Writes i node p v a =
      let low : i < p.max_id = omega (arith, is_used-lt p.used_node_set i a, v.marks) in
      let inside : i < length p.node_index_vec * cell_size = omega (arith, v.sized) in
      record {
        valid = set_node-IsValid p i node v low;
        marks = λ k. refl;
        here = node_in-set_in_self p.node_index_vec i node v.full inside;
        there = λ k ne. node_in-set_in_ne p.node_index_vec i k node v.full inside ne;
      }

  pub update-Writes :
      (i : ℕ) (f : TraceNode V → TraceNode V) (node : TraceNode V) (p : PoolManager V)
      → IsValid p
      → is_alive p i ≡ true
      → node_at p i ≡ some node
      → Writes i (f node) p (update i f p)
  update-Writes i f node p v a n =
      subst (Writes i (f node) p) (sym (update_known i f node p n))
        (set_node-Writes i (f node) p v a)

  -- The nodes of the chain are as they were, but for the last, `l`, whose successor is `i`.
  pub record Extends (r i l : ℕ) (p q : PoolManager V) : Type 0 where
    pub marks : (k : ℕ) → is_alive q k ≡ is_alive p k
    pub others : (k : ℕ) → k ≢ r → k ≢ i → k ≢ l → node_at q k ≡ node_at p k
    pub last :
        (n : TraceNode V) → node_at p l ≡ some n → node_at q l ≡ some (record n { next = id_of i })
    pub added : TraceNode V
    pub at : node_at q i ≡ some added
    pub ends : added.next ≡ e_invalid_node

  pub Links-snoc :
      (r i l : ℕ) (front : List ℕ) (next : ℤ) (p q : PoolManager V)
      → Extends r i l p q
      → is_alive p i ≡ true
      → occurrences r (front ++ l ∷ []) ≡ 0
      → occurrences i (front ++ l ∷ []) ≡ 0
      → Links p next (front ++ l ∷ [])
      → Links q next ((front ++ l ∷ []) ++ i ∷ [])
  Links-snoc r i l [] next p q x a no_root new (e, al, d, (n, at, rest)) = (
    e,
    x.marks l ∙ al,
    ground arith,
    (
      record n { next = id_of i },
      x.last n at,
      (refl, x.marks i ∙ a, refl, (x.added, x.at, x.ends)),
    ),
  )
  Links-snoc r i l (k ∷ front) next p q x a no_root new (e, al, d, (n, at, rest)) =
      let parts = occurrences-append k front (l ∷ []) in
      let far : k ≢ l = ground (arith, parts, d) in
      let off_root : k ≢ r = ground (arith, no_root) in
      let off_new : k ≢ i = ground (arith, new) in
      (
        e,
        x.marks k ∙ al,
        ground (arith, d, occurrences-append k (front ++ l ∷ []) (i ∷ [])),
        (
          n,
          x.others k off_root off_new far ∙ at,
          Links-snoc r i l front n.next p q x a (ground (arith, no_root)) (ground (arith, new))
              rest,
        ),
      )

  pub Links-last :
      (p : PoolManager V) (l : ℕ) (front : List ℕ) (next : ℤ)
      → Links p next (front ++ l ∷ [])
      → (is_alive p l ≡ true)
        × ((n : TraceNode V) × (node_at p l ≡ some n))
        × (eqb_ℤ next e_invalid_node ≡ false)
  Links-last p l [] next (e, a, d, (n, at, rest)) = (a, (n, at), ground arith)
  Links-last p l (k ∷ front) next (e, a, d, (n, at, rest)) =
      let (al, found, _) = Links-last p l front n.next rest in (al, found, ground arith)

  pub get_used_node_alive :
      (p : PoolManager V) (l : ℕ)
      → IsValid p
      → is_alive p l ≡ true
      → get_used_node p (id_of l) ≡ ok l
  unfolding get_used_node
  get_used_node_alive p l v a =
      ap
        (λ o. elim o [
          | none ↦ err out_of_range
          | some k ↦ if index_in_used_vec p (some k) then ok k else err out_of_range
        ])
        (index_of-id_of l)
      ∙ ap (λ b. if b then ok l else err out_of_range) (index_in_used_vec-alive p (some l) v ∙ a)

  -- What a call leaves, for a trace whose nodes below the root are `is`.
  pub record Appended (r i : ℕ) (is : List ℕ) (extra : RootTraceNodeExtra) (p q : PoolManager V)
      : Type 0 where
    pub valid : IsValid q
    pub same_marks : (k : ℕ) → is_alive q k ≡ is_alive p k
    pub new_root : TraceNode V
    pub root_at : node_at q r ≡ some new_root
    pub root_extra :
        new_root.extra ≡ some (record extra { last = id_of i; seq = extra.seq +ℤ pos 1 })
    pub linked : Links q new_root.next (is ++ i ∷ [])
    pub kept :
        (root : TraceNode V)
        → node_at p r ≡ some root
        → (new_root.id ≡ root.id) × (new_root.root_id ≡ root.root_id)
    pub hung : TraceNode V
    pub hung_at : node_at q i ≡ some hung
    pub numbered : hung.sequence ≡ extra.seq
    pub own :
        (node : TraceNode V)
        → node_at p i ≡ some node
        → (hung.id ≡ node.id) × (hung.parent_id ≡ node.parent_id) × (hung.depth ≡ node.depth)

  -- The writes of `hang`, once the new node has its root.
  pub hang-Writes :
      (r i : ℕ) (root node node₁ : TraceNode V) (extra : RootTraceNodeExtra) (pre : ℕ)
      (p : PoolManager V)
      → IsValid p
      → r ≢ i
      → is_alive p r ≡ true
      → is_alive p i ≡ true
      → node_at p r ≡ some root
      → node_at p i ≡ some node₁
      → root.extra ≡ some extra
      → (p₂ : PoolManager V) × Writes i
          (record node₁ { pre_trace_time = pre; sequence = extra.seq })
          p
          p₂
        × Writes r
            (record root {
              extra = some (record extra { last = node.id; seq = extra.seq +ℤ pos 1 });
              next = if eqb_ℤ root.next e_invalid_node then node.id else root.next;
            })
            p₂
            (hang r i root node pre p)
  hang-Writes r i root node node₁ extra pre p v ne ar ai rat iat e =
      let w =
        update-Writes i (λ n. record n { pre_trace_time = pre; sequence = seq_of root.extra }) node₁
          p v ai iat in
      let p₂ = update i (λ n. record n { pre_trace_time = pre; sequence = seq_of root.extra }) p in
      let u =
        update-Writes r
          (λ n. record n {
            extra = set_last node.id n.extra;
            next = if eqb_ℤ n.next e_invalid_node then node.id else n.next;
          })
          root p₂ w.valid (w.marks r ∙ ar) (w.there r (λ z. ne (sym z)) ∙ rat) in
      (
        p₂,
        subst (λ o. Writes i (record node₁ { pre_trace_time = pre; sequence = seq_of o }) p p₂) e w,
        subst
            (λ o.
              Writes r
                (record root {
                  extra = set_last node.id o;
                  next = if eqb_ℤ root.next e_invalid_node then node.id else root.next;
                })
                p₂ (hang r i root node pre p))
            e u,
      )
