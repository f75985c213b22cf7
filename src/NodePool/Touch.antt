-- ===== src/NodePool/Touch.antt =====
-- A write through the reference of a node changes that node and nothing else of the pool.
use pinpoint_c_agent.Base.{
  ℕ, zero, suc, ◌*◌, ◌/◌, ◌%◌, ◌<◌, ◌≡◌, refl, sym, ap, ◌∙◌, subst, inl, inr, true, Bool-cases,
  Option-cases, List, [], ◌∷◌, none, some, ℤ, ◌==◌, ==_iff, some-injective, arith, length,
  get_elem?,
}
use pinpoint_c_agent.NodePool.Node.{TraceNode, is_root_node}
use pinpoint_c_agent.NodePool.Pool.{
  PoolManager, cell_size, cell_at, node_in, node_at, set_node, is_used,
}
use pinpoint_c_agent.NodePool.Cells.{node_in-set_in_self, node_in-set_in_ne}
use pinpoint_c_agent.NodePool.Valid.{IsValid}
use pinpoint_c_agent.NodePool.Pop.{set_node-IsValid}
use pinpoint_c_agent.NodePool.Chain.{Links}
use pinpoint_c_agent.NodePool.Append.{update}

get_elem?-some :
    {A : Type 0} (xs : List A) (k : ℕ) (a : A) → get_elem? xs k ≡ some a → k < length xs
get_elem?-some [] k a e = cc
get_elem?-some (x ∷ xs) zero a e = omega arith
get_elem?-some (x ∷ xs) (suc k) a e = omega (arith, get_elem?-some xs k a e)

module _ {V : Type 0} where
  -- Only an index of the pool has a node.
  pub node_at-lt :
      (p : PoolManager V) (i : ℕ) (n : TraceNode V)
      → IsValid p
      → node_at p i ≡ some n
      → i < p.max_id
  unfolding node_at
  node_at-lt p i n v e = elim (Option-cases (get_elem? p.node_index_vec (i / cell_size))) [
    | inl gone ↦ absurd (cc (ap (λ c. cell_at c (i % cell_size)) (sym gone) ∙ e))
    | inr (cell, found) ↦
        omega (arith, get_elem?-some p.node_index_vec (i / cell_size) cell found, v.sized)
  ]

  pub update-IsValid :
      (i : ℕ) (f : TraceNode V → TraceNode V) (p : PoolManager V)
      → IsValid p
      → IsValid (update i f p)
  unfolding update
  update-IsValid i f p v = elim (Option-cases (node_at p i)) [
    | inl gone ↦
        subst (λ o. IsValid (elim o [ none ↦ p | some n ↦ set_node p i (f n) ])) (sym gone) v
    | inr (n, found) ↦
        subst (λ o. IsValid (elim o [ none ↦ p | some n ↦ set_node p i (f n) ])) (sym found)
          (set_node-IsValid p i (f n) v (node_at-lt p i n v found))
  ]

  -- A write that keeps the links of a node and whether it is a root.
  pub record IsLight (f : TraceNode V → TraceNode V) : Type 0 where
    pub next : (n : TraceNode V) → (f n).next ≡ n.next
    pub root : (n : TraceNode V) → is_root_node (f n) ≡ is_root_node n

  -- What light writes leave: the nodes in use, every chain, and which nodes are roots.
  pub record Same (p q : PoolManager V) : Type 0 where
    pub valid : IsValid q
    pub used : q.used_node_set ≡ p.used_node_set
    pub nodes :
        (k : ℕ) (n : TraceNode V)
        → node_at p k ≡ some n
        → (m : TraceNode V) × (node_at q k ≡ some m)
          × (m.next ≡ n.next)
          × (is_root_node m ≡ is_root_node n)

  pub Same-refl : (p : PoolManager V) → IsValid p → Same p p
  Same-refl p v = record { valid = v; used = refl; nodes = λ k n e. (n, e, refl, refl) }

  pub Same-then : (p q r : PoolManager V) → Same p q → Same q r → Same p r
  Same-then p q r s t = record {
    valid = t.valid;
    used = t.used ∙ s.used;
    nodes = λ k n e.
        let (m, at, next, root) = s.nodes k n e in
        let (o, there, next', root') = t.nodes k m at in (o, there, next' ∙ next, root' ∙ root);
  }

  set_node-Same :
      (i : ℕ) (f : TraceNode V → TraceNode V) (p : PoolManager V) (n : TraceNode V)
      → IsLight f
      → IsValid p
      → node_at p i ≡ some n
      → Same p (set_node p i (f n))
  unfolding set_node node_at
  set_node-Same i f p n light v e =
      let low = node_at-lt p i n v e in
      let inside : i < length p.node_index_vec * cell_size = omega (arith, v.sized) in
      record {
        valid = set_node-IsValid p i (f n) v low;
        used = refl;
        nodes = λ k m at. elim (Bool-cases (i == k)) [
          | inl same ↦
              let ik : i ≡ k = (==_iff i k).0 same in
              let nm : n ≡ m = some-injective (sym e ∙ (ap (λ z. node_at p z) ik ∙ at)) in
              (
                f n,
                subst (λ z. node_in (set_node p i (f n)).node_index_vec z ≡ some (f n)) ik
                    (node_in-set_in_self p.node_index_vec i (f n) v.full inside),
                light.next n ∙ ap (λ z. z.next) nm,
                light.root n ∙ ap (λ z. is_root_node z) nm,
              )
          | inr other ↦ (
            m,
            node_in-set_in_ne p.node_index_vec i k (f n) v.full inside (ground (arith, other)) ∙ at,
            refl,
            refl,
          )
        ];
      }

  pub update-Same :
      (i : ℕ) (f : TraceNode V → TraceNode V) (p : PoolManager V)
      → IsLight f
      → IsValid p
      → Same p (update i f p)
  unfolding update
  update-Same i f p light v = elim (Option-cases (node_at p i)) [
    | inl gone ↦
        subst (λ o. Same p (elim o [ none ↦ p | some n ↦ set_node p i (f n) ])) (sym gone)
          (Same-refl p v)
    | inr (n, found) ↦
        subst (λ o. Same p (elim o [ none ↦ p | some n ↦ set_node p i (f n) ])) (sym found)
          (set_node-Same i f p n light v found)
  ]

  pub Links-Same :
      (p q : PoolManager V) (next : ℤ) (is : List ℕ) → Same p q → Links p next is → Links q next is
  Links-Same p q next [] s l = l
  Links-Same p q next (i ∷ is) s (e, a, d, (n, at, rest)) =
      let (m, there, same, root) = s.nodes i n at in
      (
        e,
        subst (λ u. is_used u i ≡ true) (sym s.used) a,
        d,
        (m, there, subst (λ z. Links q z is) (sym same) (Links-Same p q n.next is s rest)),
      )
