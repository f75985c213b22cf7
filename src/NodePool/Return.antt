-- ===== src/NodePool/Return.antt =====
-- ReturnNode puts a node back on the stack of free nodes, whatever other threads do meanwhile.
use pinpoint_c_agent.Base.{
  ℕ, zero, suc, ◌≡◌, refl, ap, ◌∙◌, ◌⊎◌, inl, inr, Bool, true, false, List, [], ◌∷◌, Option, none,
  some, arith, length-set, Bool-cases, lt→ltb, ℤ,
}
use pinpoint_c_agent.NodePool.Node.{TraceNode, is_not_reference, e_invalid_node}
use pinpoint_c_agent.NodePool.Pool.{
  PoolManager, is_used, index_of, index_in_used_vec, node_at, give_back, released, return_node_once,
  return_loop, return_node,
}
use pinpoint_c_agent.NodePool.Cells.{node_in-lt}
use pinpoint_c_agent.NodePool.Marks.{
  vacant, is_used-lt, vacant-set, alive-set-false, is_used-set_self,
}
use pinpoint_c_agent.NodePool.Valid.{IsValid}
use pinpoint_c_agent.NodePool.Pop.{is_alive}

vacant-used : (bs : List Bool) (i : ℕ) → is_used bs i ≡ true → vacant bs i ≡ 0
vacant-used [] i h = refl
vacant-used (b ∷ bs) zero h = ground arith
vacant-used (b ∷ bs) (suc i) h = vacant-used bs i h

module _ {V : Type 0} where
  -- The marks of an id: that of its node, none for -1 and 0.
  abbrev pub id_alive : PoolManager V → Option ℕ → Bool
  id_alive p none = false
  id_alive p (some i) = is_alive p i

  -- Where the vectors agree in size the test of the index is the mark.
  pub index_in_used_vec-alive :
      (p : PoolManager V) (o : Option ℕ) → IsValid p → index_in_used_vec p o ≡ id_alive p o
  unfolding index_in_used_vec
  index_in_used_vec-alive p none v = refl
  index_in_used_vec-alive p (some i) v = elim (Bool-cases (is_used p.used_node_set i)) [
    | inl used ↦ rw (lt→ltb i p.max_id (omega (arith, v.marks, is_used-lt p.used_node_set i used)))
    | inr dead ↦ ground arith
  ]

  pub released-IsValid :
      (p : PoolManager V) (i : ℕ) → IsValid p → is_alive p i ≡ true → IsValid (released p i)
  released-IsValid p i v h =
      let low = is_used-lt p.used_node_set i h in
      record {
        full = v.full;
        sized = v.sized;
        marks = length-set p.used_node_set i false ∙ v.marks;
        stack = λ k. ground (
          arith,
          v.stack k,
          vacant-set p.used_node_set i k false low,
          vacant-used p.used_node_set i h,
        );
        balance = omega (arith, v.balance, alive-set-false p.used_node_set i h);
        bounded = v.bounded;
      }

  pub alive_node :
      (p : PoolManager V) (i : ℕ)
      → IsValid p
      → is_alive p i ≡ true
      → (node : TraceNode V) × (node_at p i ≡ some node)
  unfolding node_at
  alive_node p i v h =
      node_in-lt p.node_index_vec i v.full
        (omega (arith, v.sized, v.marks, is_used-lt p.used_node_set i h))

  -- An id that is not in use is done at once.
  pub return_node_once_dead :
      (o : Option ℕ) (id next : ℤ) (force : Bool) (p : PoolManager V)
      → index_of id ≡ o
      → IsValid p
      → id_alive p o ≡ false
      → return_node_once id next force p ≡ (true, next, p)
  unfolding return_node_once
  return_node_once_dead none id next force p e v h = rw (e, return_node_once)
  return_node_once_dead (some i) id next force p e v h =
      rw (e, return_node_once) (rw (index_in_used_vec-alive p (some i) v ∙ h))

  -- A node in use is given back unless it is referenced and the call does not force it.
  pub return_node_once_alive :
      (i : ℕ) (node : TraceNode V) (id next : ℤ) (force : Bool) (p : PoolManager V)
      → index_of id ≡ some i
      → IsValid p
      → is_alive p i ≡ true
      → node_at p i ≡ some node
      → return_node_once id next force p ≡ give_back p i (some node) next force
  unfolding return_node_once
  return_node_once_alive i node id next force p e v h n =
      rw (e, return_node_once)
        (rw (index_in_used_vec-alive p (some i) v ∙ h) (ap (λ m. give_back p i m next force) n))

  -- The id is no longer in use, in a pool that is well formed.
  abbrev pub Returned : Option ℕ → PoolManager V → Type 0
  Returned o p = IsValid p × (id_alive p o ≡ false)

  abbrev Attempt : Option ℕ → Bool → ℤ → PoolManager V → Bool × ℤ × PoolManager V → Type 0
  Attempt o force next p r =
      ((r.0 ≡ true) × Returned o r.2) ⊎ ((force ≡ false) × (r ≡ (false, next, p)))

  give_back-Attempt :
      (p : PoolManager V) (i : ℕ) (node : TraceNode V) (next : ℤ) (force : Bool) (b : Bool)
      → IsValid p
      → is_alive p i ≡ true
      → is_not_reference node ≡ b
      → Attempt (some i) force next p (give_back p i (some node) next force)
  give_back-Attempt p i node next force true v h e =
      let gone = is_used-set_self p.used_node_set i false (is_used-lt p.used_node_set i h) in
      rw e (inl (refl, (released-IsValid p i v h, gone)))
  give_back-Attempt p i node next true false v h e =
      let gone = is_used-set_self p.used_node_set i false (is_used-lt p.used_node_set i h) in
      rw e (inl (refl, (released-IsValid p i v h, gone)))
  give_back-Attempt p i node next false false v h e = rw e (inr (refl, refl))

  return_node_once-Attempt :
      (o : Option ℕ) (id next : ℤ) (force : Bool) (p : PoolManager V)
      → index_of id ≡ o
      → IsValid p
      → Attempt o force next p (return_node_once id next force p)
  return_node_once-Attempt none id next force p e v =
      rw (return_node_once_dead none id next force p e v refl) (inl (refl, (v, refl)))
  return_node_once-Attempt (some i) id next force p e v = elim (Bool-cases (is_alive p i)) [
    | inr dead ↦
        rw (return_node_once_dead (some i) id next force p e v dead) (inl (refl, (v, dead)))
    | inl used ↦
        let (node, n) = alive_node p i v used in
        rw (return_node_once_alive i node id next force p e v used n)
          (give_back-Attempt p i node next force _ v used refl)
  ]

  return_loop-Returned :
      (n : ℕ) (others : ℕ → PoolManager V → PoolManager V) (id next : ℤ) (p : PoolManager V)
      → ((k : ℕ) (q : PoolManager V) → IsValid q → IsValid (others k q))
      → IsValid p
      → Returned (index_of id) (return_loop n others id next p).1
  unfolding return_loop
  return_loop-Returned zero others id next p keep v =
      elim (return_node_once-Attempt (index_of id) id next true p refl v) [
        | inl (done, r) ↦ r
        | inr (e, r) ↦ cc
      ]
  return_loop-Returned (suc n) others id next p keep v =
      elim (return_node_once-Attempt (index_of id) id next false p refl v) [
        | inl (done, r) ↦ rw done r
        | inr (_, e) ↦ rw e (return_loop-Returned n others id next (others n p) keep (keep n p v))
      ]

  -- From a well-formed pool, and with other threads that keep it well formed while the caller
  -- sleeps, ReturnNode ends with the node not in use and the pool well formed, whether or not the
  -- node was referenced.
  pub return_node-Returned :
      (others : ℕ → PoolManager V → PoolManager V) (id : ℤ) (p : PoolManager V)
      → ((k : ℕ) (q : PoolManager V) → IsValid q → IsValid (others k q))
      → IsValid p
      → Returned (index_of id) (return_node others id p).1
  unfolding return_node
  return_node-Returned others id p keep v =
      return_loop-Returned 1000 others id e_invalid_node p keep v
