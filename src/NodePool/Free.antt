-- ===== src/NodePool/Free.antt =====
-- FreeNodeTree on the pool of one thread: nobody else changes the pool during a sleep.
use pinpoint_c_agent.Base.{
  ℕ, zero, suc, ◌+◌, ◌≤◌, ◌≡◌, refl, ap, ◌∙◌, inl, inr, true, false, ◌||◌, Option, none, some,
  arith, Bool-cases, ℤ, eqb_ℤ, eqb_ℤ_iff,
}
use pinpoint_c_agent.NodePool.Node.{TraceNode, is_not_reference, e_invalid_node, e_root_node}
use pinpoint_c_agent.NodePool.Pool.{
  PoolManager, index_of, node_at, released, return_loop, return_node, free_chain, free_node_tree,
}
use pinpoint_c_agent.NodePool.Marks.{alive, alive-set-false, is_used-set, is_used-lt}
use pinpoint_c_agent.NodePool.Valid.{IsValid}
use pinpoint_c_agent.NodePool.Pop.{is_alive}
use pinpoint_c_agent.NodePool.Return.{
  id_alive, alive_node, released-IsValid, return_node_once_dead, return_node_once_alive,
}

module _ {V : Type 0} where
  abbrev pub quiet : ℕ → PoolManager V → PoolManager V
  quiet n p = p

  return_loop_dead :
      (n : ℕ) (o : Option ℕ) (id next : ℤ) (p : PoolManager V)
      → index_of id ≡ o
      → IsValid p
      → id_alive p o ≡ false
      → return_loop n quiet id next p ≡ (next, p)
  unfolding return_loop
  return_loop_dead zero o id next p e v h = rw (return_node_once_dead o id next true p e v h)
  return_loop_dead (suc n) o id next p e v h = rw (return_node_once_dead o id next false p e v h)

  return_loop_alive :
      (n i : ℕ) (node : TraceNode V) (id next : ℤ) (p : PoolManager V)
      → index_of id ≡ some i
      → IsValid p
      → is_alive p i ≡ true
      → node_at p i ≡ some node
      → return_loop n quiet id next p ≡ (node.next, released p i)
  unfolding return_loop
  return_loop_alive zero i node id next p e v h n =
      rw (return_node_once_alive i node id next true p e v h n)
        (elim (Bool-cases (is_not_reference node)) [
          | inl idle ↦ rw idle refl
          | inr held ↦ rw held refl
        ])
  return_loop_alive (suc k) i node id next p e v h n =
      rw (return_node_once_alive i node id next false p e v h n)
        (elim (Bool-cases (is_not_reference node)) [
          | inl idle ↦ rw idle refl
          | inr held ↦ rw held (return_loop_alive k i node id next p e v h n)
        ])

  -- ReturnNode on the pool of one thread: a referenced node is given back too, by force.
  pub return_node_dead :
      (o : Option ℕ) (id : ℤ) (p : PoolManager V)
      → index_of id ≡ o
      → IsValid p
      → id_alive p o ≡ false
      → return_node quiet id p ≡ (e_invalid_node, p)
  unfolding return_node
  return_node_dead o id p e v h = return_loop_dead 1000 o id e_invalid_node p e v h

  pub return_node_alive :
      (i : ℕ) (node : TraceNode V) (id : ℤ) (p : PoolManager V)
      → index_of id ≡ some i
      → IsValid p
      → is_alive p i ≡ true
      → node_at p i ≡ some node
      → return_node quiet id p ≡ (node.next, released p i)
  unfolding return_node
  return_node_alive i node id p e v h n = return_loop_alive 1000 i node id e_invalid_node p e v h n

  pub free_chain_stop :
      (fuel : ℕ) (p : PoolManager V) → free_chain (suc fuel) quiet e_invalid_node p ≡ some p
  unfolding free_chain
  free_chain_stop fuel p = refl

  pub free_chain_step :
      (fuel : ℕ) (next next' : ℤ) (p p' : PoolManager V)
      → eqb_ℤ next e_invalid_node ≡ false
      → return_node quiet next p ≡ (next', p')
      → free_chain (suc fuel) quiet next p ≡ free_chain fuel quiet next' p'
  unfolding free_chain
  free_chain_step fuel next next' p p' e r = rw (e, r)

  -- The loop ends in a well-formed pool in which no further node is in use.
  abbrev pub Ends : Option (PoolManager V) → PoolManager V → Type 0
  Ends r p =
      (q : PoolManager V) × (r ≡ some q)
      × IsValid q
      × ((k : ℕ) → is_alive q k ≡ true → is_alive p k ≡ true)

  released-alive :
      (p : PoolManager V) (i k : ℕ)
      → is_alive p i ≡ true
      → is_alive (released p i) k ≡ true
      → is_alive p k ≡ true
  released-alive p i k h e =
      ground (arith, is_used-set p.used_node_set i k false (is_used-lt p.used_node_set i h))

  -- A round on a node in use: the loop goes on at the node's successor, with one node less in use.
  free_chain_used :
      (fuel : ℕ) (next : ℤ) (o : Option ℕ) (p : PoolManager V)
      → index_of next ≡ o
      → IsValid p
      → id_alive p o ≡ true
      → eqb_ℤ next e_invalid_node ≡ false
      → ((next' : ℤ) (p' : PoolManager V)
          → IsValid p'
          → suc (alive p'.used_node_set) ≡ alive p.used_node_set
          → Ends (free_chain fuel quiet next' p') p')
      → Ends (free_chain (suc fuel) quiet next p) p
  free_chain_used fuel next none p e v h more again = cc
  free_chain_used fuel next (some i) p e v h more again =
      let (node, n) = alive_node p i v h in
      let step =
        free_chain_step fuel next node.next p (released p i) more
          (return_node_alive i node next p e v h n) in
      let (q, run, w, sub) =
        again node.next (released p i) (released-IsValid p i v h)
          (alive-set-false p.used_node_set i h) in
      (q, step ∙ run, w, λ k a. released-alive p i k h (sub k a))

  free_chain-Ends :
      (fuel : ℕ) (next : ℤ) (p : PoolManager V)
      → IsValid p
      → alive p.used_node_set + 2 ≤ fuel
      → Ends (free_chain fuel quiet next p) p
  free_chain-Ends zero next p v h = absurd (omega arith)
  free_chain-Ends (suc zero) next p v h = absurd (omega arith)
  free_chain-Ends (suc (suc fuel)) next p v h = elim (Bool-cases (eqb_ℤ next e_invalid_node)) [
    | inl end ↦
        let at =
          ap (λ n. free_chain (suc (suc fuel)) quiet n p) ((eqb_ℤ_iff next e_invalid_node).0 end) in
        (p, at ∙ free_chain_stop (suc fuel) p, v, λ k a. a)
    | inr more ↦ elim (Bool-cases (id_alive p (index_of next))) [
      | inr dead ↦
          let step =
            free_chain_step (suc fuel) next e_invalid_node p p more
              (return_node_dead _ next p refl v dead) in
          (p, step ∙ free_chain_stop fuel p, v, λ k a. a)
      | inl used ↦
          free_chain_used (suc fuel) next (index_of next) p refl v used more
            (λ n' p' v' less. free_chain-Ends (suc fuel) n' p' v' (omega arith))
    ]
  ]

  -- On a well-formed pool with k nodes in use FreeNodeTree ends within k + 2 rounds, whatever the
  -- links between the nodes are, cycles included; the pool stays well formed and no node comes into
  -- use.
  pub free_node_tree-Ends :
      (fuel : ℕ) (root : ℤ) (p : PoolManager V)
      → IsValid p
      → alive p.used_node_set + 2 ≤ fuel
      → Ends (free_node_tree fuel quiet root p) p
  unfolding free_node_tree
  free_node_tree-Ends fuel root p v h =
      elim (Bool-cases (eqb_ℤ root e_invalid_node || eqb_ℤ root e_root_node)) [
        | inl skip ↦ rw skip (p, refl, v, λ k a. a)
        | inr run ↦ rw run (free_chain-Ends fuel root p v h)
      ]
