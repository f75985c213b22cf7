-- ===== src/NodePool/Chain.antt =====
-- FreeNodeTree frees the nodes that hang together by `next_`, and only those.
use pinpoint_c_agent.Base.{
  ℕ, zero, suc, ◌+◌, ◌≤◌, ◌<◌, ◌≡◌, refl, ap, ◌∙◌, true, false, List, [], ◌∷◌, some, arith, length,
  if◌then◌else◌, ℤ, pos, eqb_ℤ, ◌==◌, ◌||◌,
}
use pinpoint_c_agent.NodePool.Node.{TraceNode, e_invalid_node, e_root_node}
use pinpoint_c_agent.NodePool.Pool.{
  PoolManager, index_of, id_of, node_at, released, free_chain, free_node_tree,
}
use pinpoint_c_agent.NodePool.Marks.{occurrences, alive, alive-set-false, is_used-set, is_used-lt}
use pinpoint_c_agent.NodePool.Valid.{IsValid}
use pinpoint_c_agent.NodePool.Pop.{is_alive}
use pinpoint_c_agent.NodePool.Return.{released-IsValid}
use pinpoint_c_agent.NodePool.Free.{quiet, return_node_alive, free_chain_stop, free_chain_step}

pub index_of-id_of : (i : ℕ) → index_of (id_of i) ≡ some i
index_of-id_of i = let e : i + 1 ≡ suc i = omega arith in ap (λ n. index_of (pos n)) e

module _ {V : Type 0} where
  -- From the id `next` the links lead through the nodes `is`, all in use and no two the same, to -1.
  abbrev pub Links : PoolManager V → ℤ → List ℕ → Type 0
  Links p next [] = next ≡ e_invalid_node
  Links p next (i ∷ is) =
      (next ≡ id_of i)
      × (is_alive p i ≡ true)
      × (occurrences i is ≡ 0)
      × ((node : TraceNode V) × (node_at p i ≡ some node) × Links p node.next is)

  abbrev pub release_all : PoolManager V → List ℕ → PoolManager V
  release_all p [] = p
  release_all p (i ∷ is) = release_all (released p i) is

  released-marks :
      (p : PoolManager V) (i k : ℕ)
      → is_alive p i ≡ true
      → is_alive (released p i) k ≡ (if i == k then false else is_alive p k)
  released-marks p i k h = is_used-set p.used_node_set i k false (is_used-lt p.used_node_set i h)

  -- Freeing a node does not touch a chain that it is not on.
  Links-released :
      (p : PoolManager V) (i : ℕ) (next : ℤ) (is : List ℕ)
      → is_alive p i ≡ true
      → occurrences i is ≡ 0
      → Links p next is
      → Links (released p i) next is
  unfolding node_at
  Links-released p i next [] h o l = l
  Links-released p i next (k ∷ is) h o (e, a, d, (node, n, rest)) = (
    e,
    ground (arith, released-marks p i k h),
    d,
    (node, n, Links-released p i node.next is h (ground arith) rest),
  )

  -- The marks of the nodes of the list are gone, the others are as they were.
  abbrev pub Frees : List ℕ → PoolManager V → PoolManager V → Type 0
  Frees is p q =
      IsValid q
      × ((k : ℕ) → is_alive q k ≡ (if occurrences k is == 0 then is_alive p k else false))
      × (alive q.used_node_set + length is ≡ alive p.used_node_set)

  release_all-Frees :
      (is : List ℕ) (next : ℤ) (p : PoolManager V)
      → IsValid p
      → Links p next is
      → Frees is p (release_all p is)
  release_all-Frees [] next p v l = (v, (λ k. refl), omega arith)
  release_all-Frees (i ∷ is) next p v (e, a, d, (node, n, rest)) =
      let (w, marks, count) =
        release_all-Frees is node.next (released p i) (released-IsValid p i v a)
          (Links-released p i node.next is a d rest) in
      (
        w,
        (λ k. ground (arith, marks k, released-marks p i k a)),
        omega (arith, count, alive-set-false p.used_node_set i a),
      )

  free_chain-Links :
      (is : List ℕ) (fuel : ℕ) (next : ℤ) (p : PoolManager V)
      → IsValid p
      → Links p next is
      → length is < fuel
      → free_chain fuel quiet next p ≡ some (release_all p is)
  free_chain-Links is zero next p v l h = absurd (omega arith)
  free_chain-Links [] (suc fuel) next p v l h =
      ap (λ n. free_chain (suc fuel) quiet n p) l ∙ free_chain_stop fuel p
  free_chain-Links (i ∷ is) (suc fuel) next p v (e, a, d, (node, n, rest)) h =
      let at : index_of next ≡ some i = ap index_of e ∙ index_of-id_of i in
      free_chain_step fuel next node.next p (released p i) (ground arith)
        (return_node_alive i node next p at v a n)
      ∙ free_chain-Links is fuel node.next (released p i) (released-IsValid p i v a)
          (Links-released p i node.next is a d rest) (omega arith)

  -- On a well-formed pool, for a root whose links lead through the nodes `is` to -1, FreeNodeTree
  -- frees the root and each of these, and no other node: every other mark stays, the number of nodes
  -- in use falls by the length of the chain, and the pool stays well formed.
  pub free_node_tree-Frees :
      (fuel r : ℕ) (is : List ℕ) (p : PoolManager V)
      → IsValid p
      → Links p (id_of r) (r ∷ is)
      → length is + 2 ≤ fuel
      → (q : PoolManager V) × (free_node_tree fuel quiet (id_of r) p ≡ some q) × Frees (r ∷ is) p q
  unfolding free_node_tree
  free_node_tree-Frees fuel r is p v l h =
      let enters : (eqb_ℤ (id_of r) e_invalid_node || eqb_ℤ (id_of r) e_root_node) ≡ false =
        ground arith in
      (
        release_all p (r ∷ is),
        rw enters (free_chain-Links (r ∷ is) fuel (id_of r) p v l (omega arith)),
        release_all-Frees (r ∷ is) (id_of r) p v l,
      )
