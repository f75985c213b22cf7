-- ===== src/NodePool/Valid.antt =====
-- When a pool is well formed, and that growing it keeps it so.
use pinpoint_c_agent.Base.{
  ℕ, ◌+◌, ◌*◌, ◌≤◌, ◌≡◌, refl, ap, true, false, [], ◌∷◌, arith, length, length-append,
  length-replicate, replicate, ◌↔◌,
}
use pinpoint_c_agent.NodePool.Node.{Json, new_node}
use pinpoint_c_agent.NodePool.Pool.{
  PoolManager, cell_size, pool_max_nodes_limit, expand_once, new_pool, no_nodes_leak,
  free_nodes_count, total_nodes_count,
}
use pinpoint_c_agent.NodePool.Cells.{Full, Full-append}
use pinpoint_c_agent.NodePool.Marks.{
  occurrences, vacant, alive, in_range, alive-append_free, vacant-append_free,
  occurrences-push_range, length-push_range,
}

-- The vectors have one size, each free index is on the stack once, each index in use not at all, and
-- every node is either free or in use.
pub record IsValid {V : Type 0} (p : PoolManager V) : Type 0 where
  pub full : Full p.node_index_vec
  pub sized : length p.node_index_vec * cell_size ≡ p.max_id
  pub marks : length p.used_node_set ≡ p.max_id
  pub stack : (i : ℕ) → occurrences i p.free_node_list ≡ vacant p.used_node_set i
  pub balance : length p.free_node_list + alive p.used_node_set ≡ p.max_id
  pub bounded : p.max_id ≤ pool_max_nodes_limit + cell_size

module _ {V : Type 0} ⦃j : Json V⦄ where
  -- Growing a well-formed pool that is not past its limit of 12800 nodes by one cell keeps it well
  -- formed: the new indices are on the stack of free nodes, each once.
  pub expand_once-IsValid :
      (p : PoolManager V) → IsValid p → p.max_id ≤ pool_max_nodes_limit → IsValid (expand_once p)
  unfolding expand_once
  expand_once-IsValid p v h = record {
    full = Full-append p.node_index_vec (replicate cell_size new_node) v.full refl;
    sized = omega (
      arith,
      v.sized,
      length-append p.node_index_vec (replicate cell_size (new_node {V = V}) ∷ []),
    );
    marks = omega (
      arith,
      v.marks,
      length-append p.used_node_set (replicate cell_size false),
      length-replicate cell_size false,
    );
    stack = λ i. omega (
      arith,
      v.stack i,
      v.marks,
      vacant-append_free p.used_node_set cell_size i,
      occurrences-push_range cell_size p.max_id i p.free_node_list,
      ap (λ n. in_range n cell_size i) v.marks,
    );
    balance = omega (
      arith,
      v.balance,
      alive-append_free p.used_node_set cell_size,
      length-push_range cell_size p.max_id p.free_node_list,
    );
    bounded = omega arith;
  }

  -- The pool that the constructor makes is well formed.
  pub new_pool-IsValid : IsValid (new_pool {V = V})
  unfolding new_pool
  new_pool-IsValid =
      expand_once-IsValid _
        (record {
          full = tt;
          sized = refl;
          marks = refl;
          stack = λ i. refl;
          balance = refl;
          bounded = omega arith;
        })
        (omega arith)

-- A well-formed pool has no leak exactly when no node is in use.
pub no_nodes_leak_iff :
    {V : Type 0} (p : PoolManager V)
    → IsValid p
    → (no_nodes_leak p ≡ true) ↔ (alive p.used_node_set ≡ 0)
unfolding no_nodes_leak free_nodes_count total_nodes_count
no_nodes_leak_iff p v = ground (arith, v.sized, v.balance)
