-- ===== src/NodePool/Pool.antt =====
-- common/src/NodePool/PoolManager.h and PoolManager.cpp: the pool of nodes, in cells of 128. The
-- stack of free nodes has its top first. A TraceNode& is the index of the node in the pool, and the
-- id of a node is its index and one. `err out_of_range` is a thrown std::out_of_range.
use pinpoint_c_agent.Base.{
  ℕ, zero, suc, ◌+◌, ◌*◌, ◌/◌, ◌%◌, Bool, true, false, not, ◌&&◌, ◌||◌, List, [], ◌∷◌, ◌++◌, Option,
  none, some, ltb, ◌==◌, if◌then◌else◌, ℤ, pos, negsuc, eqb_ℤ, length, get_elem?, set, replicate,
  Result, ok, err, out_of_range,
}
use pinpoint_c_agent.NodePool.Node.{
  TraceNode, Json, new_node, reset, e_invalid_node, e_root_node, is_not_reference,
}

abbrev pub cell_size : ℕ
cell_size = 128

abbrev pub pool_max_nodes_limit : ℕ
pool_max_nodes_limit = cell_size * 100

pub record PoolManager (V : Type 0) : Type 0 where
  pub used_node_set : List Bool
  pub max_id : ℕ
  pub free_node_list : List ℕ
  pub node_index_vec : List (List (TraceNode V))

-- int32_t(id) - 1, where that is an index.
abbrev pub index_of : ℤ → Option ℕ
index_of (pos zero) = none
index_of (pos (suc i)) = some i
index_of (negsuc n) = none

abbrev pub id_of : ℕ → ℤ
id_of i = pos (i + 1)

abbrev pub is_used : List Bool → ℕ → Bool
is_used [] i = false
is_used (b ∷ bs) zero = b
is_used (b ∷ bs) (suc i) = is_used bs i

abbrev pub is_empty : List ℕ → Bool
is_empty [] = true
is_empty (i ∷ is) = false

-- nodeIndexVec[index / CELL_SIZE][index % CELL_SIZE].
abbrev pub cell_at {ℓ} : {A : Type ℓ} → Option (List A) → ℕ → Option A
cell_at none i = none
cell_at (some cell) i = get_elem? cell i

abbrev pub node_in {ℓ} : {A : Type ℓ} → List (List A) → ℕ → Option A
node_in cells i = cell_at (get_elem? cells (i / cell_size)) (i % cell_size)

abbrev pub set_cell {ℓ} : {A : Type ℓ} → List (List A) → ℕ → Option (List A) → ℕ → A → List (List A)
set_cell cells k none i a = cells
set_cell cells k (some cell) i a = set cells k (set cell i a)

abbrev pub set_in {ℓ} : {A : Type ℓ} → List (List A) → ℕ → A → List (List A)
set_in cells i a =
    set_cell cells (i / cell_size) (get_elem? cells (i / cell_size)) (i % cell_size) a

-- for (id = from; id < from + n; id++) push(id).
unfoldable pub push_range : ℕ → ℕ → List ℕ → List ℕ
push_range zero from stack = stack
push_range (suc n) from stack = push_range n (from + 1) (from ∷ stack)

module _ {V : Type 0} where
  unfoldable pub index_in_used_vec : PoolManager V → Option ℕ → Bool
  index_in_used_vec p none = false
  index_in_used_vec p (some i) = if ltb i p.max_id then is_used p.used_node_set i else false

  unfoldable pub total_nodes_count : PoolManager V → ℕ
  total_nodes_count p = length p.node_index_vec * cell_size

  unfoldable pub free_nodes_count : PoolManager V → ℕ
  free_nodes_count p = length p.free_node_list

  unfoldable pub no_nodes_leak : PoolManager V → Bool
  no_nodes_leak p = free_nodes_count p == total_nodes_count p

  -- The node of an id that is in use, by its index.
  unfoldable pub get_used_node : PoolManager V → ℤ → Result ℕ
  get_used_node p id = elim (index_of id) [
    | none ↦ err out_of_range
    | some i ↦ if index_in_used_vec p (some i) then ok i else err out_of_range
  ]

  unfoldable pub node_at : PoolManager V → ℕ → Option (TraceNode V)
  node_at p i = node_in p.node_index_vec i

  -- A write through a TraceNode&.
  unfoldable pub set_node : PoolManager V → ℕ → TraceNode V → PoolManager V
  set_node p i node = record p { node_index_vec = set_in p.node_index_vec i node }

  -- The index is no longer in use, and on the stack.
  abbrev pub released : PoolManager V → ℕ → PoolManager V
  released p i = record p {
    used_node_set = set p.used_node_set i false;
    free_node_list = i ∷ p.free_node_list;
  }

  -- One attempt: whether it is done, the next node of the chain, and the pool.
  abbrev pub give_back :
      PoolManager V → ℕ → Option (TraceNode V) → ℤ → Bool → Bool × ℤ × PoolManager V
  give_back p i none next force = (true, next, p)
  give_back p i (some node) next force =
      if not (is_not_reference node) && not force
      then (false, next, p)
      else (true, node.next, released p i)

  unfoldable pub return_node_once : ℤ → ℤ → Bool → PoolManager V → Bool × ℤ × PoolManager V
  return_node_once id next force p = elim (index_of id) [
    | none ↦ (true, next, p)
    | some i ↦
        if index_in_used_vec p (some i)
        then give_back p i (node_at p i) next force
        else (true, next, p)
  ]

  -- ReturnNode tries, and sleeps between; `others` is what other threads do to the pool meanwhile.
  unfoldable pub return_loop :
      ℕ → (ℕ → PoolManager V → PoolManager V) → ℤ → ℤ → PoolManager V → ℤ × PoolManager V
  return_loop zero others id next p =
      let (_, next', p') = return_node_once id next true p in (next', p')
  return_loop (suc n) others id next p =
      let (done, next', p') = return_node_once id next false p in
      let rest = return_loop n others id next' (others n p') in if done then (next', p') else rest

  unfoldable pub return_node :
      (ℕ → PoolManager V → PoolManager V) → ℤ → PoolManager V → ℤ × PoolManager V
  return_node others id p = return_loop 1000 others id e_invalid_node p

  -- The loop of FreeNodeTree, with fuel; `none` means that the fuel ran out.
  unfoldable pub free_chain :
      ℕ → (ℕ → PoolManager V → PoolManager V) → ℤ → PoolManager V → Option (PoolManager V)
  free_chain zero others next p = none
  free_chain (suc fuel) others next p =
      let (next', p') = return_node others next p in
      let rest = free_chain fuel others next' p' in
      if eqb_ℤ next e_invalid_node then some p else rest

  unfoldable pub free_node_tree :
      ℕ → (ℕ → PoolManager V → PoolManager V) → ℤ → PoolManager V → Option (PoolManager V)
  free_node_tree fuel others root p =
      if eqb_ℤ root e_invalid_node || eqb_ℤ root e_root_node
      then some p
      else free_chain fuel others root p

module _ {V : Type 0} ⦃j : Json V⦄ where
  unfoldable pub expand_once : PoolManager V → PoolManager V
  expand_once p = record p {
    node_index_vec = p.node_index_vec ++ replicate cell_size new_node ∷ [];
    used_node_set = p.used_node_set ++ replicate cell_size false;
    free_node_list = push_range cell_size p.max_id p.free_node_list;
    max_id = p.max_id + cell_size;
  }

  -- The constructor: maxId starts at E_ROOT_NODE, and the pool has one cell.
  unfoldable pub new_pool : PoolManager V
  new_pool =
      expand_once
        (record { used_node_set = []; max_id = 0; free_node_list = []; node_index_vec = [] })

  abbrev pub reset_at : Option (TraceNode V) → ℕ → PoolManager V → PoolManager V
  reset_at none i p = p
  reset_at (some node) i p = set_node p i (reset (id_of i) node)

  -- Pop, mark as used, and reset. (The list is not empty here; an empty one cannot be popped.)
  unfoldable pub pop_ready : List ℕ → PoolManager V → Result (ℕ × PoolManager V)
  pop_ready [] p = err out_of_range
  pop_ready (i ∷ rest) p =
      let p' = record p { free_node_list = rest; used_node_set = set p.used_node_set i true } in
      ok (i, reset_at (node_at p i) i p')

  unfoldable pub get_ready_node : PoolManager V → Result (ℕ × PoolManager V)
  get_ready_node p =
      if is_empty p.free_node_list
      then (if ltb pool_max_nodes_limit p.max_id
          then err out_of_range
          else pop_ready (expand_once p).free_node_list (expand_once p))
      else pop_ready p.free_node_list p
