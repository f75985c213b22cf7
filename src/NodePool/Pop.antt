-- ===== src/NodePool/Pop.antt =====
-- A free node is popped from the stack, marked and reset; the other nodes stay as they are.
use pinpoint_c_agent.Base.{
  ℕ, zero, suc, ◌+◌, ◌*◌, ◌≤◌, ◌<◌, ◌≡◌, ◌≢◌, ap, ◌∙◌, Bool, true, false, List, [], ◌∷◌, some,
  arith, length, length-set, set, ok,
}
use pinpoint_c_agent.NodePool.Node.{TraceNode, Json, reset}
use pinpoint_c_agent.NodePool.Pool.{
  PoolManager, cell_size, is_used, id_of, pop_ready, node_at, set_node, reset_at,
}
use pinpoint_c_agent.NodePool.Cells.{
  node_in-lt, set_in-Full, length-set_in, node_in-set_in_self, node_in-set_in_ne,
}
use pinpoint_c_agent.NodePool.Marks.{
  occurrences, vacant, alive, vacant-lt, vacant-is_used, vacant-set, alive-set-true,
  is_used-set_self, is_used-set_ne,
}
use pinpoint_c_agent.NodePool.Valid.{IsValid}

-- The marks of the pool, as a client sees them.
abbrev pub is_alive : {V : Type 0} → PoolManager V → ℕ → Bool
is_alive p i = is_used p.used_node_set i

vacant-le-one : (bs : List Bool) (i : ℕ) → vacant bs i ≤ 1
vacant-le-one [] i = omega arith
vacant-le-one (b ∷ bs) zero = ground arith
vacant-le-one (b ∷ bs) (suc i) = vacant-le-one bs i

module _ {V : Type 0} where
  pub set_node-IsValid :
      (p : PoolManager V) (i : ℕ) (node : TraceNode V)
      → IsValid p
      → i < p.max_id
      → IsValid (set_node p i node)
  unfolding set_node
  set_node-IsValid p i node v h =
      let low : i < length p.node_index_vec * cell_size = omega (arith, v.sized) in
      record {
        full = set_in-Full p.node_index_vec i node v.full low;
        sized = omega (arith, v.sized, length-set_in p.node_index_vec i node v.full low);
        marks = v.marks;
        stack = v.stack;
        balance = v.balance;
        bounded = v.bounded;
      }

module _ {V : Type 0} ⦃j : Json V⦄ where
  -- The node `i` was free in `p`; in `q` it is in use and reset, every other node is as before.
  pub record Hands (p q : PoolManager V) (i : ℕ) : Type 0 where
    pub valid : IsValid q
    pub was_free : is_alive p i ≡ false
    pub now_used : is_alive q i ≡ true
    pub old : TraceNode V
    pub handed : node_at q i ≡ some (reset (id_of i) old)
    pub marks : (k : ℕ) → i ≢ k → is_alive q k ≡ is_alive p k
    pub nodes : (k : ℕ) → i ≢ k → k < p.max_id → node_at q k ≡ node_at p k
    pub one_more : alive q.used_node_set ≡ suc (alive p.used_node_set)

  abbrev pub popped : PoolManager V → ℕ → List ℕ → PoolManager V
  popped p i rest = record p { free_node_list = rest; used_node_set = set p.used_node_set i true }

  top-vacant :
      (p : PoolManager V) (i : ℕ) (rest : List ℕ)
      → IsValid p
      → p.free_node_list ≡ i ∷ rest
      → vacant p.used_node_set i ≡ 1 + occurrences i rest
  top-vacant p i rest v e = ground (arith, v.stack i, ap (occurrences i) e)

  pub popped-IsValid :
      (p : PoolManager V) (i : ℕ) (rest : List ℕ)
      → IsValid p
      → p.free_node_list ≡ i ∷ rest
      → IsValid (popped p i rest)
  popped-IsValid p i rest v e =
      let top = top-vacant p i rest v e in
      let most = vacant-le-one p.used_node_set i in
      let inside = vacant-lt p.used_node_set i (omega arith) in
      record {
        full = v.full;
        sized = v.sized;
        marks = length-set p.used_node_set i true ∙ v.marks;
        stack = λ k. ground (
          arith,
          v.stack k,
          ap (occurrences k) e,
          vacant-set p.used_node_set i k true inside,
          top,
          most,
        );
        balance =
            omega (arith, v.balance, ap length e, alive-set-true p.used_node_set i (omega arith));
        bounded = v.bounded;
      }

  popped-Hands :
      (p : PoolManager V) (i : ℕ) (rest : List ℕ) (old : TraceNode V)
      → IsValid p
      → p.free_node_list ≡ i ∷ rest
      → Hands p (set_node (popped p i rest) i (reset (id_of i) old)) i
  unfolding set_node node_at
  popped-Hands p i rest old v e =
      let top = top-vacant p i rest v e in
      let inside = vacant-lt p.used_node_set i (omega arith) in
      let low : i < length p.node_index_vec * cell_size = omega (arith, v.sized, v.marks) in
      let new = reset (id_of i) old in
      record {
        valid =
            set_node-IsValid (popped p i rest) i new (popped-IsValid p i rest v e)
              (omega (arith, v.marks));
        was_free = vacant-is_used p.used_node_set i (omega arith);
        now_used = is_used-set_self p.used_node_set i true inside;
        old = old;
        handed = node_in-set_in_self p.node_index_vec i new v.full low;
        marks = λ k ne. is_used-set_ne p.used_node_set i k true ne;
        nodes = λ k ne _. node_in-set_in_ne p.node_index_vec i k new v.full low ne;
        one_more = alive-set-true p.used_node_set i (omega arith);
      }

  pub pop_ready-Hands :
      (p : PoolManager V) (i : ℕ) (rest : List ℕ)
      → IsValid p
      → p.free_node_list ≡ i ∷ rest
      → (q : PoolManager V) × (pop_ready (i ∷ rest) p ≡ ok (i, q)) × Hands p q i
  unfolding pop_ready node_at
  pop_ready-Hands p i rest v e =
      let top = top-vacant p i rest v e in
      let inside = vacant-lt p.used_node_set i (omega arith) in
      let low : i < length p.node_index_vec * cell_size = omega (arith, v.sized, v.marks) in
      let (old, n) = node_in-lt p.node_index_vec i v.full low in
      (
        set_node (popped p i rest) i (reset (id_of i) old),
        ap (λ o. ok (i, reset_at o i (popped p i rest))) n,
        popped-Hands p i rest old v e,
      )
