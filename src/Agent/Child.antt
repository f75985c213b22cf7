-- ===== src/Agent/Child.antt =====
-- Starting a child under a node of a trace puts it at the end of the trace.
use pinpoint_c_agent.Base.{
  ℕ, ◌<◌, ◌≡◌, ◌≢◌, refl, sym, ap, ◌∙◌, subst, ℤ, Result, ◌⊎◌, inl, inr, true, false, List, [], ◌∷◌,
  ◌++◌, some, pos, ◌+ℤ◌, ok, err, out_of_range, arith,
}
use pinpoint_c_agent.NodePool.Node.{Json, TraceNode, reset, start_trace, bind_parent_trace}
use pinpoint_c_agent.NodePool.Pool.{
  PoolManager, pool_max_nodes_limit, id_of, node_at, set_node, get_ready_node,
}
use pinpoint_c_agent.NodePool.Marks.{occurrences-append}
use pinpoint_c_agent.NodePool.Pop.{is_alive, Hands}
use pinpoint_c_agent.NodePool.Get.{get_ready_node-Hands}
use pinpoint_c_agent.NodePool.Valid.{IsValid}
use pinpoint_c_agent.NodePool.Tree.{Tree, Links-other, Links-free, Tree-Same}
use pinpoint_c_agent.NodePool.Touch.{node_at-lt, Same, update-Same}
use pinpoint_c_agent.NodePool.Finish.{set_node_user_option}
use pinpoint_c_agent.NodePool.Finish.Options.{KeepsNode, set_node_user_option-keeps}
use pinpoint_c_agent.NodePool.Append.{update, append_to_root_trace}
use pinpoint_c_agent.NodePool.Append.Linked.{update_known, update-Writes, Appended}
use pinpoint_c_agent.NodePool.Append.Call.{last_id-snoc, CanAppend, append_to_root_trace-Appended}
use pinpoint_c_agent.Agent.{◌>>>◌, pure, refer, read, write}
use pinpoint_c_agent.Agent.Runs.{>>>-ok, >>>-err, refer_ok, read_ok}
use pinpoint_c_agent.Agent.Contexts.{InTrace}
use pinpoint_c_agent.Agent.Trace.{ready_node, get_node, store_options, start_child}

abbrev pub id_or_error : ℤ → Result ℕ → Result ℤ
id_or_error id (ok n) = ok id
id_or_error id (err e) = err e

module _ {V : Type 0} ⦃j : Json V⦄ where
  abbrev fresh_child : ℕ → ℕ → TraceNode V → TraceNode V → TraceNode V
  fresh_child i now old parent = bind_parent_trace parent (start_trace now (reset (id_of i) old))

  -- The new node before it is hung under the root.
  record Fresh (p q : PoolManager V) (r i now : ℕ) (is : List ℕ) (t : Tree p r is)
      (parent : TraceNode V) : Type 0 where
    node : TraceNode V
    can : CanAppend r i is t.root node t.extra q
    bound : (node.parent_id ≡ parent.id) × (node.depth ≡ parent.depth +ℤ pos 1)

  made :
      (p q : PoolManager V) (r i now : ℕ) (is : List ℕ) (t : Tree p r is) (parent : TraceNode V)
      → Hands p q i
      → Fresh p
          (update i (bind_parent_trace parent) (update i (start_trace now) q))
          r
          i
          now
          is
          t
          parent
  unfolding bind_parent_trace start_trace reset
  made p q r i now is t parent h =
      let n₀ = reset (id_of i) h.old in
      let q₁ = update i (start_trace now) q in
      let w₁ = update-Writes i (start_trace now) n₀ q h.valid h.now_used h.handed in
      let q₂ = update i (bind_parent_trace parent) q₁ in
      let w₂ =
        update-Writes i (bind_parent_trace parent) (start_trace now n₀) q₁ w₁.valid
          (w₁.marks i ∙ h.now_used) w₁.here in
      let off : (k : ℕ) → is_alive p k ≡ true → i ≢ k =
        λ k a z. cc (sym h.was_free ∙ (ap (λ z. is_alive p z) z ∙ a)) in
      let there : (k : ℕ) (n : TraceNode V)
          → is_alive p k ≡ true
          → node_at p k ≡ some n
          → (is_alive q₂ k ≡ true) × (node_at q₂ k ≡ some n) =
        λ k n a e. (
          w₂.marks k ∙ (w₁.marks k ∙ (h.marks k (off k a) ∙ a)),
          w₂.there k (off k a)
              ∙ (w₁.there k (off k a) ∙ (h.nodes k (off k a) (node_at-lt p k n t.valid e) ∙ e)),
        ) in
      record {
        node = fresh_child i now h.old parent;
        can = record {
          valid = w₂.valid;
          root_alive = (there r t.root t.used t.at).0;
          node_alive = w₂.marks i ∙ (w₁.marks i ∙ h.now_used);
          differ = λ z. off r t.used (sym z);
          root_at = (there r t.root t.used t.at).1;
          node_at_i = w₂.here;
          is_root = t.is_root;
          is_new = refl;
          own_id = refl;
          unlinked = refl;
          last = t.last;
          root_apart = t.apart;
          node_apart = Links-free p i t.root.next is h.was_free t.chain;
          chain = Links-other p q₂ t.root.next is there t.chain;
        };
        bound = (refl, refl);
      }

  append-Tree :
      (p q q' : PoolManager V) (r i now : ℕ) (is : List ℕ) (t : Tree p r is) (parent : TraceNode V)
      → (f : Fresh p q r i now is t parent) → Appended r i is t.extra q q'
      → Tree q' r (is ++ i ∷ [])
  append-Tree p q q' r i now is t parent f a =
      let (same_id, same_root) = a.kept t.root f.can.root_at in
      record {
        valid = a.valid;
        used = a.same_marks r ∙ f.can.root_alive;
        root = a.new_root;
        at = a.root_at;
        own_root = same_root ∙ (t.own_root ∙ sym same_id);
        extra = record t.extra { last = id_of i; seq = t.extra.seq +ℤ pos 1 };
        is_root = a.root_extra;
        last = sym (last_id-snoc is i);
        apart = ground (arith, occurrences-append r is (i ∷ []), t.apart, f.can.differ);
        chain = a.linked;
      }

  options-Same :
      (p : PoolManager V) (i : ℕ) (n m : TraceNode V)
      → IsValid p
      → node_at p i ≡ some n
      → KeepsNode n m
      → Same p (update i (λ k. m) p)
  unfolding KeepsNode
  options-Same p i n m v at e =
      let f : TraceNode V → TraceNode V = λ k. record k { user_options = m.user_options } in
      subst (Same p)
        (update_known i f n p at ∙ ap (set_node p i) (sym e) ∙ sym (update_known i (λ k. m) n p at))
        (update-Same i f p (record { next = λ k. refl; root = λ k. refl }) v)

  stored :
      (i : ℕ) (id : ℤ) (r : Result ℕ × TraceNode V) (q : PoolManager V)
      → (store_options i r >>> λ _. pure id) q ≡ (id_or_error id r.0, update i (λ n. r.1) q)
  unfolding ◌>>>◌
  stored i id (ok n, node) q = refl
  stored i id (err e, node) q = refl

  -- The node `i` is a child of `parent` to which the options were given, and `ret` says how that
  -- went: its id, or the error of the option that throws.
  abbrev pub IsChild : List (List ℕ) → PoolManager V → ℕ → TraceNode V → Result ℤ → Type 0
  IsChild opts q i parent ret =
      (bare : TraceNode V) × (bare.parent_id ≡ parent.id)
      × (bare.depth ≡ parent.depth +ℤ pos 1)
      × (node_at q i ≡ some (set_node_user_option opts bare).1)
      × ((set_node_user_option opts bare).1
          ≡ record bare { user_options = (set_node_user_option opts bare).1.user_options })
      × (ret ≡ id_or_error (id_of i) (set_node_user_option opts bare).0)

  start_child_ok :
      (p q : PoolManager V) (r i k now : ℕ) (opts : List (List ℕ)) (is : List ℕ) (t : Tree p r is)
      (u : InTrace p r k)
      → get_ready_node p ≡ ok (i, q)
      → Hands p q i
      → (q' : PoolManager V) × (ret : Result ℤ) × (start_child (id_of k) opts now p ≡ (ret, q'))
        × Tree q' r (is ++ i ∷ [])
        × IsChild opts q' i u.node ret
  unfolding start_child KeepsNode
  start_child_ok p q r i k now opts is t u run h =
      let f = made p q r i now is t u.node h in
      let q₁ = update i (start_trace now) q in
      let q₂ = update i (bind_parent_trace u.node) q₁ in
      let (q₃, hangs, a) = append_to_root_trace-Appended r i is t.root f.node t.extra q₂ f.can in
      let t₃ = append-Tree p q₂ q₃ r i now is t u.node f a in
      let res = set_node_user_option opts a.hung in
      let w =
        update-Writes i (λ n. res.1) a.hung q₃ a.valid (a.same_marks i ∙ f.can.node_alive)
          a.hung_at in
      let q₄ = update i (λ n. res.1) q₃ in
      let keeps = set_node_user_option-keeps opts a.hung in
      let own = a.own f.node f.can.node_at_i in
      (
        q₄,
        id_or_error (id_of i) res.0,
        >>>-ok (refer (id_of k) >>> read) _ p p u.node (
              >>>-ok (refer (id_of k)) read p p k (refer_ok p k t.valid u.used)
              ∙ read_ok p k u.node u.at)
            ∙ (>>>-ok (refer u.node.root_id) _ p p r
                  (ap (λ z. refer z p) u.root ∙ refer_ok p r t.valid t.used)
                ∙ (>>>-ok get_node _ p q i (ap (ready_node p) run)
                    ∙ (>>>-ok (write i (start_trace now)) _ q q₁ i refl
                        ∙ (>>>-ok (write i (bind_parent_trace u.node)) _ q₁ q₂ i refl
                            ∙ (>>>-ok (append_to_root_trace r i) _ q₂ q₃ i hangs
                                ∙ (>>>-ok (read i) _ q₃ q₃ a.hung (read_ok q₃ i a.hung a.hung_at)
                                    ∙ (stored i a.hung.id res q₃
                                        ∙ ap (λ z. (id_or_error z res.0, q₄))
                                            (own.0 ∙ f.can.own_id)))))))),
        Tree-Same q₃ q₄ r (is ++ i ∷ []) (options-Same q₃ i a.hung res.1 a.valid a.hung_at keeps)
            (w.there r (λ z. f.can.differ (sym z))) t₃,
        (a.hung, own.1 ∙ f.bound.0, own.2 ∙ f.bound.1, w.here, keeps, refl),
      )

  -- For a trace in a well-formed pool, whose links lead from the root through the nodes `is`, and a
  -- node `k` of it that is in use: to start a trace with that node as its parent and with any options
  -- either throws and leaves the pool as it is, where the pool is past its limit of 12800 nodes; or a
  -- node that was free is in use, the links lead through `is` and then this node, and it has `k` as
  -- its parent and is one deeper. Then the call returns the id of the node, or throws what an option
  -- throws that cannot be read: the node hangs in the trace all the same, with the options before
  -- that one, and the options have changed nothing else of it.
  pub start_child-Tree :
      (p : PoolManager V) (r k now : ℕ) (opts : List (List ℕ)) (is : List ℕ)
      → Tree p r is
      → (u : InTrace p r k)
      → ((pool_max_nodes_limit < p.max_id)
          × (start_child (id_of k) opts now p ≡ (err out_of_range, p)))
        ⊎ ((i : ℕ) × (q : PoolManager V) × (ret : Result ℤ) × (start_child (id_of k) opts now p
              ≡ (ret, q))
            × (is_alive p i ≡ false)
            × Tree q r (is ++ i ∷ [])
            × IsChild opts q i u.node ret)
  unfolding start_child
  start_child-Tree p r k now opts is t u = elim (get_ready_node-Hands p t.valid) [
    | inr (i, q, run, h) ↦
        let (q', ret, e, t', c) = start_child_ok p q r i k now opts is t u run h in
        inr (i, q', ret, e, h.was_free, t', c)
    | inl (free, over, run) ↦ inl (
      over,
      >>>-ok (refer (id_of k) >>> read) _ p p u.node (
            >>>-ok (refer (id_of k)) read p p k (refer_ok p k t.valid u.used)
            ∙ read_ok p k u.node u.at)
          ∙ (>>>-ok (refer u.node.root_id) _ p p r
                (ap (λ z. refer z p) u.root ∙ refer_ok p r t.valid t.used)
              ∙ >>>-err get_node _ p p out_of_range (ap (ready_node p) run)),
    )
  ]
