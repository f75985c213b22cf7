-- ===== src/Agent/Valid/Start.antt =====
-- Starting a trace, and the writing of a span, keep the node pool well formed.
use pinpoint_c_agent.Base.{
  ℕ, zero, suc, ◌≡◌, refl, sym, subst, inl, inr, Bool, true, false, Bool-cases, List, Option, none,
  some, not, if◌then◌else◌, ℤ, eqb_ℤ, leb_ℤ, Result, ok, err, Result-cases, some-injective,
}
use pinpoint_c_agent.NodePool.Node.{
  Json, TraceNode, RootTraceNodeExtra, e_invalid_node, e_root_node, is_root_node,
}
use pinpoint_c_agent.NodePool.Pool.{PoolManager, node_at, get_used_node}
use pinpoint_c_agent.NodePool.Valid.{IsValid}
use pinpoint_c_agent.NodePool.Touch.{update-IsValid}
use pinpoint_c_agent.NodePool.Get.{get_ready_node-Hands}
use pinpoint_c_agent.NodePool.Append.{
  append_to_root_trace, append_found, append_node, behind_last, behind_node, with_root, hang,
}
use pinpoint_c_agent.NodePool.Finish.{
  set_node_user_option, encode_trace_to_json_span, encode_chain, encode_node, encode_next,
  run_options_of, next_of,
}
use pinpoint_c_agent.Agent.Trace.{
  store_options, ready_node, get_node, start_root, start_child, agent_start_trace,
}
use pinpoint_c_agent.Agent.Valid.{
  Keeps, >>>-Keeps, refer-Keeps, refer-read-Keeps, read-Keeps, write-Keeps,
}
use pinpoint_c_agent.NodePool.Finish.Encode.{append_annotation-IsValid}

module _ {V : Type 0} where
  hang-IsValid :
      (r i : ℕ) (root node : TraceNode V) (pre : ℕ) (p : PoolManager V)
      → IsValid p
      → IsValid (hang r i root node pre p)
  hang-IsValid r i root node pre p v = update-IsValid r _ _ (update-IsValid i _ p v)

  behind_node-IsValid :
      (r i : ℕ) (root node : TraceNode V) (l : ℕ) (o : Option (TraceNode V)) (p : PoolManager V)
      → IsValid p
      → IsValid (behind_node r i root node l o p).1
  behind_node-IsValid r i root node l none p v = v
  behind_node-IsValid r i root node l (some last) p v =
      hang-IsValid r i root node last.trace_start_time _ (update-IsValid l _ p v)

  behind_last-IsValid :
      (r i : ℕ) (root node : TraceNode V) (o : Result ℕ) (p : PoolManager V)
      → IsValid p
      → IsValid (behind_last r i root node o p).1
  behind_last-IsValid r i root node (err e) p v = v
  behind_last-IsValid r i root node (ok l) p v =
      behind_node-IsValid r i root node l (node_at p l) p v

  append_node-IsValid :
      (r i : ℕ) (root node : TraceNode V) (o : Option RootTraceNodeExtra) (p : PoolManager V)
      → IsValid p
      → IsValid (append_node r i root node o p).1
  append_node-IsValid r i root node none p v = v
  append_node-IsValid r i root node (some extra) p v =
      elim (Bool-cases (not (eqb_ℤ node.root_id e_invalid_node))) [
        | inl bound ↦ rw bound v
        | inr loose ↦ elim (Bool-cases (eqb_ℤ extra.last e_invalid_node)) [
          | inl first ↦
              rw (loose, first)
                (hang-IsValid r i root node root.trace_start_time _ (update-IsValid i _ p v))
          | inr later ↦
              rw (loose, later)
                (behind_last-IsValid r i root node (get_used_node (with_root i root p) extra.last) _
                  (update-IsValid i _ p v))
        ]
      ]

  append_found-IsValid :
      (r i : ℕ) (o o' : Option (TraceNode V)) (p : PoolManager V)
      → IsValid p
      → IsValid (append_found r i o o' p).1
  append_found-IsValid r i none o' p v = v
  append_found-IsValid r i (some root) none p v = v
  append_found-IsValid r i (some root) (some node) p v =
      append_node-IsValid r i root node root.extra p v

  append_to_root_trace-Keeps : (r i : ℕ) → Keeps (append_to_root_trace {V = V} r i)
  unfolding append_to_root_trace
  append_to_root_trace-Keeps r i p v = append_found-IsValid r i (node_at p r) (node_at p i) p v

  store_options-Keeps : (i : ℕ) (r : Result ℕ × TraceNode V) → Keeps (store_options i r)
  store_options-Keeps i (ret, node) p v = update-IsValid i _ p v

module _ {V : Type 0} ⦃j : Json V⦄ where
  get_node-Keeps : Keeps {V = V} get_node
  get_node-Keeps p v = elim (get_ready_node-Hands p v) [
    | inl (free, over, run) ↦ subst (λ r. IsValid (ready_node p r).1) (sym run) v
    | inr (i, q, run, h) ↦ subst (λ r. IsValid (ready_node p r).1) (sym run) h.valid
  ]

  start_root-Keeps : (agent_type : ℤ) (now : ℕ) → Keeps {V = V} (start_root agent_type now)
  unfolding start_root
  start_root-Keeps agent_type now = >>>-Keeps _ _ get_node-Keeps (λ i.
      >>>-Keeps _ _ (write-Keeps i _)
        (λ _. >>>-Keeps _ _ (write-Keeps i _) (λ _. >>>-Keeps _ _ (read-Keeps i) (λ node q w. w))))

  start_child-Keeps :
      (parent_id : ℤ) (opts : List (List ℕ)) (now : ℕ)
      → Keeps {V = V} (start_child parent_id opts now)
  unfolding start_child
  start_child-Keeps parent_id opts now = >>>-Keeps _ _ (refer-read-Keeps parent_id) (λ parent.
      >>>-Keeps _ _ (refer-Keeps parent.root_id) (λ r. >>>-Keeps _ _ get_node-Keeps (λ i.
        >>>-Keeps _ _ (write-Keeps i _) (λ _. >>>-Keeps _ _ (write-Keeps i _) (λ _.
          >>>-Keeps _ _ (append_to_root_trace-Keeps r i) (λ _. >>>-Keeps _ _ (read-Keeps i) (λ node.
            >>>-Keeps _ _ (store_options-Keeps i (set_node_user_option opts node))
              (λ _ q w. w))))))))

  pub agent_start_trace-Keeps :
      (agent_type parent_id : ℤ) (opts : List (List ℕ)) (now : ℕ)
      → Keeps {V = V} (agent_start_trace agent_type parent_id opts now)
  unfolding agent_start_trace
  agent_start_trace-Keeps agent_type parent_id opts now p v =
      elim (Bool-cases (leb_ℤ parent_id e_invalid_node)) [
        | inl invalid ↦ rw invalid v
        | inr fine ↦ elim (Bool-cases (eqb_ℤ parent_id e_root_node)) [
          | inl root ↦ rw (fine, root) (start_root-Keeps agent_type now p v)
          | inr child ↦ rw (fine, child) (start_child-Keeps parent_id opts now p v)
        ]
      ]

  encode_node-IsValid :
      (now r i : ℕ) (p : PoolManager V) → IsValid p → IsValid (encode_node now r i p).1
  encode_node-IsValid now r i p v = append_annotation-IsValid r "event" _ _ (update-IsValid i _ p v)

  -- What the writing of a span leaves, where its loop ends.
  abbrev Leaves : Option (Result ℕ × PoolManager V) → Type 0
  Leaves o = (r : Result ℕ × PoolManager V) → o ≡ some r → IsValid r.1

  Leaves-some : (r : Result ℕ × PoolManager V) → IsValid r.1 → Leaves (some r)
  Leaves-some r v r' e = subst (λ q. IsValid q.1) (some-injective e) v

  encode_next-Leaves :
      (again : PoolManager V → Option (Result ℕ × PoolManager V)) (a : Result ℕ × PoolManager V)
      → IsValid a.1
      → ((q : PoolManager V) → IsValid q → Leaves (again q))
      → Leaves (encode_next again a)
  encode_next-Leaves again (err e, p) v step = Leaves-some (err e, p) v
  encode_next-Leaves again (ok i, p) v step = step p v

  encode_chain-Leaves :
      (fuel : ℕ) (clock : ℕ → ℕ) (r : ℕ) (next : ℤ) (p : PoolManager V)
      → IsValid p
      → Leaves (encode_chain fuel clock r next p)
  unfolding encode_chain
  encode_chain-Leaves zero clock r next p v = λ r' e. cc
  encode_chain-Leaves (suc fuel) clock r next p v = elim (Bool-cases (eqb_ℤ next e_invalid_node)) [
    | inl end ↦ rw end (Leaves-some (ok r, p) v)
    | inr more ↦ elim (Result-cases (get_used_node p next)) [
      | inl (e, bad) ↦ rw (more, bad) (Leaves-some (err e, p) v)
      | inr (i, found) ↦
          rw (more, found)
            (encode_next-Leaves (encode_chain fuel clock r (next_of (node_at p i)))
              (encode_node (clock fuel) r i p) (encode_node-IsValid (clock fuel) r i p v)
              (encode_chain-Leaves fuel clock r (next_of (node_at p i))))
    ]
  ]

  run_options_of-Leaves :
      (r : ℕ) (o : Option (Result ℕ × PoolManager V)) → Leaves o → Leaves (run_options_of r o)
  run_options_of-Leaves r none l = λ r' e. cc
  run_options_of-Leaves r (some (err e, p)) l = Leaves-some (err e, p) (l (err e, p) refl)
  run_options_of-Leaves r (some (ok i, p)) l =
      Leaves-some _ (update-IsValid r _ p (l (ok i, p) refl))

  pub encode_trace_to_json_span-IsValid :
      (fuel : ℕ) (clock : ℕ → ℕ) (r : ℕ) (p : PoolManager V) (a : Result ℕ × PoolManager V)
      → IsValid p
      → encode_trace_to_json_span fuel clock r p ≡ some a
      → IsValid a.1
  unfolding encode_trace_to_json_span
  encode_trace_to_json_span-IsValid fuel clock r p a v = by_root (node_at p r)
    where
      by_root :
          (o : Option (TraceNode V))
          → (elim o [
            | none ↦ some (ok r, p)
            | some root ↦
                if is_root_node root
                then run_options_of r (encode_chain fuel clock r root.next p)
                else some (ok r, p)
          ])
            ≡ some a
          → IsValid a.1
      by_root none = Leaves-some (ok r, p) v a
      by_root (some root) = by_mark (is_root_node root)
        where
          by_mark :
              (b : Bool)
              → (if b
                  then run_options_of r (encode_chain fuel clock r root.next p)
                  else some (ok r, p))
                ≡ some a
              → IsValid a.1
          by_mark true =
              run_options_of-Leaves r (encode_chain fuel clock r root.next p)
                (encode_chain-Leaves fuel clock r root.next p v) a
          by_mark false = Leaves-some (ok r, p) v a
