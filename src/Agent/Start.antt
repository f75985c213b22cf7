-- ===== src/Agent/Start.antt =====
-- Starting a root, and starting and ending one.
use pinpoint_c_agent.Base.{
  ℕ, ◌-◌, pos_part, Error, ◌+◌, ◌<◌, ◌≡◌, ◌≢◌, refl, sym, ap, ◌∙◌, subst, ◌⊎◌, inl, inr, true,
  false, Bool-cases, List, [], ◌∷◌, Option, some, ℤ, eqb_ℤ_iff, ◌==◌, ==_iff, Result, ok, err,
  out_of_range, arith,
}
use pinpoint_c_agent.NodePool.Node.{
  Json, TraceNode, RootTraceNodeExtra, new_extra, reset, upgrade_to_root_node, start_trace,
  add_annotation, e_invalid_node, e_root_node, e_trace_pass,
}
use pinpoint_c_agent.NodePool.Pool.{
  PoolManager, pool_max_nodes_limit, id_of, is_used, node_at, get_ready_node,
}
use pinpoint_c_agent.NodePool.Valid.{IsValid}
use pinpoint_c_agent.NodePool.Pop.{is_alive, Hands}
use pinpoint_c_agent.NodePool.Get.{get_ready_node-Hands}
use pinpoint_c_agent.NodePool.Chain.{Frees}
use pinpoint_c_agent.NodePool.Append.{update}
use pinpoint_c_agent.NodePool.Append.Linked.{update-Writes}
use pinpoint_c_agent.NodePool.Finish.{end_trace, encode_trace_to_json_span}
use pinpoint_c_agent.ConnectionPool.Frame.{header_size}
use pinpoint_c_agent.ConnectionPool.Spans.Sound.{AllSound}
use pinpoint_c_agent.Agent.{read, write}
use pinpoint_c_agent.Agent.Runs.{>>>-ok, >>>-err, read_ok}
use pinpoint_c_agent.Agent.Trace.{
  Agent, Outside, ready_node, get_node, start_root, agent_start_trace, agent_end_trace,
  try_send_span,
}
use pinpoint_c_agent.Agent.Finish.{agent_end_trace-Ended}
use pinpoint_c_agent.Agent.Sent.{Enough, span_text, wait_of}

module _ {V : Type 0} ⦃j : Json V⦄ where
  -- A new root, started at `now`, with the index `i`.
  pub record Started (p q : PoolManager V) (i now : ℕ) : Type 0 where
    pub valid : IsValid q
    pub was_free : is_alive p i ≡ false
    pub now_used : is_alive q i ≡ true
    pub marks : (k : ℕ) → i ≢ k → is_alive q k ≡ is_alive p k
    pub nodes : (k : ℕ) → i ≢ k → k < p.max_id → node_at q k ≡ node_at p k
    pub root : TraceNode V
    pub at : node_at q i ≡ some root
    pub own_id : root.id ≡ id_of i
    pub own_root : root.root_id ≡ id_of i
    pub unlinked : root.next ≡ e_invalid_node
    pub began : root.trace_start_time ≡ now
    pub extra : RootTraceNodeExtra
    pub root_extra : root.extra ≡ some extra
    pub passes : extra.status ≡ e_trace_pass

  start_root_ok :
      (agent_type : ℤ) (now i : ℕ) (p q : PoolManager V)
      → get_ready_node p ≡ ok (i, q)
      → Hands p q i
      → (q' : PoolManager V) × (start_root agent_type now p ≡ (ok (id_of i), q'))
        × Started p q' i now
  unfolding start_root upgrade_to_root_node start_trace add_annotation reset new_extra
  start_root_ok agent_type now i p q run h =
      let n₀ = reset (id_of i) h.old in
      let w₁ = update-Writes i (upgrade_to_root_node agent_type) n₀ q h.valid h.now_used h.handed in
      let q₁ = update i (upgrade_to_root_node agent_type) q in
      let n₁ = upgrade_to_root_node agent_type n₀ in
      let w₂ = update-Writes i (start_trace now) n₁ q₁ w₁.valid (w₁.marks i ∙ h.now_used) w₁.here in
      let q₂ = update i (start_trace now) q₁ in
      (
        q₂,
        >>>-ok get_node _ p q i (ap (ready_node p) run)
            ∙ (>>>-ok (write i (upgrade_to_root_node agent_type)) _ q q₁ i refl
                ∙ (>>>-ok (write i (start_trace now)) _ q₁ q₂ i refl
                    ∙ >>>-ok (read i) _ q₂ q₂ (start_trace now n₁)
                        (read_ok q₂ i (start_trace now n₁) w₂.here))),
        record {
          valid = w₂.valid;
          was_free = h.was_free;
          now_used = w₂.marks i ∙ (w₁.marks i ∙ h.now_used);
          marks = λ k ne. w₂.marks k ∙ (w₁.marks k ∙ h.marks k ne);
          nodes = λ k ne low. w₂.there k ne ∙ (w₁.there k ne ∙ h.nodes k ne low);
          root = start_trace now n₁;
          at = w₂.here;
          own_id = refl;
          own_root = refl;
          unlinked = refl;
          began = refl;
          extra = new_extra;
          root_extra = refl;
          passes = refl;
        },
      )

  start_root_err :
      (agent_type : ℤ) (now : ℕ) (p : PoolManager V)
      → get_ready_node p ≡ err out_of_range
      → start_root agent_type now p ≡ (err out_of_range, p)
  unfolding start_root
  start_root_err agent_type now p run = >>>-err get_node _ p p out_of_range (ap (ready_node p) run)

  -- On a well-formed pool, to start a trace with no parent either throws and leaves the pool as it
  -- is, exactly where no node is free and the pool is past its limit of 12800 nodes; or it returns
  -- the id of a node that was free: now in use, the root of itself, with nothing behind it, started
  -- at the time of the call and with the status that lets it be sent. Every other node keeps its mark
  -- and its contents, and the pool stays well formed.
  pub agent_start_trace-Started :
      (agent_type : ℤ) (opts : List (List ℕ)) (now : ℕ) (p : PoolManager V)
      → IsValid p
      → ((p.free_node_list ≡ [])
          × (pool_max_nodes_limit < p.max_id)
          × (agent_start_trace agent_type e_root_node opts now p ≡ (err out_of_range, p)))
        ⊎ ((i : ℕ) × (q : PoolManager V) × (agent_start_trace agent_type e_root_node opts now p
              ≡ (ok (id_of i), q))
            × Started p q i now)
  unfolding agent_start_trace
  agent_start_trace-Started agent_type opts now p v = elim (get_ready_node-Hands p v) [
    | inl (free, over, run) ↦ inl (free, over, start_root_err agent_type now p run)
    | inr (i, q, run, h) ↦
        let (q', e, s) = start_root_ok agent_type now i p q run h in inr (i, q', e, s)
  ]

module _ {V K : Type 0} ⦃j : Json V⦄ (out : Outside V K) (sent : ℤ → K → List ℕ)
    (waiting : ℤ → K → ℕ) (limit : ℕ) where
  -- What starting and ending a root leaves: either the nodes in use are those that were; or
  -- TrySendSpan of its text has thrown, and the root is still in use, besides those.
  abbrev pub Balanced :
      ℕ
      → ℕ
      → ℕ
      → ℕ
      → ℤ
      → Agent K
      → PoolManager V
      → PoolManager V
      → K
      → Option (Result ℤ × Agent K × PoolManager V × K)
      → Type 0
  Balanced fuel later n i timeout a p q k o =
      ((b : Agent K) × (q' : PoolManager V) × (k' : K) × (o ≡ some (ok e_root_node, b, q', k'))
        × IsValid q'
        × ((j : ℕ) → is_alive q' j ≡ is_alive p j)
        × AllSound n b.connection_pool)
      ⊎ ((e : Error) × (b : Agent K) × (q' : PoolManager V) × (k' : K) × (encode_trace_to_json_span
              fuel out.clock i (update i (end_trace later) q)
            ≡ some (ok i, q'))
          × (try_send_span out fuel (span_text out i q') (wait_of timeout a) a k
              ≡ some (err e, b, k'))
          × (o ≡ some (err e, b, q', k'))
          × IsValid q'
          × (is_alive q' i ≡ true)
          × ((j : ℕ) → i ≢ j → is_alive q' j ≡ is_alive p j)
          × AllSound n b.connection_pool)

  marks_back :
      (p q q' : PoolManager V) (i now : ℕ)
      → Started p q i now
      → Frees (i ∷ []) q q'
      → (k : ℕ) → is_alive q' k ≡ is_alive p k
  marks_back p q q' i now s (v, marks, count) k = elim (Bool-cases (i == k)) [
    | inl same ↦ ground (
      arith,
      marks k,
      same,
      s.was_free,
      (==_iff i k).0 same,
      ap (λ z. is_alive p z) ((==_iff i k).0 same),
    )
    | inr other ↦ ground (arith, marks k, other, s.marks k (ground (arith, other)))
  ]

  root_returns :
      (fuel later n size i now : ℕ) (timeout : ℤ) (a : Agent K) (p q : PoolManager V) (k : K)
      → Enough out sent waiting limit fuel later n size 0 i a q
      → Started p q i now
      → Balanced fuel later
          (n + (header_size + size))
          i
          timeout
          a
          p
          q
          k
          (agent_end_trace out fuel later (id_of i) timeout a q k)
  root_returns fuel later n size i now timeout a p q k enough s =
      elim (agent_end_trace-Ended out sent waiting limit fuel later n size i [] timeout s.root
        s.extra a q k enough s.valid s.at
        ((eqb_ℤ_iff s.root.root_id s.root.id).1 (s.own_root ∙ sym s.own_id)) s.root_extra
        (refl, s.now_used, refl, (s.root, s.at, s.unlinked))) [
          | inl (a', q', k', run, frees, _, all) ↦
              inl (a', q', k', run, frees.0, marks_back p q q' i now s frees, all)
          | inr (pass, q', same, inl (e, bad, run, more)) ↦ absurd (omega (arith, more))
          | inr (pass, q', same, inr (e, b, k', done, sends, run, all)) ↦ inr (
            e,
            b,
            q',
            k',
            done,
            sends,
            run,
            same.valid,
            ap (λ u. is_used u i) same.used ∙ s.now_used,
            λ j ne. ap (λ u. is_used u j) same.used ∙ s.marks j ne,
            all,
          )
        ]

  abbrev started_index : Result ℤ × PoolManager V → ℕ
  started_index (ok id, q) = pos_part id - 1
  started_index (err e, q) = 0

  -- Where, on a well-formed pool, a trace with no parent is started, with the index `i`, and ended at
  -- once, with a network and an allocator as they are documented, sound connections, a bound on the
  -- text of this trace and enough fuel: whatever time limit is given, the end of it returns 0 or
  -- throws. Where it returns, the nodes in use are exactly those that were in use before the start.
  -- It throws only what TrySendSpan of the text of this trace throws; then the root is still in use,
  -- and every other node has the mark that it had before the start. The pool is well formed and every
  -- connection sound.
  pub agent_end_trace-agent_start_trace :
      (fuel later n size now i : ℕ) (agent_type timeout : ℤ) (opts : List (List ℕ)) (a : Agent K)
      (p q : PoolManager V) (k : K)
      → Enough out sent waiting limit fuel later n size 0 i a q
      → IsValid p
      → agent_start_trace agent_type e_root_node opts now p ≡ (ok (id_of i), q)
      → Balanced fuel later
          (n + (header_size + size))
          i
          timeout
          a
          p
          q
          k
          (agent_end_trace out fuel later (id_of i) timeout a q k)
  agent_end_trace-agent_start_trace fuel later n size now i agent_type timeout opts a p q k enough v
        e =
      elim (agent_start_trace-Started agent_type opts now p v) [
        | inl (free, over, run) ↦ absurd (thrown (sym run ∙ e))
        | inr (m, q₁, run, s) ↦
            let same = sym run ∙ e in
            let index : m ≡ i = omega (arith, ap started_index same) in
            root_returns fuel later n size i now timeout a p q k enough (
              subst (λ z. Started p q z now) index
                (subst (λ z. Started p z m now) (ap (λ r. r.1) same) s))
      ]
    where
      thrown : ◌≡◌ {A = Result ℤ × PoolManager V} (err out_of_range, p) (ok (id_of i), q) → ⊥
      thrown f = cc
