-- ===== src/Agent/Finish.antt =====
-- Ending the root of a trace: it is sent and freed, or an exception leaves it.
use pinpoint_c_agent.Base.{
  ℕ, ◌+◌, ◌≤◌, ◌<◌, ◌≡◌, ◌≢◌, refl, sym, ap, ◌∙◌, subst, ◌⊎◌, inl, inr, Bool, Error, eqb_ℤ_iff,
  true, false, Bool-cases, List, ◌∷◌, Option, none, some, if◌then◌else◌, ℤ, eqb_ℤ, Result, ok, err,
  some-injective, ◌==◌, length, arith,
}
use pinpoint_c_agent.NodePool.Node.{
  Json, TraceNode, RootTraceNodeExtra, is_root_node, e_root_node, e_trace_pass,
}
use pinpoint_c_agent.NodePool.Pool.{PoolManager, id_of, is_used, node_at}
use pinpoint_c_agent.NodePool.Valid.{IsValid}
use pinpoint_c_agent.NodePool.Marks.{alive, occurrences}
use pinpoint_c_agent.NodePool.Chain.{Links, Frees, free_node_tree-Frees}
use pinpoint_c_agent.NodePool.Append.{update}
use pinpoint_c_agent.NodePool.Append.Linked.{get_used_node_alive}
use pinpoint_c_agent.NodePool.Touch.{Same, Same-refl, Same-then, update-Same, Links-Same}
use pinpoint_c_agent.NodePool.Finish.{end_trace, encode_trace_to_json_span}
use pinpoint_c_agent.NodePool.Finish.Encode.{end_trace-IsLight}
use pinpoint_c_agent.ConnectionPool.Frame.{header_size}
use pinpoint_c_agent.ConnectionPool.Spans.Sound.{AllSound, All-weaker}
use pinpoint_c_agent.Agent.{status_of}
use pinpoint_c_agent.Agent.Trace.{
  Agent, Outside, run_handler, try_send_span, send_span_trace, free_tree, end_by_status, end_root,
  end_node, agent_end_trace,
}
use pinpoint_c_agent.Agent.Sent.{wait_of, span_text, Enough, Sent, send_span_trace-Sent}

module _ {V K : Type 0} ⦃j : Json V⦄ (out : Outside V K) (sent : ℤ → K → List ℕ)
    (waiting : ℤ → K → ℕ) (limit : ℕ) where
  -- The text of a root with the status that lets it be sent has gone through TrySendSpan and to the
  -- span handler; of another root nothing is sent.
  abbrev pub Reported :
      ℕ → ℕ → ℕ → ℤ → RootTraceNodeExtra → Agent K → PoolManager V → K → Agent K → K → Type 0
  Reported fuel now r timeout extra a p k b k' =
      ((extra.status ≡ e_trace_pass)
        × (q : PoolManager V) × (i : ℕ) × (k₁ : K) × (encode_trace_to_json_span fuel out.clock r
              (update r (end_trace now) p)
            ≡ some (ok r, q))
        × (try_send_span out fuel (span_text out r q) (wait_of timeout a) a k ≡ some (ok i, b, k₁))
        × (k' ≡ run_handler b.raw_span_handler (span_text out r q) k₁))
      ⊎ ((extra.status ≢ e_trace_pass) × (b ≡ a) × (k' ≡ k))

  -- What the end of a root leaves. Either its chain is freed, and it has been sent if its status says
  -- so; or, of a root with the status that lets it be sent, the writing of the values has thrown or
  -- TrySendSpan of the text has, and the nodes in use and the links are as they were.
  abbrev pub Ended :
      ℕ
      → ℕ
      → ℕ
      → ℕ
      → List ℕ
      → ℤ
      → RootTraceNodeExtra
      → Agent K
      → PoolManager V
      → K
      → Option (Result ℤ × Agent K × PoolManager V × K)
      → Type 0
  Ended fuel now n r is timeout extra a p k o =
      let p₁ = update r (end_trace now) p in
      ((b : Agent K) × (q : PoolManager V) × (k' : K) × (o ≡ some (ok e_root_node, b, q, k'))
        × Frees (r ∷ is) p q
        × Reported fuel now r timeout extra a p k b k'
        × AllSound n b.connection_pool)
      ⊎ ((extra.status ≡ e_trace_pass)
          × (q : PoolManager V) × Same p q
          × (((e : Error) × (encode_trace_to_json_span fuel out.clock r p₁ ≡ some (err e, q))
                × (o ≡ some (err e, a, q, k))
                × (0 < length is))
              ⊎ ((e : Error) × (b : Agent K) × (k' : K) × (encode_trace_to_json_span fuel out.clock
                      r p₁
                    ≡ some (ok r, q))
                  × (try_send_span out fuel (span_text out r q) (wait_of timeout a) a k
                      ≡ some (err e, b, k'))
                  × (o ≡ some (err e, b, q, k'))
                  × AllSound n b.connection_pool)))

  Frees-Same : (is : List ℕ) (p q q' : PoolManager V) → Same p q → Frees is q q' → Frees is p q'
  Frees-Same is p q q' s (v, marks, count) = (
    v,
    subst
        (λ u.
          (k : ℕ)
          → is_used q'.used_node_set k ≡ (if occurrences k is == 0 then is_used u k else false))
        s.used marks,
    omega (arith, count, ap alive s.used),
  )

  -- The chain is freed where the root was sent or dropped.
  free_tree-Frees :
      (fuel r i : ℕ) (is : List ℕ) (p q : PoolManager V) (b : Agent K) (k' : K)
      (o : Option (Result ℕ × Agent K × PoolManager V × K))
      → Links p (id_of r) (r ∷ is)
      → length is + 2 ≤ fuel
      → Same p q
      → o ≡ some (ok i, b, q, k')
      → (q' : PoolManager V) × (free_tree out fuel (id_of r) o ≡ some (ok e_root_node, b, q', k'))
        × Frees (r ∷ is) p q'
  free_tree-Frees fuel r i is p q b k' o l h s run =
      let (q', frees, f) =
        free_node_tree-Frees fuel r is q s.valid (Links-Same p q (id_of r) (r ∷ is) s l) h in
      (
        q',
        ap (free_tree out fuel (id_of r)) run
            ∙ ap
                (λ o. elim o as (λ o. Option (Result ℤ × Agent K × PoolManager V × K)) [
                  | none ↦ none
                  | some q ↦ some (ok e_root_node, b, q, k')
                ])
                frees,
        Frees-Same (r ∷ is) p q q' s f,
      )

  -- From a root that was to be sent.
  pass-Ended :
      (fuel now n r : ℕ) (is : List ℕ) (timeout : ℤ) (extra : RootTraceNodeExtra) (a : Agent K)
      (p : PoolManager V) (k : K) (o : Option (Result ℕ × Agent K × PoolManager V × K))
      → extra.status ≡ e_trace_pass
      → Links p (id_of r) (r ∷ is)
      → length is + 2 ≤ fuel
      → Same p (update r (end_trace now) p)
      → Sent out sent waiting limit fuel n r is
          (wait_of timeout a)
          a
          (update r (end_trace now) p)
          k
          o
      → Ended fuel now n r is timeout extra a p k (free_tree out fuel (id_of r) o)
  pass-Ended fuel now n r is timeout extra a p k o pass l h s₀ (q, t, w) =
      let p₁ = update r (end_trace now) p in
      let s = Same-then p p₁ q s₀ t in
      elim w [
        | inl (i, b, k', done, sends, run, all) ↦
            let k₁ = run_handler b.raw_span_handler (span_text out r q) k' in
            let (q', frees, f) = free_tree-Frees fuel r i is p q b k₁ o l h s run in
            inl (b, q', k₁, frees, f, inl (pass, q, i, k', done, sends, refl), all)
        | inr (inl (e, bad, run, more)) ↦
            inr (pass, q, s, inl (e, bad, ap (free_tree out fuel (id_of r)) run, more))
        | inr (inr (e, b, k', done, sends, run, all)) ↦
            inr
              (pass, q, s, inr (e, b, k', done, sends, ap (free_tree out fuel (id_of r)) run, all))
      ]

  end_by_status-Ended :
      (fuel now n size r : ℕ) (is : List ℕ) (timeout : ℤ) (root : TraceNode V)
      (extra : RootTraceNodeExtra) (a : Agent K) (p : PoolManager V) (k : K)
      → Enough out sent waiting limit fuel now n size (length is) r a p
      → IsValid p
      → node_at p r ≡ some root
      → is_root_node root ≡ true
      → Links p (id_of r) (r ∷ is)
      → Ended fuel now
          (n + (header_size + size))
          r
          is
          timeout
          extra
          a
          p
          k
          (end_by_status out fuel now timeout (id_of r) r (ok extra.status) a p k)
  end_by_status-Ended fuel now n size r is timeout root extra a p k enough v at yes_ l =
      elim (Bool-cases (eqb_ℤ extra.status e_trace_pass)) [
        | inl pass ↦ rw pass (
            let s = update-Same r (end_trace now) p (end_trace-IsLight now) v in
            pass-Ended fuel now (n + (header_size + size)) r is timeout extra a p k _
              ((eqb_ℤ_iff extra.status e_trace_pass).0 pass) l enough.nodes s (sent_ended s))
        | inr drop_ ↦ rw drop_ (
            let (q', frees, f) =
              free_tree-Frees fuel r r is p p a k (some (ok r, a, p, k)) l enough.nodes
                (Same-refl p v) refl in
            inl (
              a,
              q',
              k,
              frees,
              f,
              inr (λ e. cc (sym drop_ ∙ (eqb_ℤ_iff extra.status e_trace_pass).1 e), refl, refl),
              All-weaker n (n + (header_size + size)) a.connection_pool.stack (omega arith)
                  enough.sound,
            ))
      ]
    where
      ended : PoolManager V
      ended = update r (end_trace now) p

      sent_ended :
          Same p ended
          → Sent out sent waiting limit fuel
              (n + (header_size + size))
              r
              is
              (wait_of timeout a)
              a
              ended
              k
              (send_span_trace out fuel r (wait_of timeout a) a ended k)
      sent_ended s =
          let (m, there, next, mark) = s.nodes r root at in
          let (e, al, d, (node, n_at, rest)) = l in
          let same : node ≡ root = some-injective (sym n_at ∙ at) in
          let chain : Links p root.next is = subst (λ z. Links p z.next is) same rest in
          let chain' : Links ended m.next is =
            subst (λ z. Links ended z is) (sym next) (Links-Same p ended root.next is s chain) in
          send_span_trace-Sent out sent waiting limit fuel now n size r is m (wait_of timeout a) a p
            k enough s.valid there (mark ∙ yes_) chain'

  -- With a network and an allocator as they are documented, sound connections, a bound on the text of
  -- this trace, and fuel for the bytes and for the nodes of the trace: on a well-formed pool, for a
  -- root in use whose links lead through the nodes `is` to -1, Agent::EndTrace returns or throws.
  -- Where it returns, it returns 0, and has freed the root and each of these nodes and no other node;
  -- the pool stays well formed and every connection sound; the text of the trace has gone through
  -- TrySendSpan and to the span handler if the status of the root lets it be sent, and else the agent
  -- and the kernel are as they were. It throws only for a root with the status
  -- that lets it be sent, and then the nodes in use and the links are as they were: the exception is
  -- that of jsoncpp when the value of a node behind the root is appended, or the one that TrySendSpan
  -- of the text of this trace throws.
  pub agent_end_trace-Ended :
      (fuel now n size r : ℕ) (is : List ℕ) (timeout : ℤ) (root : TraceNode V)
      (extra : RootTraceNodeExtra) (a : Agent K) (p : PoolManager V) (k : K)
      → Enough out sent waiting limit fuel now n size (length is) r a p
      → IsValid p
      → node_at p r ≡ some root
      → is_root_node root ≡ true
      → root.extra ≡ some extra
      → Links p (id_of r) (r ∷ is)
      → Ended fuel now
          (n + (header_size + size))
          r
          is
          timeout
          extra
          a
          p
          k
          (agent_end_trace out fuel now (id_of r) timeout a p k)
  unfolding agent_end_trace
  agent_end_trace-Ended fuel now n size r is timeout root extra a p k enough v at yes_ x l =
      subst Goal
        (sym (
          ap by_index (get_used_node_alive p r v l.1)
          ∙ ap (λ o. end_node out fuel now timeout (id_of r) r o a p k) at
          ∙ ap (λ b. by_mark b) yes_
          ∙ ap (λ o. end_by_status out fuel now timeout (id_of r) r (status_of o) a p k) x))
        (end_by_status-Ended fuel now n size r is timeout root extra a p k enough v at yes_ l)
    where
      Goal : Option (Result ℤ × Agent K × PoolManager V × K) → Type 0
      Goal o = Ended fuel now (n + (header_size + size)) r is timeout extra a p k o

      by_index : Result ℕ → Option (Result ℤ × Agent K × PoolManager V × K)
      by_index (err e) = some (err e, a, p, k)
      by_index (ok i) = end_node out fuel now timeout (id_of r) i (node_at p i) a p k

      by_mark : Bool → Option (Result ℤ × Agent K × PoolManager V × K)
      by_mark b =
          if b
          then end_root out fuel now timeout (id_of r) r root a p k
          else some (ok root.parent_id, a, update r (end_trace now) p, k)
