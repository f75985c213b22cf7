-- ===== src/Agent/Sent.antt =====
-- The sending of the trace of a root by SendSpanTrace.
use pinpoint_c_agent.Base.{
  ℕ, ◌+◌, ◌^◌, ◌≤◌, ◌<◌, ◌≡◌, ap, ◌∙◌, ◌⊎◌, inl, inr, Error, true, List, Option, some,
  if◌then◌else◌, ℤ, pos, eqb_ℤ, Result, ok, err, length, arith,
}
use pinpoint_c_agent.NodePool.Node.{Json, TraceNode, is_root_node}
use pinpoint_c_agent.NodePool.Pool.{PoolManager, node_at}
use pinpoint_c_agent.NodePool.Valid.{IsValid}
use pinpoint_c_agent.NodePool.Chain.{Links}
use pinpoint_c_agent.NodePool.Append.{update}
use pinpoint_c_agent.NodePool.Touch.{Same}
use pinpoint_c_agent.NodePool.Finish.{end_trace, value_of, encode_trace_to_json_span}
use pinpoint_c_agent.NodePool.Finish.Encode.{encode_trace_to_json_span-Same}
use pinpoint_c_agent.ConnectionPool.Frame.{header_size}
use pinpoint_c_agent.ConnectionPool.Spans.Sound.{AllSound, All-weaker}
use pinpoint_c_agent.Agent.Trace.{
  Agent, Outside, run_handler, handed_over, with_pool, try_send_span, send_encoded, send_span_trace,
}
use pinpoint_c_agent.Agent.Send.{Relies, try_send_span-Sound}

abbrev pub wait_of : {K : Type 0} → ℤ → Agent K → ℤ
wait_of timeout a = if eqb_ℤ timeout (pos 0) then a.span_timeout else timeout

module _ {V K : Type 0} ⦃j : Json V⦄ (out : Outside V K) where
  -- The text that is sent for the root `r` when its trace is written into `p`.
  abbrev pub span_text : ℕ → PoolManager V → List ℕ
  span_text r p = out.write_value (value_of (node_at p r))

module _ {V K : Type 0} ⦃j : Json V⦄ (out : Outside V K) (sent : ℤ → K → List ℕ)
    (waiting : ℤ → K → ℕ) (limit : ℕ) where
  -- The bound `n` on what each connection has queued, the bound `size` on the text of the root `r`,
  -- ended at `now` and written, and the fuel `fuel` for its trace of `m` nodes besides the root.
  pub record Enough (fuel now n size m r : ℕ) (a : Agent K) (p : PoolManager V) : Type 0 where
    pub relies : Relies out sent waiting limit
    pub some_ : 0 < n
    pub sound : AllSound n a.connection_pool
    pub span :
        (q : PoolManager V)
        → encode_trace_to_json_span fuel out.clock r (update r (end_trace now) p) ≡ some (ok r, q)
        → length (span_text out r q) ≤ size
    pub fits : size + 12 < 2 ^ 30
    pub bytes : n + (header_size + size) ≤ fuel
    pub events : limit ≤ fuel
    pub nodes : m + 2 ≤ fuel

  -- What the sending of a root leaves. The nodes in use and the links are as they were. It is sent,
  -- or the writing of the values throws, which it can where the trace has more nodes than the root,
  -- or TrySendSpan of the text throws.
  abbrev pub Sent :
      ℕ
      → ℕ
      → ℕ
      → List ℕ
      → ℤ
      → Agent K
      → PoolManager V
      → K
      → Option (Result ℕ × Agent K × PoolManager V × K)
      → Type 0
  Sent fuel n r is wait a p k o =
      (q : PoolManager V) × Same p q
      × (((i : ℕ) × (b : Agent K) × (k' : K) × (encode_trace_to_json_span fuel out.clock r p
              ≡ some (ok r, q))
            × (try_send_span out fuel (span_text out r q) wait a k ≡ some (ok i, b, k'))
            × (o ≡ some (ok i, b, q, run_handler b.raw_span_handler (span_text out r q) k'))
            × AllSound n b.connection_pool)
          ⊎ (((e : Error) × (encode_trace_to_json_span fuel out.clock r p ≡ some (err e, q))
                × (o ≡ some (err e, a, q, k))
                × (0 < length is))
              ⊎ ((e : Error) × (b : Agent K) × (k' : K) × (encode_trace_to_json_span fuel out.clock
                      r p
                    ≡ some (ok r, q))
                  × (try_send_span out fuel (span_text out r q) wait a k ≡ some (err e, b, k'))
                  × (o ≡ some (err e, b, q, k'))
                  × AllSound n b.connection_pool)))

  span_cases :
      (fuel n r : ℕ) (is : List ℕ) (wait : ℤ) (a : Agent K) (p q : PoolManager V) (k : K)
      (t : Result ℕ × Agent K × K)
      → Same p q
      → encode_trace_to_json_span fuel out.clock r p ≡ some (ok r, q)
      → try_send_span out fuel (span_text out r q) wait a k ≡ some t
      → AllSound n t.1.connection_pool
      → Sent fuel n r is wait a p k (send_span_trace out fuel r wait a p k)
  unfolding send_span_trace
  span_cases fuel n r is wait a p q k (ok i, b, k') s run sends all = (
    q,
    s,
    inl (
      i,
      b,
      k',
      run,
      sends,
      ap (send_encoded out fuel r wait a k) run
          ∙ ap (λ o. with_pool out q (handed_over out (span_text out r q) o)) sends,
      all,
    ),
  )
  span_cases fuel n r is wait a p q k (err e, b, k') s run sends all = (
    q,
    s,
    inr (
        inr (
          e,
          b,
          k',
          run,
          sends,
          ap (send_encoded out fuel r wait a k) run
              ∙ ap (λ o. with_pool out q (handed_over out (span_text out r q) o)) sends,
          all,
        )),
  )

  pub send_span_trace-Sent :
      (fuel now n size r : ℕ) (is : List ℕ) (root : TraceNode V) (wait : ℤ) (a : Agent K)
      (p₀ : PoolManager V) (k : K)
      → Enough fuel now n size (length is) r a p₀
      → let p = update r (end_trace now) p₀ in
        IsValid p
        → node_at p r ≡ some root
        → is_root_node root ≡ true
        → Links p root.next is
        → Sent fuel
            (n + (header_size + size))
            r
            is
            wait
            a
            p
            k
            (send_span_trace out fuel r wait a p k)
  unfolding send_span_trace
  send_span_trace-Sent fuel now n size r is root wait a p₀ k enough v at yes_ l =
      let p = update r (end_trace now) p₀ in
      let (q, s, o) =
        encode_trace_to_json_span-Same fuel out.clock r is root p v at yes_ l
          (omega (arith, enough.nodes)) in
      elim o [
        | inr (e, bad, more) ↦
            (q, s, inr (inl (e, bad, ap (send_encoded out fuel r wait a k) bad, more)))
        | inl run ↦
            let small = enough.span q run in
            let (t, sends, _, all) =
              try_send_span-Sound out sent waiting limit fuel n (span_text out r q) wait a k
                enough.relies enough.some_ enough.sound (omega (arith, small, enough.fits))
                (omega (arith, small, enough.bytes)) enough.events in
            span_cases fuel (n + (header_size + size)) r is wait a p q k t s run sends (
              All-weaker (n + (header_size + length (span_text out r q))) (n + (header_size + size))
                t.1.connection_pool.stack (omega (arith, small)) all)
      ]
