-- ===== src/Agent/Send.antt =====
-- Agent::TrySendSpan gives the connection back, and keeps the connections of the pool sound.
use pinpoint_c_agent.Base.{
  ℕ, ◌+◌, ◌^◌, ◌≤◌, ◌<◌, ◌≡◌, refl, ap, ◌⊎◌, inl, inr, Bool-cases, List, ◌∷◌, Option, none, some,
  Error, Result, ok, err, ℤ, pos, ltb_ℤ, pos_part, length, arith,
}
use pinpoint_c_agent.Cache.Chunk.Fifo.{Allocates}
use pinpoint_c_agent.ConnectionPool.Frame.{header_size}
use pinpoint_c_agent.ConnectionPool.Trans.{TransLayer, World, submit}
use pinpoint_c_agent.ConnectionPool.Events.{pool_event_once}
use pinpoint_c_agent.ConnectionPool.Events.Once.{
  pool_event_once-Turned, Turned-shorter, sync_send_all-Sound,
}
use pinpoint_c_agent.ConnectionPool.Network.{Network}
use pinpoint_c_agent.ConnectionPool.Sound.{IsSound, Forward}
use pinpoint_c_agent.ConnectionPool.Spans.{get, free}
use pinpoint_c_agent.ConnectionPool.Spans.Sound.{
  queued, AllSound, All-weaker, submit-IsSound, get-Sound,
}
use pinpoint_c_agent.Agent.Greeting.{Handlers, has_thrown}
use pinpoint_c_agent.Agent.Trace.{
  Agent, Outside, events_done, send_events, after_events, give_back_connection, try_send_span,
}

-- What a thread relies on outside.
pub record Relies {V K : Type 0} (out : Outside V K) (sent : ℤ → K → List ℕ) (waiting : ℤ → K → ℕ)
    (limit : ℕ) : Type 0 where
  pub network : Network out.sys sent waiting limit
  pub forward : Forward out.sys
  pub alloc₁ : Allocates out.malloc₁
  pub alloc₂ : Allocates out.malloc₂

module _ {V K : Type 0} (out : Outside V K) (sent : ℤ → K → List ℕ) (waiting : ℤ → K → ℕ)
    (limit : ℕ) where
  -- The event loop that a timeout asks for returns.
  abbrev Sends : TransLayer Handlers → Option (TransLayer Handlers × World Handlers K) → Type 0
  Sends t o =
      (r : TransLayer Handlers × World Handlers K) × (o ≡ some r)
      × IsSound r.0
      × (queued r.0 ≤ queued t)

  once-Sends :
      (fuel : ℕ) (t : TransLayer Handlers) (w : World Handlers K)
      → Relies out sent waiting limit
      → IsSound t
      → queued t < fuel
      → limit ≤ fuel
      → Sends t (events_done out (pool_event_once out.sys has_thrown fuel 0 t w))
  once-Sends fuel t w law v h l =
      let (r, run, s, o) =
        pool_event_once-Turned out.sys has_thrown sent waiting limit fuel 0 t w law.network
          law.forward v h l in
      (
        (r.1, r.2),
        ap (events_done out) run,
        s,
        Turned-shorter out.sys has_thrown sent waiting limit t w.kernel r o,
      )

  send_events-Sends :
      (fuel : ℕ) (timeout : ℤ) (t : TransLayer Handlers) (w : World Handlers K)
      → Relies out sent waiting limit
      → IsSound t
      → queued t < fuel
      → limit ≤ fuel
      → Sends t (send_events out fuel timeout t w)
  send_events-Sends fuel timeout t w law v h l = elim (Bool-cases (ltb_ℤ (pos 0) timeout)) [
    | inl waits ↦ rw waits (
        let (r, run, (sound, less, _, _, _, _)) =
          sync_send_all-Sound out.sys has_thrown sent waiting limit fuel (pos_part timeout) t w
            law.network law.forward v h l in
        (r, run, sound, less))
    | inr short ↦ elim (Bool-cases (ltb_ℤ timeout (pos 0))) [
      | inl drops ↦ rw (short, drops) ((t, w), refl, v, omega arith)
      | inr once ↦ rw (short, once) (once-Sends fuel t w law v h l)
    ]
  ]

  -- What TrySendSpan leaves: the connection that it used is on top of the others in the pool, sound
  -- and with less than `m` bytes queued, or an exception has come through, and it is gone.
  abbrev pub GivenBack : ℕ → Agent K → Result ℕ × Agent K × K → Type 0
  GivenBack m a r =
      let others = (get a.connection_pool).1.stack in
      ((r.0 ≡ ok 0)
        × (t : TransLayer Handlers) × (r.1.connection_pool.stack ≡ t ∷ others)
        × IsSound t
        × (queued t < m))
      ⊎ ((e : Error) × (r.0 ≡ err e) × (r.1.connection_pool.stack ≡ others))

  after_events-Sound :
      (m : ℕ) (a : Agent K) (t : TransLayer Handlers) (w : World Handlers K) (o : Option Error)
      → IsSound t
      → queued t < m
      → AllSound m (get a.connection_pool).1
      → let r = after_events out (get a.connection_pool).1 a t w o in
        GivenBack m a r × AllSound m r.1.connection_pool
  unfolding free
  after_events-Sound m a t w none v h all = (inl (refl, t, refl, v, h), ((v, h), all))
  after_events-Sound m a t w (some e) v h all = (inr (e, refl, refl), all)

  pub try_send_span-Sound :
      (fuel n : ℕ) (span : List ℕ) (timeout : ℤ) (a : Agent K) (k : K)
      → Relies out sent waiting limit
      → 0 < n
      → AllSound n a.connection_pool
      → length span + 12 < 2 ^ 30
      → n + (header_size + length span) ≤ fuel
      → limit ≤ fuel
      → (r : Result ℕ × Agent K × K) × (try_send_span out fuel span timeout a k ≡ some r)
        × GivenBack (n + (header_size + length span)) a r
        × AllSound (n + (header_size + length span)) r.1.connection_pool
  unfolding try_send_span
  try_send_span-Sound fuel n span timeout a k law some_ all fits f l =
      let (v, low, rest) = get-Sound n a.connection_pool some_ all in
      let (v₁, grown) =
        submit-IsSound out.malloc₁ out.malloc₂ span (get a.connection_pool).0 law.alloc₁ law.alloc₂
          v fits in
      let t₁ = (submit out.malloc₁ out.malloc₂ span (get a.connection_pool).0).1 in
      let w : World Handlers K = record {
        handlers = record { process = a.state; thrown = none };
        kernel = k;
      } in
      let (r, run, v₂, short) =
        send_events-Sends fuel timeout t₁ w law v₁ (omega (arith, low, grown)) l in
      let (back, sound) =
        after_events-Sound (n + (header_size + length span)) a r.0 r.1 r.1.handlers.thrown v₂
          (omega (arith, low, grown, short))
          (All-weaker n (n + (header_size + length span)) (get a.connection_pool).1.stack
            (omega arith) rest) in
      (_, ap (give_back_connection out (get a.connection_pool).1 a) run, back, sound)
