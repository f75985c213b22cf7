-- ===== src/ConnectionPool/Events/Once.antt =====
-- PoolEventOnce and SyncSendAll return, and keep the connection sound.
use pinpoint_c_agent.Base.{
  ℕ, zero, suc, ◌/◌, ◌≤◌, ◌<◌, ◌≡◌, refl, sym, ap, ◌∙◌, subst, ◌⊎◌, inl, inr, Bool, Bool-cases,
  true, false, ◌||◌, List, ◌++◌, Option, some, if◌then◌else◌, ℤ, pos, negsuc, eqb_ℤ, eqb_ℤ_iff,
  ltb_ℤ, leb_ℤ, length, arith,
}
use pinpoint_c_agent.Cache.Chunk.Valid.{pending}
use pinpoint_c_agent.ConnectionPool.Connect.{Sockets}
use pinpoint_c_agent.ConnectionPool.Trans.{
  TransLayer, World, fd_setsize, connect_remote, reset_remote,
}
use pinpoint_c_agent.ConnectionPool.Events.{
  int_rem_1000, on_events, poll, pool_event_once, sync_next, sync_rounds, sync_send_all,
}
use pinpoint_c_agent.ConnectionPool.Network.{Network, connect_remote-Still}
use pinpoint_c_agent.ConnectionPool.Sound.{
  IsSound, Forward, IsDropped, Reset, reset_remote-Reset, Reset-IsSound, Reset-pending,
  connect_remote-Tries, connect_remote-IsSound,
}
use pinpoint_c_agent.ConnectionPool.Events.Turn.{Turns, on_events-Turns}

module _ {S K : Type 0} (sys : Sockets K) (threw : S → Bool) (out : ℤ → K → List ℕ)
    (waiting : ℤ → K → ℕ) (limit : ℕ) where
  -- A turn went well: what went out through the descriptor that the connection has now and what is
  -- queued are together what they were before.
  abbrev pub Delivered : TransLayer S → K → ℤ × TransLayer S × World S K → Type 0
  Delivered t k r =
      (r.0 ≡ pos 0)
      × (out r.1.c_fd r.2.kernel ++ pending r.1.chunks ≡ out r.1.c_fd k ++ pending t.chunks)
      × (length (pending r.1.chunks) ≤ length (pending t.chunks))

  abbrev pub Turned : TransLayer S → K → ℤ × TransLayer S × World S K → Type 0
  Turned t k r =
      Delivered t k r
      ⊎ (IsDropped sys r ⊎ ((r.0 ≡ negsuc 0) × (pending r.1.chunks ≡ pending t.chunks)))

  abbrev Ends : TransLayer S → K → Option (ℤ × TransLayer S × World S K) → Type 0
  Ends t k o = (r : ℤ × TransLayer S × World S K) × (o ≡ some r) × IsSound r.1 × Turned t k r

  Turns-Ends :
      (law : Network sys out waiting limit) (forward : Forward sys) (t : TransLayer S) (k : K)
      (o : Option (ℤ × TransLayer S × World S K))
      → Turns sys threw out waiting limit t k o
      → Ends t k o
  Turns-Ends law forward t k o (r, run, v, inl (ret, fd, s, short)) = (
    r,
    run,
    v,
    inl (
      ret,
      subst (λ fd. out fd r.2.kernel ++ pending r.1.chunks ≡ out fd k ++ pending t.chunks) (sym fd)
          s,
      short,
    ),
  )
  Turns-Ends law forward t k o (r, run, v, inr d) = (r, run, v, inr d)

  poll-Ends :
      (fuel timeout : ℕ) (t : TransLayer S) (w : World S K)
      → Network sys out waiting limit
      → Forward sys
      → IsSound t
      → length (pending t.chunks) < fuel
      → limit ≤ fuel
      → Ends t w.kernel (poll sys threw fuel timeout t w)
  poll-Ends fuel timeout t w law forward v h l =
      by_range (ltb_ℤ t.c_fd (pos 0)) (leb_ℤ (pos fd_setsize) t.c_fd) refl
    where
      x : Reset sys t (reset_remote sys t w).0
      x = reset_remote-Reset sys t w

      by_range :
          (b b' : Bool)
          → ltb_ℤ t.c_fd (pos 0) ≡ b
          → Ends t w.kernel (
              if b || b'
              then (let (t', w') = reset_remote sys t w in some (negsuc 0, t', w'))
              else on_events sys threw fuel
                  (sys.select t.c_fd t.writing (timeout / 1000) (int_rem_1000 timeout) w.kernel)
                  t
                  w)
      by_range true b' e = (
        _,
        refl,
        Reset-IsSound sys t _ v.queue x,
        inr (
            inl
              (record { ret = refl; queue = Reset-pending sys t _ v.queue x; in_buf = x.in_buf })),
      )
      by_range false true e = (
        _,
        refl,
        Reset-IsSound sys t _ v.queue x,
        inr (
            inl
              (record { ret = refl; queue = Reset-pending sys t _ v.queue x; in_buf = x.in_buf })),
      )
      by_range false false e = Turns-Ends law forward t w.kernel _ (
          on_events-Turns sys threw out waiting limit law forward fuel _ t w v e h l (
            (law.still t.c_fd).select t.c_fd t.writing (timeout / 1000) (int_rem_1000 timeout)
              w.kernel))

  -- The same, from the connection before it was opened.
  Ends-before :
      (t t' : TransLayer S) (k k' : K)
      → pending t'.chunks ≡ pending t.chunks
      → ((fd : ℤ) → out fd k' ≡ out fd k)
      → (o : Option (ℤ × TransLayer S × World S K)) → Ends t' k' o
      → Ends t k o
  Ends-before t t' k k' e still o (r, run, v, inl (ret, s, short)) = (
    r,
    run,
    v,
    inl (
      ret,
      s ∙ (ap (λ b. b ++ pending t'.chunks) (still r.1.c_fd) ∙ ap (◌++◌ (out r.1.c_fd k)) e),
      omega (arith, short, ap length e),
    ),
  )
  Ends-before t t' k k' e still o (r, run, v, inr (inl d)) = (r, run, v, inr (inl d))
  Ends-before t t' k k' e still o (r, run, v, inr (inr (ret, u))) =
      (r, run, v, inr (inr (ret, u ∙ e)))

  -- With send(2) and recv(2) as they are documented, calls besides send(2) that send nothing, a
  -- clock that does not go back, and fuel for the queued bytes and for those that wait to be
  -- received: from a sound connection PoolEventOnce returns and leaves a sound connection. Either it
  -- returns 0, and what went out through the descriptor that the connection has now and what is
  -- queued are together, in order, what they were before; or it returns -1 and nothing is queued and
  -- the receive buffer is empty; or it returns -1, which stands for
  -- an exception of a callback too, and what was queued still is.
  pub pool_event_once-Turned :
      (fuel timeout : ℕ) (t : TransLayer S) (w : World S K)
      → Network sys out waiting limit
      → Forward sys
      → IsSound t
      → length (pending t.chunks) < fuel
      → limit ≤ fuel
      → (r : ℤ × TransLayer S × World S K) × (pool_event_once sys threw fuel timeout t w ≡ some r)
        × IsSound r.1
        × Turned t w.kernel r
  unfolding pool_event_once
  pool_event_once-Turned fuel timeout t w law forward v h l = by_fd (eqb_ℤ t.c_fd (negsuc 0)) refl
    where
      t₁ : TransLayer S
      t₁ = (connect_remote sys t w.kernel).1

      w₁ : World S K
      w₁ = record w { kernel = (connect_remote sys t w.kernel).2 }

      queue : pending t₁.chunks ≡ pending t.chunks
      queue = ap pending (connect_remote-Tries sys t w.kernel forward).same_queue

      by_new :
          (b : Bool)
          → IsSound t₁
          → Ends t w.kernel
              (if b then some (negsuc 0, t₁, w₁) else poll sys threw fuel timeout t₁ w₁)
      by_new true v₁ = (_, refl, v₁, inr (inr (refl, queue)))
      by_new false v₁ =
          Ends-before t t₁ w.kernel w₁.kernel queue
            (λ fd. connect_remote-Still sys (out fd) t w.kernel (law.still fd)) _
            (poll-Ends fuel timeout t₁ w₁ law forward v₁ (omega (arith, h, ap length queue)) l)

      by_fd :
          (b : Bool)
          → eqb_ℤ t.c_fd (negsuc 0) ≡ b
          → Ends t w.kernel (
              if b
              then (if eqb_ℤ t₁.c_fd (negsuc 0)
                  then some (negsuc 0, t₁, w₁)
                  else poll sys threw fuel timeout t₁ w₁)
              else poll sys threw fuel timeout t w)
      by_fd true e = by_new (eqb_ℤ t₁.c_fd (negsuc 0)) (
          connect_remote-IsSound sys t w.kernel forward v.queue
            (v.fresh ((eqb_ℤ_iff t.c_fd (negsuc 0)).0 e)))
      by_fd false e = poll-Ends fuel timeout t w law forward v h l

  pub Turned-shorter :
      (t : TransLayer S) (k : K) (r : ℤ × TransLayer S × World S K)
      → Turned t k r
      → length (pending r.1.chunks) ≤ length (pending t.chunks)
  Turned-shorter t k r (inl (_, _, short)) = short
  Turned-shorter t k r (inr (inl d)) = omega (arith, ap length d.queue)
  Turned-shorter t k r (inr (inr (_, same))) = omega (arith, ap length same)

  -- `n` rounds of SyncSendAll one after the other: each is a turn of the event loop with S_WRITING
  -- on, and the last one alone may have had an exception.
  unfoldable pub Polls : ℕ → ℕ → ℕ → TransLayer S → World S K → TransLayer S × World S K → Type 0
  Polls zero fuel timeout t w r = r ≡ (t, w)
  Polls (suc n) fuel timeout t w r =
      (t.writing ≡ true)
      × (q : ℤ × TransLayer S × World S K) × (pool_event_once sys threw fuel timeout t w ≡ some q)
      × (((threw q.2.handlers ≡ true) × (n ≡ 0) × (r ≡ (q.1, q.2)))
          ⊎ ((threw q.2.handlers ≡ false) × Polls n fuel timeout q.1 q.2 r))

  -- After the rounds, of which no more than `most` are allowed.
  abbrev pub Flushes : ℕ → ℕ → ℕ → TransLayer S → World S K → TransLayer S × World S K → Type 0
  Flushes most fuel timeout t w r =
      IsSound r.0
      × (length (pending r.0.chunks) ≤ length (pending t.chunks))
      × (n : ℕ) × (n ≤ most)
      × Polls n fuel timeout t w r
      × ((n ≡ most) ⊎ ((r.0.writing ≡ false) ⊎ (threw r.1.handlers ≡ true)))

  abbrev Rounds : ℕ → ℕ → ℕ → TransLayer S → World S K → Option (TransLayer S × World S K) → Type 0
  Rounds n fuel timeout t w o =
      (r : TransLayer S × World S K) × (o ≡ some r) × Flushes n fuel timeout t w r

  -- One round, where the others go well from what its turn leaves.
  round-Sound :
      (n fuel timeout : ℕ) (t : TransLayer S) (w : World S K) (q : ℤ × TransLayer S × World S K)
      → pool_event_once sys threw fuel timeout t w ≡ some q
      → IsSound q.1
      → length (pending q.1.chunks) ≤ length (pending t.chunks)
      → t.writing ≡ true
      → Rounds n fuel timeout q.1 q.2 (sync_rounds sys threw n fuel timeout q.1 q.2)
      → Rounds
          (suc n)
          fuel
          timeout
          t
          w
          (sync_next sys threw (some q) (sync_rounds sys threw n fuel timeout))
  unfolding Polls
  round-Sound n fuel timeout t w q run v short on (r, done, (s, less, k, most, polls, why)) =
      elim (Bool-cases (threw q.2.handlers)) [
        | inl thrown ↦ rw thrown (
          (q.1, q.2),
          refl,
          (v, short, 1, omega arith, (on, q, run, inl (thrown, refl, refl)), inr (inr thrown)),
        )
        | inr fine ↦ rw fine (
          r,
          done,
          (
            s,
            omega (arith, short, less),
            suc k,
            omega (arith, most),
            (on, q, run, inr (fine, polls)),
            elim why [ inl all ↦ inl (ap (λ n. suc n) all) | inr stop ↦ inr stop ],
          ),
        )
      ]

  sync_rounds-Sound :
      (n fuel timeout : ℕ) (t : TransLayer S) (w : World S K)
      → Network sys out waiting limit
      → Forward sys
      → IsSound t
      → length (pending t.chunks) < fuel
      → limit ≤ fuel
      → Rounds n fuel timeout t w (sync_rounds sys threw n fuel timeout t w)
  unfolding sync_rounds Polls
  sync_rounds-Sound zero fuel timeout t w law forward v h l =
      ((t, w), refl, (v, omega arith, 0, omega arith, refl, inl refl))
  sync_rounds-Sound (suc n) fuel timeout t w law forward v h l =
      let (q, run, s, o) = pool_event_once-Turned fuel timeout t w law forward v h l in
      let short = Turned-shorter t w.kernel q o in
      let rest =
        sync_rounds-Sound n fuel timeout q.1 q.2 law forward s (omega (arith, short, h)) l in
      by_bit t.writing
        (λ on.
          subst
            (λ o.
              Rounds (suc n) fuel timeout t w
                (sync_next sys threw o (sync_rounds sys threw n fuel timeout)))
            (sym run) (round-Sound n fuel timeout t w q run s short on rest))
        (λ off. ((t, w), refl, (v, omega arith, 0, omega arith, refl, inr (inl off))))
    where
      by_bit :
          (b : Bool)
          → (b ≡ true
              → Rounds (suc n) fuel timeout t w (
                  sync_next sys threw
                    (pool_event_once sys threw fuel timeout t w)
                    (sync_rounds sys threw n fuel timeout)))
          → (b ≡ false → Rounds (suc n) fuel timeout t w (some (t, w)))
          → Rounds (suc n) fuel timeout t w (
              if b
              then sync_next sys threw
                  (pool_event_once sys threw fuel timeout t w)
                  (sync_rounds sys threw n fuel timeout)
              else some (t, w))
      by_bit true more stop = more refl
      by_bit false more stop = stop refl

  -- Under the same conditions SyncSendAll returns, leaves a sound connection, and has no more bytes
  -- queued than before. It has had one turn of the event loop after the other, each with S_WRITING on,
  -- 20 at most; and it has stopped because it had 20, because S_WRITING is off, or because a callback
  -- threw in the last.
  pub sync_send_all-Sound :
      (fuel timeout : ℕ) (t : TransLayer S) (w : World S K)
      → Network sys out waiting limit
      → Forward sys
      → IsSound t
      → length (pending t.chunks) < fuel
      → limit ≤ fuel
      → (r : TransLayer S × World S K) × (sync_send_all sys threw fuel timeout t w ≡ some r)
        × Flushes 20 fuel timeout t w r
  unfolding sync_send_all
  sync_send_all-Sound fuel timeout t w law forward v h l =
      sync_rounds-Sound 20 fuel timeout t w law forward v h l
