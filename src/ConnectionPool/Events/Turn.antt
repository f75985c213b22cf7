-- ===== src/ConnectionPool/Events/Turn.antt =====
-- A turn of the event loop: it returns, loses no byte that was queued while the connection stands,
-- and keeps the connection sound.
use pinpoint_c_agent.Base.{
  ℕ, ◌≤◌, ◌<◌, ◌≡◌, ◌≢◌, refl, sym, ap, ◌∙◌, subst, ◌⊎◌, inl, inr, Bool, false, ◌&&◌, Bool-cases,
  List, ◌++◌, Option, some, ℤ, pos, negsuc, ltb_ℤ, length, arith, append-nil,
}
use pinpoint_c_agent.Cache.Chunk.Buffer.{Chunks}
use pinpoint_c_agent.Cache.Chunk.Valid.{pending, unread_all, IsValid}
use pinpoint_c_agent.ConnectionPool.Frame.{in_msg_buf_size}
use pinpoint_c_agent.ConnectionPool.Send.{Peer}
use pinpoint_c_agent.ConnectionPool.Send.Queue.{Flushed, send_msg_to_collector-Flushed}
use pinpoint_c_agent.ConnectionPool.Send.Queue.Shorter.{send_msg_to_collector-shorter}
use pinpoint_c_agent.ConnectionPool.Receive.{Receiver}
use pinpoint_c_agent.ConnectionPool.Receive.Quiet.{recv_byte_stream-Stays}
use pinpoint_c_agent.ConnectionPool.Receive.Bounded.{recv_byte_stream-Received, Received-low}
use pinpoint_c_agent.ConnectionPool.Connect.{
  Sockets, SelectResult, select_failed, timed_out, ready, invalid_socket,
}
use pinpoint_c_agent.ConnectionPool.Trans.{TransLayer, World}
use pinpoint_c_agent.ConnectionPool.Events.{
  after_send, send_event, after_recv, recv_event, err_network, or_err_network, after_callbacks,
  write_event, read_event, on_events,
}
use pinpoint_c_agent.ConnectionPool.Network.{Network}
use pinpoint_c_agent.ConnectionPool.Sound.{IsSound, Forward, IsDropped, err_network-IsDropped}

module _ {S K : Type 0} (sys : Sockets K) (threw : S → Bool) (out : ℤ → K → List ℕ)
    (waiting : ℤ → K → ℕ) (limit : ℕ) where
  -- What went out through the descriptor, and what is queued for it.
  abbrev pub stream : ℤ → TransLayer S → K → List ℕ
  stream fd t k = out fd k ++ pending t.chunks

  -- The connection stands: what went out and what is queued are together what they were.
  abbrev pub Went : TransLayer S → K → ℤ × TransLayer S × World S K → Type 0
  Went t k r =
      (r.0 ≡ pos 0)
      × (r.1.c_fd ≡ t.c_fd)
      × (stream t.c_fd r.1 r.2.kernel ≡ stream t.c_fd t k)
      × (length (pending r.1.chunks) ≤ length (pending t.chunks))

  -- The queue is as it was: select(2) failed, or a callback threw.
  abbrev pub Unmoved : TransLayer S → K → ℤ × TransLayer S × World S K → Type 0
  Unmoved t k r = (r.0 ≡ negsuc 0) × (pending r.1.chunks ≡ pending t.chunks)

  abbrev pub Turns : TransLayer S → K → Option (ℤ × TransLayer S × World S K) → Type 0
  Turns t k o =
      (r : ℤ × TransLayer S × World S K) × (o ≡ some r)
      × IsSound r.1
      × (Went t k r ⊎ (IsDropped sys r ⊎ Unmoved t k r))

  abbrev pub IsOpen : TransLayer S → Type 0
  IsOpen t = ltb_ℤ t.c_fd (pos 0) ≡ false

  open-online : (t : TransLayer S) → IsOpen t → t.c_fd ≢ invalid_socket
  open-online t o e = cc (sym o ∙ ap (λ z. ltb_ℤ z (pos 0)) e)

  module _ (law : Network sys out waiting limit) (forward : Forward sys) where
    stays : (t : TransLayer S) (w : World S K) → IsSound t → Turns t w.kernel (some (pos 0, t, w))
    stays t w v = (_, refl, v, inl (refl, refl, refl, omega arith))

    dropped :
        (t₀ t : TransLayer S) (k₀ : K) (w : World S K)
        → IsValid t.chunks
        → Turns t₀ k₀ (some (err_network sys t w))
    dropped t₀ t k₀ w v =
        let (s, d) = err_network-IsDropped sys t w forward v in (_, refl, s, inr (inl d))

    -- What the loop does with a step that ended with -1 or 0.
    write_step :
        (fuel : ℕ) (t : TransLayer S) (w : World S K)
        → IsSound t
        → IsOpen t
        → length (pending t.chunks) < fuel
        → Turns t w.kernel
            (or_err_network sys (send_event sys fuel t w) (λ t' w'. some (pos 0, t', w')))
    unfolding send_event
    write_step fuel t w v o h =
        let (r, run, valid, f) =
          send_msg_to_collector-Flushed (sys.send t.c_fd) (out t.c_fd) fuel t.chunks
            (record { writing = t.writing; kernel = w.kernel }) (law.sends t.c_fd) v.queue h in
        subst
          (λ o.
            Turns t w.kernel
              (or_err_network sys (after_send sys t w o) (λ t' w'. some (pos 0, t', w'))))
          (sym run)
          (by_flushed r valid f (
            send_msg_to_collector-shorter (sys.send t.c_fd) (out t.c_fd) fuel t.chunks
              (record { writing = t.writing; kernel = w.kernel }) (law.sends t.c_fd) v.queue h r
              run))
      where
        by_ret :
            (ret : ℤ) (c : Chunks) (p : Peer K)
            → ret ≡ pos 0
            → IsValid c
            → out t.c_fd p.kernel ++ pending c ≡ out t.c_fd w.kernel ++ pending t.chunks
            → length (pending c) ≤ length (pending t.chunks)
            → Turns t w.kernel (
                or_err_network sys
                  (after_send sys t w (some (ret, c, p)))
                  (λ t' w'. some (pos 0, t', w')))
        by_ret ret c p e valid s short = rw e (
          _,
          refl,
          record { queue = valid; room = v.room; fresh = v.fresh },
          inl (refl, refl, s, short),
        )

        by_flushed :
            (r : ℤ × Chunks × Peer K)
            → IsValid r.1
            → Flushed
                (sys.send t.c_fd)
                (out t.c_fd)
                t.chunks
                (record { writing = t.writing; kernel = w.kernel })
                r
            → length (pending r.1) ≤ length (pending t.chunks)
            → Turns t w.kernel
                (or_err_network sys (after_send sys t w (some r)) (λ t' w'. some (pos 0, t', w')))
        by_flushed (ret, c, p) valid (inl (e, none_left, s)) short =
            by_ret ret c p e valid
              (ap (λ cks. out t.c_fd p.kernel ++ unread_all cks) none_left ∙ (append-nil _ ∙ s))
              short
        by_flushed (ret, c, p) valid (inr (inl (e, _, s))) short = by_ret ret c p e valid s short
        by_flushed (ret, c, p) valid (inr (inr e)) short = rw e (
            dropped t (record t { chunks = c; writing = p.writing }) w.kernel
              (record w { kernel = p.kernel }) valid)

    write_event-Turns :
        (fuel : ℕ) (writable : Bool) (t : TransLayer S) (w : World S K)
        → IsSound t
        → IsOpen t
        → length (pending t.chunks) < fuel
        → Turns t w.kernel (write_event sys fuel writable t w)
    write_event-Turns fuel writable t w v o h = elim (Bool-cases (t.writing && writable)) [
      | inl writes ↦ rw writes (write_step fuel t w v o h)
      | inr idle ↦ rw idle (stays t w v)
    ]

    -- After a step that changed neither the descriptor nor the queue nor what went out.
    Turns-after :
        (t t' : TransLayer S) (k k' : K) (e : t'.c_fd ≡ t.c_fd)
        → stream t.c_fd t' k' ≡ stream t.c_fd t k
        → pending t'.chunks ≡ pending t.chunks
        → (o : Option (ℤ × TransLayer S × World S K)) → Turns t' k' o
        → Turns t k o
    Turns-after t t' k k' e s same o (r, run, v, inr (inl d)) = (r, run, v, inr (inl d))
    Turns-after t t' k k' e s same o (r, run, v, inr (inr (ret, u))) =
        (r, run, v, inr (inr (ret, u ∙ same)))
    Turns-after t t' k k' e s same o (r, run, v, inl (ret, fd, went, short)) = (
      r,
      run,
      v,
      inl (
        ret,
        fd ∙ e,
        subst (λ fd. stream fd r.1 r.2.kernel ≡ stream fd t' k') e went ∙ s,
        omega (arith, short, ap length same),
      ),
    )

    read_step :
        (fuel : ℕ) (writable : Bool) (t : TransLayer S) (w : World S K)
        → IsSound t
        → IsOpen t
        → length (pending t.chunks) < fuel
        → limit ≤ fuel
        → Turns t w.kernel
            (after_callbacks sys threw (recv_event sys fuel t w) (write_event sys fuel writable))
    unfolding recv_event
    read_step fuel writable t w v o h l =
        let c : Receiver S K = record {
          in_buf = t.in_buf;
          handlers = w.handlers;
          kernel = w.kernel;
        } in
        let few = law.few t.c_fd w.kernel in
        let (r, run, why) =
          recv_byte_stream-Received t.msg_route_map (sys.recv t.c_fd) (waiting t.c_fd) fuel c
            (law.receives t.c_fd) v.room (omega arith) in
        let (low, d) = Received-low t.msg_route_map (sys.recv t.c_fd) (waiting t.c_fd) c r why in
        let quiet =
          recv_byte_stream-Stays t.msg_route_map (sys.recv t.c_fd) (out t.c_fd)
            ((law.still t.c_fd).recv t.c_fd) fuel c w.kernel refl r run in
        subst
          (λ o.
            Turns t w.kernel
              (after_callbacks sys threw (after_recv sys t o) (write_event sys fuel writable)))
          (sym run) (by_ret r low quiet d)
      where
        by_ret :
            (r : ℤ × Receiver S K)
            → length r.1.in_buf < in_msg_buf_size
            → out t.c_fd r.1.kernel ≡ out t.c_fd w.kernel
            → (r.0 ≡ pos 0) ⊎ (r.0 ≡ negsuc 0)
            → Turns t w.kernel (
                after_callbacks sys threw
                  (after_recv sys t (some r))
                  (write_event sys fuel writable))
        by_ret (ret, c) low quiet d = elim (Bool-cases (threw c.handlers)) [
          | inl thrown ↦ rw thrown (
            _,
            refl,
            record { queue = v.queue; room = low; fresh = λ f. absurd (open-online t o f) },
            inr (inr (refl, refl)),
          )
          | inr fine ↦ rw fine (by_code ret c low quiet d)
        ]
          where
            by_code :
                (ret : ℤ) (c : Receiver S K)
                → length c.in_buf < in_msg_buf_size
                → out t.c_fd c.kernel ≡ out t.c_fd w.kernel
                → (ret ≡ pos 0) ⊎ (ret ≡ negsuc 0)
                → Turns t w.kernel (
                    or_err_network sys
                      (after_recv sys t (some (ret, c)))
                      (write_event sys fuel writable))
            by_code ret c low quiet (inr e) = rw e (
                dropped t (record t { in_buf = c.in_buf }) w.kernel
                  (record { handlers = c.handlers; kernel = c.kernel }) v.queue)
            by_code ret c low quiet (inl e) = rw e (
                Turns-after t (record t { in_buf = c.in_buf }) w.kernel c.kernel refl
                  (ap (λ b. b ++ pending t.chunks) quiet) refl _
                  (write_event-Turns fuel writable (record t { in_buf = c.in_buf })
                    (record { handlers = c.handlers; kernel = c.kernel })
                    (record {
                      queue = v.queue;
                      room = low;
                      fresh = λ f. absurd (open-online t o f);
                    })
                    o h))

    read_event-Turns :
        (fuel : ℕ) (readable writable : Bool) (t : TransLayer S) (w : World S K)
        → IsSound t
        → IsOpen t
        → length (pending t.chunks) < fuel
        → limit ≤ fuel
        → Turns t w.kernel (read_event sys threw fuel readable writable t w)
    read_event-Turns fuel readable writable t w v o h l =
        elim (Bool-cases (t.reading && readable)) [
          | inl reads ↦ rw reads (read_step fuel writable t w v o h l)
          | inr idle ↦ rw idle (write_event-Turns fuel writable t w v o h)
        ]

    pub on_events-Turns :
        (fuel : ℕ) (a : SelectResult × K) (t : TransLayer S) (w : World S K)
        → IsSound t
        → IsOpen t
        → length (pending t.chunks) < fuel
        → limit ≤ fuel
        → out t.c_fd a.1 ≡ out t.c_fd w.kernel
        → Turns t w.kernel (on_events sys threw fuel a t w)
    on_events-Turns fuel (select_failed, k) t w v o h l e = (_, refl, v, inr (inr (refl, refl)))
    on_events-Turns fuel (timed_out, k) t w v o h l e =
        (_, refl, v, inl (refl, refl, ap (λ b. b ++ pending t.chunks) e, omega arith))
    on_events-Turns fuel (ready readable writable failed, k) t w v o h l e =
        elim (Bool-cases (t.failing && failed)) [
          | inl fails ↦ rw fails (dropped t t w.kernel (record w { kernel = k }) v.queue)
          | inr fine ↦ rw fine (
              Turns-after t t w.kernel k refl (ap (λ b. b ++ pending t.chunks) e) refl _ (
                read_event-Turns fuel readable (t.writing && writable) t (record w { kernel = k }) v
                  o h l))
        ]
