-- ===== src/ConnectionPool/Receive/Bounded.antt =====
-- The receive buffer is never full at the head of the loop, and the loop ends.
use pinpoint_c_agent.Base.{
  ℕ, zero, suc, ◌-◌, ◌≤◌, ◌<◌, ◌≡◌, refl, sym, ap, ◌∙◌, subst, ◌⊎◌, inl, inr, List, ◌++◌, Option,
  some, ℤ, pos, negsuc, ltb, lt→ltb, arith, length, drop, Bool-cases, drop_all,
}
use pinpoint_c_agent.ConnectionPool.Frame.{in_msg_buf_size, handle_msg_stream}
use pinpoint_c_agent.ConnectionPool.Frame.Stops.{handle_msg_stream-Stops}
use pinpoint_c_agent.ConnectionPool.Receive.{
  RecvResult, received, closed, would_block, broken, Receiver, stream_answer, recv_answer,
  recv_byte_stream,
}

-- What recv(2) promises: no more bytes than asked for, and at least one, from the `waiting` ones.
pub record Source {K : Type 0} (recv : ℕ → K → RecvResult × K) (waiting : K → ℕ) : Type 0 where
  pub gave :
      (room : ℕ) (k : K) (bytes : List ℕ)
      → (recv room k).0 ≡ received bytes
      → (length bytes ≤ room) × (waiting (recv room k).1 < waiting k)

module _ {S K : Type 0} (route : ℕ → Option (List ℕ → S → ℤ × S)) (recv : ℕ → K → RecvResult × K)
    (waiting : K → ℕ) where
  -- What recv(2) says when the loop is at its head with `c`.
  abbrev pub answer : Receiver S K → RecvResult × K
  answer c = recv (in_msg_buf_size - length c.in_buf) c.kernel

  -- Rounds of the loop that were not the last: bytes came, HandleMsgStream dealt with `n` of those
  -- that are in the buffer now, and the others are kept.
  pub data Rounds : Receiver S K → Receiver S K → Type 0 where
    here : {c : Receiver S K} → Rounds c c
    round :
        {c c' : Receiver S K} (bytes : List ℕ) (n : ℕ) (s : S)
        → (answer c).0 ≡ received bytes
        → handle_msg_stream route (c.in_buf ++ bytes) c.handlers ≡ some (pos n, s)
        → Rounds
            (record { in_buf = drop n (c.in_buf ++ bytes); handlers = s; kernel = (answer c).1 })
            c'
        → Rounds c c'

  -- Why the call ended in the round that began with `c`: nothing more waits; the peer closed or
  -- recv(2) failed; or bytes came, and on those in the buffer HandleMsgStream had a fatal error.
  abbrev pub Stopped : Receiver S K → ℤ × Receiver S K → Type 0
  Stopped c r =
      (((answer c).0 ≡ would_block) × (r ≡ (pos 0, record c { kernel = (answer c).1 })))
      ⊎ ((((answer c).0 ≡ closed) ⊎ ((answer c).0 ≡ broken))
          × (r ≡ (negsuc 0, record c { kernel = (answer c).1 })))
      ⊎ ((bytes : List ℕ) × (s : S) × ((answer c).0 ≡ received bytes)
          × (handle_msg_stream route (c.in_buf ++ bytes) c.handlers ≡ some (negsuc 0, s))
          × (r ≡ (negsuc 0, record c { handlers = s; kernel = (answer c).1 })))

  abbrev pub Received : Receiver S K → ℤ × Receiver S K → Type 0
  Received c r =
      (c' : Receiver S K) × Rounds c c' × (length c'.in_buf < in_msg_buf_size) × Stopped c' r

  abbrev Ends : Receiver S K → Option (ℤ × Receiver S K) → Type 0
  Ends c o = (r : ℤ × Receiver S K) × (o ≡ some r) × Received c r

  stream_answer_offset :
      (again : Receiver S K → Option (ℤ × Receiver S K)) (buf : List ℕ) (k : K)
      (c c₀ : Receiver S K) (n : ℕ) (s : S)
      → Ends c₀ (again (record { in_buf = drop n buf; handlers = s; kernel = k }))
      → Ends c₀ (stream_answer route recv (some (pos n, s)) buf k c again)
  stream_answer_offset again buf k c c₀ n s next = elim (Bool-cases (ltb n (length buf))) [
    | inl more ↦ rw more next
    | inr none_left ↦ rw none_left (
        subst (λ b. Ends c₀ (again (record { in_buf = b; handlers = s; kernel = k })))
          (drop_all n buf (ground (arith, none_left))) next)
  ]

  stream_answer-Ends :
      (again : Receiver S K → Option (ℤ × Receiver S K)) (bytes : List ℕ) (c : Receiver S K)
      → (answer c).0 ≡ received bytes
      → length c.in_buf < in_msg_buf_size
      → ((c' : Receiver S K)
          → length c'.in_buf < in_msg_buf_size
          → c'.kernel ≡ (answer c).1
          → Ends c' (again c'))
      → Ends c (
          stream_answer route recv
            (handle_msg_stream route (c.in_buf ++ bytes) c.handlers)
            (c.in_buf ++ bytes)
            (answer c).1
            c
            again)
  stream_answer-Ends again bytes c came low next =
      let buf = c.in_buf ++ bytes in
      let ((ret, s), run, w) = handle_msg_stream-Stops route buf c.handlers in
      elim w [
        | inl fatal ↦
            let stopped = run ∙ ap (λ z. some (z, s)) fatal in
            (
              (negsuc 0, record c { handlers = s; kernel = (answer c).1 }),
              ap (λ o. stream_answer route recv o buf (answer c).1 c again) stopped,
              (c, Rounds.here, low, inr (inr (bytes, s, came, stopped, refl))),
            )
        | inr (n, at, _, _, short) ↦
            let stopped = run ∙ ap (λ z. some (z, s)) at in
            let c₁ : Receiver S K = record {
              in_buf = drop n buf;
              handlers = s;
              kernel = (answer c).1;
            } in
            let (r, done, (c', rounds, low', why)) = next c₁ short refl in
            subst (λ o. Ends c (stream_answer route recv o buf (answer c).1 c again)) (sym stopped)
              (stream_answer_offset again buf (answer c).1 c c n s
                (r, done, (c', Rounds.round bytes n s came stopped rounds, low', why)))
      ]

  recv_answer-Ends :
      (a : RecvResult × K) (c : Receiver S K) (fuel : ℕ)
      → Source recv waiting
      → length c.in_buf < in_msg_buf_size
      → waiting c.kernel < suc fuel
      → answer c ≡ a
      → ((c' : Receiver S K)
          → length c'.in_buf < in_msg_buf_size
          → waiting c'.kernel < fuel
          → Ends c' (recv_byte_stream route recv fuel c'))
      → Ends c (recv_answer route recv a c (recv_byte_stream route recv fuel))
  recv_answer-Ends (received bytes, k) c fuel law low f e next =
      let came = ap (λ q. q.0) e in
      let (short, less) = law.gave (in_msg_buf_size - length c.in_buf) c.kernel bytes came in
      subst
        (λ k.
          Ends c (recv_answer route recv (received bytes, k) c (recv_byte_stream route recv fuel)))
        (ap (λ q. q.1) e)
        (stream_answer-Ends (recv_byte_stream route recv fuel) bytes c came low
          (λ c' l at. next c' l (omega (arith, less, ap waiting at))))
  recv_answer-Ends (closed, k) c fuel law low f e next = (
    _,
    refl,
    (
      c,
      Rounds.here,
      low,
      (inr (inl (inl (ap (λ q. q.0) e), ap (λ q. (negsuc 0, record c { kernel = q.1 })) (sym e)))),
    ),
  )
  recv_answer-Ends (would_block, k) c fuel law low f e next = (
    _,
    refl,
    (
      c,
      Rounds.here,
      low,
      (inl (ap (λ q. q.0) e, ap (λ q. (pos 0, record c { kernel = q.1 })) (sym e))),
    ),
  )
  recv_answer-Ends (broken, k) c fuel law low f e next = (
    _,
    refl,
    (
      c,
      Rounds.here,
      low,
      (inr (inl (inr (ap (λ q. q.0) e), ap (λ q. (negsuc 0, record c { kernel = q.1 })) (sym e)))),
    ),
  )

  recv_byte_stream_next :
      (fuel : ℕ) (c : Receiver S K)
      → length c.in_buf < in_msg_buf_size
      → recv_byte_stream route recv (suc fuel) c
        ≡ recv_answer route recv
            (recv (in_msg_buf_size - length c.in_buf) c.kernel)
            c
            (recv_byte_stream route recv fuel)
  unfolding recv_byte_stream
  recv_byte_stream_next fuel c h = rw (lt→ltb _ _ h)

  -- When recv(2) gives at least one of the waiting bytes and no more than it is asked for, from a
  -- buffer with less than 4096 bytes and with a round more than bytes that wait: recvByteStream ends.
  -- Before its last round it had rounds in each of which bytes came and HandleMsgStream took some of
  -- those in the buffer, the others being kept; the last one began with less than 4096 bytes in the
  -- buffer. It returns 0 because recv(2) had nothing more then, or -1 because in that round the peer
  -- closed, recv(2) failed or HandleMsgStream had a fatal error on the bytes in the buffer; and it
  -- leaves the buffer as it was when that round began.
  pub recv_byte_stream-Received :
      (fuel : ℕ) (c : Receiver S K)
      → Source recv waiting
      → length c.in_buf < in_msg_buf_size
      → waiting c.kernel < fuel
      → (r : ℤ × Receiver S K) × (recv_byte_stream route recv fuel c ≡ some r) × Received c r
  recv_byte_stream-Received zero c law low f = elim f [ ]
  recv_byte_stream-Received (suc fuel) c law low f =
      subst (Ends c) (sym (recv_byte_stream_next fuel c low)) (
        recv_answer-Ends (answer c) c fuel law low f refl
          (λ c' l g. recv_byte_stream-Received fuel c' law l g))

  -- So the buffer is not full afterwards, and the call says 0 or -1.
  pub Received-low :
      (c : Receiver S K) (r : ℤ × Receiver S K)
      → Received c r
      → (length r.1.in_buf < in_msg_buf_size) × ((r.0 ≡ pos 0) ⊎ (r.0 ≡ negsuc 0))
  Received-low c r (c', rounds, low, why) = elim why [
    | inl (_, e) ↦ rw e (low, inl refl)
    | inr (inl (_, e)) ↦ rw e (low, inr refl)
    | inr (inr (bytes, s, _, _, e)) ↦ rw e (low, inr refl)
  ]
