-- ===== src/Cache/Chunk/Pipe.antt =====
-- The loop of drainOutWithPipe, for any pipe that reports what it took: it ends, and the bytes that
-- were sent and those still queued are together the bytes that were queued, in order.
use pinpoint_c_agent.Base.{
  if◌then◌else◌, ℕ, zero, suc, ◌≤◌, ◌<◌, ◌≡◌, refl, ◌⊎◌, inl, inr, List, [], ◌∷◌, ◌++◌, some, arith,
  length, length-append, take, subst, ap, ◌∙◌, sym, append_assoc, append-nil, ℤ, pos, negsuc, leb_ℤ,
  true, length-take,
}
use pinpoint_c_agent.Cache.Chunk.Buffer.{DataChunk, Chunks}
use pinpoint_c_agent.Cache.Chunk.Flow.{
  after_write, drain_loop, drain_out_with_pipe, check_water_level, is_empty, drain_answer,
  drain_round,
}
use pinpoint_c_agent.Cache.Chunk.Valid.{pending, unread, unread_all, IsReady, All, IsValid}
use pinpoint_c_agent.Cache.Chunk.Water.{IsTrimmed, check_water_level-IsTrimmed}
use pinpoint_c_agent.Cache.Chunk.Drain.{Takes, handed-unread, after_write-Takes}

-- What a drain relies on: a pipe that returns n ≥ 0 took the first n bytes that it was handed.
-- `sent` is all that went through the pipe.
pub record Sends {S : Type 0} (cb : List ℕ → S → ℤ × S) (sent : S → List ℕ) : Type 0 where
  pub took :
      (bytes : List ℕ) (s : S) (n : ℕ)
      → (cb bytes s).0 ≡ pos n
      → (n ≤ length bytes) × (sent (cb bytes s).1 ≡ sent s ++ take n bytes)

module _ {S : Type 0} (cb : List ℕ → S → ℤ × S) (sent : S → List ℕ) where
  -- The drain went through: all is sent.
  pub record Finished (c : Chunks) (s : S) (r : ℤ × Chunks × S) : Type 0 where
    pub ret : r.0 ≡ pos 0
    pub none_left : r.1.ready_cks ≡ []
    pub all_sent : sent r.2 ≡ sent s ++ pending c
    pub trimmed : (c.ready_cks ≡ []) ⊎ IsTrimmed r.1

  -- The pipe refused the front chunk, in the state `before` in which `done` had been sent; the value
  -- that it returned is the drain's.
  pub record Refused (c : Chunks) (s : S) (r : ℤ × Chunks × S) : Type 0 where
    pub done : List ℕ
    pub before : S
    pub split : pending c ≡ done ++ pending r.1
    pub sent_before : sent before ≡ sent s ++ done
    pub front : DataChunk
    pub behind : List DataChunk
    pub waits : r.1.ready_cks ≡ front ∷ behind
    pub refusal : cb (unread front) before ≡ (r.0, r.2)
    pub not_positive : leb_ℤ r.0 (pos 0) ≡ true

  abbrev pub Drained : Chunks → S → ℤ × Chunks × S → Type 0
  Drained c s r = IsValid r.1 × (Finished c s r ⊎ Refused c s r)

  drain_empty :
      (fuel : ℕ) (c : Chunks) (s : S)
      → IsValid c
      → c.ready_cks ≡ []
      → (drain_loop cb (suc fuel) c s ≡ some (pos 0, check_water_level c, s))
        × IsTrimmed (check_water_level c)
        × Drained c s (pos 0, check_water_level c, s)
  unfolding drain_loop
  drain_empty fuel c s v e =
      let (w, t, p, k) = check_water_level-IsTrimmed c v in
      (
        ap (λ cks. drain_round cb cks c s (drain_loop cb fuel)) e,
        t,
        (
          w,
          inl (record {
            ret = refl;
            none_left = k.ready ∙ e;
            all_sent = sym (ap (◌++◌ (sent s)) (ap unread_all e) ∙ append-nil (sent s));
            trimmed = inl e;
          }),
        ),
      )

  -- A round turns on what the pipe returns for the front chunk.
  drain_loop_round :
      (fuel : ℕ) (c : Chunks) (s : S) (cur : DataChunk) (rest : List DataChunk) (r : ℤ × S)
      → IsValid c
      → c.ready_cks ≡ cur ∷ rest
      → cb (unread cur) s ≡ r
      → drain_loop cb (suc fuel) c s ≡ drain_answer r cur rest c some (drain_loop cb fuel)
  unfolding drain_loop
  drain_loop_round fuel c s cur rest r v e k =
      let ready = subst (All IsReady) e v.ready in
      let handed = handed-unread cur ready.0.chunk in
      ap (λ cks. drain_round cb cks c s (drain_loop cb fuel)) e
      ∙ ap (λ q. drain_answer q cur rest c some (drain_loop cb fuel))
          (ap (λ bytes. cb bytes s) handed ∙ k)

  drain_refused :
      (c : Chunks) (s : S) (cur : DataChunk) (rest : List DataChunk) (r : ℤ × S)
      → IsValid c
      → c.ready_cks ≡ cur ∷ rest
      → cb (unread cur) s ≡ r
      → leb_ℤ r.0 (pos 0) ≡ true
      → Drained c s (r.0, c, r.1)
  drain_refused c s cur rest r v e k h = (
    v,
    inr (record {
      done = [];
      before = s;
      split = refl;
      sent_before = sym (append-nil (sent s));
      front = cur;
      behind = rest;
      waits = e;
      refusal = k;
      not_positive = h;
    }),
  )

  -- What the rest of the drain does, seen from before its first write.
  Drained-after :
      (c c₁ : Chunks) (s s₁ : S) (cur : DataChunk) (n : ℕ) (r : ℤ × Chunks × S)
      → Takes n cur c c₁
      → (r.1.ready_cks ≡ [] → IsTrimmed r.1)
      → sent s₁ ≡ sent s ++ take n (unread cur)
      → Drained c₁ s₁ r
      → Drained c s r
  Drained-after c c₁ s s₁ cur n r t low h (v, inl f) = (
    v,
    inl (record {
      ret = f.ret;
      none_left = f.none_left;
      all_sent =
          f.all_sent
          ∙ (ap (λ q. q ++ pending c₁) h
              ∙ (append_assoc (sent s) (take n (unread cur)) (pending c₁)
                  ∙ ap (◌++◌ (sent s)) (sym t.moves)));
      trimmed = inr (low f.none_left);
    }),
  )
  Drained-after c c₁ s s₁ cur n r t low h (v, inr f) = (
    v,
    inr (record {
      done = take n (unread cur) ++ f.done;
      before = f.before;
      split =
          t.moves
          ∙ (ap (◌++◌ (take n (unread cur))) f.split
              ∙ sym (append_assoc (take n (unread cur)) f.done (pending r.1)));
      sent_before =
          f.sent_before
          ∙ (ap (λ q. q ++ f.done) h ∙ append_assoc (sent s) (take n (unread cur)) f.done);
      front = f.front;
      behind = f.behind;
      waits = f.waits;
      refusal = f.refusal;
      not_positive = f.not_positive;
    }),
  )

  -- The loop with fuel for every queued byte; a drain that began with ready chunks ends trimmed.
  abbrev Ends : ℕ → Chunks → S → Type 0
  Ends fuel c s =
      (r : ℤ × Chunks × S) × (drain_loop cb fuel c s ≡ some r)
      × (r.1.ready_cks ≡ [] → IsTrimmed r.1)
      × Drained c s r

  drain-Ends_at :
      (fuel : ℕ) (c : Chunks) (s : S) (cur : DataChunk) (rest : List DataChunk) (r : ℤ × S)
      → Sends cb sent
      → IsValid c
      → c.ready_cks ≡ cur ∷ rest
      → cb (unread cur) s ≡ r
      → length (pending c) < suc fuel
      → ((c' : Chunks) (s' : S) → IsValid c' → length (pending c') < fuel → Ends fuel c' s')
      → Ends (suc fuel) c s
  drain-Ends_at fuel c s cur rest (pos zero, s') p v e k h again = (
    (pos 0, c, s'),
    drain_loop_round fuel c s cur rest _ v e k,
    (λ z. cc (sym e ∙ z)),
    drain_refused c s cur rest (pos 0, s') v e k refl,
  )
  drain-Ends_at fuel c s cur rest (negsuc n, s') p v e k h again = (
    (negsuc n, c, s'),
    drain_loop_round fuel c s cur rest _ v e k,
    (λ z. cc (sym e ∙ z)),
    drain_refused c s cur rest (negsuc n, s') v e k (ground arith),
  )
  drain-Ends_at fuel c s cur rest (pos (suc n), s') p v e k h again =
      let (fits, went) = p.took (unread cur) s (suc n) (ap (λ q. q.0) k) in
      let c₁ = after_write (pos (suc n)) cur rest c in
      let t = after_write-Takes cur rest c (suc n) e v fits in
      let less : length (pending c₁) < fuel = omega (
        arith,
        ap length t.moves,
        length-append (take (suc n) (unread cur)) (pending c₁),
        length-take (suc n) (unread cur),
      ) in
      let (r, run, low, d) = again c₁ s' t.valid less in
      (
        r,
        drain_loop_round fuel c s cur rest _ v e k ∙ run,
        low,
        Drained-after c c₁ s s' cur (suc n) r t low (ap (λ q. sent q.1) (sym k) ∙ went) d,
      )

  drain-Ends_by :
      (fuel : ℕ) (c : Chunks) (s : S) (cks : List DataChunk)
      → Sends cb sent
      → IsValid c
      → c.ready_cks ≡ cks
      → length (pending c) < suc fuel
      → ((c' : Chunks) (s' : S) → IsValid c' → length (pending c') < fuel → Ends fuel c' s')
      → Ends (suc fuel) c s
  drain-Ends_by fuel c s [] p v e h again =
      let (run, t, d) = drain_empty fuel c s v e in
      ((pos 0, check_water_level c, s), run, (λ _. t), d)
  drain-Ends_by fuel c s (cur ∷ rest) p v e h again =
      drain-Ends_at fuel c s cur rest (cb (unread cur) s) p v e refl h again

  drain-Ends :
      (fuel : ℕ) (c : Chunks) (s : S)
      → Sends cb sent
      → IsValid c
      → length (pending c) < fuel
      → Ends fuel c s
  drain-Ends zero c s p v h = elim h [ ]
  drain-Ends (suc fuel) c s p v h =
      drain-Ends_by fuel c s c.ready_cks p v refl h (λ c' s' v' h'. drain-Ends fuel c' s' p v' h')

  drain_out_cons :
      (fuel : ℕ) (c : Chunks) (s : S) (cks : List DataChunk)
      → c.ready_cks ≡ cks
      → drain_out_with_pipe cb fuel c s
        ≡ (if is_empty cks then some (pos 0, c, s) else drain_loop cb fuel c s)
  unfolding drain_out_with_pipe
  drain_out_cons fuel c s cks e =
      ap (λ l. if is_empty l then some (pos 0, c, s) else drain_loop cb fuel c s) e

  drain_out_by :
      (fuel : ℕ) (c : Chunks) (s : S) (cks : List DataChunk)
      → c.ready_cks ≡ cks
      → Sends cb sent
      → IsValid c
      → length (pending c) < fuel
      → (r : ℤ × Chunks × S) × (drain_out_with_pipe cb fuel c s ≡ some r) × Drained c s r
  drain_out_by fuel c s [] e p v h = (
    (pos 0, c, s),
    drain_out_cons fuel c s [] e,
    (
      v,
      inl (record {
        ret = refl;
        none_left = e;
        all_sent = sym (ap (◌++◌ (sent s)) (ap unread_all e) ∙ append-nil (sent s));
        trimmed = inl e;
      }),
    ),
  )
  drain_out_by fuel c s (cur ∷ rest) e p v h =
      let (r, run, low, d) = drain-Ends fuel c s p v h in
      (r, drain_out_cons fuel c s (cur ∷ rest) e ∙ run, d)

  -- For a pipe that reports truthfully what it took, a well-formed buffer and one unit of fuel more
  -- than there are queued bytes, the drain returns, and the buffer stays well formed. Either it
  -- returns 0, nothing is queued, and exactly the queued bytes went out, in order (the memory then
  -- is trimmed, unless nothing was queued at the start); or it returns the value <= 0 of the pipe for the chunk that is now at the
  -- front, and the bytes sent before that call and those still queued are together the bytes that
  -- were queued.
  pub drain_out_with_pipe-Drained :
      (fuel : ℕ) (c : Chunks) (s : S)
      → Sends cb sent
      → IsValid c
      → length (pending c) < fuel
      → (r : ℤ × Chunks × S) × (drain_out_with_pipe cb fuel c s ≡ some r) × Drained c s r
  drain_out_with_pipe-Drained fuel c s p v h = drain_out_by fuel c s c.ready_cks refl p v h
