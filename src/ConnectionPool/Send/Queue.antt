-- ===== src/ConnectionPool/Send/Queue.antt =====
-- _send_msg_to_collector: the send queue against the kernel.
pub mod Shorter
use pinpoint_c_agent.Base.{
  ℕ, ◌<◌, ◌≡◌, sym, ap, ◌∙◌, subst, ◌⊎◌, inl, inr, true, List, [], ◌++◌, some, ℤ, pos, negsuc,
  leb_ℤ, arith, length, append_assoc, append-nil, take,
}
use pinpoint_c_agent.Cache.Chunk.Buffer.{Chunks}
use pinpoint_c_agent.Cache.Chunk.Valid.{pending, unread, IsReady, All, IsValid}
use pinpoint_c_agent.Cache.Chunk.Drain.{length-unread}
use pinpoint_c_agent.Cache.Chunk.Pipe.{Refused, drain_out_with_pipe-Drained}
use pinpoint_c_agent.ConnectionPool.Send.{SendResult, Peer, write_pipe, send_msg_to_collector}
use pinpoint_c_agent.ConnectionPool.Send.Write.{
  Kernel, Written, write_pipe-Written, write_pipe-Sends,
}

not_positive-zero : (n : ℕ) → leb_ℤ (pos n) (pos 0) ≡ true → n ≡ 0
not_positive-zero n h = ground arith

module _ {K : Type 0} (send : List ℕ → K → SendResult × K) (out : K → List ℕ) where
  -- All that was queued went out; or the socket would block, S_WRITING is on, and what went out and
  -- what is still queued are what went out before and what was queued; or a send failed.
  abbrev pub Flushed : Chunks → Peer K → ℤ × Chunks × Peer K → Type 0
  Flushed c p r =
      ((r.0 ≡ pos 0) × (r.1.ready_cks ≡ []) × (out r.2.kernel ≡ out p.kernel ++ pending c))
      ⊎ (((r.0 ≡ pos 0)
            × (r.2.writing ≡ true)
            × (out r.2.kernel ++ pending r.1 ≡ out p.kernel ++ pending c))
          ⊎ (r.0 ≡ negsuc 0))

  Refused-Flushed :
      (c : Chunks) (p : Peer K) (r : ℤ × Chunks × Peer K)
      → IsValid r.1
      → (f : Refused (write_pipe send) (λ q. out q.kernel) c p r)
      → Written send out (out f.before.kernel) (unread f.front) (r.0, r.2)
      → Flushed c p r
  Refused-Flushed c p r v f (inl (ret, o, w)) =
      let ready = subst (All IsReady) f.waits v.ready in
      let size = length-unread f.front ready.0.chunk in
      let none_left =
        not_positive-zero (length (unread f.front))
          (ap (λ z. leb_ℤ z (pos 0)) (sym ret) ∙ f.not_positive) in
      absurd (omega (arith, size, none_left, ready.0.waiting))
  Refused-Flushed c p r v f (inr (inl (n, ret, h, o, w))) =
      let n_is = not_positive-zero n (ap (λ z. leb_ℤ z (pos 0)) (sym ret) ∙ f.not_positive) in
      let same : out r.2.kernel ≡ out p.kernel ++ f.done =
        (o ∙ ap (λ i. out f.before.kernel ++ take i (unread f.front)) n_is)
        ∙ (append-nil (out f.before.kernel) ∙ f.sent_before) in
      inr (
        inl (
          ret ∙ ap pos n_is,
          w,
          ap (λ q. q ++ pending r.1) same
              ∙ (append_assoc (out p.kernel) f.done (pending r.1)
                  ∙ ap (◌++◌ (out p.kernel)) (sym f.split)),
        ))
  Refused-Flushed c p r v f (inr (inr ret)) = inr (inr ret)

  -- When send(2) takes a non-empty prefix of what it is handed or nothing, on a well-formed queue and
  -- with one unit of fuel more than it has bytes: _send_msg_to_collector returns and the queue stays
  -- well formed. Either it returns 0 with an empty queue and all bytes that were queued went out, in
  -- order; or it returns 0 with S_WRITING on, and what went out and what is still queued are together
  -- what was out before and what was queued; or it returns -1.
  pub send_msg_to_collector-Flushed :
      (fuel : ℕ) (c : Chunks) (p : Peer K)
      → Kernel send out
      → IsValid c
      → length (pending c) < fuel
      → (r : ℤ × Chunks × Peer K) × (send_msg_to_collector send fuel c p ≡ some r)
        × IsValid r.1
        × Flushed c p r
  unfolding send_msg_to_collector
  send_msg_to_collector-Flushed fuel c p law v h =
      let (r, run, (valid, d)) =
        drain_out_with_pipe-Drained (write_pipe send) (λ q. out q.kernel) fuel c p
          (write_pipe-Sends send out law) v h in
      (
        r,
        run,
        valid,
        elim d [
          | inl f ↦ inl (f.ret, f.none_left, f.all_sent)
          | inr f ↦ Refused-Flushed c p r valid f (
              subst (Written send out (out f.before.kernel) (unread f.front)) f.refusal
                (write_pipe-Written send out (unread f.front) f.before law))
        ],
      )
