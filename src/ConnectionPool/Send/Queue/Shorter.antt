-- ===== src/ConnectionPool/Send/Queue/Shorter.antt =====
-- Sending makes the send queue no longer.
use pinpoint_c_agent.Base.{
  ℕ, ◌≤◌, ◌<◌, ◌≡◌, sym, ap, ◌∙◌, subst, ◌⊎◌, inl, inr, List, some, ℤ, length, length-append, arith,
  some-injective,
}
use pinpoint_c_agent.Cache.Chunk.Buffer.{Chunks}
use pinpoint_c_agent.Cache.Chunk.Valid.{pending, unread_all, IsValid}
use pinpoint_c_agent.Cache.Chunk.Pipe.{Finished, Refused, drain_out_with_pipe-Drained}
use pinpoint_c_agent.ConnectionPool.Send.{SendResult, Peer, write_pipe, send_msg_to_collector}
use pinpoint_c_agent.ConnectionPool.Send.Write.{Kernel, write_pipe-Sends}

module _ {K : Type 0} (send : List ℕ → K → SendResult × K) (out : K → List ℕ) where
  drained_shorter :
      (c : Chunks) (p : Peer K) (r : ℤ × Chunks × Peer K)
      → Finished (write_pipe send) (λ q. out q.kernel) c p r
        ⊎ Refused (write_pipe send) (λ q. out q.kernel) c p r
      → length (pending r.1) ≤ length (pending c)
  drained_shorter c p r (inl f) = omega (arith, ap (λ cks. length (unread_all cks)) f.none_left)
  drained_shorter c p r (inr f) =
      omega (arith, ap length f.split, length-append f.done (pending r.1))

  pub send_msg_to_collector-shorter :
      (fuel : ℕ) (c : Chunks) (p : Peer K)
      → Kernel send out
      → IsValid c
      → length (pending c) < fuel
      → (r : ℤ × Chunks × Peer K) → send_msg_to_collector send fuel c p ≡ some r
      → length (pending r.1) ≤ length (pending c)
  unfolding send_msg_to_collector
  send_msg_to_collector-shorter fuel c p law v h r e =
      let (r', run, (valid, d)) =
        drain_out_with_pipe-Drained (write_pipe send) (λ q. out q.kernel) fuel c p
          (write_pipe-Sends send out law) v h in
      let same : r' ≡ r = some-injective (sym run ∙ e) in
      subst (λ q. length (pending q.1) ≤ length (pending c)) same (drained_shorter c p r' d)
