-- ===== src/ConnectionPool/Submit/Framed.antt =====
-- What is queued for a span is one frame, as HandleMsgStream of a peer reads it.
use pinpoint_c_agent.Base.{
  ℕ, ◌+◌, ◌%◌, ◌^◌, ◌<◌, ◌≡◌, ◌≢◌, refl, ap, ◌∙◌, ◌⊎◌, inl, inr, Bool, true, false, Bool-cases,
  List, ◌++◌, Option, none, length, take_all, append_assoc, u32_mod, arith,
}
use pinpoint_c_agent.Cache.Chunk.Buffer.{Chunks, copy_data_into_chunks}
use pinpoint_c_agent.Cache.Chunk.Flow.{check_capacity}
use pinpoint_c_agent.Cache.Chunk.Valid.{IsValid, pending}
use pinpoint_c_agent.Cache.Chunk.Fifo.{Allocates}
use pinpoint_c_agent.Cache.Chunk.Queue.{copy_data_into_chunks-Outcome}
use pinpoint_c_agent.ConnectionPool.Frame.{header_size}
use pinpoint_c_agent.ConnectionPool.Frame.Bytes.{htonl, frame}
use pinpoint_c_agent.ConnectionPool.Submit.{req_update_span, copy_into_send_buffer}

-- malloc with memory left.
pub record Gives (malloc : ℕ → Option (List ℕ)) : Type 0 where
  pub sized : Allocates malloc
  pub given : (n : ℕ) → malloc n ≢ none

-- A copy with memory left queues all its bytes.
copy_data_into_chunks_given :
    (malloc : ℕ → Option (List ℕ)) (c : Chunks) (bytes : List ℕ)
    → Gives malloc
    → IsValid c
    → length bytes + 12 < 2 ^ 30
    → let r = copy_data_into_chunks malloc c bytes in
      IsValid r.1 × (pending r.1 ≡ pending c ++ bytes)
copy_data_into_chunks_given malloc c bytes g v fits =
    let (w, o) = copy_data_into_chunks-Outcome malloc c bytes g.sized v (omega arith) in
    (
      w,
      elim o [
        | inl (_, _, q, _) ↦ q
        | inr (inl (_, _, q, _)) ↦ q
        | inr (inr (_, e, _, _, _)) ↦ absurd (g.given _ e)
      ],
    )

-- From a well-formed buffer, with memory left, for a span of less than 2 ^ 30 - 12 bytes: either checkCapacity
-- refuses and nothing changes, or the answer is true, the write event is on, the buffer is well
-- formed, and exactly one frame, of the type of a span and with the span as its body, is queued at the end.
pub copy_into_send_buffer-frame :
    (malloc₁ malloc₂ : ℕ → Option (List ℕ)) (span : List ℕ) (c : Chunks) (writing : Bool)
    → Gives malloc₁
    → Gives malloc₂
    → IsValid c
    → length span + 12 < 2 ^ 30
    → let r = copy_into_send_buffer malloc₁ malloc₂ span c writing in
      ((check_capacity c (header_size + length span) ≡ false) × (r ≡ (false, c, writing)))
      ⊎ ((check_capacity c (header_size + length span) ≡ true)
          × (r.0 ≡ true)
          × (r.2 ≡ true)
          × IsValid r.1
          × (pending r.1 ≡ pending c ++ frame (record { kind = req_update_span; body = span })))
unfolding copy_into_send_buffer
copy_into_send_buffer-frame malloc₁ malloc₂ span c writing g₁ g₂ v fits =
    let size : length span % u32_mod ≡ length span = omega arith in
    let sum : (header_size + length span) % u32_mod ≡ header_size + length span = omega arith in
    let header = htonl req_update_span ++ htonl (length span) in
    let (v₁, q₁) = copy_data_into_chunks_given malloc₁ c header g₁ v (omega arith) in
    let c₁ = (copy_data_into_chunks malloc₁ c header).1 in
    let (v₂, q₂) = copy_data_into_chunks_given malloc₂ c₁ span g₂ v₁ fits in
    rw (size, sum, take_all (length span) span (omega arith))
      (elim (Bool-cases (check_capacity c (header_size + length span))) [
        | inr full ↦ rw full (inl (refl, refl))
        | inl room ↦ rw room (
            inr (
              refl,
              refl,
              refl,
              v₂,
              q₂ ∙ (ap (λ q. q ++ span) q₁ ∙ append_assoc (pending c) header span),
            ))
      ])
