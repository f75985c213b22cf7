-- ===== src/ConnectionPool/Spans/Sound.antt =====
-- Queueing a span and taking a connection from the pool keep all connections sound.
use pinpoint_c_agent.Base.{
  ℕ, ◌+◌, ◌%◌, ◌^◌, ◌≤◌, ◌<◌, ◌≡◌, refl, ap, inl, inr, Bool-cases, List, [], ◌∷◌, ◌++◌, Option, ℤ,
  length, length-append, length-take, take, u32_mod, arith,
}
use pinpoint_c_agent.Cache.Chunk.Buffer.{Chunks, copy_data_into_chunks}
use pinpoint_c_agent.Cache.Chunk.Flow.{check_capacity}
use pinpoint_c_agent.Cache.Chunk.Valid.{pending, IsValid, All}
use pinpoint_c_agent.Cache.Chunk.Fifo.{Allocates}
use pinpoint_c_agent.Cache.Chunk.Queue.{copy_data_into_chunks-Outcome}
use pinpoint_c_agent.ConnectionPool.Frame.{header_size}
use pinpoint_c_agent.ConnectionPool.Frame.Bytes.{htonl}
use pinpoint_c_agent.ConnectionPool.Submit.{req_update_span, copy_into_send_buffer}
use pinpoint_c_agent.ConnectionPool.Trans.{
  TransLayer, new_trans_layer, reg_peer_msg_callback, submit,
}
use pinpoint_c_agent.ConnectionPool.Sound.{IsSound, new_trans_layer-IsSound}
use pinpoint_c_agent.ConnectionPool.Spans.{SpanConnectionPool, register_all, create_connection, get}

length-htonl : (n : ℕ) → length (htonl n) ≡ 4
length-htonl n = refl

-- A copy keeps the buffer well formed, and queues no more than it is given.
copy_grows :
    (malloc : ℕ → Option (List ℕ)) (c : Chunks) (bytes : List ℕ)
    → Allocates malloc
    → IsValid c
    → length bytes + 12 < 2 ^ 30
    → let c' = (copy_data_into_chunks malloc c bytes).1 in
      IsValid c' × (length (pending c') ≤ length (pending c) + length bytes)
copy_grows malloc c bytes a v fits =
    let (w, o) = copy_data_into_chunks-Outcome malloc c bytes a v (omega arith) in
    (
      w,
      elim o [
        | inl (_, _, q, _) ↦ omega (arith, ap length q, length-append (pending c) bytes)
        | inr (inl (_, _, q, _)) ↦ omega (arith, ap length q, length-append (pending c) bytes)
        | inr (inr (_, _, _, q, _)) ↦ by_prefix _ q
      ],
    )
  where
    by_prefix :
        (n : ℕ)
        → pending (copy_data_into_chunks malloc c bytes).1 ≡ pending c ++ take n bytes
        → length (pending (copy_data_into_chunks malloc c bytes).1)
          ≤ length (pending c) + length bytes
    by_prefix n q =
        omega (arith, ap length q, length-append (pending c) (take n bytes), length-take n bytes)

module _ {S : Type 0} where
  -- The bytes that a connection has queued.
  abbrev pub queued : TransLayer S → ℕ
  queued t = length (pending t.chunks)

  -- A span that is queued, or refused, or queued in part where memory runs out, leaves a sound
  -- connection.
  pub submit-IsSound :
      (malloc₁ malloc₂ : ℕ → Option (List ℕ)) (span : List ℕ) (t : TransLayer S)
      → Allocates malloc₁
      → Allocates malloc₂
      → IsSound t
      → length span + 12 < 2 ^ 30
      → let t' = (submit malloc₁ malloc₂ span t).1 in
        IsSound t' × (queued t' ≤ queued t + (header_size + length span))
  unfolding submit copy_into_send_buffer
  submit-IsSound malloc₁ malloc₂ span t a₁ a₂ v fits =
      let header = htonl req_update_span ++ htonl (length span % u32_mod) in
      let body = take (length span % u32_mod) span in
      let small = length-take (length span % u32_mod) span in
      let size = length-append (htonl req_update_span) (htonl (length span % u32_mod)) in
      let four = length-htonl req_update_span in
      let four' = length-htonl (length span % u32_mod) in
      let (v₁, g₁) =
        copy_grows malloc₁ t.chunks header a₁ v.queue (omega (arith, size, four, four')) in
      let (v₂, g₂) =
        copy_grows malloc₂ (copy_data_into_chunks malloc₁ t.chunks header).1 body a₂ v₁
          (omega (arith, small, fits)) in
      elim (Bool-cases (check_capacity t.chunks ((header_size + length span) % u32_mod))) [
        | inl room ↦ rw room (
          record { queue = v₂; room = v.room; fresh = v.fresh },
          omega (arith, g₁, g₂, size, four, four', small),
        )
        | inr full ↦
            rw full (record { queue = v.queue; room = v.room; fresh = v.fresh }, omega arith)
      ]

  -- Every connection that waits in the pool is sound and has less than `limit` bytes queued.
  abbrev pub AllSound : ℕ → SpanConnectionPool S → Type 0
  AllSound limit p = All (λ t. IsSound t × (queued t < limit)) p.stack

  register_all-Same :
      (routes : List (ℕ × (List ℕ → S → ℤ × S))) (t : TransLayer S)
      → IsSound t
      → IsSound (register_all routes t) × (queued (register_all routes t) ≡ queued t)
  unfolding register_all reg_peer_msg_callback
  register_all-Same [] t v = (v, refl)
  register_all-Same ((type, f) ∷ rest) t v =
      register_all-Same rest (reg_peer_msg_callback type f t)
        (record { queue = v.queue; room = v.room; fresh = v.fresh })

  -- The connection that get hands out is sound, and so are those that stay in the pool.
  pub get-Sound :
      (limit : ℕ) (p : SpanConnectionPool S)
      → 0 < limit
      → AllSound limit p
      → IsSound (get p).0 × (queued (get p).0 < limit) × AllSound limit (get p).1
  unfolding get create_connection new_trans_layer
  get-Sound limit p h all = by_stack p.stack all
    where
      made : IsSound (create_connection p).0 × (queued (create_connection p).0 ≡ 0)
      made =
          register_all-Same p.route_vec (new_trans_layer p.co_host)
            (new_trans_layer-IsSound p.co_host)

      by_stack :
          (stack : List (TransLayer S))
          → All (λ t. IsSound t × (queued t < limit)) stack
          → let r = elim stack as (λ s. TransLayer S × SpanConnectionPool S) [
            | [] ↦ create_connection (record p { stack = stack })
            | t ∷ rest ↦ (t, record p { stack = rest })
          ] in
            IsSound r.0 × (queued r.0 < limit) × AllSound limit r.1
      by_stack [] all = (made.0, omega (arith, made.1), tt)
      by_stack (t ∷ rest) (v, all) = (v.0, v.1, all)

  pub All-weaker :
      (n m : ℕ) (ts : List (TransLayer S))
      → n ≤ m
      → All (λ t. IsSound t × (queued t < n)) ts
      → All (λ t. IsSound t × (queued t < m)) ts
  All-weaker n m [] h all = tt
  All-weaker n m (t ∷ ts) h (v, all) = ((v.0, omega (arith, v.1)), All-weaker n m ts h all)
