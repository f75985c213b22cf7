-- ===== src/Cache/Chunk/Queue.antt =====
-- copyDataIntoChunks as a whole: a write to the end of a queue of bytes.
use pinpoint_c_agent.Base.{
  ℕ, ◌+◌, ◌-◌, ◌^◌, ◌≤◌, ◌<◌, ◌==◌, ◌≡◌, refl, ap, sym, ◌∙◌, inl, inr, List, [], ◌++◌, Option,
  append-nil, arith, take, drop, length, length-append, Bool-cases, ==_iff, drop-append_length,
  take-append_length, length-zero, append_assoc, add32,
}
use pinpoint_c_agent.Cache.Chunk.Buffer.{
  Chunks, header_size, back, copy_data_into_ready_ck, copy_data_into_free_ck,
  copy_data_into_new_chunk, copy_data_into_chunks,
}
use pinpoint_c_agent.Cache.Chunk.Valid.{pending, blocks, IsValid, room_of, space}
use pinpoint_c_agent.Cache.Chunk.Copy.{Stores, copy_data_into_ready_ck-Stores}
use pinpoint_c_agent.Cache.Chunk.Reuse.{Stores-after, copy_data_into_free_ck-Stores}
use pinpoint_c_agent.Cache.Chunk.Fifo.{
  Allocates, Outcome, block_for, new_chunk_lem, new_chunk_outcome,
}

-- Where nothing is left, all was stored.
Stores-all :
    (c : Chunks) (bytes : List ℕ) (s : ℕ) (r : ℕ × Chunks)
    → Stores c bytes s r
    → r.0 ≡ 0
    → (length bytes ≤ s) × (pending r.1 ≡ pending c ++ bytes)
Stores-all c bytes s r h e =
    let gone : h.left ≡ [] = length-zero h.left (omega (arith, h.rest)) in
    let all : h.stored ≡ bytes = sym (h.split ∙ (ap (◌++◌ h.stored) gone ∙ append-nil h.stored)) in
    (omega (arith, h.amount), h.queued ∙ ap (◌++◌ (pending c)) all)

-- Where something is left, all the room was used.
Stores-part :
    (c : Chunks) (bytes : List ℕ) (s : ℕ) (r : ℕ × Chunks) (h : Stores c bytes s r)
    → 0 < r.0
    → (s < length bytes)
      × (h.stored ≡ take s bytes)
      × (length h.left ≡ length bytes - s)
      × (drop (length bytes - r.0) bytes ≡ h.left)
Stores-part c bytes s r h p =
    let sum : length bytes ≡ length h.stored + length h.left =
      ap length h.split ∙ length-append h.stored h.left in
    let n : length h.stored ≡ s = omega (arith, h.amount, h.rest) in
    let m : length h.stored ≡ length bytes - r.0 = omega (arith, h.rest) in
    (
      omega (arith, h.amount),
      sym (ap (take s) h.split ∙ take-append_length s h.stored h.left n),
      omega (arith, h.amount, h.rest),
      ap (drop (length bytes - r.0)) h.split
          ∙ drop-append_length (length bytes - r.0) h.stored h.left m,
    )

ready-free_cks :
    (c : Chunks) (bytes : List ℕ) → (copy_data_into_ready_ck c bytes).1.free_cks ≡ c.free_cks
unfolding copy_data_into_ready_ck
ready-free_cks c bytes = ground arith

-- The ready chunk and then the free chunks, where the ready chunk was not enough.
both-Stores :
    (c : Chunks) (bytes : List ℕ)
    → IsValid c
    → (h : Stores c bytes (room_of (back c.ready_cks)) (copy_data_into_ready_ck c bytes))
    → let r = copy_data_into_free_ck (copy_data_into_ready_ck c bytes).1 h.left in
      (s : Stores c bytes (space c) r) × (0 < r.0 → drop (length h.left - r.0) h.left ≡ s.left)
unfolding Stores-after
both-Stores c bytes v h =
    let c₁ = (copy_data_into_ready_ck c bytes).1 in
    let rest = copy_data_into_free_ck-Stores c₁ h.left h.valid in
    let same : blocks c₁.free_cks ≡ blocks c.free_cks = ap blocks (ready-free_cks c bytes) in
    (
      Stores-after c c₁ bytes h.left h.stored (room_of (back c.ready_cks)) (blocks c.free_cks) _ _
          same h.split (omega (arith, h.amount, h.rest)) h.queued h.same_alloc rest,
      λ p. (Stores-part c₁ h.left _ _ rest p).3,
    )

-- The last step, from the state and the count that the free chunks leave.
last_step :
    (malloc : ℕ → Option (List ℕ)) (c : Chunks) (bytes : List ℕ) (r : ℕ × Chunks)
    → Allocates malloc
    → header_size + length bytes < 2 ^ 30
    → (h : Stores c bytes (space c) r) → 0 < r.0
    → let q = copy_data_into_new_chunk malloc r.1 h.left in
      IsValid q.1 × Outcome malloc c bytes (space c) q
last_step malloc c bytes r a fits h p =
    let part = Stores-part c bytes (space c) r h p in
    let m = block_for (length bytes - space c) in
    let e : m ≡ block_for (length h.left) = sym (ap block_for part.2) in
    let room : header_size + length h.left < 2 ^ 30 = omega (arith, part.2) in
    let (v, o) =
      new_chunk_outcome malloc r.1 h.left m (malloc m) a h.valid (omega (arith, h.rest)) room e
        refl in
    rw (new_chunk_lem malloc r.1 h.left m h.valid room e) (
      v,
      elim o [
        | inl (n, q) ↦ inr (
            inr (
              part.0,
              n,
              ap (λ t. t.0) q,
              ap (λ t. pending t.1) q ∙ (h.queued ∙ ap (◌++◌ (pending c)) part.1),
              ap (λ t. t.1.ck_alloc_size) q ∙ h.same_alloc,
            ))
        | inr (z, q, s) ↦ inr (
            inl (
              part.0,
              z,
              q
                  ∙ (ap (λ p. p ++ h.left) h.queued
                      ∙ (append_assoc (pending c) h.stored h.left
                          ∙ ap (◌++◌ (pending c)) (sym h.split))),
              s ∙ ap (λ k. add32 k m) h.same_alloc,
            ))
      ],
    )

-- From a well-formed buffer, with an allocator that returns what it is asked for, and for data of
-- less than 2 ^ 30 - 12 bytes: the buffer stays well formed, and the copy has one of three outcomes.
-- Where the last ready chunk and the free chunks have room, all bytes are queued at the end, in
-- order, and nothing is allocated. Otherwise one block is allocated for the bytes that do not fit,
-- and all are queued. Where that allocation fails the call returns -1, and exactly the bytes that
-- did fit are queued.
pub copy_data_into_chunks-Outcome :
    (malloc : ℕ → Option (List ℕ)) (c : Chunks) (bytes : List ℕ)
    → Allocates malloc
    → IsValid c
    → header_size + length bytes < 2 ^ 30
    → let r = copy_data_into_chunks malloc c bytes in
      IsValid r.1 × Outcome malloc c bytes (space c) r
unfolding copy_data_into_chunks
copy_data_into_chunks-Outcome malloc c bytes a v fits =
    let h = copy_data_into_ready_ck-Stores c bytes v in
    elim (Bool-cases ((copy_data_into_ready_ck c bytes).0 == 0)) [
      | inl done ↦
          let (n, q) = Stores-all c bytes _ _ h ((==_iff _ _).0 done) in
          rw done (h.valid, inl (omega arith, refl, q, h.same_alloc))
      | inr more ↦
          let part = Stores-part c bytes _ _ h (ground arith) in
          let (s, same) = both-Stores c bytes v h in
          rw (more, part.3)
            (elim (Bool-cases
              ((copy_data_into_free_ck (copy_data_into_ready_ck c bytes).1 h.left).0 == 0)) [
                | inl done ↦
                    let (n, q) = Stores-all c bytes _ _ s ((==_iff _ _).0 done) in
                    rw done (s.valid, inl (n, refl, q, s.same_alloc))
                | inr again ↦
                    rw (again, same (ground arith))
                      (last_step malloc c bytes _ a fits s (ground arith))
              ])
    ]
