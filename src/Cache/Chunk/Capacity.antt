-- ===== src/Cache/Chunk/Capacity.antt =====
-- The constructor, and checkCapacity: what it admits, and what it turns away although it would fit.
use pinpoint_c_agent.Base.{
  ltb, ltb→lt, ℕ, ◌+◌, ◌-◌, ◌^◌, ◌≤◌, ◌<◌, ◌==◌, ◌≡◌, refl, ◌⊎◌, inl, inr, List, [], ◌∷◌, Option,
  none, some, arith, length, true, Bool-cases, Option-cases, subst, ap, sub32, leb, u32_mod,
}
use pinpoint_c_agent.Cache.Chunk.Buffer.{
  DataChunk, Chunks, back, header_size, new_chunks, empty_chunks, copy_data_into_chunks,
}
use pinpoint_c_agent.Cache.Chunk.Flow.{use_existing_chunk, check_capacity}
use pinpoint_c_agent.Cache.Chunk.Ceil.{ck_ceil_to_k_bounds}
use pinpoint_c_agent.Cache.Chunk.Valid.{
  pending, IsReady, All, IsValid, allocated, allocated-append, blocks, space, back-EndsIn,
}
use pinpoint_c_agent.Cache.Chunk.Copy.{All-last}
use pinpoint_c_agent.Cache.Chunk.Fifo.{Allocates}
use pinpoint_c_agent.Cache.Chunk.Queue.{copy_data_into_chunks-Outcome}

pub empty_chunks-IsValid :
    (max_size resident_size : ℕ) → IsValid (empty_chunks max_size resident_size)
empty_chunks-IsValid max_size resident_size = record {
  ready = tt;
  free = tt;
  counted = record { alloc = refl; capacity = refl };
  least_block = refl;
}

-- The constructor refuses when the maximum is below the resident size; else, with the resident size
-- at most the maximum, the buffer that it makes is well formed and empty.
pub new_chunks-IsValid :
    (max_size resident_size : ℕ)
    → ((max_size < resident_size) × (new_chunks max_size resident_size ≡ none))
      ⊎ ((resident_size ≤ max_size)
          × (c : Chunks) × (new_chunks max_size resident_size ≡ some c)
          × IsValid c
          × (pending c ≡ []))
unfolding new_chunks
new_chunks-IsValid max_size resident_size = elim (Bool-cases (ltb max_size resident_size)) [
  | inl low ↦ inl (ltb→lt max_size resident_size low, rw low)
  | inr high ↦ inr (
    ground (arith, high),
    empty_chunks max_size resident_size,
    rw high,
    empty_chunks-IsValid max_size resident_size,
    refl,
  )
]

-- The memory in use is below 4 GiB, so that the counters are the true sizes.
abbrev pub IsExact : Chunks → Type 0
IsExact c = allocated c.ready_cks + allocated c.free_cks < u32_mod

blocks-le : (cks : List DataChunk) → blocks cks ≤ allocated cks
blocks-le [] = omega arith
blocks-le (ck ∷ cks) = omega (arith, blocks-le cks)

last-IsReady : (c : Chunks) (ck : DataChunk) → IsValid c → back c.ready_cks ≡ some ck → IsReady ck
last-IsReady c ck v e =
    let ends = back-EndsIn c.ready_cks ck e in
    (All-last IsReady ends.front ck (subst (All IsReady) ends.split v.ready)).1

last-allocated :
    (c : Chunks) (ck : DataChunk)
    → back c.ready_cks ≡ some ck
    → ck.block_size + header_size ≤ allocated c.ready_cks
last-allocated c ck e =
    let ends = back-EndsIn c.ready_cks ck e in
    omega (arith, ap allocated ends.split, allocated-append ends.front (ck ∷ []))

-- Behind a ready chunk the test holds only for data that fills that chunk exactly: where the chunk
-- has more room than the data needs, the difference wraps around and the answer is no.
pub use_existing_chunk_exact :
    (c : Chunks) (ck : DataChunk) (len : ℕ)
    → IsValid c
    → IsExact c
    → back c.ready_cks ≡ some ck
    → use_existing_chunk c len ≡ (len == ck.block_size - ck.r_ofs)
unfolding use_existing_chunk
use_existing_chunk_exact c ck len v x e =
    let ready = last-IsReady c ck v e in
    let room : sub32 ck.block_size ck.r_ofs ≡ ck.block_size - ck.r_ofs =
      omega (arith, ready.within, ready.small) in
    rw (e, use_existing_chunk)
      (rw room (
        ground
          (arith, v.counted.capacity, blocks-le c.free_cks, last-allocated c ck e, ready.within)))

-- With no ready chunk the test compares with the free room.
use_existing_chunk_free :
    (c : Chunks) (len : ℕ)
    → IsValid c
    → IsExact c
    → back c.ready_cks ≡ none
    → use_existing_chunk c len ≡ leb len (blocks c.free_cks)
unfolding use_existing_chunk
use_existing_chunk_free c len v x e =
    let cap : c.ck_free_ck_capacity ≡ blocks c.free_cks =
      omega (arith, v.counted.capacity, blocks-le c.free_cks) in
    rw (e, use_existing_chunk) (ap (leb len) cap)

-- So data that is admitted without regard to the limit has room.
use_existing_chunk-space :
    (c : Chunks) (len : ℕ) → IsValid c → IsExact c → use_existing_chunk c len ≡ true → len ≤ space c
use_existing_chunk-space c len v x h = elim (Option-cases (back c.ready_cks)) [
  | inl e ↦ rw e (ground (arith, use_existing_chunk_free c len v x e))
  | inr (ck, e) ↦ rw e (ground (arith, use_existing_chunk_exact c ck len v x e))
]

-- The bound for one admitted copy: with the limit and the data below 2 ^ 30, a buffer within its
-- limit, and `checkCapacity` true, the allocated size after the copy is at most the limit and the
-- data and 1048 bytes. (The new block is rounded up, so the limit itself can be passed.)
pub check_capacity_bound :
    (malloc : ℕ → Option (List ℕ)) (c : Chunks) (bytes : List ℕ)
    → Allocates malloc
    → IsValid c
    → IsExact c
    → c.c_max_size < 2 ^ 30
    → header_size + length bytes < 2 ^ 30
    → c.ck_alloc_size ≤ c.c_max_size
    → check_capacity c (length bytes) ≡ true
    → (copy_data_into_chunks malloc c bytes).1.ck_alloc_size ≤ c.c_max_size + length bytes + 1048
unfolding check_capacity
check_capacity_bound malloc c bytes a v x m b l h =
    let n = length bytes - space c in
    let grown =
      ck_ceil_to_k_bounds 1024 (header_size + n) (omega arith) (omega arith) (omega arith) in
    elim (copy_data_into_chunks-Outcome malloc c bytes a v b).1 [
      | inl (_, _, _, s) ↦ omega arith
      | inr (inr (_, _, _, _, s)) ↦ omega arith
      | inr (inl (full, _, _, s)) ↦ elim (Bool-cases (use_existing_chunk c (length bytes))) [
        | inl fits ↦ absurd (omega (arith, use_existing_chunk-space c (length bytes) v x fits))
        | inr other ↦
            let limit : c.ck_alloc_size + length bytes ≤ c.c_max_size = ground arith in
            omega (arith, grown)
      ]
    ]
