-- ===== src/Cache/Chunk/Fifo.antt =====
-- copyDataIntoChunks puts the bytes at the end of the queue.
use pinpoint_c_agent.Base.{
  ℕ, ◌+◌, ◌-◌, ◌^◌, ◌≤◌, ◌<◌, ◌≡◌, refl, ap, sym, ◌∙◌, ◌⊎◌, inl, inr, List, [], ◌∷◌, ◌++◌, Option,
  none, some, arith, ℤ, pos, negsuc, add32, sub32, slice, write_at, slice-write_at, length-write_at,
  slice_empty, take, drop, length, length-drop, lt→ltb,
}
use pinpoint_c_agent.Cache.Chunk.Buffer.{
  DataChunk, Chunks, header_size, copy_data_into_new_chunk, with_new_chunk, ck_ceil_to_k,
  size_of_int,
}
use pinpoint_c_agent.Cache.Chunk.Ceil.{ck_ceil_to_k_bounds}
use pinpoint_c_agent.Cache.Chunk.Valid.{
  unread, pending, IsReady, All-append, allocated-append, IsValid, unread_all-append_one,
}

-- malloc(n) returns a block of n bytes, or NULL.
abbrev pub Allocates : (ℕ → Option (List ℕ)) → Type 0
Allocates malloc = (n : ℕ) (block : List ℕ) → malloc n ≡ some block → length block ≡ n

-- The chunk that is made for `bytes` in the memory `block`.
abbrev fresh : ℕ → List ℕ → List ℕ → DataChunk
fresh mem_size block bytes = record {
  block_size = sub32 mem_size header_size;
  l_ofs = 0;
  r_ofs = length bytes;
  buf = write_at (drop header_size block) 0 bytes;
}

abbrev with_fresh : Chunks → ℕ → List ℕ → List ℕ → Chunks
with_fresh c mem_size block bytes = record c {
  ready_cks = c.ready_cks ++ fresh mem_size block bytes ∷ [];
  ck_alloc_size = add32 c.ck_alloc_size mem_size;
}

fresh-IsReady :
    (mem_size : ℕ) (block bytes : List ℕ)
    → header_size + length bytes < mem_size
    → mem_size < 2 ^ 31
    → length block ≡ mem_size
    → 0 < length bytes
    → IsReady (fresh mem_size block bytes)
fresh-IsReady mem_size block bytes h k l p =
    let d = length-drop header_size block in
    record {
      chunk = record {
        ordered = omega arith;
        within = omega arith;
        sized =
            length-write_at (drop header_size block) 0 bytes (omega (arith, d)) ∙ omega (arith, d);
        small = omega arith;
      };
      waiting = omega arith;
    }

fresh-unread :
    (mem_size : ℕ) (block bytes : List ℕ)
    → header_size + length bytes < length block
    → unread (fresh mem_size block bytes) ≡ bytes
fresh-unread mem_size block bytes h =
    let e : length bytes ≡ 0 + length bytes = omega arith in
    ap (λ r. slice 0 r (write_at (drop header_size block) 0 bytes)) e
    ∙ (slice-write_at (drop header_size block) 0 0 bytes (omega arith)
          (omega (arith, length-drop header_size block))
        ∙ ap (λ s. s ++ bytes) (slice_empty 0 (drop header_size block)))

-- The size of the block that a request for `n` more bytes makes.
abbrev pub block_for : ℕ → ℕ
block_for n = ck_ceil_to_k 1024 (header_size + n)

-- The three outcomes of a copy: the buffer had the room, it grew by one block, or it had to grow and
-- the allocation failed; then the bytes that did fit stay queued.
abbrev pub Outcome : (ℕ → Option (List ℕ)) → Chunks → List ℕ → ℕ → ℤ × Chunks → Type 0
Outcome malloc c bytes s (ret, c') =
    ((length bytes ≤ s)
      × (ret ≡ pos 0)
      × (pending c' ≡ pending c ++ bytes)
      × (c'.ck_alloc_size ≡ c.ck_alloc_size))
    ⊎ ((s < length bytes)
        × (ret ≡ pos 0)
        × (pending c' ≡ pending c ++ bytes)
        × (c'.ck_alloc_size ≡ add32 c.ck_alloc_size (block_for (length bytes - s))))
    ⊎ ((s < length bytes)
        × (malloc (block_for (length bytes - s)) ≡ none)
        × (ret ≡ negsuc 0)
        × (pending c' ≡ pending c ++ take s bytes)
        × (c'.ck_alloc_size ≡ c.ck_alloc_size))

with_fresh-IsValid :
    (c : Chunks) (mem_size : ℕ) (block bytes : List ℕ)
    → IsValid c
    → IsReady (fresh mem_size block bytes)
    → header_size ≤ mem_size
    → mem_size < 2 ^ 31
    → IsValid (with_fresh c mem_size block bytes)
with_fresh-IsValid c mem_size block bytes v new h k = record {
  ready = All-append IsReady c.ready_cks (fresh mem_size block bytes ∷ []) v.ready (new, tt);
  free = v.free;
  counted = record {
    alloc =
        omega
          (arith, v.counted.alloc, allocated-append c.ready_cks (fresh mem_size block bytes ∷ []));
    capacity = v.counted.capacity;
  };
  least_block = v.least_block;
}

pub new_chunk_lem :
    (malloc : ℕ → Option (List ℕ)) (c : Chunks) (bytes : List ℕ) (m : ℕ)
    → IsValid c
    → header_size + length bytes < 2 ^ 30
    → m ≡ block_for (length bytes)
    → copy_data_into_new_chunk malloc c bytes ≡ with_new_chunk c m bytes (malloc m)
unfolding copy_data_into_new_chunk
new_chunk_lem malloc c bytes m v h e =
    let b = ck_ceil_to_k_bounds 1024 (header_size + length bytes) (omega arith) (omega arith) h in
    let len : add32 header_size (length bytes) ≡ header_size + length bytes = omega arith in
    let size : ck_ceil_to_k c.threshold (add32 header_size (length bytes)) ≡ m =
      ap (λ t. ck_ceil_to_k t (add32 header_size (length bytes))) v.least_block
      ∙ (ap (ck_ceil_to_k 1024) len ∙ sym e) in
    let int : size_of_int m ≡ m = rw (lt→ltb m (2 ^ 31) (omega (arith, b.2))) in
    ap (λ k. with_new_chunk c k bytes (malloc (size_of_int k))) size
    ∙ ap (λ k. with_new_chunk c m bytes (malloc k)) int

-- The last resort: a new chunk for bytes that have no room.
pub new_chunk_outcome :
    (malloc : ℕ → Option (List ℕ)) (c : Chunks) (bytes : List ℕ) (m : ℕ) (o : Option (List ℕ))
    → Allocates malloc
    → IsValid c
    → 0 < length bytes
    → header_size + length bytes < 2 ^ 30
    → m ≡ block_for (length bytes)
    → malloc m ≡ o
    → let r = with_new_chunk c m bytes o in
      IsValid r.1
      × (((o ≡ none) × (r ≡ (negsuc 0, c)))
          ⊎ ((r.0 ≡ pos 0)
              × (pending r.1 ≡ pending c ++ bytes)
              × (r.1.ck_alloc_size ≡ add32 c.ck_alloc_size m)))
unfolding with_new_chunk
new_chunk_outcome malloc c bytes m none a v p h e n = (v, inl (refl, refl))
new_chunk_outcome malloc c bytes m (some block) a v p h e n =
    let b = ck_ceil_to_k_bounds 1024 (header_size + length bytes) (omega arith) (omega arith) h in
    let l : length block ≡ m = a m block n in
    let new = fresh-IsReady m block bytes (omega (arith, b.0)) (omega (arith, b.2)) l p in
    (
      with_fresh-IsValid c m block bytes v new (omega (arith, b.0)) (omega (arith, b.2)),
      inr (
        refl,
        unread_all-append_one c.ready_cks (fresh m block bytes)
            ∙ ap (◌++◌ (pending c)) (fresh-unread m block bytes (omega (arith, b.0))),
        refl,
      ),
    )
