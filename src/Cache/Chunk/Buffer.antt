-- ===== src/Cache/Chunk/Buffer.antt =====
-- Chunk.h and the first half of Chunk.cpp: the state of the send buffer, a list of chunks that wait
-- to be sent and a list of chunks for reuse, and the operations that copy data in. `std::list` is a
-- list with its front first, the memory of a chunk is a list of bytes, and `malloc` is the outcome
-- of the one allocation that a call may make: the old contents of the block, `none` for NULL.
use pinpoint_c_agent.Base.{
  ℕ, zero, suc, ◌+◌, ◌-◌, ◌/◌, ◌^◌, bit_and, not, ◌&&◌, List, [], ◌∷◌, ◌++◌, Option, none, some,
  ltb, leb, ◌==◌, if◌then◌else◌, ℤ, pos, negsuc, add32, sub32, shl32, length, take, drop, write_at,
}

pub record DataChunk : Type 0 where
  pub block_size : ℕ
  pub l_ofs : ℕ
  pub r_ofs : ℕ
  pub buf : List ℕ

pub record Chunks : Type 0 where
  pub ready_cks : List DataChunk
  pub free_cks : List DataChunk
  pub c_resident_size : ℕ
  pub c_max_size : ℕ
  pub threshold : ℕ
  pub ck_alloc_size : ℕ
  pub ck_free_ck_capacity : ℕ

-- sizeof(DataChunk): three uint32_t.
abbrev pub header_size : ℕ
header_size = 12

abbrev pub empty_chunks : ℕ → ℕ → Chunks
empty_chunks max_size resident_size = record {
  ready_cks = [];
  free_cks = [];
  c_resident_size = resident_size;
  c_max_size = max_size;
  threshold = 1024;
  ck_alloc_size = 0;
  ck_free_ck_capacity = 0;
}

-- The constructor; `none` is its std::invalid_argument.
unfoldable pub new_chunks : ℕ → ℕ → Option Chunks
new_chunks max_size resident_size =
    if ltb max_size resident_size then none else some (empty_chunks max_size resident_size)

abbrev pub back {ℓ} : {A : Type ℓ} → List A → Option A
back [] = none
back (x ∷ []) = some x
back (x ∷ y ∷ xs) = back (y ∷ xs)

-- The list with its last element replaced, as a write through a pointer to it.
abbrev pub set_back {ℓ} : {A : Type ℓ} → List A → A → List A
set_back [] a = []
set_back (x ∷ []) a = a ∷ []
set_back (x ∷ y ∷ xs) a = x ∷ set_back (y ∷ xs) a

-- memcpy to the write offset, and the offset moved.
unfoldable pub append_bytes : DataChunk → List ℕ → DataChunk
append_bytes ck bytes = record ck {
  buf = write_at ck.buf ck.r_ofs bytes;
  r_ofs = add32 ck.r_ofs (length bytes);
}

-- The copy that both loops below make into one chunk: the chunk, and the bytes that are left.
unfoldable pub fill : DataChunk → List ℕ → DataChunk × List ℕ
unfolding append_bytes
fill ck bytes =
    let capacity = sub32 ck.block_size ck.r_ofs in
    if leb (length bytes) capacity
    then (append_bytes ck bytes, [])
    else (if ltb 0 capacity
        then (append_bytes ck (take capacity bytes), drop capacity bytes)
        else (ck, bytes))

-- The number that comes back is the count of bytes not yet stored.
unfoldable pub copy_data_into_ready_ck : Chunks → List ℕ → ℕ × Chunks
unfolding fill
copy_data_into_ready_ck c bytes = elim (back c.ready_cks) [
  | none ↦ (length bytes, c)
  | some ck ↦
      let (ck', left) = fill ck bytes in
      (length left, record c { ready_cks = set_back c.ready_cks ck' })
]

unfoldable pub free_loop : List DataChunk → Chunks → List ℕ → ℕ × Chunks
unfolding fill
free_loop [] c bytes = (length bytes, c)
free_loop (ck ∷ rest) c bytes =
    let (ck', left) = fill ck bytes in
    let next =
      free_loop rest
        (record c {
          free_cks = rest;
          ready_cks = c.ready_cks ++ ck' ∷ [];
          ck_free_ck_capacity = sub32 c.ck_free_ck_capacity ck.block_size;
        })
        left in
    if length bytes == 0 then (0, c) else next

unfoldable pub copy_data_into_free_ck : Chunks → List ℕ → ℕ × Chunks
unfolding free_loop
copy_data_into_free_ck c bytes = free_loop c.free_cks c bytes

-- while (k && !(k & i)) k >>= 1, with fuel.
unfoldable pub top_bit : ℕ → ℕ → ℕ → ℕ
top_bit zero k i = k
top_bit (suc fuel) k i =
    let rest = top_bit fuel (k / 2) i in if not (k == 0) && (bit_and k i == 0) then rest else k

-- 33 rounds take 0x80000000 to 0.
unfoldable pub ck_ceil_to_k : ℕ → ℕ → ℕ
unfolding top_bit
ck_ceil_to_k threshold i = if ltb i threshold then threshold else shl32 (top_bit 33 0x80000000 i) 1

-- An int made from a uint32_t, passed on as a size_t.
abbrev pub size_of_int : ℕ → ℕ
size_of_int w = if ltb w (2 ^ 31) then w else w + (2 ^ 64 - 2 ^ 32)

-- The new chunk in what malloc returned, with the bytes copied in.
unfoldable pub with_new_chunk : Chunks → ℕ → List ℕ → Option (List ℕ) → ℤ × Chunks
with_new_chunk c mem_size bytes none = (negsuc 0, c)
with_new_chunk c mem_size bytes (some block) = (
  pos 0,
  record c {
    ready_cks =
        c.ready_cks
        ++ record {
          block_size = sub32 mem_size header_size;
          l_ofs = 0;
          r_ofs = length bytes;
          buf = write_at (drop header_size block) 0 bytes;
        }
          ∷ [];
    ck_alloc_size = add32 c.ck_alloc_size mem_size;
  },
)

unfoldable pub copy_data_into_new_chunk : (ℕ → Option (List ℕ)) → Chunks → List ℕ → ℤ × Chunks
unfolding ck_ceil_to_k with_new_chunk
copy_data_into_new_chunk malloc c bytes =
    let mem_size = ck_ceil_to_k c.threshold (add32 header_size (length bytes)) in
    with_new_chunk c mem_size bytes (malloc (size_of_int mem_size))

-- The ready chunk, then the free chunks, then a new one.
unfoldable pub copy_data_into_chunks : (ℕ → Option (List ℕ)) → Chunks → List ℕ → ℤ × Chunks
copy_data_into_chunks malloc c bytes =
    let (ret, c₁) = copy_data_into_ready_ck c bytes in
    if ret == 0
    then (pos 0, c₁)
    else (let left = drop (length bytes - ret) bytes in
        let (ret₂, c₂) = copy_data_into_free_ck c₁ left in
        if ret₂ == 0
        then (pos 0, c₂)
        else copy_data_into_new_chunk malloc c₂ (drop (length left - ret₂) left))
