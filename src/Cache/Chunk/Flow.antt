-- ===== src/Cache/Chunk/Flow.antt =====
-- The second half of Chunk.cpp: what takes data out and gives memory back. A drain calls the pipe
-- that it is given, which acts on a state of its own.
use pinpoint_c_agent.Base.{
  ℕ, zero, suc, Bool, true, false, not, ◌&&◌, List, [], ◌∷◌, ◌++◌, Option, none, some, ltb, leb,
  if◌then◌else◌, ℤ, pos, negsuc, eqb_ℤ, ltb_ℤ, pos_part, add32, sub32, length, take, drop,
}
use pinpoint_c_agent.Cache.Chunk.Buffer.{DataChunk, Chunks, header_size, back}

unfoldable pub reduce_free_ck : Chunks → Chunks
reduce_free_ck c = elim c.free_cks [
  | [] ↦ c
  | ck ∷ rest ↦ record c {
    free_cks = rest;
    ck_alloc_size = sub32 c.ck_alloc_size (add32 ck.block_size header_size);
    ck_free_ck_capacity = sub32 c.ck_free_ck_capacity ck.block_size;
  }
]

abbrev pub is_empty {ℓ} : {A : Type ℓ} → List A → Bool
is_empty [] = true
is_empty (x ∷ xs) = false

unfoldable pub water_loop : ℕ → Chunks → Chunks
unfolding reduce_free_ck
water_loop zero c = c
water_loop (suc fuel) c =
    let rest = water_loop fuel (reduce_free_ck c) in
    if ltb c.c_resident_size c.ck_alloc_size && not (is_empty c.free_cks) then rest else c

-- Each round drops a free chunk.
unfoldable pub check_water_level : Chunks → Chunks
unfolding water_loop
check_water_level c = water_loop (length c.free_cks) c

unfoldable pub use_existing_chunk : Chunks → ℕ → Bool
use_existing_chunk c len = elim (back c.ready_cks) [
  | none ↦ leb len c.ck_free_ck_capacity
  | some ck ↦
      let available = sub32 ck.block_size ck.r_ofs in
      if ltb available len then false else leb (sub32 len available) c.ck_free_ck_capacity
]

unfoldable pub check_capacity : Chunks → ℕ → Bool
unfolding use_existing_chunk
check_capacity c len =
    not (not (use_existing_chunk c len) && ltb c.c_max_size (add32 c.ck_alloc_size len))

-- A chunk with both offsets reset.
abbrev pub emptied : DataChunk → DataChunk
emptied ck = record ck { l_ofs = 0; r_ofs = 0 }

unfoldable pub reset_loop : List DataChunk → Chunks → Chunks
reset_loop [] c = c
reset_loop (ck ∷ rest) c = reset_loop rest (record c {
  ready_cks = rest;
  free_cks = c.free_cks ++ emptied ck ∷ [];
  ck_free_ck_capacity = add32 c.ck_free_ck_capacity ck.block_size;
})

unfoldable pub reset_chunks : Chunks → Chunks
reset_chunks c = check_water_level (reset_loop c.ready_cks c)

-- What a drain does with the value that the callback returned for the front chunk.
unfoldable pub after_write : ℤ → DataChunk → List DataChunk → Chunks → Chunks
after_write ret cur rest c =
    let cur_size = sub32 cur.r_ofs cur.l_ofs in
    if eqb_ℤ ret (pos cur_size)
    then record c {
      ready_cks = rest;
      free_cks = emptied cur ∷ c.free_cks;
      ck_free_ck_capacity = add32 c.ck_free_ck_capacity cur.block_size;
    }
    else (if ltb_ℤ ret (pos cur_size)
        then record c { ready_cks = record cur { l_ofs = add32 cur.l_ofs (pos_part ret) } ∷ rest }
        else c)

-- The value that the pipe returned: a drain stops at ret <= 0, and otherwise goes on.
abbrev pub drain_answer {ℓ} :
    {S : Type 0} {R : Type ℓ}
    → ℤ × S
    → DataChunk
    → List DataChunk
    → Chunks
    → (ℤ × Chunks × S → R)
    → (Chunks → S → R)
    → R
drain_answer (pos zero, s) cur rest c stop again = stop (pos zero, c, s)
drain_answer (pos (suc n), s) cur rest c stop again = again (after_write (pos (suc n)) cur rest c) s
drain_answer (negsuc n, s) cur rest c stop again = stop (negsuc n, c, s)

module _ {S : Type 0} (in_pipe_cb : List ℕ → S → ℤ × S) where
  -- One round of the loop, from the ready chunks; `again` is the loop.
  abbrev pub drain_round :
      List DataChunk → Chunks → S → (Chunks → S → Option (ℤ × Chunks × S)) → Option (ℤ × Chunks × S)
  drain_round [] c s again = some (pos 0, check_water_level c, s)
  drain_round (cur ∷ rest) c s again =
      let cur_buf = take (sub32 cur.r_ofs cur.l_ofs) (drop cur.l_ofs cur.buf) in
      drain_answer (in_pipe_cb cur_buf s) cur rest c some again

  -- The loop over the ready chunks, with fuel; `none` means that the fuel ran out.
  unfoldable pub drain_loop : ℕ → Chunks → S → Option (ℤ × Chunks × S)
  drain_loop zero c s = none
  drain_loop (suc fuel) c s = drain_round c.ready_cks c s (drain_loop fuel)

  unfoldable pub drain_out_with_pipe : ℕ → Chunks → S → Option (ℤ × Chunks × S)
  drain_out_with_pipe fuel c s =
      if is_empty c.ready_cks then some (pos 0, c, s) else drain_loop fuel c s
