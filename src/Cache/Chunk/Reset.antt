-- ===== src/Cache/Chunk/Reset.antt =====
-- resetChunks drops what is queued and keeps the memory for reuse.
use pinpoint_c_agent.Base.{
  ◌≡◌, refl, List, [], ◌∷◌, ◌++◌, arith, subst, ap, ◌∙◌, map, sym, append_assoc, append-nil, add32,
}
use pinpoint_c_agent.Cache.Chunk.Buffer.{DataChunk, Chunks}
use pinpoint_c_agent.Cache.Chunk.Flow.{emptied, reset_loop, reset_chunks}
use pinpoint_c_agent.Cache.Chunk.Valid.{
  pending, unread_all, IsReady, IsFree, All, All-append, IsValid, allocated, allocated-append,
  blocks-append,
}
use pinpoint_c_agent.Cache.Chunk.Water.{IsTrimmed, check_water_level-IsTrimmed}

-- A chunk that was in use can be used again.
pub emptied-IsFree : (ck : DataChunk) → IsReady ck → IsFree (emptied ck)
emptied-IsFree ck v = record {
  chunk = record { ordered = omega arith; within = omega arith; sized = v.sized; small = v.small };
  unused = refl;
  room = omega (arith, v.waiting, v.within);
}

abbrev released : Chunks → DataChunk → List DataChunk → Chunks
released c ck rest = record c {
  ready_cks = rest;
  free_cks = c.free_cks ++ emptied ck ∷ [];
  ck_free_ck_capacity = add32 c.ck_free_ck_capacity ck.block_size;
}

released-IsValid :
    (c : Chunks) (ck : DataChunk) (rest : List DataChunk)
    → c.ready_cks ≡ ck ∷ rest
    → IsValid c
    → IsValid (released c ck rest)
released-IsValid c ck rest e v =
    let ready = subst (All IsReady) e v.ready in
    record {
      ready = ready.1;
      free = All-append IsFree c.free_cks (emptied ck ∷ []) v.free (emptied-IsFree ck ready.0, tt);
      counted = record {
        alloc =
            omega (
              arith,
              v.counted.alloc,
              ap allocated e,
              allocated-append c.free_cks (emptied ck ∷ []),
            );
        capacity = omega (arith, v.counted.capacity, blocks-append c.free_cks (emptied ck ∷ []));
      };
      least_block = v.least_block;
    }

reset_loop-IsValid :
    (cks : List DataChunk) (c : Chunks)
    → c.ready_cks ≡ cks
    → IsValid c
    → let c' = reset_loop cks c in
      IsValid c' × (c'.ready_cks ≡ []) × (c'.free_cks ≡ c.free_cks ++ map emptied cks)
unfolding reset_loop
reset_loop-IsValid [] c e v = (v, e, sym (append-nil c.free_cks))
reset_loop-IsValid (ck ∷ rest) c e v =
    let (w, r, f) =
      reset_loop-IsValid rest (released c ck rest) refl (released-IsValid c ck rest e v) in
    (w, r, f ∙ append_assoc c.free_cks (emptied ck ∷ []) (map emptied rest))

-- From a well-formed buffer a reset leaves a well-formed buffer with nothing queued, trimmed to the
-- resident size or without free chunks.
pub reset_chunks-pending :
    (c : Chunks)
    → IsValid c
    → let c' = reset_chunks c in IsValid c' × (pending c' ≡ []) × IsTrimmed c'
unfolding reset_chunks
reset_chunks-pending c v =
    let (w, r, f) = reset_loop-IsValid c.ready_cks c refl v in
    let (x, t, p, _) = check_water_level-IsTrimmed (reset_loop c.ready_cks c) w in
    (x, p ∙ ap unread_all r, t)
