-- ===== src/Cache/Chunk/Water.antt =====
-- checkWaterLevel gives free chunks back to the system until the resident size is reached.
use pinpoint_c_agent.Base.{
  ℕ, zero, suc, ◌≤◌, ◌<◌, ◌≡◌, refl, ◌⊎◌, inl, inr, List, [], ◌∷◌, arith, length, ltb, Bool-cases,
  subst, ap, ◌∙◌,
}
use pinpoint_c_agent.Cache.Chunk.Buffer.{DataChunk, Chunks}
use pinpoint_c_agent.Cache.Chunk.Flow.{reduce_free_ck, water_loop, check_water_level}
use pinpoint_c_agent.Cache.Chunk.Valid.{
  pending, unread_all, IsFree, All, IsValid, allocated, blocks,
}

-- What giving chunks back leaves alone.
pub record Trims (c c' : Chunks) : Type 0 where
  pub ready : c'.ready_cks ≡ c.ready_cks
  pub resident : c'.c_resident_size ≡ c.c_resident_size
  pub limit : c'.c_max_size ≡ c.c_max_size

reduce_cons-IsValid :
    (c : Chunks) (ck : DataChunk) (rest : List DataChunk)
    → c.free_cks ≡ ck ∷ rest
    → IsValid c
    → IsValid (reduce_free_ck c)
unfolding reduce_free_ck
reduce_cons-IsValid c ck rest e v =
    let free = subst (All IsFree) e v.free in
    rw (e, reduce_free_ck)
      (record {
        ready = v.ready;
        free = free.1;
        counted = record {
          alloc = omega (arith, v.counted.alloc, ap allocated e, free.0.small);
          capacity = omega (arith, v.counted.capacity, ap blocks e, free.0.small);
        };
        least_block = v.least_block;
      })

reduce_free_ck-free_cks :
    (c : Chunks) (ck : DataChunk) (rest : List DataChunk)
    → c.free_cks ≡ ck ∷ rest
    → (reduce_free_ck c).free_cks ≡ rest
unfolding reduce_free_ck
reduce_free_ck-free_cks c ck rest e = ground arith

reduce_free_ck-Trims : (c : Chunks) → Trims c (reduce_free_ck c)
unfolding reduce_free_ck
reduce_free_ck-Trims c = ground arith

-- The resident size is reached, or there is nothing to give back.
abbrev pub IsTrimmed : Chunks → Type 0
IsTrimmed c = (c.ck_alloc_size ≤ c.c_resident_size) ⊎ (c.free_cks ≡ [])

water_loop_stops : (fuel : ℕ) (c : Chunks) → c.free_cks ≡ [] → water_loop fuel c ≡ c
unfolding water_loop
water_loop_stops zero c e = refl
water_loop_stops (suc fuel) c e = ground arith

water_loop_below :
    (fuel : ℕ) (c : Chunks) → c.ck_alloc_size ≤ c.c_resident_size → water_loop fuel c ≡ c
unfolding water_loop
water_loop_below zero c h = refl
water_loop_below (suc fuel) c h = ground arith

water_loop_step :
    (fuel : ℕ) (c : Chunks) (ck : DataChunk) (rest : List DataChunk)
    → c.free_cks ≡ ck ∷ rest
    → c.c_resident_size < c.ck_alloc_size
    → water_loop (suc fuel) c ≡ water_loop fuel (reduce_free_ck c)
unfolding water_loop
water_loop_step fuel c ck rest e h = ground arith

record Watered (c c' : Chunks) : Type 0 where
  valid : IsValid c'
  trims : Trims c c'
  trimmed : IsTrimmed c'

Watered-self : (c : Chunks) → IsValid c → IsTrimmed c → Watered c c
Watered-self c v t = record {
  valid = v;
  trims = record { ready = refl; resident = refl; limit = refl };
  trimmed = t;
}

water_loop-Watered :
    (cks : List DataChunk) (c : Chunks)
    → c.free_cks ≡ cks
    → IsValid c
    → Watered c (water_loop (length cks) c)
water_loop-Watered [] c e v = rw (water_loop_stops 0 c e) (Watered-self c v (inr e))
water_loop-Watered (ck ∷ rest) c e v = elim (Bool-cases (ltb c.c_resident_size c.ck_alloc_size)) [
  | inr low ↦
      let h : c.ck_alloc_size ≤ c.c_resident_size = ground arith in
      rw (water_loop_below (length (ck ∷ rest)) c h) (Watered-self c v (inl h))
  | inl high ↦
      let next =
        water_loop-Watered rest (reduce_free_ck c) (reduce_free_ck-free_cks c ck rest e)
          (reduce_cons-IsValid c ck rest e v) in
      let one = reduce_free_ck-Trims c in
      rw (water_loop_step (length rest) c ck rest e (ground arith)) (record {
        valid = next.valid;
        trims = record {
          ready = next.trims.ready ∙ one.ready;
          resident = next.trims.resident ∙ one.resident;
          limit = next.trims.limit ∙ one.limit;
        };
        trimmed = next.trimmed;
      })
]

-- From a well-formed buffer the loop ends with the allocated size at most the resident size or with
-- no free chunk; the buffer stays well formed and its queued bytes are untouched.
pub check_water_level-IsTrimmed :
    (c : Chunks)
    → IsValid c
    → let c' = check_water_level c in
      IsValid c' × IsTrimmed c' × (pending c' ≡ pending c) × Trims c c'
unfolding check_water_level
check_water_level-IsTrimmed c v =
    let w = water_loop-Watered c.free_cks c refl v in
    (w.valid, w.trimmed, ap unread_all w.trims.ready, w.trims)
