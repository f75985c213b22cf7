-- ===== src/Cache/Chunk/Reuse.antt =====
-- The loop over the free chunks stores what the ready chunk had no room for.
use pinpoint_c_agent.Base.{
  ℕ, ◌+◌, ◌-◌, ◌==◌, ◌≡◌, refl, ap, sym, ◌∙◌, inl, inr, List, [], ◌∷◌, ◌++◌, append_assoc,
  append-nil, arith, length, length-append, Bool-cases, ==_iff, subst,
}
use pinpoint_c_agent.Cache.Chunk.Buffer.{DataChunk, Chunks, fill, free_loop, copy_data_into_free_ck}
use pinpoint_c_agent.Cache.Chunk.Valid.{pending, IsFree, All, blocks, IsValid}
use pinpoint_c_agent.Cache.Chunk.Fill.{fill-Fills}
use pinpoint_c_agent.Cache.Chunk.Copy.{Stores, Stores-none, moved, moved-IsValid, moved-pending}

-- Two copies in a row.
unfoldable pub Stores-after :
    (c c₁ : Chunks) (bytes left₁ stored₁ : List ℕ) (s₁ s₂ s₃ : ℕ) (r : ℕ × Chunks)
    → s₃ ≡ s₂
    → bytes ≡ stored₁ ++ left₁
    → length left₁ ≡ length bytes - s₁
    → pending c₁ ≡ pending c ++ stored₁
    → c₁.ck_alloc_size ≡ c.ck_alloc_size
    → Stores c₁ left₁ s₃ r
    → Stores c bytes (s₁ + s₂) r
Stores-after c c₁ bytes left₁ stored₁ s₁ s₂ s₃ r same e n q a h = record {
  stored = stored₁ ++ h.stored;
  left = h.left;
  split = e ∙ (ap (◌++◌ stored₁) h.split ∙ sym (append_assoc stored₁ h.stored h.left));
  rest = h.rest;
  amount = omega (arith, h.amount);
  queued = h.queued ∙ (ap (λ p. p ++ h.stored) q ∙ append_assoc (pending c) stored₁ h.stored);
  valid = h.valid;
  same_alloc = h.same_alloc ∙ a;
}

Stores-done :
    (c : Chunks) (bytes : List ℕ) (s : ℕ) → IsValid c → length bytes ≡ 0 → Stores c bytes s (0, c)
Stores-done c bytes s v e = record {
  stored = [];
  left = bytes;
  split = refl;
  rest = sym e;
  amount = omega arith;
  queued = sym (append-nil (pending c));
  valid = v;
  same_alloc = refl;
}

pub free_loop-Stores :
    (cks : List DataChunk) (c : Chunks) (bytes : List ℕ)
    → IsValid c
    → c.free_cks ≡ cks
    → Stores c bytes (blocks cks) (free_loop cks c bytes)
unfolding free_loop
free_loop-Stores [] c bytes v e = Stores-none c bytes v
free_loop-Stores (ck ∷ rest) c bytes v e =
    let free = subst (All IsFree) e v.free in
    let f = fill-Fills ck bytes free.0.chunk in
    let c₁ = moved c ck rest (fill ck bytes).0 in
    elim (Bool-cases (length bytes == 0)) [
      | inl done ↦ rw done (Stores-done c bytes (blocks (ck ∷ rest)) v ((==_iff _ _).0 done))
      | inr more ↦
          let v₁ = moved-IsValid c ck rest bytes (fill ck bytes) v e f (ground arith) in
          rw more (
            Stores-after c c₁ bytes (fill ck bytes).1 f.stored ck.block_size (blocks rest) _ _ refl
              f.split
              (omega (
                arith,
                ap length f.split,
                length-append f.stored (fill ck bytes).1,
                f.amount,
                free.0.unused,
              ))
              (moved-pending c ck rest bytes (fill ck bytes) free.0 f) refl
              (free_loop-Stores rest c₁ (fill ck bytes).1 v₁ refl))
    ]

pub copy_data_into_free_ck-Stores :
    (c : Chunks) (bytes : List ℕ)
    → IsValid c
    → Stores c bytes (blocks c.free_cks) (copy_data_into_free_ck c bytes)
unfolding copy_data_into_free_ck
copy_data_into_free_ck-Stores c bytes v = free_loop-Stores c.free_cks c bytes v refl
