-- ===== src/Cache/Chunk/Copy.antt =====
-- The copies into the ready chunk and into the free chunks: each stores a prefix of the bytes at the
-- end of the queue, as long as it has room, allocates nothing, and keeps the buffer well formed.
use pinpoint_c_agent.Base.{
  ℕ, ◌-◌, ◌<◌, ◌≡◌, refl, ap, sym, ◌∙◌, inl, inr, List, [], ◌∷◌, ◌++◌, some, append_assoc,
  append-nil, arith, length, length-append, sub32, Option-cases, slice_empty, subst,
}
use pinpoint_c_agent.Cache.Chunk.Buffer.{
  DataChunk, Chunks, back, set_back, fill, copy_data_into_ready_ck,
}
use pinpoint_c_agent.Cache.Chunk.Valid.{
  unread, unread_all, pending, IsReady, IsFree, All, blocks, allocated, IsValid, EndsIn,
  back-EndsIn, unread_all-append_one, room_of, allocated-append, All-append,
}
use pinpoint_c_agent.Cache.Chunk.Fill.{Fills, fill-Fills}

-- What a copy with `space` bytes of room returns.
pub record Stores (c : Chunks) (bytes : List ℕ) (space : ℕ) (r : ℕ × Chunks) : Type 0 where
  pub stored : List ℕ
  pub left : List ℕ
  pub split : bytes ≡ stored ++ left
  pub rest : r.0 ≡ length left
  pub amount : r.0 ≡ length bytes - space
  pub queued : pending r.1 ≡ pending c ++ stored
  pub valid : IsValid r.1
  pub same_alloc : r.1.ck_alloc_size ≡ c.ck_alloc_size

pub Stores-none : (c : Chunks) (bytes : List ℕ) → IsValid c → Stores c bytes 0 (length bytes, c)
Stores-none c bytes v = record {
  stored = [];
  left = bytes;
  split = refl;
  rest = refl;
  amount = omega arith;
  queued = sym (append-nil (pending c));
  valid = v;
  same_alloc = refl;
}

pub All-last {ℓ κ} :
    {A : Type ℓ} (P : A → Type κ) (xs : List A) (x : A) → All P (xs ++ x ∷ []) → All P xs × P x
All-last P [] x h = (tt, h.0)
All-last P (y ∷ xs) x h = let (r, p) = All-last P xs x h.1 in ((h.0, r), p)

-- Bytes stored in the last of the ready chunks.
pending-set_back :
    (cks : List DataChunk) (ck ck' : DataChunk) (stored : List ℕ)
    → EndsIn cks ck
    → unread ck' ≡ unread ck ++ stored
    → unread_all (set_back cks ck') ≡ unread_all cks ++ stored
pending-set_back cks ck ck' stored e h =
    let old = ap unread_all e.split ∙ unread_all-append_one e.front ck in
    let new = ap unread_all (e.rewrite ck') ∙ unread_all-append_one e.front ck' in
    new
    ∙ (ap (◌++◌ (unread_all e.front)) h
        ∙ (sym (append_assoc (unread_all e.front) (unread ck) stored)
            ∙ sym (ap (λ q. q ++ stored) old)))

set_back-IsReady :
    (cks : List DataChunk) (ck ck' : DataChunk)
    → EndsIn cks ck
    → (IsReady ck → IsReady ck')
    → All IsReady cks
    → All IsReady (set_back cks ck')
set_back-IsReady cks ck ck' e keep h =
    let (hs, last) = All-last IsReady e.front ck (subst (All IsReady) e.split h) in
    subst (All IsReady) (sym (e.rewrite ck'))
      (All-append IsReady e.front (ck' ∷ []) hs (keep last, tt))

allocated-set_back :
    (cks : List DataChunk) (ck ck' : DataChunk)
    → EndsIn cks ck
    → ck'.block_size ≡ ck.block_size
    → allocated (set_back cks ck') ≡ allocated cks
allocated-set_back cks ck ck' e h = omega (
  arith,
  ap allocated (e.rewrite ck'),
  ap allocated e.split,
  allocated-append e.front (ck ∷ []),
  allocated-append e.front (ck' ∷ []),
)

ready_fills :
    (c : Chunks) (ck : DataChunk) (bytes : List ℕ) (r : DataChunk × List ℕ)
    → IsValid c
    → EndsIn c.ready_cks ck
    → Fills ck bytes r
    → Stores c bytes
        (room_of (some ck))
        (length r.1, record c { ready_cks = set_back c.ready_cks r.0 })
ready_fills c ck bytes r v e f = record {
  stored = f.stored;
  left = r.1;
  split = f.split;
  rest = refl;
  amount = omega (arith, ap length f.split, length-append f.stored r.1, f.amount);
  queued = pending-set_back c.ready_cks ck r.0 f.stored e f.appends.holds;
  valid = record {
    ready =
        set_back-IsReady c.ready_cks ck r.0 e
          (λ old. record { chunk = f.appends.valid; waiting = omega (arith, old.waiting) }) v.ready;
    free = v.free;
    counted = record {
      alloc =
          omega (arith, v.counted.alloc, allocated-set_back c.ready_cks ck r.0 e f.appends.block);
      capacity = v.counted.capacity;
    };
    least_block = v.least_block;
  };
  same_alloc = refl;
}

pub copy_data_into_ready_ck-Stores :
    (c : Chunks) (bytes : List ℕ)
    → IsValid c
    → Stores c bytes (room_of (back c.ready_cks)) (copy_data_into_ready_ck c bytes)
unfolding copy_data_into_ready_ck
copy_data_into_ready_ck-Stores c bytes v = elim (Option-cases (back c.ready_cks)) [
  | inl e ↦ rw (e, copy_data_into_ready_ck) (Stores-none c bytes v)
  | inr (ck, e) ↦
      let ends = back-EndsIn c.ready_cks ck e in
      let last = All-last IsReady ends.front ck (subst (All IsReady) ends.split v.ready) in
      rw (e, copy_data_into_ready_ck)
        (ready_fills c ck bytes (fill ck bytes) v ends (fill-Fills ck bytes last.1.chunk))
]

-- One round of the loop over the free chunks.
abbrev pub moved : Chunks → DataChunk → List DataChunk → DataChunk → Chunks
moved c ck rest ck' = record c {
  free_cks = rest;
  ready_cks = c.ready_cks ++ ck' ∷ [];
  ck_free_ck_capacity = sub32 c.ck_free_ck_capacity ck.block_size;
}

pub moved-IsValid :
    (c : Chunks) (ck : DataChunk) (rest : List DataChunk) (bytes : List ℕ) (r : DataChunk × List ℕ)
    → IsValid c
    → c.free_cks ≡ ck ∷ rest
    → Fills ck bytes r
    → 0 < length bytes
    → IsValid (moved c ck rest r.0)
moved-IsValid c ck rest bytes r v e f h =
    let free = subst (All IsFree) e v.free in
    record {
      ready = All-append IsReady c.ready_cks (r.0 ∷ []) v.ready (
        record {
          chunk = f.appends.valid;
          waiting = omega (arith, f.amount, f.appends.left_end, f.appends.right_end, free.0);
        },
        tt,
      );
      free = free.1;
      counted = record {
        alloc =
            omega (arith, v.counted.alloc, ap allocated e, allocated-append c.ready_cks (r.0 ∷ []));
        capacity = omega (arith, v.counted.capacity, ap blocks e, free.0.small);
      };
      least_block = v.least_block;
    }

pub moved-pending :
    (c : Chunks) (ck : DataChunk) (rest : List DataChunk) (bytes : List ℕ) (r : DataChunk × List ℕ)
    → IsFree ck
    → (f : Fills ck bytes r) → pending (moved c ck rest r.0) ≡ pending c ++ f.stored
moved-pending c ck rest bytes r v f =
    let start : ck.l_ofs ≡ 0 = omega (arith, v.ordered, v.unused) in
    let none_yet : unread ck ≡ [] = rw (start, v.unused) (slice_empty 0 ck.buf) in
    unread_all-append_one c.ready_cks r.0
    ∙ ap (◌++◌ (pending c)) (f.appends.holds ∙ ap (λ q. q ++ f.stored) none_yet)
