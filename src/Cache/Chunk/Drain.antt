-- ===== src/Cache/Chunk/Drain.antt =====
-- drainOutWithPipe hands the queued bytes to the pipe in order.
use pinpoint_c_agent.Base.{
  ℕ, ◌+◌, ◌-◌, ◌≤◌, ◌<◌, ◌≡◌, inl, inr, List, ◌∷◌, ◌++◌, arith, length, take, drop, subst, ap, ◌∙◌,
  sym, append_assoc, pos, Bool-cases, sub32, add32, ltb, ltb→lt, slice, length-slice, drop-slice,
  take-append-drop, take_all,
}
use pinpoint_c_agent.Cache.Chunk.Buffer.{DataChunk, Chunks}
use pinpoint_c_agent.Cache.Chunk.Flow.{after_write, emptied}
use pinpoint_c_agent.Cache.Chunk.Valid.{
  pending, unread, unread_all, IsChunk, IsReady, All, IsValid, allocated,
}
use pinpoint_c_agent.Cache.Chunk.Reset.{emptied-IsFree}

-- What the pipe is handed for a chunk.
pub handed-unread :
    (ck : DataChunk)
    → IsChunk ck
    → take (sub32 ck.r_ofs ck.l_ofs) (drop ck.l_ofs ck.buf) ≡ unread ck
unfolding slice
handed-unread ck v =
    let e : sub32 ck.r_ofs ck.l_ofs ≡ ck.r_ofs - ck.l_ofs =
      omega (arith, v.ordered, v.within, v.small) in
    ap (λ n. take n (drop ck.l_ofs ck.buf)) e

pub length-unread : (ck : DataChunk) → IsChunk ck → length (unread ck) ≡ ck.r_ofs - ck.l_ofs
length-unread ck v =
    length-slice ck.l_ofs ck.r_ofs ck.buf v.ordered (omega (arith, v.within, v.sized))

-- What the state is after the pipe took `n` of the front chunk's bytes.
pub record Takes (n : ℕ) (cur : DataChunk) (c c' : Chunks) : Type 0 where
  pub valid : IsValid c'
  pub moves : pending c ≡ take n (unread cur) ++ pending c'

abbrev sent_all : DataChunk → List DataChunk → Chunks → Chunks
sent_all cur rest c = record c {
  ready_cks = rest;
  free_cks = emptied cur ∷ c.free_cks;
  ck_free_ck_capacity = add32 c.ck_free_ck_capacity cur.block_size;
}

after_write_all :
    (cur : DataChunk) (rest : List DataChunk) (c : Chunks) (n : ℕ)
    → IsChunk cur
    → n ≡ cur.r_ofs - cur.l_ofs
    → after_write (pos n) cur rest c ≡ sent_all cur rest c
unfolding after_write
after_write_all cur rest c n v h =
    let e : sub32 cur.r_ofs cur.l_ofs ≡ n = omega (arith, v.ordered, v.within, v.small) in
    rw e (ground arith)

abbrev advanced : ℕ → DataChunk → DataChunk
advanced n cur = record cur { l_ofs = cur.l_ofs + n }

after_write_part :
    (cur : DataChunk) (rest : List DataChunk) (c : Chunks) (n : ℕ)
    → IsChunk cur
    → n < cur.r_ofs - cur.l_ofs
    → after_write (pos n) cur rest c ≡ record c { ready_cks = advanced n cur ∷ rest }
unfolding after_write
after_write_part cur rest c n v h =
    let e : sub32 cur.r_ofs cur.l_ofs ≡ cur.r_ofs - cur.l_ofs =
      omega (arith, v.ordered, v.within, v.small) in
    let f : add32 cur.l_ofs n ≡ cur.l_ofs + n = omega (arith, v.within, v.small) in
    rw (e, f) (ground arith)

all-Takes :
    (cur : DataChunk) (rest : List DataChunk) (c : Chunks) (n : ℕ)
    → c.ready_cks ≡ cur ∷ rest
    → IsValid c
    → n ≡ cur.r_ofs - cur.l_ofs
    → Takes n cur c (sent_all cur rest c)
all-Takes cur rest c n e v h =
    let ready = subst (All IsReady) e v.ready in
    let len = length-unread cur ready.0.chunk in
    record {
      valid = record {
        ready = ready.1;
        free = (emptied-IsFree cur ready.0, v.free);
        counted = record {
          alloc = omega (arith, v.counted.alloc, ap allocated e);
          capacity = omega (arith, v.counted.capacity);
        };
        least_block = v.least_block;
      };
      moves =
          ap unread_all e
          ∙ ap (λ s. s ++ unread_all rest) (sym (take_all n (unread cur) (omega (arith, len))));
    }

part-Takes :
    (cur : DataChunk) (rest : List DataChunk) (c : Chunks) (n : ℕ)
    → c.ready_cks ≡ cur ∷ rest
    → IsValid c
    → n < cur.r_ofs - cur.l_ofs
    → Takes n cur c (record c { ready_cks = advanced n cur ∷ rest })
part-Takes cur rest c n e v h =
    let ready = subst (All IsReady) e v.ready in
    let tail = drop-slice n cur.l_ofs cur.r_ofs cur.buf (omega arith) in
    record {
      valid = record {
        ready = (
          record {
            chunk = record {
              ordered = omega arith;
              within = ready.0.within;
              sized = ready.0.sized;
              small = ready.0.small;
            };
            waiting = omega arith;
          },
          ready.1,
        );
        free = v.free;
        counted = record {
          alloc = omega (arith, v.counted.alloc, ap allocated e);
          capacity = v.counted.capacity;
        };
        least_block = v.least_block;
      };
      moves =
          ap unread_all e
          ∙ (ap (λ s. s ++ unread_all rest)
                (sym (take-append-drop n (unread cur)) ∙ ap (◌++◌ (take n (unread cur))) tail)
              ∙ append_assoc (take n (unread cur)) (unread (advanced n cur)) (unread_all rest));
    }

-- A pipe that takes at least one byte and no more than it is handed moves the queue forward.
pub after_write-Takes :
    (cur : DataChunk) (rest : List DataChunk) (c : Chunks) (n : ℕ)
    → c.ready_cks ≡ cur ∷ rest
    → IsValid c
    → n ≤ length (unread cur)
    → Takes n cur c (after_write (pos n) cur rest c)
after_write-Takes cur rest c n e v h =
    let ready = subst (All IsReady) e v.ready in
    let len = length-unread cur ready.0.chunk in
    elim (Bool-cases (ltb n (cur.r_ofs - cur.l_ofs))) [
      | inl less ↦
          let l = ltb→lt n (cur.r_ofs - cur.l_ofs) less in
          rw (after_write_part cur rest c n ready.0.chunk l) (part-Takes cur rest c n e v l)
      | inr all ↦
          let l : n ≡ cur.r_ofs - cur.l_ofs = ground (arith, len) in
          rw (after_write_all cur rest c n ready.0.chunk l) (all-Takes cur rest c n e v l)
    ]
