-- ===== src/Cache/Chunk/Valid.antt =====
-- What the send buffer holds, as a queue of bytes, and when its state is well formed.
use pinpoint_c_agent.Base.{
  ℕ, ◌+◌, ◌-◌, ◌%◌, ◌≤◌, ◌<◌, ◌≡◌, refl, ap, sym, ◌∙◌, List, [], ◌∷◌, ◌++◌, append_assoc,
  append-nil, arith, u32_mod, none, length, slice, some, none, Option,
}
use pinpoint_c_agent.Cache.Chunk.Buffer.{DataChunk, Chunks, header_size, back, set_back}

-- The bytes of a chunk that are still to be sent.
abbrev pub unread : DataChunk → List ℕ
unread ck = slice ck.l_ofs ck.r_ofs ck.buf

abbrev pub unread_all : List DataChunk → List ℕ
unread_all [] = []
unread_all (ck ∷ cks) = unread ck ++ unread_all cks

-- The buffer as a queue of bytes, the next to be sent first.
abbrev pub pending : Chunks → List ℕ
pending c = unread_all c.ready_cks

-- The offsets lie in the block, in order, and the numbers are those of a uint32_t.
pub record IsChunk (ck : DataChunk) : Type 0 where
  pub ordered : ck.l_ofs ≤ ck.r_ofs
  pub within : ck.r_ofs ≤ ck.block_size
  pub sized : length ck.buf ≡ ck.block_size
  pub small : ck.block_size < u32_mod

-- A ready chunk holds something to send.
pub record IsReady (ck : DataChunk) : Type 0 where
  pub chunk : IsChunk ck
  pub open chunk use *
  pub waiting : ck.l_ofs < ck.r_ofs

-- A free chunk is empty and has room.
pub record IsFree (ck : DataChunk) : Type 0 where
  pub chunk : IsChunk ck
  pub open chunk use *
  pub unused : ck.r_ofs ≡ 0
  pub room : 0 < ck.block_size

abbrev pub All {ℓ κ} : {A : Type ℓ} → (A → Type κ) → List A → Type κ
All P [] = Unit
All P (x ∷ xs) = P x × All P xs

abbrev pub blocks : List DataChunk → ℕ
blocks [] = 0
blocks (ck ∷ cks) = ck.block_size + blocks cks

-- The bytes allocated for a list of chunks.
abbrev pub allocated : List DataChunk → ℕ
allocated [] = 0
allocated (ck ∷ cks) = ck.block_size + header_size + allocated cks

-- The two counters are exact, as uint32_t.
pub record IsCounted (c : Chunks) : Type 0 where
  pub alloc : c.ck_alloc_size ≡ (allocated c.ready_cks + allocated c.free_cks) % u32_mod
  pub capacity : c.ck_free_ck_capacity ≡ blocks c.free_cks % u32_mod

pub record IsValid (c : Chunks) : Type 0 where
  pub ready : All IsReady c.ready_cks
  pub free : All IsFree c.free_cks
  pub counted : IsCounted c
  pub least_block : c.threshold ≡ 1024

pub unread_all-append :
    (xs ys : List DataChunk) → unread_all (xs ++ ys) ≡ unread_all xs ++ unread_all ys
unread_all-append [] ys = refl
unread_all-append (x ∷ xs) ys =
    ap (◌++◌ (unread x)) (unread_all-append xs ys)
    ∙ sym (append_assoc (unread x) (unread_all xs) (unread_all ys))

pub unread_all-append_one :
    (xs : List DataChunk) (ck : DataChunk) → unread_all (xs ++ ck ∷ []) ≡ unread_all xs ++ unread ck
unread_all-append_one xs ck =
    unread_all-append xs (ck ∷ []) ∙ ap (◌++◌ (unread_all xs)) (append-nil (unread ck))

pub blocks-append : (xs ys : List DataChunk) → blocks (xs ++ ys) ≡ blocks xs + blocks ys
blocks-append [] ys = omega arith
blocks-append (x ∷ xs) ys = omega (arith, blocks-append xs ys)

pub allocated-append : (xs ys : List DataChunk) → allocated (xs ++ ys) ≡ allocated xs + allocated ys
allocated-append [] ys = omega arith
allocated-append (x ∷ xs) ys = omega (arith, allocated-append xs ys)

pub All-append {ℓ κ} :
    {A : Type ℓ} (P : A → Type κ) (xs ys : List A) → All P xs → All P ys → All P (xs ++ ys)
All-append P [] ys h k = k
All-append P (x ∷ xs) ys h k = (h.0, All-append P xs ys h.1 k)

-- A list with a last element: what stands before it, and what a write to it changes.
pub record EndsIn (xs : List DataChunk) (ck : DataChunk) : Type 0 where
  pub front : List DataChunk
  pub split : xs ≡ front ++ ck ∷ []
  pub rewrite : (ck' : DataChunk) → set_back xs ck' ≡ front ++ ck' ∷ []

pub back-EndsIn : (xs : List DataChunk) (ck : DataChunk) → back xs ≡ some ck → EndsIn xs ck
back-EndsIn [] ck h = cc
back-EndsIn (x ∷ []) ck h = record { front = []; split = ground arith; rewrite = λ ck'. refl }
back-EndsIn (x ∷ y ∷ xs) ck h =
    let rest = back-EndsIn (y ∷ xs) ck h in
    record {
      front = x ∷ rest.front;
      split = ap (◌∷◌ x) rest.split;
      rewrite = λ ck'. ap (◌∷◌ x) (rest.rewrite ck');
    }

-- The room that the buffer has without an allocation.
abbrev pub room_of : Option DataChunk → ℕ
room_of none = 0
room_of (some ck) = ck.block_size - ck.r_ofs

abbrev pub space : Chunks → ℕ
space c = room_of (back c.ready_cks) + blocks c.free_cks
