-- ===== src/Cache/Chunk/Fill.antt =====
-- One chunk takes as many bytes as it has room for.
use pinpoint_c_agent.Base.{
  ℕ, ◌+◌, ◌-◌, ◌≤◌, ◌<◌, min, ◌≡◌, refl, sym, ◌∙◌, List, [], ◌++◌, append-nil, arith, length, take,
  drop, slice-write_at, length-write_at, take-append-drop, length-take, sub32, add32, leb, ltb,
  leb→le, Bool-cases, inl, inr,
}
use pinpoint_c_agent.Cache.Chunk.Buffer.{DataChunk, append_bytes, fill}
use pinpoint_c_agent.Cache.Chunk.Valid.{unread, IsChunk}

abbrev room : DataChunk → ℕ
room ck = ck.block_size - ck.r_ofs

-- The chunk `ck'` is `ck` with `bytes` behind what it held.
pub record Appends (ck : DataChunk) (bytes : List ℕ) (ck' : DataChunk) : Type 0 where
  pub valid : IsChunk ck'
  pub holds : unread ck' ≡ unread ck ++ bytes
  pub left_end : ck'.l_ofs ≡ ck.l_ofs
  pub right_end : ck'.r_ofs ≡ ck.r_ofs + length bytes
  pub block : ck'.block_size ≡ ck.block_size

append_bytes-Appends :
    (ck : DataChunk) (bytes : List ℕ)
    → IsChunk ck
    → length bytes ≤ room ck
    → Appends ck bytes (append_bytes ck bytes)
unfolding append_bytes
append_bytes-Appends ck bytes v h =
    let e : add32 ck.r_ofs (length bytes) ≡ ck.r_ofs + length bytes =
      omega (arith, v.within, v.small) in
    let fits : ck.r_ofs + length bytes ≤ length ck.buf = omega (arith, v.within, v.sized) in
    record {
      valid = record {
        ordered = omega (arith, v.ordered);
        within = omega (arith, v.within);
        sized = length-write_at ck.buf ck.r_ofs bytes fits ∙ v.sized;
        small = v.small;
      };
      holds = rw e (slice-write_at ck.buf ck.l_ofs ck.r_ofs bytes v.ordered fits);
      left_end = refl;
      right_end = e;
      block = refl;
    }

-- What `fill` returns: the bytes divide into those stored, as many as fit, and those left.
pub record Fills (ck : DataChunk) (bytes : List ℕ) (r : DataChunk × List ℕ) : Type 0 where
  pub stored : List ℕ
  pub split : bytes ≡ stored ++ r.1
  pub amount : length stored ≡ min (length bytes) (room ck)
  pub appends : Appends ck stored r.0

fill_part :
    (ck : DataChunk) (bytes : List ℕ)
    → IsChunk ck
    → room ck < length bytes
    → Fills ck bytes (append_bytes ck (take (room ck) bytes), drop (room ck) bytes)
fill_part ck bytes v h =
    let n : length (take (room ck) bytes) ≡ room ck = omega (arith, length-take (room ck) bytes) in
    record {
      stored = take (room ck) bytes;
      split = sym (take-append-drop (room ck) bytes);
      amount = omega arith;
      appends = append_bytes-Appends ck (take (room ck) bytes) v (omega arith);
    }

fill_none :
    (ck : DataChunk) (bytes : List ℕ) → IsChunk ck → room ck ≡ 0 → Fills ck bytes (ck, bytes)
fill_none ck bytes v h = record {
  stored = [];
  split = refl;
  amount = omega arith;
  appends = record {
    valid = v;
    holds = sym (append-nil (unread ck));
    left_end = refl;
    right_end = omega arith;
    block = refl;
  };
}

pub fill-Fills : (ck : DataChunk) (bytes : List ℕ) → IsChunk ck → Fills ck bytes (fill ck bytes)
unfolding fill
fill-Fills ck bytes v =
    let e : sub32 ck.block_size ck.r_ofs ≡ room ck = omega (arith, v.within, v.small) in
    rw e (elim (Bool-cases (leb (length bytes) (room ck))) [
      | inl fits ↦ rw fits (record {
        stored = bytes;
        split = sym (append-nil bytes);
        amount = omega (arith, leb→le (length bytes) (room ck) fits);
        appends = append_bytes-Appends ck bytes v (leb→le (length bytes) (room ck) fits);
      })
      | inr long ↦ rw long (elim (Bool-cases (ltb 0 (room ck))) [
        | inl some_room ↦ rw some_room (fill_part ck bytes v (ground arith))
        | inr full ↦ rw full (fill_none ck bytes v (ground arith))
      ])
    ])
