-- ===== src/Examples/Cache.antt =====
-- The send buffer and the process state on concrete inputs.
use pinpoint_c_agent.Base.{
  ℕ, ◌+◌, ◌≤◌, ◌<◌, ◌≡◌, refl, sym, ap, ◌⊎◌, inl, inr, true, false, List, [], ◌∷◌, ◌++◌, Option,
  none, some, arith, length, replicate, length-replicate, ℤ, pos, negsuc, take_all, pos_part, slice,
}
use pinpoint_c_agent.Cache.Chunk.Buffer.{
  DataChunk, Chunks, new_chunks, empty_chunks, ck_ceil_to_k, copy_data_into_chunks,
}
use pinpoint_c_agent.Cache.Chunk.Flow.{
  use_existing_chunk, check_capacity, check_water_level, reset_chunks, drain_out_with_pipe,
}
use pinpoint_c_agent.Cache.Chunk.Valid.{pending, IsValid, space}
use pinpoint_c_agent.Cache.Chunk.Ceil.{IsCeil, ck_ceil_to_k-IsCeil}
use pinpoint_c_agent.Cache.Chunk.Fifo.{Allocates, Outcome}
use pinpoint_c_agent.Cache.Chunk.Queue.{copy_data_into_chunks-Outcome}
use pinpoint_c_agent.Cache.Chunk.Water.{IsTrimmed, Trims, check_water_level-IsTrimmed}
use pinpoint_c_agent.Cache.Chunk.Reset.{reset_chunks-pending}
use pinpoint_c_agent.Cache.Chunk.Pipe.{Sends, Drained, drain_out_with_pipe-Drained}
use pinpoint_c_agent.Cache.Chunk.Capacity.{
  new_chunks-IsValid, use_existing_chunk_exact, check_capacity_bound,
}
use pinpoint_c_agent.Cache.State.{ProcessState, set_start_time, reset_unique_id}
use pinpoint_c_agent.Cache.State.Limit.{admitted, admitted_same_second, admitted-allowance}
use pinpoint_c_agent.Cache.State.Start.{ids, count_from, set_start_time_once, ids-reset_unique_id}

-- The sizes that TransLayer passes.
abbrev empty_buffer : Chunks
empty_buffer = empty_chunks 10485760 40960

abbrev zeroed : ℕ → Option (List ℕ)
zeroed n = some (replicate n 0)

zeroed-Allocates : Allocates zeroed
zeroed-Allocates n block e = cc (length-replicate {A = ℕ} n 0, e)

-- A buffer with one block, in which three bytes wait.
abbrev block_of_eight : DataChunk
block_of_eight = record { block_size = 8; l_ofs = 0; r_ofs = 3; buf = 7 ∷ 8 ∷ 9 ∷ replicate 5 0 }

abbrev queued : Chunks
queued = record empty_buffer { ready_cks = block_of_eight ∷ []; ck_alloc_size = 20 }

abbrev six : List ℕ
six = 1 ∷ 2 ∷ 3 ∷ 4 ∷ 5 ∷ 6 ∷ []

queued-IsValid : IsValid queued
queued-IsValid = record {
  ready = (
    record {
      chunk = record {
        ordered = omega arith;
        within = omega arith;
        sized = refl;
        small = omega arith;
      };
      waiting = omega arith;
    },
    tt,
  );
  free = tt;
  counted = record { alloc = refl; capacity = refl };
  least_block = refl;
}

-- 5000 bytes go to a block of 8192.
ck_ceil_to_k_5000 : ck_ceil_to_k 1024 5000 ≡ 8192
unfolding ck_ceil_to_k
ck_ceil_to_k_5000 = refl

ck_ceil_to_k-IsCeil_example : IsCeil 5000 (ck_ceil_to_k 1024 5000)
ck_ceil_to_k-IsCeil_example =
    ck_ceil_to_k-IsCeil 1024 5000 (omega arith) (omega arith) (omega arith)

copy_data_into_chunks-Outcome_example :
    let r = copy_data_into_chunks zeroed queued six in
    IsValid r.1 × Outcome zeroed queued six (space queued) r
copy_data_into_chunks-Outcome_example =
    copy_data_into_chunks-Outcome zeroed queued six zeroed-Allocates queued-IsValid (omega arith)

-- Five bytes in the old block, the last in a new one.
copy_six : pending (copy_data_into_chunks zeroed queued six).1 ≡ 7 ∷ 8 ∷ 9 ∷ six
unfolding slice
copy_six = elim copy_data_into_chunks-Outcome_example.1 [
  | inl (_, _, e, _) ↦ e
  | inr (inl (_, _, e, _)) ↦ e
  | inr (inr (_, e, _, _, _)) ↦ cc
]

check_water_level-IsTrimmed_example :
    let c' = check_water_level queued in
    IsValid c' × IsTrimmed c' × (pending c' ≡ 7 ∷ 8 ∷ 9 ∷ []) × Trims queued c'
unfolding slice
check_water_level-IsTrimmed_example = check_water_level-IsTrimmed queued queued-IsValid

reset_chunks-pending_example :
    let c' = reset_chunks queued in IsValid c' × (pending c' ≡ []) × IsTrimmed c'
reset_chunks-pending_example = reset_chunks-pending queued queued-IsValid

-- A pipe that takes all.
abbrev sink : List ℕ → List ℕ → ℤ × List ℕ
sink bytes s = (pos (length bytes), s ++ bytes)

sink-Sends : Sends sink (λ s. s)
sink-Sends = record {
  took = λ bytes s n e.
      let m : length bytes ≡ n = ap pos_part e in
      (omega arith, ap (◌++◌ s) (sym (take_all n bytes (omega arith))));
}

drain_out_with_pipe-Drained_example :
    (r : ℤ × Chunks × List ℕ) × (drain_out_with_pipe sink 4 queued [] ≡ some r)
    × Drained sink (λ s. s) queued [] r
unfolding slice
drain_out_with_pipe-Drained_example =
    drain_out_with_pipe-Drained sink (λ s. s) 4 queued [] sink-Sends queued-IsValid (omega arith)

new_chunks-IsValid_example :
    ((10 < 20) × (new_chunks 10 20 ≡ none))
    ⊎ ((20 ≤ 10) × (c : Chunks) × (new_chunks 10 20 ≡ some c) × IsValid c × (pending c ≡ []))
new_chunks-IsValid_example = new_chunks-IsValid 10 20

-- The block has room for five bytes; of two it says no.
use_existing_chunk_exact_example : use_existing_chunk queued 2 ≡ false
use_existing_chunk_exact_example =
    use_existing_chunk_exact queued block_of_eight 2 queued-IsValid (omega arith) refl

check_capacity_6 : check_capacity queued 6 ≡ true
unfolding check_capacity
check_capacity_6 = refl

check_capacity_bound_example :
    (copy_data_into_chunks zeroed queued six).1.ck_alloc_size ≤ 10485760 + 6 + 1048
check_capacity_bound_example =
    check_capacity_bound zeroed queued six zeroed-Allocates queued-IsValid (omega arith)
      (omega arith) (omega arith) (omega arith) check_capacity_6

-- A limit of two traces a second, of which one is counted for the second 5.
abbrev counting : ProcessState
counting = record {
  tick = pos 1;
  timestamp = pos 5;
  starttime = 0;
  trace_limit = pos 2;
  uuid = pos 0;
  ready = false;
}

abbrev three_calls : List (ℤ × ℤ)
three_calls = (pos 5, negsuc 0) ∷ (pos 9, pos 5) ∷ (pos 5, negsuc 0) ∷ []

admitted_same_second_example : admitted (pos 5) three_calls counting ≡ 1
admitted_same_second_example =
    admitted_same_second (pos 5) 2 three_calls counting
      (record {
        limit = refl;
        positive = omega arith;
        small = omega arith;
        count = 1;
        counted = refl;
        within = omega arith;
      })
      (refl, (refl, (refl, tt)))

admitted-allowance_example : admitted (pos 5) three_calls counting ≤ 1
admitted-allowance_example =
    admitted-allowance (pos 5) 2 three_calls counting
      (record {
        limit = refl;
        positive = omega arith;
        small = omega arith;
        count = 1;
        counted = refl;
        within = omega arith;
      })
      (omega arith, (omega arith, (omega arith, tt)))

set_start_time_once_example :
    ((set_start_time 10 counting).starttime ≡ 10)
    × ((set_start_time 10 counting).ready ≡ true)
    × (set_start_time 20 (set_start_time 10 counting) ≡ set_start_time 10 counting)
set_start_time_once_example = set_start_time_once 10 20 counting refl

ids-reset_unique_id_example : ids 3 (reset_unique_id counting) ≡ count_from 0 3
ids-reset_unique_id_example = ids-reset_unique_id 3 counting (omega arith)
