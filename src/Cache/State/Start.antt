-- ===== src/Cache/State/Start.antt =====
-- The start time is announced once, and unique ids count up.
use pinpoint_c_agent.Base.{
  ℕ, ◌+◌, ◌<◌, ◌^◌, suc, ◌≡◌, refl, ℤ, true, false, pos, List, [], ◌∷◌, arith, zero,
}
use pinpoint_c_agent.Cache.State.{ProcessState, set_start_time, get_unique_id, reset_unique_id}

-- When none was recorded yet, the first announcement is recorded, and it is the one that stays: a
-- later one changes nothing.
pub set_start_time_once :
    (first later : ℕ) (s : ProcessState)
    → s.ready ≡ false
    → ((set_start_time first s).starttime ≡ first)
      × ((set_start_time first s).ready ≡ true)
      × (set_start_time later (set_start_time first s) ≡ set_start_time first s)
unfolding set_start_time
set_start_time_once first later s e = rw e (refl, refl, refl)

unfoldable pub ids : ℕ → ProcessState → List ℤ
ids zero s = []
ids (suc n) s = let (id, s') = get_unique_id s in id ∷ ids n s'

unfoldable pub count_from : ℕ → ℕ → List ℤ
count_from k zero = []
count_from k (suc n) = pos k ∷ count_from (k + 1) n

ids_from : (n k : ℕ) (s : ProcessState) → s.uuid ≡ pos k → k + n < 2 ^ 63 → ids n s ≡ count_from k n
unfolding ids count_from get_unique_id
ids_from zero k s e h = refl
ids_from (suc n) k s e h = ground (arith, ids_from n (k + 1) (get_unique_id s).1)

-- After a reset, fewer than 2 ^ 63 calls draw the ids 0, 1, 2 and so on, each once.
pub ids-reset_unique_id :
    (n : ℕ) (s : ProcessState) → n < 2 ^ 63 → ids n (reset_unique_id s) ≡ count_from 0 n
unfolding reset_unique_id
ids-reset_unique_id n s h = ids_from n 0 (reset_unique_id s) refl (omega arith)
