-- ===== src/Cache/State/Limit.antt =====
-- The rate limit: in one second at most `trace_limit` traces are admitted.
use pinpoint_c_agent.Base.{
  ℕ, ◌+◌, ◌-◌, ◌^◌, ◌≤◌, ◌<◌, min, ◌≡◌, ◌≢◌, refl, ◌⊎◌, inl, inr, List, [], ◌∷◌, arith, Bool, true,
  false, not, ◌&&◌, if◌then◌else◌, Bool-cases, length, sym, ◌∙◌, ℤ, pos, negsuc, eqb_ℤ, eqb_ℤ_iff,
  leb, ltb_ℤ, ◌≤ℤ◌,
}
use pinpoint_c_agent.Cache.State.{ProcessState, now_of, check_trace_limit}

-- The traces of the second `t` that a history of calls, each with its clock and its argument, admits.
unfoldable pub admitted : ℤ → List (ℤ × ℤ) → ProcessState → ℕ
admitted t [] s = 0
admitted t ((clock, time) ∷ calls) s =
    let (limited, s') = check_trace_limit clock time s in
    (if eqb_ℤ (now_of clock time) t && not limited then 1 else 0) + admitted t calls s'

-- The traces that the state has counted for the second `t`.
abbrev pub used : ℤ → ProcessState → ℕ
used t s = if eqb_ℤ s.timestamp t then (elim s.tick [ pos n ↦ n | negsuc n ↦ 0 ]) else 0

-- The count is a number between 0 and the limit `n`.
pub record IsLimited (n : ℕ) (s : ProcessState) : Type 0 where
  pub limit : s.trace_limit ≡ pos n
  pub positive : 0 < n
  pub small : n < 2 ^ 63
  pub count : ℕ
  pub counted : s.tick ≡ pos count
  pub within : count ≤ n

-- What one call does under a positive limit.
abbrev Checked : ℕ → ProcessState → ℕ → ℤ → Bool × ProcessState → Type 0
Checked n s count now r =
    ((s.timestamp ≡ now) × (count < n) × (r ≡ (false, record s { tick = pos (count + 1) })))
    ⊎ ((s.timestamp ≡ now) × (n ≤ count) × (r ≡ (true, s)))
    ⊎ ((s.timestamp ≢ now) × (r ≡ (false, record s { timestamp = now; tick = pos 1 })))

check_trace_limit-Checked :
    (n : ℕ) (s : ProcessState) (clock time : ℤ) (l : IsLimited n s)
    → Checked n s l.count (now_of clock time) (check_trace_limit clock time s)
unfolding check_trace_limit
check_trace_limit-Checked n s clock time l =
    elim (Bool-cases (eqb_ℤ s.timestamp (now_of clock time))) [
      | inl same ↦ elim (Bool-cases (leb n l.count)) [
        | inl full ↦
            inr (inl ((eqb_ℤ_iff _ _).0 same, ground arith, ground (arith, l.limit, l.counted)))
        | inr room ↦ inl ((eqb_ℤ_iff _ _).0 same, ground arith, ground (arith, l.limit, l.counted))
      ]
      | inr other ↦ inr (inr ((λ e. cc ((eqb_ℤ_iff _ _).1 e)), ground (arith, l.limit, l.counted)))
    ]

-- The state after one call keeps its limit.
next-IsLimited :
    (n : ℕ) (s : ProcessState) (now : ℤ) (count : ℕ)
    → IsLimited n s
    → count ≤ n
    → IsLimited n (record s { timestamp = now; tick = pos count })
next-IsLimited n s now count l h = record {
  limit = l.limit;
  positive = l.positive;
  small = l.small;
  count = count;
  counted = refl;
  within = h;
}

abbrev pub AllAt : ℤ → List (ℤ × ℤ) → Type 0
AllAt t [] = Unit
AllAt t ((clock, time) ∷ calls) = (now_of clock time ≡ t) × AllAt t calls

used_at : (s : ProcessState) (t : ℤ) (k : ℕ) → s.timestamp ≡ t → s.tick ≡ pos k → used t s ≡ k
used_at s t k e h = rw ((eqb_ℤ_iff s.timestamp t).1 e, h)

used_elsewhere : (s : ProcessState) (t : ℤ) → s.timestamp ≢ t → used t s ≡ 0
used_elsewhere s t e = elim (Bool-cases (eqb_ℤ s.timestamp t)) [
  | inl same ↦ absurd (e ((eqb_ℤ_iff _ _).0 same))
  | inr other ↦ rw other
]

-- Under a limit of n > 0 traces, calls in one second t are admitted until n are counted for t, and
-- no further: of k calls exactly the first n - used, or all k where these are fewer.
pub admitted_same_second :
    (t : ℤ) (n : ℕ) (calls : List (ℤ × ℤ)) (s : ProcessState)
    → IsLimited n s
    → AllAt t calls
    → admitted t calls s ≡ min (length calls) (n - used t s)
unfolding admitted
admitted_same_second t n [] s l h = omega arith
admitted_same_second t n ((clock, time) ∷ calls) s l (e, h) =
    let at : eqb_ℤ (now_of clock time) t ≡ true = (eqb_ℤ_iff _ _).1 e in
    elim (check_trace_limit-Checked n s clock time l) [
      | inl (same, room, r) ↦
          let l' = next-IsLimited n s s.timestamp (l.count + 1) l (omega arith) in
          let ih = admitted_same_second t n calls (record s { tick = pos (l.count + 1) }) l' h in
          rw (at, r)
            (omega (
              arith,
              ih,
              used_at s t l.count (same ∙ e) l.counted,
              used_at (record s { tick = pos (l.count + 1) }) t (l.count + 1) (same ∙ e) refl,
            ))
      | inr (inl (same, full, r)) ↦
          let ih = admitted_same_second t n calls s l h in
          rw (at, r) (omega (arith, ih, used_at s t l.count (same ∙ e) l.counted))
      | inr (inr (other, r)) ↦
          let l' = next-IsLimited n s (now_of clock time) 1 l l.positive in
          let ih =
            admitted_same_second t n calls
              (record s { timestamp = now_of clock time; tick = pos 1 }) l' h in
          rw (at, r)
            (omega (
              arith,
              ih,
              l.positive,
              used_elsewhere s t (λ q. other (q ∙ sym e)),
              used_at (record s { timestamp = now_of clock time; tick = pos 1 }) t 1 e refl,
            ))
    ]

-- Clocks that do not run backwards, from the second `lo` on.
abbrev pub Rising : ℤ → List (ℤ × ℤ) → Type 0
Rising lo [] = Unit
Rising lo ((clock, time) ∷ calls) = (lo ≤ℤ now_of clock time) × Rising (now_of clock time) calls

-- What may still be admitted for the second `t`: nothing once it has passed.
abbrev pub allowance : ℤ → ℕ → ProcessState → ℕ
allowance t n s = if ltb_ℤ t s.timestamp then 0 else n - used t s

-- Under a limit of n > 0, over calls whose clock does not run backwards, the traces admitted for a
-- second t are at most n less those counted before, and none where t has passed.
pub admitted-allowance :
    (t : ℤ) (n : ℕ) (calls : List (ℤ × ℤ)) (s : ProcessState)
    → IsLimited n s
    → Rising s.timestamp calls
    → admitted t calls s ≤ allowance t n s
unfolding admitted
admitted-allowance t n [] s l h = omega arith
admitted-allowance t n ((clock, time) ∷ calls) s l (e, h) =
    elim (check_trace_limit-Checked n s clock time l) [
      | inl (same, room, r) ↦
          let l' = next-IsLimited n s s.timestamp (l.count + 1) l (omega arith) in
          let ih =
            admitted-allowance t n calls (record s { tick = pos (l.count + 1) }) l' (rw same h) in
          rw r (ground (arith, ih, l.counted, same))
      | inr (inl (same, full, r)) ↦
          let ih = admitted-allowance t n calls s l (rw same h) in
          rw r (ground (arith, ih, l.counted, same))
      | inr (inr (other, r)) ↦
          let l' = next-IsLimited n s (now_of clock time) 1 l l.positive in
          let ih =
            admitted-allowance t n calls (record s { timestamp = now_of clock time; tick = pos 1 })
              l' h in
          rw r (ground (arith, ih, l.counted, l.positive))
    ]
