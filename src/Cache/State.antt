-- ===== src/Cache/State.antt =====
-- common/src/Cache/State.h and State.cpp: what one process keeps: the rate limit on traces, the
-- unique id, and the start time that the collector agent announces. The clock is an argument.
pub mod Limit
pub mod Start
use pinpoint_c_agent.Base.{
  ℕ, ◌-◌, ◌^◌, Bool, true, false, if◌then◌else◌, ℤ, pos, negsuc, eqb_ℤ, leb_ℤ, ltb_ℤ, ◌+ℤ◌,
}

pub record ProcessState : Type 0 where
  pub tick : ℤ
  pub timestamp : ℤ
  pub starttime : ℕ
  pub trace_limit : ℤ
  pub uuid : ℤ
  pub ready : Bool

-- An int64_t incremented, as std::atomic does it.
abbrev pub inc64 : ℤ → ℤ
inc64 a = if eqb_ℤ a (pos (2 ^ 63 - 1)) then negsuc (2 ^ 63 - 1) else a +ℤ pos 1

-- The constructor, at the time `now_ms`.
unfoldable pub new_state : ℕ → ℤ → ProcessState
new_state now_ms trace_limit = record {
  tick = pos 0;
  timestamp = pos 0;
  starttime = now_ms;
  trace_limit = trace_limit;
  uuid = pos 0;
  ready = false;
}

unfoldable pub get_unique_id : ProcessState → ℤ × ProcessState
get_unique_id s = (s.uuid, record s { uuid = inc64 s.uuid })

unfoldable pub reset_unique_id : ProcessState → ProcessState
reset_unique_id s = record s { uuid = pos 0 }

abbrev pub is_ready : ProcessState → Bool
is_ready s = s.ready

abbrev pub get_start_time : ProcessState → ℕ
get_start_time s = s.starttime

unfoldable pub set_start_time : ℕ → ProcessState → ProcessState
set_start_time start_time s =
    if s.ready then s else record s { starttime = start_time; ready = true }

-- The second that a call counts for: the caller's, or the clock's if that is -1.
abbrev pub now_of : ℤ → ℤ → ℤ
now_of clock time = if eqb_ℤ time (negsuc 0) then clock else time

-- The answer is true for a trace that is to be dropped.
unfoldable pub check_trace_limit : ℤ → ℤ → ProcessState → Bool × ProcessState
check_trace_limit clock time s =
    let now = now_of clock time in
    if eqb_ℤ s.trace_limit (negsuc 0)
    then (false, s)
    else (if eqb_ℤ s.trace_limit (pos 0)
        then (true, s)
        else (if eqb_ℤ s.timestamp now
            then (if leb_ℤ s.trace_limit s.tick
                then (true, s)
                else (false, record s { tick = inc64 s.tick }))
            else (false, record s { timestamp = now; tick = inc64 (pos 0) })))
