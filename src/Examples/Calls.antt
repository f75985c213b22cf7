-- ===== src/Examples/Calls.antt =====
-- Calls of the C interface on concrete inputs, and two versions.
use pinpoint_c_agent.Base.{ℕ, ◌≡◌, List, [], ◌∷◌, some, none, String, arith, Result, ok, pos}
use pinpoint_c_agent.NodePool.Valid.{IsValid, new_pool-IsValid}
use pinpoint_c_agent.Agent.Greeting.{Hello}
use pinpoint_c_agent.Agent.{loc_root}
use pinpoint_c_agent.Api.{Runtime, pinpoint_set_agent, pinpoint_start_trace_v1}
use pinpoint_c_agent.Api.Calls.{pinpoint_add_clue}
use pinpoint_c_agent.Api.Steps.{Run, here, next, set_agent, start_trace, add_clue}
use pinpoint_c_agent.Api.Runs.{Run-IsValid}
use pinpoint_c_agent.Version.{compare_version}
use pinpoint_c_agent.Version.Texts.{plain, small_v, AllParts, compare_version-version_text}
use pinpoint_c_agent.Examples.Pool.{key_json, fresh_pool}

-- "v0.10" and "0.7.0".
abbrev newer : List (List ℕ)
newer = (0 ∷ []) ∷ (1 ∷ 0 ∷ []) ∷ []

abbrev older : List (List ℕ)
older = (0 ∷ []) ∷ (7 ∷ []) ∷ (0 ∷ []) ∷ []

newer-AllParts : AllParts newer
newer-AllParts = (
  omega arith,
  (omega arith, tt),
  omega arith,
  (omega arith, (omega arith, (omega arith, tt)), omega arith, tt),
)

older-AllParts : AllParts older
older-AllParts = (
  omega arith,
  (omega arith, tt),
  omega arith,
  (omega arith, (omega arith, tt), omega arith, (omega arith, (omega arith, tt), omega arith, tt)),
)

compare_version-version_text_example :
    compare_version (b'v' ∷ b'0' ∷ b'.' ∷ b'1' ∷ b'0' ∷ []) (b'0' ∷ b'.' ∷ b'7' ∷ b'.' ∷ b'0' ∷ [])
    ≡ some (pos 1)
compare_version-version_text_example =
    compare_version-version_text small_v plain newer older newer-AllParts older-AllParts

abbrev no_hello : List ℕ → Result Hello
no_hello text = ok (record { version = none; time = none })

abbrev no_agent : Runtime (List String) ℕ
no_agent = record {
  agent = none;
  local_node_pool = fresh_pool;
  per_thread_current_id = pos 0;
  kernel = 0;
}

abbrev with_agent : Runtime (List String) ℕ
with_agent = (pinpoint_set_agent no_hello [] (pos 0) (pos 0) (pos 1500) 1 no_agent).1

abbrev started : Runtime (List String) ℕ
started = (pinpoint_start_trace_v1 (pos 0) [] 5 with_agent).1

abbrev noted : Runtime (List String) ℕ
noted = (pinpoint_add_clue (pos 128) "key" "value" loc_root started).1

three_calls : Run no_agent noted
three_calls =
    next
      (next (next here (set_agent no_hello [] (pos 0) (pos 0) (pos 1500) 1 no_agent))
        (start_trace (pos 0) [] 5 with_agent))
      (add_clue (pos 128) "key" "value" loc_root started)

Run-IsValid_example : IsValid noted.local_node_pool
Run-IsValid_example = Run-IsValid three_calls new_pool-IsValid
