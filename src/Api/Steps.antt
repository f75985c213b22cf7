-- ===== src/Api/Steps.antt =====
-- A run of a traced program: the calls of the C interface that one thread makes, in any order, with
-- whatever the other threads do to the agent between them. The pool and the current id are the
-- thread's own.
use pinpoint_c_agent.Base.{ℕ, ◌≡◌, Bool, List, Option, some, String, ℤ, Result}
use pinpoint_c_agent.ConnectionPool.Connect.{Sockets}
use pinpoint_c_agent.NodePool.Node.{Json}
use pinpoint_c_agent.Agent.{NodeLoc}
use pinpoint_c_agent.Agent.Greeting.{Hello}
use pinpoint_c_agent.Agent.Trace.{Agent, Outside}
use pinpoint_c_agent.Api.{
  Runtime, pinpoint_set_agent, pinpoint_stop_agent, pinpoint_update_per_thread_id,
  pinpoint_start_trace_v1, pinpoint_end_trace, pinpoint_force_end_trace,
}
use pinpoint_c_agent.Api.Calls.{
  pinpoint_trace_is_root, pinpoint_get_depth, mark_current_trace_status, pinpoint_get_sequence_id,
  pinpoint_set_context_key, pinpoint_get_context_key, pinpoint_add_clue, pinpoint_add_clues,
  pinpoint_add_exception, catch_error, pinpoint_set_async_ctx,
}

module _ {V K : Type 0} ⦃j : Json V⦄ where
  -- One call, or something that another thread does.
  pub data Step : Runtime V K → Runtime V K → Type 0 where
    other_threads :
        (a : Option (Agent K)) (k : K) (s : Runtime V K)
        → Step s (record s { agent = a; kernel = k })
    set_agent :
        (parse : List ℕ → Result Hello) (host : List ℕ) (timeout limit type : ℤ) (now : ℕ)
        (s : Runtime V K)
        → Step s (pinpoint_set_agent parse host timeout limit type now s).1
    stop_agent : (sys : Sockets K) (s : Runtime V K) → Step s (pinpoint_stop_agent sys s)
    update_id : (id : ℤ) (s : Runtime V K) → Step s (pinpoint_update_per_thread_id id s)
    start_trace :
        (parent_id : ℤ) (opts : List (List ℕ)) (now : ℕ) (s : Runtime V K)
        → Step s (pinpoint_start_trace_v1 parent_id opts now s).1
    end_trace :
        (out : Outside V K) (fuel now : ℕ) (id : ℤ) (s s' : Runtime V K) (ret : ℤ)
        → pinpoint_end_trace out fuel now id s ≡ some (ret, s')
        → Step s s'
    force_end_trace :
        (out : Outside V K) (rounds fuel : ℕ) (clock : ℕ → ℕ) (id timeout : ℤ) (s s' : Runtime V K)
        (ret : ℤ)
        → pinpoint_force_end_trace out rounds fuel clock id timeout s ≡ some (ret, s')
        → Step s s'
    trace_is_root : (id : ℤ) (s : Runtime V K) → Step s (pinpoint_trace_is_root id s).1
    depth : (id : ℤ) (s : Runtime V K) → Step s (pinpoint_get_depth id s).1
    change_status :
        (id status : ℤ) (s : Runtime V K) → Step s (mark_current_trace_status id status s).1
    sequence_id : (id : ℤ) (s : Runtime V K) → Step s (pinpoint_get_sequence_id id s).1
    set_context :
        (id : ℤ) (key value : String) (s : Runtime V K)
        → Step s (pinpoint_set_context_key id key value s).1
    get_context :
        (id : ℤ) (key : String) (has_buf : Bool) (buf_size : ℤ) (s : Runtime V K)
        → Step s (pinpoint_get_context_key id key has_buf buf_size s).1
    add_clue :
        (id : ℤ) (key value : String) (flag : NodeLoc) (s : Runtime V K)
        → Step s (pinpoint_add_clue id key value flag s).1
    add_clues :
        (id : ℤ) (key value : String) (flag : NodeLoc) (s : Runtime V K)
        → Step s (pinpoint_add_clues id key value flag s).1
    add_exception :
        (now : ℕ) (id : ℤ) (text : String) (s : Runtime V K)
        → Step s (pinpoint_add_exception now id text s).1
    add_error :
        (id : ℤ) (msg file : String) (line : ℕ) (s : Runtime V K)
        → Step s (catch_error id msg file line s).1
    set_async : (id n seq : ℤ) (s : Runtime V K) → Step s (pinpoint_set_async_ctx id n seq s).1

  pub data Run (s : Runtime V K) : Runtime V K → Type 0 where
    here : Run s s
    next : {t u : Runtime V K} → Run s t → Step t u → Run s u
