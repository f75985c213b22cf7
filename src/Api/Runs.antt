-- ===== src/Api/Runs.antt =====
-- Every run of a traced program keeps its node pool well formed.
use pinpoint_c_agent.Base.{
  zero, suc, pos, negsuc, if◌then◌else◌, ℕ, ◌≡◌, refl, subst, inl, inr, Bool, true, false,
  Bool-cases, List, Option, none, some, ℤ, eqb_ℤ, Result, ok, err, some-injective,
}
use pinpoint_c_agent.NodePool.Node.{Json, e_root_node, e_invalid_node}
use pinpoint_c_agent.NodePool.Pool.{PoolManager}
use pinpoint_c_agent.NodePool.Valid.{IsValid}
use pinpoint_c_agent.ConnectionPool.Connect.{Sockets}
use pinpoint_c_agent.ConnectionPool.Spans.{destroy_all}
use pinpoint_c_agent.Agent.{Action}
use pinpoint_c_agent.Agent.Greeting.{Hello}
use pinpoint_c_agent.Agent.Trace.{Agent, Outside, new_agent, agent_end_trace}
use pinpoint_c_agent.Agent.Valid.{Keeps}
use pinpoint_c_agent.Agent.Valid.Notes.{
  is_root_trace-Keeps, get_depth-Keeps, get_sequence_id-Keeps, change_trace_status-Keeps,
  add_trace_context-Keeps, get_trace_context-Keeps, annotate_trace_v1-Keeps,
  annotate_trace_v2-Keeps, annotate_error_trace-Keeps, annotate_exception_trace-Keeps,
  set_async_context-Keeps,
}
use pinpoint_c_agent.Agent.Valid.Start.{agent_start_trace-Keeps}
use pinpoint_c_agent.Agent.Valid.End.{agent_end_trace-Leaves}
use pinpoint_c_agent.Api.{
  Runtime, answer, guarded, pinpoint_set_agent, pinpoint_stop_agent, pinpoint_update_per_thread_id,
  pinpoint_start_trace_v1, ended, end_with_agent, or_invalid, pinpoint_end_trace, force_next,
  force_loop, pinpoint_force_end_trace,
}
use pinpoint_c_agent.Api.Calls.{
  pinpoint_trace_is_root, pinpoint_get_depth, api_change_trace_status, mark_current_trace_status,
  pinpoint_get_sequence_id, pinpoint_set_context_key, pinpoint_get_context_key, pinpoint_add_clue,
  pinpoint_add_clues, pinpoint_add_exception, catch_error, pinpoint_set_async_ctx,
}
use pinpoint_c_agent.Api.Steps.{
  Step, Run, here, next, other_threads, set_agent, stop_agent, update_id, start_trace, end_trace,
  force_end_trace, trace_is_root, depth, change_status, sequence_id, set_context, get_context,
  add_clue, add_clues, add_exception, add_error, set_async,
}

module _ {V K A B : Type 0} where
  answer-IsValid :
      (f : A → B) (default : B) (s : Runtime V K) (r : Result A × PoolManager V)
      → IsValid r.1
      → IsValid (answer f default s r).1.local_node_pool
  answer-IsValid f default s (ok a, p) v = v
  answer-IsValid f default s (err e, p) v = v

  guarded-IsValid :
      (f : A → B) (default : B) (action : Agent K → Action V A) (s : Runtime V K)
      → ((a : Agent K) → Keeps (action a))
      → IsValid s.local_node_pool
      → IsValid (guarded f default action s).1.local_node_pool
  unfolding guarded
  guarded-IsValid f default action s k v = by_agent s.agent
    where
      by_agent :
          (o : Option (Agent K))
          → IsValid
              (elim o as (λ o. B × Runtime V K) [
                | none ↦ (default, s)
                | some a ↦ answer f default s (action a s.local_node_pool)
              ]).1.local_node_pool
      by_agent none = v
      by_agent (some a) =
          answer-IsValid f default s (action a s.local_node_pool) (k a s.local_node_pool v)

module _ {V K : Type 0} where
  asked-IsValid :
      (b : Bool) (s : Runtime V K) (r : ℤ × Runtime V K)
      → IsValid s.local_node_pool
      → IsValid r.1.local_node_pool
      → IsValid (if b then (negsuc 0, s) else r).1.local_node_pool
  asked-IsValid true s r v w = v
  asked-IsValid false s r v w = w

  stop_agent-IsValid :
      (sys : Sockets K) (s : Runtime V K)
      → IsValid s.local_node_pool
      → IsValid (pinpoint_stop_agent sys s).local_node_pool
  unfolding pinpoint_stop_agent
  stop_agent-IsValid sys s v = by_agent s.agent
    where
      by_agent :
          (o : Option (Agent K))
          → IsValid
              (elim o as (λ o. Runtime V K) [
                | none ↦ s
                | some a ↦ record s {
                  agent = none;
                  kernel = destroy_all sys a.connection_pool.stack s.kernel;
                }
              ]).local_node_pool
      by_agent none = v
      by_agent (some a) = v

  set_agent-IsValid :
      (parse : List ℕ → Result Hello) (host : List ℕ) (timeout limit type : ℤ) (now : ℕ)
      (s : Runtime V K)
      → IsValid s.local_node_pool
      → IsValid (pinpoint_set_agent parse host timeout limit type now s).1.local_node_pool
  unfolding pinpoint_set_agent
  set_agent-IsValid parse host timeout limit type now s v = by_agent s.agent
    where
      by_agent :
          (o : Option (Agent K))
          → IsValid
              (elim o as (λ o. Bool × Runtime V K) [
                | none ↦
                    (true, record s { agent = some (new_agent parse host timeout limit type now) })
                | some a ↦ (false, s)
              ]).1.local_node_pool
      by_agent none = v
      by_agent (some a) = v

module _ {V K : Type 0} ⦃j : Json V⦄ (out : Outside V K) where
  -- What a call that may run out of fuel leaves, where it returns.
  abbrev Left : {A : Type 0} → Option (A × Runtime V K) → Type 0
  Left {A} o = (ret : A) (s : Runtime V K) → o ≡ some (ret, s) → IsValid s.local_node_pool

  Left-some :
      {A : Type 0} (ret : A) (s : Runtime V K) → IsValid s.local_node_pool → Left (some (ret, s))
  Left-some ret s v ret' s' e = subst (λ t. IsValid t.1.local_node_pool) (some-injective e) v

  ended-Left :
      (s : Runtime V K) (o : Option (Result ℤ × Agent K × PoolManager V × K))
      → ((r : Result ℤ) (a : Agent K) (p : PoolManager V) (k : K)
          → o ≡ some (r, a, p, k)
          → IsValid p)
      → Left (ended s o)
  ended-Left s none l = λ ret s' e. cc
  ended-Left s (some (r, a, p, k)) l = Left-some r _ (l r a p k refl)

  end_with_agent-Left :
      (fuel now : ℕ) (id timeout : ℤ) (o : Option (Agent K)) (s : Runtime V K)
      → IsValid s.local_node_pool
      → Left (end_with_agent out fuel now id timeout o s)
  end_with_agent-Left fuel now id timeout none s v = Left-some _ s v
  end_with_agent-Left fuel now id timeout (some a) s v =
      ended-Left s (agent_end_trace out fuel now id timeout a s.local_node_pool s.kernel)
        (agent_end_trace-Leaves out fuel now id timeout a s.local_node_pool s.kernel v)

  or_invalid-Left : (o : Option (Result ℤ × Runtime V K)) → Left o → Left (or_invalid o)
  or_invalid-Left none l = λ ret s' e. cc
  or_invalid-Left (some (ok id, s)) l = Left-some id s (l (ok id) s refl)
  or_invalid-Left (some (err e, s)) l = Left-some _ s (l (err e) s refl)

  pinpoint_end_trace-Left :
      (fuel now : ℕ) (id : ℤ) (s : Runtime V K)
      → IsValid s.local_node_pool
      → Left (pinpoint_end_trace out fuel now id s)
  unfolding pinpoint_end_trace
  pinpoint_end_trace-Left fuel now id s v =
      or_invalid-Left (end_with_agent out fuel now id (pos 0) s.agent s)
        (end_with_agent-Left fuel now id (pos 0) s.agent s v)

  force_next-Left :
      (again : ℤ → Runtime V K → Option (ℤ × Runtime V K)) (o : Option (Result ℤ × Runtime V K))
      → ((id : ℤ) (s : Runtime V K) → IsValid s.local_node_pool → Left (again id s))
      → Left o
      → Left (force_next again o)
  force_next-Left again none step l = λ ret s' e. cc
  force_next-Left again (some (err e, s)) step l = Left-some _ s (l (err e) s refl)
  force_next-Left again (some (ok id, s)) step l = elim (Bool-cases (eqb_ℤ id e_invalid_node)) [
    | inl stop ↦ rw stop (Left-some e_root_node s (l (ok id) s refl))
    | inr more ↦ rw more (step id s (l (ok id) s refl))
  ]

  force_loop-Left :
      (rounds fuel : ℕ) (clock : ℕ → ℕ) (id timeout : ℤ) (s : Runtime V K)
      → IsValid s.local_node_pool
      → Left (force_loop out rounds fuel clock id timeout s)
  unfolding force_loop
  force_loop-Left zero fuel clock id timeout s v = λ ret s' e. cc
  force_loop-Left (suc rounds) fuel clock id timeout s v =
      elim (Bool-cases (eqb_ℤ id e_root_node)) [
        | inl done ↦ rw done (Left-some e_root_node s v)
        | inr more ↦ rw more (
            force_next-Left (λ id' s'. force_loop out rounds fuel clock id' timeout s')
              (end_with_agent out fuel (clock rounds) id timeout s.agent s)
              (λ id' s'. force_loop-Left rounds fuel clock id' timeout s')
              (end_with_agent-Left fuel (clock rounds) id timeout s.agent s v))
      ]

  pinpoint_force_end_trace-Left :
      (rounds fuel : ℕ) (clock : ℕ → ℕ) (id timeout : ℤ) (s : Runtime V K)
      → IsValid s.local_node_pool
      → Left (pinpoint_force_end_trace out rounds fuel clock id timeout s)
  unfolding pinpoint_force_end_trace
  pinpoint_force_end_trace-Left rounds fuel clock id timeout s v = by_agent s.agent
    where
      by_agent :
          (o : Option (Agent K))
          → Left (elim o as (λ o. Option (ℤ × Runtime V K)) [
            | none ↦ some (e_invalid_node, s)
            | some a ↦ force_loop out rounds fuel clock id timeout s
          ])
      by_agent none = Left-some e_invalid_node s v
      by_agent (some a) = force_loop-Left rounds fuel clock id timeout s v

module _ {V K : Type 0} ⦃j : Json V⦄ where
  Step-IsValid :
      {s t : Runtime V K} → Step s t → IsValid s.local_node_pool → IsValid t.local_node_pool
  unfolding pinpoint_update_per_thread_id pinpoint_start_trace_v1 pinpoint_trace_is_root
      pinpoint_get_depth mark_current_trace_status api_change_trace_status pinpoint_get_sequence_id
      pinpoint_set_context_key pinpoint_get_context_key pinpoint_add_clue pinpoint_add_clues
      pinpoint_add_exception catch_error pinpoint_set_async_ctx
  Step-IsValid (other_threads a k s) v = v
  Step-IsValid (set_agent parse host timeout limit type now s) v =
      set_agent-IsValid parse host timeout limit type now s v
  Step-IsValid (stop_agent sys s) v = stop_agent-IsValid sys s v
  Step-IsValid (update_id id s) v = v
  Step-IsValid (start_trace parent_id opts now s) v =
      guarded-IsValid _ _ _ s (λ a. agent_start_trace-Keeps a.agent_type parent_id opts now) v
  Step-IsValid (end_trace out fuel now id s s' ret e) v =
      pinpoint_end_trace-Left out fuel now id s v ret s' e
  Step-IsValid (force_end_trace out rounds fuel clock id timeout s s' ret e) v =
      pinpoint_force_end_trace-Left out rounds fuel clock id timeout s v ret s' e
  Step-IsValid (trace_is_root id s) v =
      asked-IsValid (eqb_ℤ id e_root_node) s _ v
        (guarded-IsValid _ _ _ s (λ a. is_root_trace-Keeps id) v)
  Step-IsValid (depth id s) v =
      asked-IsValid (eqb_ℤ id e_root_node) s _ v
        (guarded-IsValid _ _ _ s (λ a. get_depth-Keeps id) v)
  Step-IsValid (change_status id status s) v =
      guarded-IsValid _ _ _ s (λ a. change_trace_status-Keeps id status) v
  Step-IsValid (sequence_id id s) v = guarded-IsValid _ _ _ s (λ a. get_sequence_id-Keeps id) v
  Step-IsValid (set_context id key value s) v =
      guarded-IsValid _ _ _ s (λ a. add_trace_context-Keeps id key value) v
  Step-IsValid (get_context id key has_buf buf_size s) v =
      guarded-IsValid _ _ _ s (λ a. get_trace_context-Keeps id key has_buf buf_size) v
  Step-IsValid (add_clue id key value flag s) v =
      guarded-IsValid _ _ _ s (λ a. annotate_trace_v1-Keeps id key value flag) v
  Step-IsValid (add_clues id key value flag s) v =
      guarded-IsValid _ _ _ s (λ a. annotate_trace_v2-Keeps id key value flag) v
  Step-IsValid (add_exception now id text s) v =
      guarded-IsValid _ _ _ s (λ a. annotate_exception_trace-Keeps now id text) v
  Step-IsValid (add_error id msg file line s) v =
      guarded-IsValid _ _ _ s (λ a. annotate_error_trace-Keeps id msg file line) v
  Step-IsValid (set_async id n seq s) v =
      guarded-IsValid _ _ _ s (λ a. set_async_context-Keeps id n seq) v

  -- A thread whose node pool is well formed, as a new pool is, has a well-formed pool after any
  -- number of calls of the C interface, in any order and with any arguments, whether the calls
  -- succeed or fail, and whatever the other threads do to the agent, the connections and the
  -- kernel between them.
  pub Run-IsValid :
      {s t : Runtime V K} → Run s t → IsValid s.local_node_pool → IsValid t.local_node_pool
  Run-IsValid here v = v
  Run-IsValid (next run step) v = Step-IsValid step (Run-IsValid run v)
