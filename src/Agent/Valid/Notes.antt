-- ===== src/Agent/Valid/Notes.antt =====
-- The questions and the annotations of the agent keep the node pool well formed.
use pinpoint_c_agent.Base.{ℕ, Bool, Bool-cases, inl, inr, String, ℤ}
use pinpoint_c_agent.NodePool.Node.{Json}
use pinpoint_c_agent.NodePool.Finish.Encode.{append_annotation-IsValid}
use pinpoint_c_agent.Agent.{
  NodeLoc, loc_current, loc_root, is_root_trace, get_depth, change_trace_status, get_sequence_id,
  add_trace_context, get_trace_context,
}
use pinpoint_c_agent.Agent.Annotate.{
  is_internal, not_internal_key, annotate_trace_v1, annotate_trace_v2, annotate_error_trace,
  annotate_exception_trace, set_async_context,
}
use pinpoint_c_agent.Agent.Valid.{
  Keeps, >>>-Keeps, refer-read-Keeps, read-Keeps, write-Keeps, wrapper-read-Keeps,
  wrapper-write-Keeps, get_wrapper_trace_node-Keeps,
}

module _ {V : Type 0} where
  pub is_root_trace-Keeps : (id : ℤ) → Keeps (is_root_trace {V = V} id)
  unfolding is_root_trace
  is_root_trace-Keeps id = >>>-Keeps _ _ (refer-read-Keeps id) (λ node q w. w)

  pub get_depth-Keeps : (id : ℤ) → Keeps (get_depth {V = V} id)
  unfolding get_depth
  get_depth-Keeps id = >>>-Keeps _ _ (refer-read-Keeps id) (λ node q w. w)

  pub get_sequence_id-Keeps : (id : ℤ) → Keeps (get_sequence_id {V = V} id)
  unfolding get_sequence_id
  get_sequence_id-Keeps id = >>>-Keeps _ _ (wrapper-read-Keeps id loc_current) (λ node q w. w)

  pub change_trace_status-Keeps : (id status : ℤ) → Keeps (change_trace_status {V = V} id status)
  unfolding change_trace_status
  change_trace_status-Keeps id status =
      >>>-Keeps _ _ (get_wrapper_trace_node-Keeps id loc_root) (λ r.
        >>>-Keeps _ _ (read-Keeps r)
          (λ root. >>>-Keeps _ _ (λ q w. w) (λ old. >>>-Keeps _ _ (write-Keeps r _) (λ i q w. w))))

  pub add_trace_context-Keeps :
      (id : ℤ) (key value : String) → Keeps (add_trace_context {V = V} id key value)
  unfolding add_trace_context
  add_trace_context-Keeps id key value = wrapper-write-Keeps id loc_root _

  pub get_trace_context-Keeps :
      (id : ℤ) (key : String) (has_buf : Bool) (buf_size : ℤ)
      → Keeps (get_trace_context {V = V} id key has_buf buf_size)
  unfolding get_trace_context
  get_trace_context-Keeps id key has_buf buf_size =
      >>>-Keeps _ _ (wrapper-read-Keeps id loc_root)
        (λ root. >>>-Keeps _ _ (λ q w. w) (λ text q w. w))

  not_internal_key-Keeps : (key : String) → Keeps (not_internal_key {V = V} key)
  unfolding not_internal_key
  not_internal_key-Keeps key p v = elim (Bool-cases (is_internal key)) [
    | inl refused ↦ rw refused v
    | inr fine ↦ rw fine v
  ]

module _ {V : Type 0} ⦃j : Json V⦄ where
  pub annotate_trace_v1-Keeps :
      (id : ℤ) (key value : String) (flag : NodeLoc)
      → Keeps {V = V} (annotate_trace_v1 id key value flag)
  unfolding annotate_trace_v1
  annotate_trace_v1-Keeps id key value flag =
      >>>-Keeps _ _ (not_internal_key-Keeps key) (λ _. wrapper-write-Keeps id flag _)

  pub annotate_trace_v2-Keeps :
      (id : ℤ) (key value : String) (flag : NodeLoc)
      → Keeps {V = V} (annotate_trace_v2 id key value flag)
  unfolding annotate_trace_v2
  annotate_trace_v2-Keeps id key value flag = >>>-Keeps _ _ (not_internal_key-Keeps key) (λ _.
      >>>-Keeps _ _ (get_wrapper_trace_node-Keeps id flag)
        (λ i p v. append_annotation-IsValid i "anno" _ p v))

  pub annotate_error_trace-Keeps :
      (id : ℤ) (msg file : String) (line : ℕ)
      → Keeps {V = V} (annotate_error_trace id msg file line)
  unfolding annotate_error_trace
  annotate_error_trace-Keeps id msg file line = wrapper-write-Keeps id loc_root _

  pub set_async_context-Keeps : (id n s : ℤ) → Keeps {V = V} (set_async_context id n s)
  unfolding set_async_context
  set_async_context-Keeps id n s = wrapper-write-Keeps id loc_root _

  pub annotate_exception_trace-Keeps :
      (now : ℕ) (id : ℤ) (text : String) → Keeps {V = V} (annotate_exception_trace now id text)
  unfolding annotate_exception_trace
  annotate_exception_trace-Keeps now id text =
      >>>-Keeps _ _ (get_wrapper_trace_node-Keeps id loc_current) (λ i.
        >>>-Keeps _ _ (write-Keeps i _) (λ _.
          >>>-Keeps _ _ (get_wrapper_trace_node-Keeps id loc_root) (λ r.
            >>>-Keeps _ _ (write-Keeps r _)
              (λ _. >>>-Keeps _ _ (read-Keeps r) (λ root. write-Keeps i _)))))
