-- ===== src/NodePool/Finish/Options.antt =====
-- The options of a node change nothing else of it.
use pinpoint_c_agent.Base.{
  ℕ, ◌≡◌, refl, ap, ◌∙◌, subst, inl, inr, Bool-cases, List, [], ◌∷◌, ℤ, Result, ok, err, ◌>>=◌,
  stoll,
}
use pinpoint_c_agent.NodePool.Node.{TraceNode, trace_min_time_ms, trace_only_exception}
use pinpoint_c_agent.NodePool.Finish.{
  min_time_key, only_exception_key, same_text, split_colon, option_text, push_option,
  parse_user_option, set_node_user_option,
}

module _ {V : Type 0} where
  -- Options change the list of options of a node and nothing else.
  unfoldable pub KeepsNode : TraceNode V → TraceNode V → Type 0
  KeepsNode n m = m ≡ record n { user_options = m.user_options }

  parse_user_option-keeps :
      (key value : List ℕ) (n m : TraceNode V)
      → parse_user_option key value n ≡ ok m
      → KeepsNode n m
  unfolding parse_user_option KeepsNode
  parse_user_option-keeps key value n m = elim (Bool-cases (same_text key min_time_key)) [
    | inl min_time ↦ rw min_time (by_number (stoll value))
    | inr other ↦ elim (Bool-cases (same_text key only_exception_key)) [
      | inl only ↦ rw (other, only) (kept (push_option trace_only_exception n) refl)
      | inr unknown ↦ rw (other, unknown) (kept n refl)
    ]
  ]
    where
      result_or : TraceNode V → Result (TraceNode V) → TraceNode V
      result_or d (ok m) = m
      result_or d (err e) = d

      kept :
          (m' : TraceNode V)
          → m' ≡ record n { user_options = m'.user_options }
          → ok m' ≡ ok m
          → m ≡ record n { user_options = m.user_options }
      kept m' e z =
          subst (λ m. m ≡ record n { user_options = m.user_options }) (ap (result_or m') z) e

      by_number :
          (r : Result ℤ)
          → (r >>= λ min. ok (push_option (trace_min_time_ms min) n)) ≡ ok m
          → m ≡ record n { user_options = m.user_options }
      by_number (err e) z = cc
      by_number (ok min) z = kept (push_option (trace_min_time_ms min) n) refl z

  pub set_node_user_option-keeps :
      (opts : List (List ℕ)) (n : TraceNode V) → KeepsNode n (set_node_user_option opts n).1
  unfolding set_node_user_option KeepsNode
  set_node_user_option-keeps [] n = refl
  set_node_user_option-keeps (o ∷ os) n =
      by_result (parse_user_option key value n) refl (λ m. set_node_user_option-keeps os m)
    where
      key : List ℕ
      key = (split_colon o).0

      value : List ℕ
      value = option_text (split_colon o).1

      by_result :
          (r : Result (TraceNode V))
          → parse_user_option key value n ≡ r
          → ((m : TraceNode V)
              → (set_node_user_option os m).1
                ≡ record m { user_options = (set_node_user_option os m).1.user_options })
          → let n' =
              (elim r as (λ r. Result ℕ × TraceNode V) [
                | err e ↦ (err e, n)
                | ok m ↦ set_node_user_option os m
              ]).1 in
            n' ≡ record n { user_options = n'.user_options }
      by_result (err e) bad rest = refl
      by_result (ok m) good rest =
          let stored : TraceNode V → TraceNode V =
            λ k. record k { user_options = (set_node_user_option os m).1.user_options } in
          rest m ∙ ap stored (parse_user_option-keeps key value n m good)
