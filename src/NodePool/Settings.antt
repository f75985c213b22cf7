-- ===== src/NodePool/Settings.antt =====
-- The contexts of a node as a map, and the option callbacks that decide whether a node is skipped.
use text.Mathlib.TextEquality.{eq_iff}
use text.Mathlib.Text.{◌==◌ as str_eq}
use pinpoint_c_agent.Base.{
  ◌≡◌, ◌⊎◌, ◌≢◌, refl, ap, subst, ◌∙◌, sym, inl, inr, Bool, true, false, ◌||◌, Bool-cases, List, [],
  ◌∷◌, if◌then◌else◌, String, leb_ℤ, ok, arith,
}
use pinpoint_c_agent.NodePool.Node.{
  ContextType, put_context, find_context, UserOption, trace_min_time_ms, trace_only_exception,
  TraceNode, run_option, run_options, run_user_option_func,
}

-- Setting a context is read back under its key, and leaves every other key as it was.
pub find_context-put_context :
    (key other : String) (c : ContextType) (m : List (String × ContextType))
    → find_context other (put_context key c m)
      ≡ (if str_eq key other then ok c else find_context other m)
unfolding find_context put_context
find_context-put_context key other c [] = refl
find_context-put_context key other c ((k, d) ∷ rest) = elim (Bool-cases (str_eq k key)) [
  | inl same ↦
      let e : k ≡ key = (eq_iff k key).0 same in
      rw (same, e) (elim (Bool-cases (str_eq key other)) [ inl hit ↦ rw hit | inr miss ↦ rw miss ])
  | inr differ ↦ rw differ (elim (Bool-cases (str_eq k other)) [
    | inr miss ↦ rw miss (find_context-put_context key other c rest)
    | inl hit ↦ elim (Bool-cases (str_eq key other)) [
      | inr other_key ↦ rw (hit, other_key)
      | inl same_key ↦
          let e : k ≡ key = (eq_iff k other).0 hit ∙ sym ((eq_iff key other).0 same_key) in
          absurd (cc (sym differ ∙ (eq_iff k key).1 e))
    ]
  ])
]

module _ {V : Type 0} where
  -- What an option asks of a node.
  abbrev pub keeps : TraceNode V → UserOption → Bool
  keeps node (trace_min_time_ms min) = leb_ℤ min node.expired_time
  keeps node trace_only_exception = node.set_exp

  abbrev pub any_keeps : TraceNode V → List UserOption → Bool
  any_keeps node [] = false
  any_keeps node (o ∷ os) = keeps node o || any_keeps node os

  run_option-keeps :
      (o : UserOption) (node : TraceNode V)
      → ((run_option o node).0 ≡ keeps node o)
        × ((run_option o node).0 ≡ false → (run_option o node).1.skipped ≡ true)
  unfolding run_option
  run_option-keeps (trace_min_time_ms min) node = ground arith
  run_option-keeps trace_only_exception node = ground arith

  -- A callback changes nothing that a later one asks.
  keeps-run_option :
      (o o' : UserOption) (node : TraceNode V) → keeps (run_option o node).1 o' ≡ keeps node o'
  unfolding run_option
  keeps-run_option (trace_min_time_ms min) (trace_min_time_ms min') node = ground arith
  keeps-run_option (trace_min_time_ms min) trace_only_exception node = ground arith
  keeps-run_option trace_only_exception (trace_min_time_ms min') node = refl
  keeps-run_option trace_only_exception trace_only_exception node = refl

  any_keeps-run_option :
      (o : UserOption) (os : List UserOption) (node : TraceNode V)
      → any_keeps (run_option o node).1 os ≡ any_keeps node os
  any_keeps-run_option o [] node = refl
  any_keeps-run_option o (o' ∷ os) node =
      rw (keeps-run_option o o' node, any_keeps-run_option o os node)

  -- The answer is that of the options, and a node that is not kept is marked.
  abbrev pub Decides : List UserOption → TraceNode V → Bool × TraceNode V → Type 0
  Decides os node r = (r.0 ≡ any_keeps node os) × (r.0 ≡ false → r.1.skipped ≡ true)

  run_options-Decides :
      (o : UserOption) (os : List UserOption) (ret : Bool) (node : TraceNode V)
      → Decides (o ∷ os) node (run_options (o ∷ os) ret node)
  unfolding run_options
  run_options-Decides o [] ret node =
      let (answer, skip) = run_option-keeps o node in
      elim (Bool-cases (keeps node o)) [
        | inl kept ↦ rw (answer, kept) (refl, λ e. cc)
        | inr dropped ↦ rw (answer, dropped) (refl, λ e. skip (answer ∙ dropped))
      ]
  run_options-Decides o (o' ∷ os) ret node =
      let (answer, skip) = run_option-keeps o node in
      let rest = run_options-Decides o' os false (run_option o node).1 in
      elim (Bool-cases (keeps node o)) [
        | inl kept ↦ rw (answer, kept) (refl, λ e. cc)
        | inr dropped ↦
            rw (answer, dropped) (rest.0 ∙ any_keeps-run_option o (o' ∷ os) node, rest.1)
      ]

  -- A node without options is kept. With options it is kept exactly when the callback of one of them
  -- holds of it, wherever that stands among the others; and when it is not kept it is marked as skipped.
  pub run_user_option_func-keeps :
      (node : TraceNode V)
      → let r = run_user_option_func node in
        ((node.user_options ≡ []) × (r ≡ (true, node)))
        ⊎ ((node.user_options ≢ []) × Decides node.user_options node r)
  unfolding run_user_option_func run_options
  run_user_option_func-keeps node = by_options node.user_options refl
    where
      by_options :
          (os : List UserOption)
          → node.user_options ≡ os
          → let r = run_user_option_func node in
            ((node.user_options ≡ []) × (r ≡ (true, node)))
            ⊎ ((node.user_options ≢ []) × Decides node.user_options node r)
      by_options [] e = inl (e, ap (λ l. run_options l true node) e)
      by_options (o ∷ os) e = inr (
        (λ z. cc (sym e ∙ z)),
        subst (λ l. Decides l node (run_options l true node)) (sym e)
            (run_options-Decides o os true node),
      )
