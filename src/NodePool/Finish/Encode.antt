-- ===== src/NodePool/Finish/Encode.antt =====
-- Encoding a trace ends, reaches every node of its chain, and keeps the chain as it is.
use pinpoint_c_agent.Base.{
  ℕ, zero, suc, ◌<◌, ◌≡◌, refl, sym, ap, ◌∙◌, subst, ◌⊎◌, inl, inr, Error, err, Bool, true, false,
  Bool-cases, List, [], ◌∷◌, Option, none, some, String, ℤ, pos, negsuc, eqb_ℤ, if◌then◌else◌,
  Result, ok, arith, length, to_int64, sub64,
}
use pinpoint_c_agent.NodePool.Node.{
  Json, TraceNode, RootTraceNodeExtra, UserOption, trace_min_time_ms, trace_only_exception,
  add_annotation, is_root_node, run_option, run_options, run_user_option_func, e_invalid_node,
}
use pinpoint_c_agent.NodePool.Pool.{PoolManager, node_at, get_used_node}
use pinpoint_c_agent.NodePool.Valid.{IsValid}
use pinpoint_c_agent.NodePool.Chain.{Links}
use pinpoint_c_agent.NodePool.Append.{update}
use pinpoint_c_agent.NodePool.Append.Linked.{get_used_node_alive}
use pinpoint_c_agent.NodePool.Append.Call.{id_of-valid}
use pinpoint_c_agent.NodePool.Touch.{IsLight, Same, Same-refl, Same-then, update-Same, Links-Same}
use pinpoint_c_agent.NodePool.Finish.{
  end_annotations, exception_annotation, end_trace, force_end, next_of, encode_node, encode_next,
  store_value, append_annotation, encode_chain, run_options_of, encode_trace_to_json_span,
}

module _ {V : Type 0} where
  run_option-IsLight : (o : UserOption) → IsLight {V = V} (λ n. (run_option o n).1)
  unfolding run_option
  run_option-IsLight (trace_min_time_ms min) = record {
    next = λ n. ground arith;
    root = λ n. ground arith;
  }
  run_option-IsLight trace_only_exception = record { next = λ n. refl; root = λ n. refl }

  run_options-IsLight :
      (os : List UserOption) (ret : Bool) → IsLight {V = V} (λ n. (run_options os ret n).1)
  unfolding run_options
  run_options-IsLight [] ret = record { next = λ n. refl; root = λ n. refl }
  run_options-IsLight (o ∷ os) ret =
      let one = run_option-IsLight o in
      let rest = run_options-IsLight os false in
      record {
        next = λ n. elim (Bool-cases (run_option o n).0) [
          | inl kept ↦ rw kept (one.next n)
          | inr dropped ↦ rw dropped (rest.next (run_option o n).1 ∙ one.next n)
        ];
        root = λ n. elim (Bool-cases (run_option o n).0) [
          | inl kept ↦ rw kept (one.root n)
          | inr dropped ↦ rw dropped (rest.root (run_option o n).1 ∙ one.root n)
        ];
      }

  run_user_option_func-IsLight : IsLight {V = V} (λ n. (run_user_option_func n).1)
  unfolding run_user_option_func
  run_user_option_func-IsLight = record {
    next = λ n. (run_options-IsLight n.user_options true).next n;
    root = λ n. (run_options-IsLight n.user_options true).root n;
  }

module _ {V : Type 0} ⦃j : Json V⦄ where
  store_value-Same :
      (i : ℕ) (p : PoolManager V) (r : Result V) → IsValid p → Same p (store_value i p r).1
  store_value-Same i p (err e) v = Same-refl p v
  store_value-Same i p (ok value) v =
      update-Same i (λ n. record n { value = value }) p
        (record { next = λ n. refl; root = λ n. refl }) v

  append_annotation-Same :
      (i : ℕ) (key : String) (w : V) (p : PoolManager V)
      → IsValid p
      → Same p (append_annotation i key w p).1
  unfolding append_annotation
  append_annotation-Same i key w p v = store_value-Same i p _ v

  pub append_annotation-IsValid :
      (i : ℕ) (key : String) (w : V) (p : PoolManager V)
      → IsValid p
      → IsValid (append_annotation i key w p).1
  append_annotation-IsValid i key w p v = (append_annotation-Same i key w p v).valid

  abbrev Alike : TraceNode V → TraceNode V → Type 0
  Alike m n = (m.next ≡ n.next) × (is_root_node m ≡ is_root_node n)

  exception_annotation-Alike : (n : TraceNode V) → Alike (exception_annotation n) n
  unfolding add_annotation
  exception_annotation-Alike n = elim (Bool-cases n.set_exp) [
    | inl yes_ ↦ rw yes_ (refl, refl)
    | inr no_ ↦ rw no_ (refl, refl)
  ]

  end_annotations-Alike :
      (o : Option RootTraceNodeExtra) (n : TraceNode V) → Alike (end_annotations o n) n
  unfolding add_annotation
  end_annotations-Alike none n = (refl, refl)
  end_annotations-Alike (some extra) n = (refl, refl)

  end_trace-Alike : (now : ℕ) (n : TraceNode V) → Alike (end_trace now n) n
  unfolding end_trace add_annotation
  end_trace-Alike now n =
      let (a, b) = end_annotations-Alike n.extra (exception_annotation timed) in
      let (c, d) = exception_annotation-Alike timed in (a ∙ c, b ∙ d)
    where
      expired : ℤ
      expired = to_int64 (sub64 now n.trace_start_time)

      timed : TraceNode V
      timed =
          add_annotation ":S" (j.of_int (pos (sub64 n.trace_start_time n.pre_trace_time)))
            (add_annotation ":E" (j.of_int expired) (record n { expired_time = expired }))

  pub end_trace-IsLight : (now : ℕ) → IsLight {V = V} (end_trace now)
  end_trace-IsLight now = record {
    next = λ n. (end_trace-Alike now n).0;
    root = λ n. (end_trace-Alike now n).1;
  }

  force_end-Alike : (now : ℕ) (n : TraceNode V) → Alike (force_end now n) n
  force_end-Alike now n = elim (Bool-cases (eqb_ℤ n.expired_time (negsuc 0))) [
    | inl running ↦ rw running (end_trace-Alike now n)
    | inr ended ↦ rw ended (refl, refl)
  ]

  encode_node-Same :
      (now r i : ℕ) (p : PoolManager V) → IsValid p → Same p (encode_node now r i p).1
  encode_node-Same now r i p v =
      let light : IsLight (force_end now) = record {
        next = λ n. (force_end-Alike now n).0;
        root = λ n. (force_end-Alike now n).1;
      } in
      let s = update-Same i (force_end now) p light v in
      Same-then p (update i (force_end now) p) (encode_node now r i p).1 s
        (append_annotation-Same r "event" _ (update i (force_end now) p) s.valid)

  encode_chain_step :
      (fuel : ℕ) (clock : ℕ → ℕ) (r : ℕ) (next : ℤ) (i : ℕ) (n : TraceNode V) (p : PoolManager V)
      → eqb_ℤ next e_invalid_node ≡ false
      → get_used_node p next ≡ ok i
      → node_at p i ≡ some n
      → encode_chain (suc fuel) clock r next p
        ≡ encode_next (encode_chain fuel clock r n.next) (encode_node (clock fuel) r i p)
  unfolding encode_chain
  encode_chain_step fuel clock r next i n p more found at =
      rw (more, found)
        (ap
          (λ o.
            encode_next (encode_chain fuel clock r (next_of o)) (encode_node (clock fuel) r i p))
          at)

  -- The encoding ends, and the nodes in use and the chain are as they were: without an error, or
  -- where the value of a node cannot be appended to the root's.
  abbrev pub Encoded : ℕ → List ℕ → PoolManager V → Option (Result ℕ × PoolManager V) → Type 0
  Encoded r is p o =
      (q : PoolManager V) × Same p q
      × ((o ≡ some (ok r, q)) ⊎ ((e : Error) × (o ≡ some (err e, q)) × (0 < length is)))

  Encoded-next :
      (r i : ℕ) (is : List ℕ) (p : PoolManager V) (a : Result ℕ × PoolManager V)
      (again : PoolManager V → Option (Result ℕ × PoolManager V))
      → Same p a.1
      → Encoded r is a.1 (again a.1)
      → Encoded r (i ∷ is) p (encode_next again a)
  Encoded-next r i is p (err e, q) again s rest = (q, s, inr (e, refl, omega arith))
  Encoded-next r i is p (ok n, q) again s (q', t, o) = (
    q',
    Same-then p q q' s t,
    elim o [ inl fine ↦ inl fine | inr (e, bad, _) ↦ inr (e, bad, omega arith) ],
  )

  -- The loop over a chain ends within a round more than the chain is long.
  pub encode_chain-Same :
      (fuel : ℕ) (clock : ℕ → ℕ) (r : ℕ) (next : ℤ) (is : List ℕ) (p : PoolManager V)
      → IsValid p
      → Links p next is
      → length is < fuel
      → Encoded r is p (encode_chain fuel clock r next p)
  unfolding encode_chain
  encode_chain-Same zero clock r next is p v l h = absurd (omega arith)
  encode_chain-Same (suc fuel) clock r next [] p v l h = (p, Same-refl p v, inl (rw l refl))
  encode_chain-Same (suc fuel) clock r next (i ∷ is) p v (e, a, d, (node, n, rest)) h =
      let s = encode_node-Same (clock fuel) r i p v in
      subst (Encoded r (i ∷ is) p)
        (sym (
          encode_chain_step fuel clock r next i node p
            (ap (λ z. eqb_ℤ z e_invalid_node) e ∙ id_of-valid i)
            (ap (get_used_node p) e ∙ get_used_node_alive p i v a) n))
        (Encoded-next r i is p (encode_node (clock fuel) r i p)
          (encode_chain fuel clock r node.next) s
          (encode_chain-Same fuel clock r node.next is (encode_node (clock fuel) r i p).1 s.valid
            (Links-Same p (encode_node (clock fuel) r i p).1 node.next is s rest) (omega arith)))

  abbrev root_encoded :
      ℕ → (ℕ → ℕ) → ℕ → PoolManager V → Option (TraceNode V) → Option (Result ℕ × PoolManager V)
  root_encoded fuel clock r p none = some (ok r, p)
  root_encoded fuel clock r p (some root) =
      if is_root_node root
      then run_options_of r (encode_chain fuel clock r root.next p)
      else some (ok r, p)

  Encoded-options :
      (r : ℕ) (is : List ℕ) (p : PoolManager V) (o : Option (Result ℕ × PoolManager V))
      → Encoded r is p o
      → Encoded r is p (run_options_of r o)
  Encoded-options r is p o (q, s, inr (e, bad, some_)) =
      (q, s, inr (e, ap (run_options_of r) bad, some_))
  Encoded-options r is p o (q, s, inl fine) =
      let f : TraceNode V → TraceNode V = λ n. (run_user_option_func n).1 in
      (
        update r f q,
        Same-then p q (update r f q) s (update-Same r f q run_user_option_func-IsLight s.valid),
        inl (ap (run_options_of r) fine),
      )

  -- Encoding a root whose links lead through the nodes `is` to -1 ends, and keeps the nodes in use
  -- and the chain.
  pub encode_trace_to_json_span-Same :
      (fuel : ℕ) (clock : ℕ → ℕ) (r : ℕ) (is : List ℕ) (root : TraceNode V) (p : PoolManager V)
      → IsValid p
      → node_at p r ≡ some root
      → is_root_node root ≡ true
      → Links p root.next is
      → length is < fuel
      → Encoded r is p (encode_trace_to_json_span fuel clock r p)
  unfolding encode_trace_to_json_span
  encode_trace_to_json_span-Same fuel clock r is root p v at yes_ l h =
      subst (Encoded r is p)
        (sym (
          ap (root_encoded fuel clock r p) at
          ∙ ap
              (λ b.
                if b
                then run_options_of r (encode_chain fuel clock r root.next p)
                else some (ok r, p))
              yes_))
        (Encoded-options r is p (encode_chain fuel clock r root.next p)
          (encode_chain-Same fuel clock r root.next is p v l h))
