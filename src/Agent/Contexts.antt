-- ===== src/Agent/Contexts.antt =====
-- A context that is set through one node of a trace is read through every node of it.
use text.Mathlib.Text.{◌==◌ as str_eq}
use pinpoint_c_agent.Base.{
  ℕ, ◌≡◌, refl, sym, ap, ◌∙◌, subst, inl, inr, Bool, true, false, Bool-cases, Option, none, some,
  some-injective, if◌then◌else◌, String, ℤ, pos, negsuc, ltb_ℤ, ◌==◌, ==_iff, Result, ok, err,
  ◌>>=◌, arith,
}
use pinpoint_c_agent.NodePool.Node.{
  TraceNode, string_context, as_string_value, put_context, find_context,
}
use pinpoint_c_agent.NodePool.Pool.{PoolManager, id_of, node_at}
use pinpoint_c_agent.NodePool.Valid.{IsValid}
use pinpoint_c_agent.NodePool.Pop.{is_alive}
use pinpoint_c_agent.NodePool.Settings.{find_context-put_context}
use pinpoint_c_agent.NodePool.Append.{update}
use pinpoint_c_agent.NodePool.Append.Linked.{Writes, update-Writes}
use pinpoint_c_agent.Agent.Runs.{>>>-ok, refer_ok, read_ok}
use pinpoint_c_agent.Agent.{
  ◌>>>◌, pure, lift, refer, read, loc_root, get_wrapper_trace_node, text_size, add_trace_context,
  get_trace_context,
}

-- The answer for a text, as the buffer has room for it and its end or not.
abbrev pub buffered : ℤ → String → ℤ × Option String
buffered buf_size value =
    if ltb_ℤ (pos (text_size value)) buf_size
    then (pos (text_size value), some value)
    else (negsuc 0, none)

module _ {V : Type 0} where
  -- The node `i` is in use, and `r` is the root of its trace.
  pub record InTrace (p : PoolManager V) (r i : ℕ) : Type 0 where
    pub used : is_alive p i ≡ true
    pub node : TraceNode V
    pub at : node_at p i ≡ some node
    pub root : node.root_id ≡ id_of r

  root_ok :
      (p : PoolManager V) (r i : ℕ)
      → IsValid p
      → InTrace p r i
      → is_alive p r ≡ true
      → get_wrapper_trace_node (id_of i) loc_root p ≡ (ok r, p)
  unfolding get_wrapper_trace_node
  root_ok p r i v t a =
      >>>-ok (refer (id_of i) >>> read) (λ node. refer node.root_id) p p t.node
        (>>>-ok (refer (id_of i)) read p p i (refer_ok p i v t.used) ∙ read_ok p i t.node t.at)
      ∙ (ap (λ z. refer z p) t.root ∙ refer_ok p r v a)

  abbrev pub looked_up : String → ℤ → TraceNode V → Result (ℤ × Option String)
  looked_up key buf_size root = find_context key root.context_map >>= as_string_value >>= λ value.
      ok (buffered buf_size value)

  finish :
      (buf_size : ℤ) (r : Result String) (p : PoolManager V)
      → ((lift r >>> λ value. pure (if true then buffered buf_size value else (negsuc 0, none))) p)
        ≡ ((r >>= λ value. ok (buffered buf_size value)), p)
  unfolding ◌>>>◌
  finish buf_size (ok value) p = refl
  finish buf_size (err e) p = refl

  get_trace_context_lem :
      (p : PoolManager V) (r i : ℕ) (root : TraceNode V) (key : String) (buf_size : ℤ)
      → IsValid p
      → InTrace p r i
      → is_alive p r ≡ true
      → node_at p r ≡ some root
      → get_trace_context (id_of i) key true buf_size p ≡ (looked_up key buf_size root, p)
  unfolding get_trace_context
  get_trace_context_lem p r i root key buf_size v t a at =
      >>>-ok (get_wrapper_trace_node (id_of i) loc_root >>> read) _ p p root (
        >>>-ok (get_wrapper_trace_node (id_of i) loc_root) read p p r (root_ok p r i v t a)
        ∙ read_ok p r root at)
      ∙ finish buf_size (find_context key root.context_map >>= as_string_value) p

  abbrev with_context : String → String → TraceNode V → TraceNode V
  with_context key value n = record n {
    context_map = put_context key (string_context value) n.context_map;
  }

  add_trace_context_lem :
      (p : PoolManager V) (r i : ℕ) (key value : String)
      → IsValid p
      → InTrace p r i
      → is_alive p r ≡ true
      → add_trace_context (id_of i) key value p ≡ (ok r, update r (with_context key value) p)
  unfolding add_trace_context
  add_trace_context_lem p r i key value v t a =
      >>>-ok (get_wrapper_trace_node (id_of i) loc_root) _ p p r (root_ok p r i v t a)

  -- A node stays in its trace where a context is set.
  InTrace-kept :
      (p q : PoolManager V) (r k : ℕ) (root : TraceNode V) (key value : String)
      → node_at p r ≡ some root
      → Writes r (with_context key value root) p q
      → InTrace p r k
      → InTrace q r k
  InTrace-kept p q r k root key value at w t = elim (Bool-cases (r == k)) [
    | inl same ↦
        let rk : r ≡ k = (==_iff r k).0 same in
        let this : root ≡ t.node = some-injective (sym at ∙ (ap (λ z. node_at p z) rk ∙ t.at)) in
        record {
          used = w.marks k ∙ t.used;
          node = with_context key value root;
          at = subst (λ z. node_at q z ≡ some (with_context key value root)) rk w.here;
          root = ap (λ n. n.root_id) this ∙ t.root;
        }
    | inr other ↦ record {
      used = w.marks k ∙ t.used;
      node = t.node;
      at = w.there k (ground (arith, other)) ∙ t.at;
      root = t.root;
    }
  ]

  looked_up-with_context :
      (key other value : String) (buf_size : ℤ) (root : TraceNode V)
      → looked_up other buf_size (with_context key value root)
        ≡ (if str_eq key other then ok (buffered buf_size value) else looked_up other buf_size root)
  unfolding as_string_value
  looked_up-with_context key other value buf_size root =
      ap (λ c. c >>= as_string_value >>= λ text. ok (buffered buf_size text))
        (find_context-put_context key other (string_context value) root.context_map)
      ∙ by_key (str_eq key other)
    where
      by_key :
          (b : Bool)
          → ((if b then ok (string_context value) else find_context other root.context_map)
              >>= as_string_value
              >>= λ text. ok (buffered buf_size text))
            ≡ (if b then ok (buffered buf_size value) else looked_up other buf_size root)
      by_key true = refl
      by_key false = refl

  -- On a well-formed pool, for two nodes in use of one trace, whose root `r` is in use: setting the
  -- text of a key through the one succeeds. Asking for any key through the other then gives, for
  -- that key, the text and its length, or -1 where the buffer has no room for it and its end; and
  -- for another key what it gave before.
  pub get_trace_context-add_trace_context :
      (p : PoolManager V) (r i k : ℕ) (root : TraceNode V) (key other value : String) (buf_size : ℤ)
      → IsValid p
      → InTrace p r i
      → InTrace p r k
      → is_alive p r ≡ true
      → node_at p r ≡ some root
      → let q = (add_trace_context (id_of i) key value p).1 in
        ((add_trace_context (id_of i) key value p).0 ≡ ok r)
        × ((get_trace_context (id_of k) other true buf_size q).0 ≡ (
            if str_eq key other
            then ok (buffered buf_size value)
            else (get_trace_context (id_of k) other true buf_size p).0))
  get_trace_context-add_trace_context p r i k root key other value buf_size v t u a at =
      let q = update r (with_context key value) p in
      let w = update-Writes r (with_context key value) root p v a at in
      let set = add_trace_context_lem p r i key value v t a in
      let after =
        get_trace_context_lem q r k (with_context key value root) other buf_size w.valid
          (InTrace-kept p q r k root key value at w u) (w.marks r ∙ a) w.here in
      let before = get_trace_context_lem p r k root other buf_size v u a at in
      (
        ap (λ z. z.0) set,
        ap (λ z. (get_trace_context (id_of k) other true buf_size z.1).0) set
            ∙ (ap (λ z. z.0) after
                ∙ (looked_up-with_context key other value buf_size root
                    ∙ ap (λ z. if str_eq key other then ok (buffered buf_size value) else z)
                        (sym (ap (λ z. z.0) before)))),
      )
