-- ===== src/NodePool/Node.antt =====
-- common/src/NodePool/TraceNode.h and TraceNode.cpp, and Context/ContextType.h: one node of a trace.
-- A NodeID is an int: -1 is no node, 0 the parent of roots. The annotations are a Json::Value of the
-- vendored jsoncpp, taken as a type `V` with the operations that the nodes call.
use text.Mathlib.Text.{◌==◌ as str_eq}
use pinpoint_c_agent.Base.{
  ℕ, Bool, true, false, not, List, [], ◌∷◌, Option, none, some, if◌then◌else◌, String, ℤ, pos,
  negsuc, eqb_ℤ, leb_ℤ, ◌+ℤ◌, Result, ok, err, out_of_range, logic_error,
}

-- What the nodes call of Json::Value.
pub record Json (V : Type 0) : Type 0 where
  pub empty : V
  pub clear : V → V
  pub of_int : ℤ → V
  pub of_text : String → V
  pub set_member : V → String → V → V
  pub append_member : V → String → V → Result V

-- StringContextType and LongContextType.
pub data ContextType : Type 0 where
  string_context : String → ContextType
  long_context : ℤ → ContextType

unfoldable pub as_string_value : ContextType → Result String
as_string_value (string_context s) = ok s
as_string_value (long_context l) = err logic_error

unfoldable pub as_long_value : ContextType → Result ℤ
as_long_value (string_context s) = err logic_error
as_long_value (long_context l) = ok l

unfoldable pub type_is : ContextType → String
type_is (string_context s) = "String"
type_is (long_context l) = "Long"

-- context_map_[key] = context.
unfoldable pub put_context :
    String → ContextType → List (String × ContextType) → List (String × ContextType)
put_context key c [] = (key, c) ∷ []
put_context key c ((k, d) ∷ rest) =
    if str_eq k key then (k, c) ∷ rest else (k, d) ∷ put_context key c rest

unfoldable pub find_context : String → List (String × ContextType) → Result ContextType
find_context key [] = err out_of_range
find_context key ((k, d) ∷ rest) = if str_eq k key then ok d else find_context key rest

-- The enum E_AGENT_STATUS.
abbrev pub e_offline : ℤ
e_offline = pos 1

abbrev pub e_trace_pass : ℤ
e_trace_pass = pos 2

abbrev pub e_trace_block : ℤ
e_trace_block = pos 4

abbrev pub e_invalid_node : ℤ
e_invalid_node = negsuc 0

abbrev pub e_root_node : ℤ
e_root_node = pos 0

-- What a root has besides. (Its lock makes AppendToRootTrace one step; its next and context_map are
-- never read.)
pub record RootTraceNodeExtra : Type 0 where
  pub last : ℤ
  pub status : ℤ
  pub seq : ℤ

unfoldable pub new_extra : RootTraceNodeExtra
new_extra = record { last = e_invalid_node; status = e_trace_pass; seq = pos 0 }

-- The callbacks that parseUserOption makes.
pub data UserOption : Type 0 where
  trace_min_time_ms : ℤ → UserOption
  trace_only_exception : UserOption

pub record TraceNode (V : Type 0) : Type 0 where
  pub extra : Option RootTraceNodeExtra
  pub root_id : ℤ
  pub parent_id : ℤ
  pub id : ℤ
  pub next : ℤ
  pub depth : ℤ
  pub sequence : ℤ
  pub trace_start_time : ℕ
  pub pre_trace_time : ℕ
  pub expired_time : ℤ
  pub set_exp : Bool
  pub reference_count : ℤ
  pub value : V
  pub context_map : List (String × ContextType)
  pub user_options : List UserOption
  pub skipped : Bool

module _ {V : Type 0} ⦃j : Json V⦄ where
  -- A node as the pool allocates it; the reference count of it is set by the first Reset.
  unfoldable pub new_node : TraceNode V
  new_node = record {
    extra = none;
    root_id = e_invalid_node;
    parent_id = e_invalid_node;
    id = e_invalid_node;
    next = e_invalid_node;
    depth = pos 1;
    sequence = negsuc 0;
    trace_start_time = 0;
    pre_trace_time = 0;
    expired_time = negsuc 0;
    set_exp = false;
    reference_count = pos 0;
    value = j.empty;
    context_map = [];
    user_options = [];
    skipped = false;
  }

  -- What Reset leaves alone: the depth, the sequence and the skip flag.
  unfoldable pub reset : ℤ → TraceNode V → TraceNode V
  reset i node = record node {
    id = i;
    root_id = e_invalid_node;
    parent_id = e_invalid_node;
    next = e_invalid_node;
    pre_trace_time = 0;
    trace_start_time = 0;
    expired_time = negsuc 0;
    reference_count = pos 0;
    extra = none;
    user_options = [];
    value = j.clear node.value;
    context_map = [];
    set_exp = false;
  }

  unfoldable pub add_annotation : String → V → TraceNode V → TraceNode V
  add_annotation key v node = record node { value = j.set_member node.value key v }

  unfoldable pub upgrade_to_root_node : ℤ → TraceNode V → TraceNode V
  unfolding new_extra add_annotation
  upgrade_to_root_node agent_type node = add_annotation ":FT" (j.of_int agent_type) (record node {
    extra = some new_extra;
    root_id = node.id;
    parent_id = node.id;
    next = e_invalid_node;
    depth = pos 0;
    sequence = pos 0;
  })

module _ {V : Type 0} where
  abbrev pub is_root_node : TraceNode V → Bool
  is_root_node node = eqb_ℤ node.root_id node.id

  unfoldable pub bind_parent_trace : TraceNode V → TraceNode V → TraceNode V
  bind_parent_trace parent node = record node {
    parent_id = parent.id;
    depth = parent.depth +ℤ pos 1;
  }

  unfoldable pub start_trace : ℕ → TraceNode V → TraceNode V
  start_trace now node = record node { trace_start_time = now }

  abbrev pub is_not_reference : TraceNode V → Bool
  is_not_reference node = eqb_ℤ node.reference_count (pos 0)

  unfoldable pub add_reference : TraceNode V → TraceNode V
  add_reference node = record node { reference_count = node.reference_count +ℤ pos 1 }

  unfoldable pub dec_reference : TraceNode V → TraceNode V
  dec_reference node = record node { reference_count = node.reference_count +ℤ negsuc 0 }

  -- One callback: the answer, and the node that it marks.
  unfoldable pub run_option : UserOption → TraceNode V → Bool × TraceNode V
  run_option (trace_min_time_ms min) node =
      if leb_ℤ min node.expired_time then (true, node) else (false, record node { skipped = true })
  run_option trace_only_exception node = (node.set_exp, record node { skipped = not node.set_exp })

  -- The loop stops at the first callback that answers true.
  unfoldable pub run_options : List UserOption → Bool → TraceNode V → Bool × TraceNode V
  run_options [] ret node = (ret, node)
  run_options (o ∷ os) ret node =
      let (answer, node') = run_option o node in
      let rest = run_options os false node' in if answer then (true, node') else rest

  unfoldable pub run_user_option_func : TraceNode V → Bool × TraceNode V
  run_user_option_func node = run_options node.user_options true node
