-- ===== src/NodePool/Append/Call.antt =====
-- AppendToRootTrace as a whole: the first node of a trace, and a later one.
use pinpoint_c_agent.Base.{
  some-injective, ℕ, ◌≡◌, ◌≢◌, refl, ap, sym, ◌∙◌, subst, ◌⊎◌, inl, inr, true, false, not, List, [],
  ◌∷◌, ◌++◌, Option, none, some, if◌then◌else◌, ℤ, pos, eqb_ℤ, ◌+ℤ◌, ok, arith,
}
use pinpoint_c_agent.NodePool.Node.{TraceNode, RootTraceNodeExtra, e_invalid_node}
use pinpoint_c_agent.NodePool.Pool.{PoolManager, id_of, node_at, get_used_node}
use pinpoint_c_agent.NodePool.Marks.{occurrences, occurrences-append}
use pinpoint_c_agent.NodePool.Valid.{IsValid}
use pinpoint_c_agent.NodePool.Pop.{is_alive}
use pinpoint_c_agent.NodePool.Chain.{Links}
use pinpoint_c_agent.NodePool.Append.{
  update, with_root, hang, behind_node, behind_last, append_node, append_found,
  append_to_root_trace,
}
use pinpoint_c_agent.NodePool.Append.Linked.{
  update-Writes, Extends, Links-snoc, Links-last, get_used_node_alive, Appended, hang-Writes,
}

-- The id that a root with the nodes `is` below it has as its last.
abbrev pub last_id : List ℕ → ℤ
last_id [] = e_invalid_node
last_id (k ∷ []) = id_of k
last_id (k ∷ k' ∷ is) = last_id (k' ∷ is)

pub last_id-snoc : (front : List ℕ) (l : ℕ) → last_id (front ++ l ∷ []) ≡ id_of l
last_id-snoc [] l = refl
last_id-snoc (k ∷ []) l = refl
last_id-snoc (k ∷ k' ∷ front) l = last_id-snoc (k' ∷ front) l

occurrences-last : (k l : ℕ) (front : List ℕ) → occurrences k (front ++ l ∷ []) ≡ 0 → l ≢ k
occurrences-last k l front e = ground (arith, occurrences-append k front (l ∷ []))

pub id_of-valid : (l : ℕ) → eqb_ℤ (id_of l) e_invalid_node ≡ false
id_of-valid l = ground arith

-- A list is empty or has a last element.
snoc_cases : (is : List ℕ) → (is ≡ []) ⊎ ((front : List ℕ) × (l : ℕ) × (is ≡ front ++ l ∷ []))
snoc_cases [] = inl refl
snoc_cases (k ∷ is) = elim (snoc_cases is) [
  | inl e ↦ inr ([], k, ap (◌∷◌ k) e)
  | inr (front, l, e) ↦ inr (k ∷ front, l, ap (◌∷◌ k) e)
]

module _ {V : Type 0} where
  -- A new node in use and a root in use, below which the links lead through `is`.
  pub record CanAppend (r i : ℕ) (is : List ℕ) (root node : TraceNode V)
      (extra : RootTraceNodeExtra) (p : PoolManager V) : Type 0 where
    pub valid : IsValid p
    pub root_alive : is_alive p r ≡ true
    pub node_alive : is_alive p i ≡ true
    pub differ : r ≢ i
    pub root_at : node_at p r ≡ some root
    pub node_at_i : node_at p i ≡ some node
    pub is_root : root.extra ≡ some extra
    pub is_new : node.root_id ≡ e_invalid_node
    pub own_id : node.id ≡ id_of i
    pub unlinked : node.next ≡ e_invalid_node
    pub last : extra.last ≡ last_id is
    pub root_apart : occurrences r is ≡ 0
    pub node_apart : occurrences i is ≡ 0
    pub chain : Links p root.next is

  append_known :
      (r i : ℕ) (root node : TraceNode V) (extra : RootTraceNodeExtra) (p : PoolManager V)
      → node_at p r ≡ some root
      → node_at p i ≡ some node
      → root.extra ≡ some extra
      → node.root_id ≡ e_invalid_node
      → append_to_root_trace r i p ≡ (
          if eqb_ℤ extra.last e_invalid_node
          then (ok i, hang r i root node root.trace_start_time (with_root i root p))
          else behind_last r i root node
              (get_used_node (with_root i root p) extra.last)
              (with_root i root p))
  unfolding append_to_root_trace
  append_known r i root node extra p rat iat e new =
      ap (λ o. append_found r i o (node_at p i) p) rat
      ∙ (ap (λ o. append_found r i (some root) o p) iat
          ∙ (ap (λ o. append_node r i root node o p) e
              ∙ ap
                  (λ z.
                    if not (eqb_ℤ z e_invalid_node)
                    then (ok i, p)
                    else (if eqb_ℤ extra.last e_invalid_node
                        then (ok i, hang r i root node root.trace_start_time (with_root i root p))
                        else behind_last r i root node
                            (get_used_node (with_root i root p) extra.last) (with_root i root p)))
                  new))

  append_first :
      (r i : ℕ) (root node : TraceNode V) (extra : RootTraceNodeExtra) (p : PoolManager V)
      → CanAppend r i [] root node extra p
      → (q : PoolManager V) × (append_to_root_trace r i p ≡ (ok i, q)) × Appended r i [] extra p q
  append_first r i root node extra p c =
      let w =
        update-Writes i (λ n. record n { root_id = root.id }) node p c.valid c.node_alive
          c.node_at_i in
      let p₁ = with_root i root p in
      let (p₂, x, y) =
        hang-Writes r i root node (record node { root_id = root.id }) extra root.trace_start_time p₁
          w.valid c.differ (w.marks r ∙ c.root_alive) (w.marks i ∙ c.node_alive)
          (w.there r (λ z. c.differ (sym z)) ∙ c.root_at) w.here c.is_root in
      let q = hang r i root node root.trace_start_time p₁ in
      let marks : (k : ℕ) → is_alive q k ≡ is_alive p k =
        λ k. y.marks k ∙ (x.marks k ∙ w.marks k) in
      let nil : eqb_ℤ root.next e_invalid_node ≡ true = rw c.chain refl in
      (
        q,
        append_known r i root node extra p c.root_at c.node_at_i c.is_root c.is_new
            ∙ ap
                (λ z.
                  if eqb_ℤ z e_invalid_node
                  then (ok i, q)
                  else behind_last r i root node (get_used_node p₁ extra.last) p₁)
                c.last,
        record {
          valid = y.valid;
          same_marks = marks;
          new_root = _;
          root_at = y.here;
          root_extra =
              ap (λ z. some (record extra { last = z; seq = extra.seq +ℤ pos 1 })) c.own_id;
          linked = (
            ap (λ b. if b then node.id else root.next) nil ∙ c.own_id,
            marks i ∙ c.node_alive,
            refl,
            (_, y.there i c.differ ∙ x.here, c.unlinked),
          );
          hung = _;
          hung_at = y.there i c.differ ∙ x.here;
          numbered = refl;
          own = λ old e.
              let same = some-injective (sym c.node_at_i ∙ e) in
              (ap (λ n. n.id) same, ap (λ n. n.parent_id) same, ap (λ n. n.depth) same);
          kept = λ old e.
              let same = some-injective (sym c.root_at ∙ e) in
              (ap (λ n. n.id) same, ap (λ n. n.root_id) same);
        },
      )

  abbrev relink : ℤ → Option (TraceNode V) → Option (TraceNode V)
  relink next none = none
  relink next (some n) = some (record n { next = next })

  append_later :
      (r i l : ℕ) (front : List ℕ) (root node : TraceNode V) (extra : RootTraceNodeExtra)
      (p : PoolManager V)
      → CanAppend r i (front ++ l ∷ []) root node extra p
      → (q : PoolManager V) × (append_to_root_trace r i p ≡ (ok i, q))
        × Appended r i (front ++ l ∷ []) extra p q
  append_later r i l front root node extra p c =
      let (al, (nl, lat), off) = Links-last p l front root.next c.chain in
      let off_new = occurrences-last i l front c.node_apart in
      let off_root = occurrences-last r l front c.root_apart in
      let w =
        update-Writes i (λ n. record n { root_id = root.id }) node p c.valid c.node_alive
          c.node_at_i in
      let p₁ = with_root i root p in
      let lat₁ = w.there l (λ z. off_new (sym z)) ∙ lat in
      let u =
        update-Writes l (λ n. record n { next = node.id }) nl p₁ w.valid (w.marks l ∙ al) lat₁ in
      let p₂ = update l (λ n. record n { next = node.id }) p₁ in
      let (p₃, x, y) =
        hang-Writes r i root node (record node { root_id = root.id }) extra nl.trace_start_time p₂
          u.valid c.differ (u.marks r ∙ (w.marks r ∙ c.root_alive))
          (u.marks i ∙ (w.marks i ∙ c.node_alive))
          (u.there r off_root ∙ (w.there r (λ z. c.differ (sym z)) ∙ c.root_at))
          (u.there i off_new ∙ w.here) c.is_root in
      let q = hang r i root node nl.trace_start_time p₂ in
      let marks : (k : ℕ) → is_alive q k ≡ is_alive p k =
        λ k. y.marks k ∙ (x.marks k ∙ (u.marks k ∙ w.marks k)) in
      let ext : Extends r i l p q = record {
        marks = marks;
        others = λ k nr ni nk.
            y.there k (λ z. nr (sym z))
            ∙ (x.there k (λ z. ni (sym z))
                ∙ (u.there k (λ z. nk (sym z)) ∙ w.there k (λ z. ni (sym z))));
        last = λ n at.
            y.there l (λ z. off_root (sym z))
            ∙ (x.there l (λ z. off_new (sym z))
                ∙ (u.here
                    ∙ (ap (relink node.id) (sym lat ∙ at)
                        ∙ ap (λ z. some (record n { next = z })) c.own_id)));
        added = _;
        at = y.there i c.differ ∙ x.here;
        ends = c.unlinked;
      } in
      (
        q,
        append_known r i root node extra p c.root_at c.node_at_i c.is_root c.is_new
            ∙ (ap
                  (λ z.
                    if eqb_ℤ z e_invalid_node
                    then (ok i, hang r i root node root.trace_start_time p₁)
                    else behind_last r i root node (get_used_node p₁ z) p₁)
                  (c.last ∙ last_id-snoc front l)
                ∙ (ap
                      (λ b.
                        if b
                        then (ok i, hang r i root node root.trace_start_time p₁)
                        else behind_last r i root node (get_used_node p₁ (id_of l)) p₁)
                      (id_of-valid l)
                    ∙ (ap (λ o. behind_last r i root node o p₁)
                          (get_used_node_alive p₁ l w.valid (w.marks l ∙ al))
                        ∙ ap (λ o. behind_node r i root node l o p₁) lat₁))),
        record {
          valid = y.valid;
          same_marks = marks;
          new_root = _;
          root_at = y.here;
          root_extra =
              ap (λ z. some (record extra { last = z; seq = extra.seq +ℤ pos 1 })) c.own_id;
          linked =
              subst (λ z. Links q z ((front ++ l ∷ []) ++ i ∷ []))
                (sym (ap (λ b. if b then node.id else root.next) off))
                (Links-snoc r i l front root.next p q ext c.node_alive c.root_apart c.node_apart
                  c.chain);
          hung = _;
          hung_at = y.there i c.differ ∙ x.here;
          numbered = refl;
          own = λ old e.
              let same = some-injective (sym c.node_at_i ∙ e) in
              (ap (λ n. n.id) same, ap (λ n. n.parent_id) same, ap (λ n. n.depth) same);
          kept = λ old e.
              let same = some-injective (sym c.root_at ∙ e) in
              (ap (λ n. n.id) same, ap (λ n. n.root_id) same);
        },
      )

  -- From a well-formed pool, for a new node in use with its own id, no root and no successor, and a
  -- root in use whose links lead through the nodes `is` to -1 and whose last node is the last of
  -- these: the call succeeds, the pool stays well formed with the same nodes in use, the links now lead through `is` and
  -- then the new node, which is the root's last node, the new node has the root's next sequence
  -- number and keeps its id, its parent and its depth, and the root keeps its id and its root.
  pub append_to_root_trace-Appended :
      (r i : ℕ) (is : List ℕ) (root node : TraceNode V) (extra : RootTraceNodeExtra)
      (p : PoolManager V)
      → CanAppend r i is root node extra p
      → (q : PoolManager V) × (append_to_root_trace r i p ≡ (ok i, q)) × Appended r i is extra p q
  append_to_root_trace-Appended r i is root node extra p c = elim (snoc_cases is) [
    | inl e ↦ subst Goes (sym e) (append_first r i root node extra p) c
    | inr (front, l, e) ↦ subst Goes (sym e) (append_later r i l front root node extra p) c
  ]
    where
      Goes : List ℕ → Type 0
      Goes ks =
          CanAppend r i ks root node extra p
          → (q : PoolManager V) × (append_to_root_trace r i p ≡ (ok i, q))
            × Appended r i ks extra p q
