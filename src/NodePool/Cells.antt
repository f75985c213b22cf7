-- ===== src/NodePool/Cells.antt =====
-- The pool's vectors: cells of 128 nodes read and written through one index, the marks of the nodes
-- in use, and the stack of free nodes.
use pinpoint_c_agent.Base.{
  ℕ, zero, suc, ◌*◌, ◌/◌, ◌%◌, ◌<◌, ◌≡◌, ◌≢◌, refl, ap, ◌∙◌, inl, inr, List, [], ◌∷◌, ◌++◌, some,
  arith, ◌==◌, length, length-set, get_elem?, get_elem?-set_self, get_elem?-set_ne, set, Bool-cases,
}
use pinpoint_c_agent.NodePool.Pool.{cell_size, cell_at, node_in, set_in}

-- Every cell is full.
abbrev pub Full {ℓ} : {A : Type ℓ} → List (List A) → Type 0
Full [] = Unit
Full (cell ∷ cells) = (length cell ≡ cell_size) × Full cells

module _ {ℓ} {A : Type ℓ} where
  pub Full-cell :
      (cells : List (List A)) (k : ℕ)
      → Full cells
      → k < length cells
      → (cell : List A) × (get_elem? cells k ≡ some cell) × (length cell ≡ cell_size)
  Full-cell [] k f h = elim h [ ]
  Full-cell (cell ∷ cells) zero f h = (cell, refl, f.0)
  Full-cell (cell ∷ cells) (suc k) f h = Full-cell cells k f.1 (omega arith)

  pub Full-set :
      (cells : List (List A)) (k : ℕ) (cell : List A)
      → Full cells
      → length cell ≡ cell_size
      → Full (set cells k cell)
  Full-set [] k cell f h = tt
  Full-set (c ∷ cells) zero cell f h = (h, f.1)
  Full-set (c ∷ cells) (suc k) cell f h = (f.0, Full-set cells k cell f.1 h)

  pub Full-append :
      (cells : List (List A)) (cell : List A)
      → Full cells
      → length cell ≡ cell_size
      → Full (cells ++ cell ∷ [])
  Full-append [] cell f h = (h, tt)
  Full-append (c ∷ cells) cell f h = (f.0, Full-append cells cell f.1 h)

  pub get_elem?-lt : (xs : List A) (i : ℕ) → i < length xs → (a : A) × (get_elem? xs i ≡ some a)
  get_elem?-lt [] i h = elim h [ ]
  get_elem?-lt (x ∷ xs) zero h = (x, refl)
  get_elem?-lt (x ∷ xs) (suc i) h = get_elem?-lt xs i (omega arith)

  -- An index below the pool's size names a node.
  pub node_in-lt :
      (cells : List (List A)) (i : ℕ)
      → Full cells
      → i < length cells * cell_size
      → (a : A) × (node_in cells i ≡ some a)
  node_in-lt cells i f h =
      let (cell, e, n) = Full-cell cells (i / cell_size) f (omega arith) in
      let (a, q) = get_elem?-lt cell (i % cell_size) (omega arith) in (a, rw e q)

  pub set_in-Full :
      (cells : List (List A)) (i : ℕ) (a : A)
      → Full cells
      → i < length cells * cell_size
      → Full (set_in cells i a)
  set_in-Full cells i a f h =
      let (cell, e, n) = Full-cell cells (i / cell_size) f (omega arith) in
      rw e (
        Full-set cells (i / cell_size) (set cell (i % cell_size) a) f
          (length-set cell (i % cell_size) a ∙ n))

  pub length-set_in :
      (cells : List (List A)) (i : ℕ) (a : A)
      → Full cells
      → i < length cells * cell_size
      → length (set_in cells i a) ≡ length cells
  length-set_in cells i a f h =
      let (cell, e, n) = Full-cell cells (i / cell_size) f (omega arith) in
      rw e (length-set cells (i / cell_size) (set cell (i % cell_size) a))

  pub node_in-set_in_self :
      (cells : List (List A)) (i : ℕ) (a : A)
      → Full cells
      → i < length cells * cell_size
      → node_in (set_in cells i a) i ≡ some a
  node_in-set_in_self cells i a f h =
      let (cell, e, n) = Full-cell cells (i / cell_size) f (omega arith) in
      rw e (
        rw (get_elem?-set_self cells (i / cell_size) (set cell (i % cell_size) a) (omega arith))
          (get_elem?-set_self cell (i % cell_size) a (omega arith)))

  pub node_in-set_in_ne :
      (cells : List (List A)) (i k : ℕ) (a : A)
      → Full cells
      → i < length cells * cell_size
      → i ≢ k
      → node_in (set_in cells i a) k ≡ node_in cells k
  node_in-set_in_ne cells i k a f h ne =
      let (cell, e, n) = Full-cell cells (i / cell_size) f (omega arith) in
      rw e (elim (Bool-cases ((i / cell_size) == (k / cell_size))) [
        | inr other ↦ rw (
            get_elem?-set_ne cells (i / cell_size) (k / cell_size) (set cell (i % cell_size) a)
              (ground arith))
        | inl same ↦
            let q : i / cell_size ≡ k / cell_size = ground arith in
            rw (← q) (
              rw
                (
                  get_elem?-set_self cells (i / cell_size) (set cell (i % cell_size) a)
                      (omega arith),
                  e,
                )
                (get_elem?-set_ne cell (i % cell_size) (k % cell_size) a (omega arith)))
      ])

  get_elem?-append :
      (xs ys : List A) (i : ℕ) → i < length xs → get_elem? (xs ++ ys) i ≡ get_elem? xs i
  get_elem?-append [] ys i h = elim h [ ]
  get_elem?-append (x ∷ xs) ys zero h = refl
  get_elem?-append (x ∷ xs) ys (suc i) h = get_elem?-append xs ys i (omega arith)

module _ {ℓ} {A : Type ℓ} where
  pub node_in-append :
      (cells more : List (List A)) (i : ℕ)
      → i < length cells * cell_size
      → node_in (cells ++ more) i ≡ node_in cells i
  node_in-append cells more i h =
      ap (λ c. cell_at c (i % cell_size))
        (get_elem?-append cells more (i / cell_size) (omega arith))
