-- ===== src/NodePool/Marks.antt =====
-- The marks of the nodes in use against the stack of free nodes: the stack holds each unmarked index
-- exactly once and nothing else.
use pinpoint_c_agent.Base.{
  ℕ, zero, suc, ◌+◌, ◌<◌, ◌≡◌, ◌≢◌, refl, ap, Bool, true, false, List, [], ◌∷◌, ◌++◌, arith, ltb,
  leb, ◌==◌, if◌then◌else◌, length, set, replicate, ◌&&◌,
}
use pinpoint_c_agent.NodePool.Pool.{is_used, push_range}

abbrev pub occurrences : ℕ → List ℕ → ℕ
occurrences i [] = 0
occurrences i (x ∷ xs) = (if x == i then 1 else 0) + occurrences i xs

-- One where the index is unmarked, nothing where it is marked or out of range.
abbrev pub vacant : List Bool → ℕ → ℕ
vacant [] i = 0
vacant (b ∷ bs) zero = if b then 0 else 1
vacant (b ∷ bs) (suc i) = vacant bs i

-- The number of marks.
abbrev pub alive : List Bool → ℕ
alive [] = 0
alive (b ∷ bs) = (if b then 1 else 0) + alive bs

pub is_used-lt : (bs : List Bool) (i : ℕ) → is_used bs i ≡ true → i < length bs
is_used-lt [] i h = cc
is_used-lt (b ∷ bs) zero h = omega arith
is_used-lt (b ∷ bs) (suc i) h = omega (arith, is_used-lt bs i h)

pub vacant-lt : (bs : List Bool) (i : ℕ) → 0 < vacant bs i → i < length bs
vacant-lt [] i h = absurd (omega arith)
vacant-lt (b ∷ bs) zero h = omega arith
vacant-lt (b ∷ bs) (suc i) h = omega (arith, vacant-lt bs i h)

pub vacant-is_used : (bs : List Bool) (i : ℕ) → 0 < vacant bs i → is_used bs i ≡ false
vacant-is_used [] i h = refl
vacant-is_used (true ∷ bs) zero h = absurd (omega arith)
vacant-is_used (false ∷ bs) zero h = refl
vacant-is_used (b ∷ bs) (suc i) h = vacant-is_used bs i h

pub is_used-set :
    (bs : List Bool) (i j : ℕ) (b : Bool)
    → i < length bs
    → is_used (set bs i b) j ≡ (if i == j then b else is_used bs j)
is_used-set [] i j b h = elim h [ ]
is_used-set (c ∷ bs) zero zero b h = refl
is_used-set (c ∷ bs) zero (suc j) b h = ground arith
is_used-set (c ∷ bs) (suc i) zero b h = ground arith
is_used-set (c ∷ bs) (suc i) (suc j) b h = ground (arith, is_used-set bs i j b (omega arith))

pub vacant-set :
    (bs : List Bool) (i j : ℕ) (b : Bool)
    → i < length bs
    → vacant (set bs i b) j ≡ (if i == j then (if b then 0 else 1) else vacant bs j)
vacant-set [] i j b h = elim h [ ]
vacant-set (c ∷ bs) zero zero b h = refl
vacant-set (c ∷ bs) zero (suc j) b h = ground arith
vacant-set (c ∷ bs) (suc i) zero b h = ground arith
vacant-set (c ∷ bs) (suc i) (suc j) b h = ground (arith, vacant-set bs i j b (omega arith))

pub alive-set-true :
    (bs : List Bool) (i : ℕ) → 0 < vacant bs i → alive (set bs i true) ≡ suc (alive bs)
alive-set-true [] i h = absurd (omega arith)
alive-set-true (b ∷ bs) zero h = ground arith
alive-set-true (b ∷ bs) (suc i) h = omega (arith, alive-set-true bs i h)

pub alive-set-false :
    (bs : List Bool) (i : ℕ) → is_used bs i ≡ true → suc (alive (set bs i false)) ≡ alive bs
alive-set-false [] i h = cc
alive-set-false (b ∷ bs) zero h = ground arith
alive-set-false (b ∷ bs) (suc i) h = omega (arith, alive-set-false bs i h)

pub is_used-append_free :
    (bs : List Bool) (n i : ℕ) → is_used (bs ++ replicate n false) i ≡ is_used bs i
is_used-append_free [] zero i = refl
is_used-append_free [] (suc n) zero = refl
is_used-append_free [] (suc n) (suc i) = is_used-append_free [] n i
is_used-append_free (b ∷ bs) n zero = refl
is_used-append_free (b ∷ bs) n (suc i) = is_used-append_free bs n i

pub alive-append_free : (bs : List Bool) (n : ℕ) → alive (bs ++ replicate n false) ≡ alive bs
alive-append_free [] zero = refl
alive-append_free [] (suc n) = omega (arith, alive-append_free [] n)
alive-append_free (b ∷ bs) n = omega (arith, alive-append_free bs n)

-- One for the numbers from `from` up to `from + n`.
abbrev pub in_range : ℕ → ℕ → ℕ → ℕ
in_range from n i = if leb from i && ltb i (from + n) then 1 else 0

pub vacant-append_free :
    (bs : List Bool) (n i : ℕ)
    → vacant (bs ++ replicate n false) i ≡ vacant bs i + in_range (length bs) n i
vacant-append_free [] zero i = ground arith
vacant-append_free [] (suc n) zero = ground arith
vacant-append_free [] (suc n) (suc i) = ground (arith, vacant-append_free [] n i)
vacant-append_free (b ∷ bs) n zero = ground arith
vacant-append_free (b ∷ bs) n (suc i) = ground (arith, vacant-append_free bs n i)

pub occurrences-push_range :
    (n from i : ℕ) (stack : List ℕ)
    → occurrences i (push_range n from stack) ≡ occurrences i stack + in_range from n i
unfolding push_range
occurrences-push_range zero from i stack = ground arith
occurrences-push_range (suc n) from i stack =
    ground (arith, occurrences-push_range n (from + 1) i (from ∷ stack))

pub length-push_range :
    (n from : ℕ) (stack : List ℕ) → length (push_range n from stack) ≡ n + length stack
unfolding push_range
length-push_range zero from stack = omega arith
length-push_range (suc n) from stack = omega (arith, length-push_range n (from + 1) (from ∷ stack))

pub is_used-set_self :
    (bs : List Bool) (i : ℕ) (b : Bool) → i < length bs → is_used (set bs i b) i ≡ b
is_used-set_self [] i b h = elim h [ ]
is_used-set_self (c ∷ bs) zero b h = refl
is_used-set_self (c ∷ bs) (suc i) b h = is_used-set_self bs i b (omega arith)

pub is_used-set_ne :
    (bs : List Bool) (i j : ℕ) (b : Bool) → i ≢ j → is_used (set bs i b) j ≡ is_used bs j
is_used-set_ne [] i j b h = refl
is_used-set_ne (c ∷ bs) zero zero b h = absurd (h refl)
is_used-set_ne (c ∷ bs) zero (suc j) b h = refl
is_used-set_ne (c ∷ bs) (suc i) zero b h = refl
is_used-set_ne (c ∷ bs) (suc i) (suc j) b h = is_used-set_ne bs i j b (λ e. h (ap suc e))

pub occurrences-append :
    (k : ℕ) (xs ys : List ℕ) → occurrences k (xs ++ ys) ≡ occurrences k xs + occurrences k ys
occurrences-append k [] ys = omega arith
occurrences-append k (x ∷ xs) ys = omega (arith, occurrences-append k xs ys)
