-- ===== src/Version/Order.antt =====
-- compare_version compares the lists of the parts, a missing part being 0.
use pinpoint_c_agent.Base.{
  ℕ, zero, suc, ◌+◌, ◌-◌, ◌*◌, ◌≤◌, ◌<◌, ◌≡◌, refl, ap, ◌∙◌, inl, inr, Bool, true, false,
  Bool-cases, List, [], ◌∷◌, some, ltb, ◌==◌, if◌then◌else◌, ℤ, pos, negsuc, strtoul, skip_spaces,
  read_sign, read_digits, length, arith,
}
use pinpoint_c_agent.Version.{after_dot, next_version_part, is_nil, compare_loop}

-- The lists compared: part by part, and then the longer one by what it has besides.
abbrev pub against_zero : List ℕ → ℤ
against_zero [] = pos 0
against_zero (r ∷ rs) = if 0 == r then against_zero rs else negsuc 0

abbrev pub above_zero : List ℕ → ℤ
above_zero [] = pos 0
above_zero (l ∷ ls) = if l == 0 then above_zero ls else pos 1

abbrev pub compare_parts : List ℕ → List ℕ → ℤ
compare_parts [] rs = against_zero rs
compare_parts (l ∷ ls) [] = above_zero (l ∷ ls)
compare_parts (l ∷ ls) (r ∷ rs) =
    if l == r then compare_parts ls rs else (if ltb l r then negsuc 0 else pos 1)

-- The parts of a version, with fuel for its length.
abbrev pub parts : ℕ → List ℕ → List ℕ
parts zero text = []
parts (suc fuel) text =
    let rest = parts fuel (next_version_part text).1 in
    if is_nil text then [] else (next_version_part text).0 ∷ rest

skip_spaces_shorter : (text : List ℕ) → length (skip_spaces text) ≤ length text
unfolding skip_spaces
skip_spaces_shorter [] = omega arith
skip_spaces_shorter (c ∷ cs) = ground (arith, skip_spaces_shorter cs)

read_sign_shorter : (text : List ℕ) → length (read_sign text).1 ≤ length text
unfolding read_sign
read_sign_shorter [] = omega arith
read_sign_shorter (c ∷ cs) = ground arith

read_digits_shorter :
    (any : Bool) (acc : ℕ) (text : List ℕ) → length (read_digits any acc text).2 ≤ length text
unfolding read_digits
read_digits_shorter any acc [] = omega arith
read_digits_shorter any acc (c ∷ cs) =
    ground (arith, read_digits_shorter true (10 * acc + (c - b'0')) cs)

strtoul_shorter : (text : List ℕ) → length (strtoul text).1 ≤ length text
unfolding strtoul
strtoul_shorter text =
    let sign = read_sign (skip_spaces text) in
    ground (
      arith,
      read_digits_shorter false 0 sign.1,
      read_sign_shorter (skip_spaces text),
      skip_spaces_shorter text,
    )

after_dot_shorter : (c : ℕ) (cs : List ℕ) → length (after_dot (c ∷ cs)) < suc (length cs)
unfolding after_dot
after_dot_shorter c [] = ground arith
after_dot_shorter c (d ∷ cs) = ground (arith, after_dot_shorter d cs)

after_dot_bound : (text : List ℕ) (n : ℕ) → length text ≤ suc n → length (after_dot text) < suc n
unfolding after_dot
after_dot_bound [] n h = omega arith
after_dot_bound (c ∷ cs) n h = omega (arith, after_dot_shorter c cs)

next_version_part_shorter :
    (c : ℕ) (cs : List ℕ) → length (next_version_part (c ∷ cs)).1 < suc (length cs)
unfolding next_version_part
next_version_part_shorter c cs =
    after_dot_bound (strtoul (c ∷ cs)).1 (length cs) (strtoul_shorter (c ∷ cs))

next_version_part_nil : next_version_part [] ≡ (0, [])
unfolding next_version_part strtoul skip_spaces read_sign read_digits after_dot
next_version_part_nil = refl

compare_parts-nil : (ls : List ℕ) → compare_parts ls [] ≡ above_zero ls
compare_parts-nil [] = refl
compare_parts-nil (l ∷ ls) = refl

pub parts-nil : (fuel : ℕ) → parts fuel [] ≡ []
parts-nil zero = refl
parts-nil (suc fuel) = refl

ltb-zero : (n : ℕ) → ltb n 0 ≡ false
ltb-zero n = ground arith

pub compare_loop-parts :
    (fuel lf rf : ℕ) (lhs rhs : List ℕ)
    → length lhs ≤ lf
    → length rhs ≤ rf
    → length lhs + length rhs < fuel
    → compare_loop fuel lhs rhs ≡ some (compare_parts (parts lf lhs) (parts rf rhs))
unfolding compare_loop
compare_loop-parts zero lf rf lhs rhs h k f = elim f [ ]
compare_loop-parts (suc fuel) lf rf [] [] h k f = rw (parts-nil lf, parts-nil rf)
compare_loop-parts (suc fuel) lf zero [] (d ∷ ds) h k f = absurd (omega arith)
compare_loop-parts (suc fuel) lf (suc rf) [] (d ∷ ds) h k f =
    let less = next_version_part_shorter d ds in
    let ih =
      compare_loop-parts fuel lf rf [] (next_version_part (d ∷ ds)).1 h (omega arith)
        (omega (arith, less)) in
    let e : compare_loop fuel [] (next_version_part (d ∷ ds)).1
        ≡ some (against_zero (parts rf (next_version_part (d ∷ ds)).1)) =
      ih
      ∙ ap (λ ls. some (compare_parts ls (parts rf (next_version_part (d ∷ ds)).1)))
          (parts-nil lf) in
    elim (Bool-cases (0 == (next_version_part (d ∷ ds)).0)) [
      | inl t ↦ rw (parts-nil lf, next_version_part_nil, t, e)
      | inr t ↦ ground (arith, parts-nil lf, next_version_part_nil, t)
    ]
compare_loop-parts (suc fuel) zero rf (c ∷ cs) [] h k f = absurd (omega arith)
compare_loop-parts (suc fuel) (suc lf) rf (c ∷ cs) [] h k f =
    let less = next_version_part_shorter c cs in
    let ih =
      compare_loop-parts fuel lf rf (next_version_part (c ∷ cs)).1 [] (omega arith) k
        (omega (arith, less)) in
    let here = (next_version_part (c ∷ cs)).0 in
    let rest = parts lf (next_version_part (c ∷ cs)).1 in
    let e : compare_loop fuel (next_version_part (c ∷ cs)).1 [] ≡ some (above_zero rest) =
      ih
      ∙ ap (λ rs. some (compare_parts rest rs)) (parts-nil rf)
      ∙ ap (λ v. some v) (compare_parts-nil rest) in
    elim (Bool-cases (here == 0)) [
      | inl t ↦ rw (parts-nil rf, next_version_part_nil, t, e)
      | inr t ↦ rw (parts-nil rf, next_version_part_nil, t, ltb-zero here)
    ]
compare_loop-parts (suc fuel) zero rf (c ∷ cs) (d ∷ ds) h k f = absurd (omega arith)
compare_loop-parts (suc fuel) (suc lf) zero (c ∷ cs) (d ∷ ds) h k f = absurd (omega arith)
compare_loop-parts (suc fuel) (suc lf) (suc rf) (c ∷ cs) (d ∷ ds) h k f =
    let less = next_version_part_shorter c cs in
    let fewer = next_version_part_shorter d ds in
    let ih =
      compare_loop-parts fuel lf rf (next_version_part (c ∷ cs)).1 (next_version_part (d ∷ ds)).1
        (omega arith) (omega arith) (omega (arith, less, fewer)) in
    ground (arith, ih)
