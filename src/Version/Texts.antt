-- ===== src/Version/Texts.antt =====
-- compare_version on the texts of versions: decimal parts with dots between them, behind a 'v', a 'V'
-- or nothing.
use pinpoint_c_agent.Base.{
  ℕ, zero, suc, ◌+◌, ◌-◌, ◌*◌, ◌≤◌, ◌<◌, ◌≡◌, refl, ap, ◌∙◌, Bool, true, false, List, [], ◌∷◌, ◌++◌,
  some, leb, ◌==◌, u64_mod, is_digit, is_space, strtoul, skip_spaces, read_sign, read_digits,
  length, length-append, arith,
}
use pinpoint_c_agent.Version.{after_dot, next_version_part, skip_v, compare_version}
use pinpoint_c_agent.Version.Order.{compare_parts, parts, parts-nil, compare_loop-parts}

-- What a version may begin with.
pub data Prefix : Type 0 where
  plain small_v big_v : Prefix

abbrev pub with_prefix : Prefix → List ℕ → List ℕ
with_prefix plain text = text
with_prefix small_v text = b'v' ∷ text
with_prefix big_v text = b'V' ∷ text

-- The digits of a part as bytes, and the number that they are.
abbrev pub bytes_of : List ℕ → List ℕ
bytes_of [] = []
bytes_of (d ∷ ds) = (b'0' + d) ∷ bytes_of ds

abbrev pub value_from : ℕ → List ℕ → ℕ
value_from acc [] = acc
value_from acc (d ∷ ds) = value_from (10 * acc + d) ds

abbrev pub values : List (List ℕ) → List ℕ
values [] = []
values (l ∷ ls) = value_from 0 l ∷ values ls

abbrev pub more_text : List (List ℕ) → List ℕ
more_text [] = []
more_text (l ∷ ls) = b'.' ∷ bytes_of l ++ more_text ls

-- The parts with a dot between each two.
abbrev pub version_text : List (List ℕ) → List ℕ
version_text [] = []
version_text (l ∷ ls) = bytes_of l ++ more_text ls

abbrev pub AllDigits : List ℕ → Type 0
AllDigits [] = Unit
AllDigits (d ∷ ds) = (d < 10) × AllDigits ds

-- Parts of one digit or more, each a number below 2 ^ 64.
abbrev pub AllParts : List (List ℕ) → Type 0
AllParts [] = Unit
AllParts (l ∷ ls) = (0 < length l) × AllDigits l × (value_from 0 l < u64_mod) × AllParts ls

read_digits_end :
    (acc : ℕ) (ls : List (List ℕ)) → read_digits true acc (more_text ls) ≡ (true, acc, more_text ls)
unfolding read_digits
read_digits_end acc [] = refl
read_digits_end acc (l ∷ ls) = refl

read_digits_step :
    (any : Bool) (acc d : ℕ) (rest : List ℕ)
    → d < 10
    → read_digits any acc ((b'0' + d) ∷ rest) ≡ read_digits true (10 * acc + d) rest
unfolding read_digits
read_digits_step any acc d rest low =
    let digit : is_digit (b'0' + d) ≡ true = ground arith in
    let same : b'0' + d - b'0' ≡ d = omega arith in
    rw digit (ap (λ k. read_digits true (10 * acc + k) rest) same)

read_digits_all :
    (acc : ℕ) (ds : List ℕ) (ls : List (List ℕ))
    → AllDigits ds
    → read_digits true acc (bytes_of ds ++ more_text ls) ≡ (true, value_from acc ds, more_text ls)
read_digits_all acc [] ls a = read_digits_end acc ls
read_digits_all acc (d ∷ ds) ls (low, a) =
    read_digits_step true acc d (bytes_of ds ++ more_text ls) low
    ∙ read_digits_all (10 * acc + d) ds ls a

strtoul_part :
    (l : List ℕ) (ls : List (List ℕ))
    → 0 < length l
    → AllDigits l
    → value_from 0 l < u64_mod
    → strtoul (bytes_of l ++ more_text ls) ≡ (value_from 0 l, more_text ls)
unfolding strtoul skip_spaces read_sign
strtoul_part [] ls some_ a small = absurd (omega arith)
strtoul_part (d ∷ ds) ls some_ (low, a) small =
    let space : is_space (b'0' + d) ≡ false = ground arith in
    let minus : (b'0' + d == b'-') ≡ false = ground arith in
    let plus : (b'0' + d == b'+') ≡ false = ground arith in
    let fits : leb u64_mod (value_from 0 (d ∷ ds)) ≡ false = ground arith in
    let read : read_digits false 0 ((b'0' + d) ∷ bytes_of ds ++ more_text ls)
        ≡ (true, value_from 0 (d ∷ ds), more_text ls) =
      read_digits_step false 0 d (bytes_of ds ++ more_text ls) low
      ∙ read_digits_all (10 * 0 + d) ds ls a in
    rw (space, minus, plus, read, fits) refl

after_dot_more : (ls : List (List ℕ)) → after_dot (more_text ls) ≡ version_text ls
unfolding after_dot
after_dot_more [] = refl
after_dot_more (l ∷ ls) = refl

next_version_part-version_text :
    (l : List ℕ) (ls : List (List ℕ))
    → AllParts (l ∷ ls)
    → next_version_part (version_text (l ∷ ls)) ≡ (value_from 0 l, version_text ls)
unfolding next_version_part
next_version_part-version_text l ls (some_, a, small, _) =
    rw (strtoul_part l ls some_ a small) (ap (λ t. (value_from 0 l, t)) (after_dot_more ls))

parts_cons :
    (fuel : ℕ) (text rest : List ℕ) (n : ℕ)
    → 0 < length text
    → next_version_part text ≡ (n, rest)
    → parts (suc fuel) text ≡ n ∷ parts fuel rest
parts_cons fuel [] rest n h e = absurd (omega arith)
parts_cons fuel (c ∷ cs) rest n h e = ap (λ r. r.0 ∷ parts fuel r.1) e

length-bytes_of : (l : List ℕ) → length (bytes_of l) ≡ length l
length-bytes_of [] = refl
length-bytes_of (d ∷ ds) = ap (λ n. suc n) (length-bytes_of ds)

version_text_longer :
    (l : List ℕ) (ls : List (List ℕ))
    → 0 < length l
    → length (version_text ls) < length (version_text (l ∷ ls))
version_text_longer l [] h = omega (arith, length-append (bytes_of l) [], length-bytes_of l)
version_text_longer l (m ∷ ms) h =
    omega (arith, length-append (bytes_of l) (more_text (m ∷ ms)), length-bytes_of l)

parts-version_text :
    (fuel : ℕ) (ls : List (List ℕ))
    → AllParts ls
    → length (version_text ls) ≤ fuel
    → parts fuel (version_text ls) ≡ values ls
parts-version_text fuel [] a h = parts-nil fuel
parts-version_text zero (l ∷ ls) a h = absurd (omega (arith, version_text_longer l ls a.0))
parts-version_text (suc fuel) (l ∷ ls) a h =
    let longer = version_text_longer l ls a.0 in
    parts_cons fuel (version_text (l ∷ ls)) (version_text ls) (value_from 0 l)
      (omega (arith, longer)) (next_version_part-version_text l ls a)
    ∙ ap (λ vs. value_from 0 l ∷ vs) (parts-version_text fuel ls a.3 (omega (arith, longer)))

skip_v-digits :
    (l : List ℕ) (rest : List ℕ)
    → 0 < length l
    → AllDigits l
    → skip_v (bytes_of l ++ rest) ≡ bytes_of l ++ rest
unfolding skip_v
skip_v-digits [] rest h a = absurd (omega arith)
skip_v-digits (d ∷ ds) rest h (low, a) =
    let small : (b'0' + d == b'v') ≡ false = ground arith in
    let big : (b'0' + d == b'V') ≡ false = ground arith in rw (small, big) refl

skip_v-with_prefix :
    (p : Prefix) (ls : List (List ℕ))
    → AllParts ls
    → skip_v (with_prefix p (version_text ls)) ≡ version_text ls
unfolding skip_v
skip_v-with_prefix small_v ls a = refl
skip_v-with_prefix big_v ls a = refl
skip_v-with_prefix plain [] a = refl
skip_v-with_prefix plain (l ∷ ls) (some_, a, _, _) = skip_v-digits l (more_text ls) some_ a

with_prefix_longer : (p : Prefix) (text : List ℕ) → length text ≤ length (with_prefix p text)
with_prefix_longer plain text = omega arith
with_prefix_longer small_v text = omega arith
with_prefix_longer big_v text = omega arith

-- For the texts of two versions, each a list of decimal parts with dots between them, of one digit or
-- more and below 2 ^ 64, behind a 'v', a 'V' or nothing: compare_version returns the order of the
-- lists of the numbers. The first number that differs decides, and where one version has no more
-- parts they count as 0; what the versions begin with has no part in it.
pub compare_version-version_text :
    (p q : Prefix) (ls rs : List (List ℕ))
    → AllParts ls
    → AllParts rs
    → compare_version (with_prefix p (version_text ls)) (with_prefix q (version_text rs))
      ≡ some (compare_parts (values ls) (values rs))
unfolding compare_version
compare_version-version_text p q ls rs a b =
    let lhs = with_prefix p (version_text ls) in
    let rhs = with_prefix q (version_text rs) in
    let l = with_prefix_longer p (version_text ls) in
    let r = with_prefix_longer q (version_text rs) in
    rw (skip_v-with_prefix p ls a, skip_v-with_prefix q rs b)
      (compare_loop-parts (suc (length lhs + length rhs)) (length lhs) (length rhs)
          (version_text ls) (version_text rs) l r (omega (arith, l, r))
        ∙ (ap (λ vs. some (compare_parts vs (parts (length rhs) (version_text rs))))
              (parts-version_text (length lhs) ls a l)
            ∙ ap (λ vs. some (compare_parts (values ls) vs))
                (parts-version_text (length rhs) rs b r)))
