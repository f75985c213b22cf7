-- ===== src/Version.antt =====
-- compare_version of common/src/common.cpp: dotted versions, part by part. A text is the list of its
-- bytes.
pub mod Order
pub mod Texts
use pinpoint_c_agent.Base.{
  ℕ, zero, suc, ◌+◌, Bool, true, false, not, ◌&&◌, ◌||◌, List, [], ◌∷◌, Option, none, some, ltb,
  ◌==◌, if◌then◌else◌, ℤ, pos, negsuc, strtoul, length,
}

-- What stands behind the first '.', the empty text where there is none.
unfoldable pub after_dot : List ℕ → List ℕ
after_dot [] = []
after_dot (c ∷ cs) = let rest = after_dot cs in if c == b'.' then cs else rest

-- The part, and the version moved behind it.
unfoldable pub next_version_part : List ℕ → ℕ × List ℕ
next_version_part version = let (part, end) = strtoul version in (part, after_dot end)

abbrev pub is_nil : List ℕ → Bool
is_nil [] = true
is_nil (c ∷ cs) = false

unfoldable pub skip_v : List ℕ → List ℕ
skip_v [] = []
skip_v (c ∷ cs) = if c == b'v' || c == b'V' then cs else c ∷ cs

-- The loop, with fuel; `none` means that the fuel ran out.
unfoldable pub compare_loop : ℕ → List ℕ → List ℕ → Option ℤ
compare_loop zero lhs rhs = none
compare_loop (suc fuel) lhs rhs =
    let (l, lhs') = next_version_part lhs in
    let (r, rhs') = next_version_part rhs in
    let next = compare_loop fuel lhs' rhs' in
    if is_nil lhs && is_nil rhs
    then some (pos 0)
    else (if l == r then next else some (if ltb l r then negsuc 0 else pos 1))

unfoldable pub compare_version : List ℕ → List ℕ → Option ℤ
compare_version lhs rhs = compare_loop (suc (length lhs + length rhs)) (skip_v lhs) (skip_v rhs)
