-- ===== src/Base/Numbers.antt =====
-- The numbers that the C library reads from text: std::strtoul and std::stoll in base ten. A text is
-- the list of its bytes.
use Prim.Native.Nat.{ℕ, ◌+◌, ◌-◌, ◌*◌, ◌%◌, ◌^◌}
use mathlib.Core.Bool.{Bool, true, false, not, ◌&&◌, ◌||◌}
use mathlib.Core.List.{List, [], ◌∷◌}
use pinpoint_c_agent.Base.Tests.{ltb, leb, ◌==◌, if◌then◌else◌}
use pinpoint_c_agent.Base.Int.{ℤ, pos, sub_ℕ}
use pinpoint_c_agent.Base.Faults.{Result, ok, err, out_of_range, invalid_argument}
use pinpoint_c_agent.Base.Word.{u64_mod}

abbrev pub is_digit : ℕ → Bool
is_digit c = leb b'0' c && leb c b'9'

abbrev pub is_space : ℕ → Bool
is_space c = c == 32 || (leb 9 c && leb c 13)

unfoldable pub skip_spaces : List ℕ → List ℕ
skip_spaces [] = []
skip_spaces (c ∷ cs) = let rest = skip_spaces cs in if is_space c then rest else c ∷ cs

-- The digits at the front: whether there is one, their value on top of `acc`, and what is behind.
unfoldable pub read_digits : Bool → ℕ → List ℕ → Bool × ℕ × List ℕ
read_digits any acc [] = (any, acc, [])
read_digits any acc (c ∷ cs) =
    let rest = read_digits true (10 * acc + (c - b'0')) cs in
    if is_digit c then rest else (any, acc, c ∷ cs)

-- The sign: whether it is a minus, and what is behind it.
unfoldable pub read_sign : List ℕ → Bool × List ℕ
read_sign [] = (false, [])
read_sign (c ∷ cs) =
    if c == b'-' then (true, cs) else (if c == b'+' then (false, cs) else (false, c ∷ cs))

-- strtoul(text, &end, 10): the value and the text from `end` on. Without a digit that is the whole
-- text; a value out of range is ULONG_MAX, and a minus negates in 64 bits.
unfoldable pub strtoul : List ℕ → ℕ × List ℕ
strtoul text =
    let (minus, unsigned) = read_sign (skip_spaces text) in
    let (any, n, rest) = read_digits false 0 unsigned in
    if not any
    then (0, text)
    else (if leb u64_mod n
        then (u64_mod - 1, rest)
        else (if minus then ((u64_mod - n) % u64_mod, rest) else (n, rest)))

-- std::stoll(text), which throws where there is no digit and where the value is no int64_t.
unfoldable pub stoll : List ℕ → Result ℤ
stoll text =
    let (minus, unsigned) = read_sign (skip_spaces text) in
    let (any, n, rest) = read_digits false 0 unsigned in
    if not any
    then err invalid_argument
    else (if ltb n (2 ^ 63) || (minus && n == 2 ^ 63)
        then ok (if minus then sub_ℕ 0 n else pos n)
        else err out_of_range)
