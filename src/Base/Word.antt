-- ===== src/Base/Word.antt =====
-- uint32_t and uint64_t arithmetic: values below the modulus, with the wrap-around written out.
use Prim.Native.Nat.{ℕ, ◌+◌, ◌-◌, ◌*◌, ◌%◌, ◌^◌}
use pinpoint_c_agent.Base.Tests.{ltb, if◌then◌else◌}
use pinpoint_c_agent.Base.Int.{ℤ, pos, negsuc}

abbrev pub u32_mod : ℕ
u32_mod = 2 ^ 32

abbrev pub add32 : ℕ → ℕ → ℕ
add32 a b = (a + b) % u32_mod

abbrev pub sub32 : ℕ → ℕ → ℕ
sub32 a b = (a + u32_mod - b) % u32_mod

abbrev pub shl32 : ℕ → ℕ → ℕ
shl32 a k = a * 2 ^ k % u32_mod

abbrev pub u64_mod : ℕ
u64_mod = 2 ^ 64

abbrev pub sub64 : ℕ → ℕ → ℕ
sub64 a b = (a + u64_mod - b) % u64_mod

-- A uint64_t read as an int64_t.
abbrev pub to_int64 : ℕ → ℤ
to_int64 a = if ltb a (2 ^ 63) then pos a else negsuc (u64_mod - 1 - a)

-- A signed number read in 32 bits and in 64.
abbrev pub low_bits : ℕ → ℤ → ℕ
low_bits modulus (pos n) = n % modulus
low_bits modulus (negsuc n) = modulus - 1 - n % modulus

abbrev pub to_uint64 : ℤ → ℕ
to_uint64 = low_bits u64_mod

abbrev pub to_int32 : ℤ → ℤ
to_int32 z =
    let a = low_bits u32_mod z in if ltb a (2 ^ 31) then pos a else negsuc (u32_mod - 1 - a)
