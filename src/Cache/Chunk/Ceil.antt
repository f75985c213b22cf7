-- ===== src/Cache/Chunk/Ceil.antt =====
-- ck_ceil_to_k: the loop finds the top bit of its argument, so the result is the least power of two
-- above it.
use Prim.Native.Nat.{digits, bit_and-bitwise}
use native.Mathlib.Nat.{pow-suc}
use pinpoint_c_agent.Base.{
  ℕ, zero, suc, ◌+◌, ◌*◌, ◌/◌, ◌%◌, ◌^◌, ◌≤◌, ◌<◌, min, bit_and, ◌≡◌, refl, ◌⊎◌, inl, inr, arith,
  u32_mod, ltb, ltb→lt, false, Bool-cases, ◌∙◌, ap, sym,
}
use pinpoint_c_agent.Cache.Chunk.Buffer.{top_bit, ck_ceil_to_k}

abbrev and_digits : ℕ → ℕ → ℕ → ℕ
and_digits = digits (λ b. zero) min

and_digits_zero : (n b : ℕ) → and_digits n 0 b ≡ 0
and_digits_zero zero b = refl
and_digits_zero (suc n) b = refl

-- A power of two meets a number below its double in its top bit or not at all.
abbrev MeetsTop : ℕ → ℕ → ℕ → Type 0
MeetsTop a i r = ((i < a) × (r ≡ 0)) ⊎ ((a ≤ i) × (r ≡ a))

and_digits_top : (n j a i : ℕ) → a ≡ 2 ^ j → a ≤ n → i < 2 * a → MeetsTop a i (and_digits n a i)
and_digits_top n j zero i e h k = absurd (omega arith)
and_digits_top zero j (suc a) i e h k = absurd (omega arith)
and_digits_top (suc n) zero (suc a) i e h k =
    let half : suc a / 2 ≡ 0 = omega arith in
    let gone : and_digits n (suc a / 2) (i / 2) ≡ 0 = rw half (and_digits_zero n (i / 2)) in
    ground arith
and_digits_top (suc n) (suc j) (suc a) i e h k =
    let p : 2 ^ suc j ≡ 2 ^ j * 2 = pow-suc 2 j in
    let half : suc a / 2 ≡ 2 ^ j = omega arith in
    ground (arith, and_digits_top n j (suc a / 2) (i / 2) half (omega arith) (omega arith))

bit_and_top : (j a i : ℕ) → a ≡ 2 ^ j → i < 2 * a → MeetsTop a i (bit_and a i)
bit_and_top j a i e k =
    ground (arith, bit_and-bitwise a i, and_digits_top a j a i e (omega arith) k)

-- `r` is the power of two at the top bit of `i`.
pub record IsTopBit (i r : ℕ) : Type 0 where
  pub exponent : ℕ
  pub power : r ≡ 2 ^ exponent
  pub below : r ≤ i
  pub above : i < 2 * r

-- The loop stops at the bit that it meets.
top_bit_hit :
    (fuel j k i : ℕ)
    → k ≡ 2 ^ j
    → 0 < k
    → k ≤ i
    → i < 2 * k
    → bit_and k i ≡ k
    → IsTopBit i (top_bit (suc fuel) k i)
unfolding top_bit
top_bit_hit fuel j k i e p b a hit =
    let found : top_bit (suc fuel) k i ≡ k = ground arith in
    record { exponent = j; power = found ∙ e; below = omega arith; above = omega arith }

-- It goes on where the bit is clear.
top_bit_miss :
    (fuel k i : ℕ) → 0 < k → bit_and k i ≡ 0 → top_bit (suc fuel) k i ≡ top_bit fuel (k / 2) i
unfolding top_bit
top_bit_miss fuel k i p miss = ground arith

top_bit-IsTopBit :
    (fuel j k i : ℕ) → k ≡ 2 ^ j → 0 < i → i < 2 * k → j < fuel → IsTopBit i (top_bit fuel k i)
top_bit-IsTopBit zero j k i e p h f = absurd (omega arith)
top_bit-IsTopBit (suc fuel) zero k i e p h f = elim (bit_and_top zero k i e h) [
  | inr (here, hit) ↦ top_bit_hit fuel zero k i e (omega arith) here h hit
  | inl (under, miss) ↦ absurd (omega arith)
]
top_bit-IsTopBit (suc fuel) (suc j) k i e p h f =
    let q : 2 ^ suc j ≡ 2 ^ j * 2 = pow-suc 2 j in
    let half : k / 2 ≡ 2 ^ j = omega arith in
    elim (bit_and_top (suc j) k i e h) [
      | inr (here, hit) ↦ top_bit_hit fuel (suc j) k i e (omega arith) here h hit
      | inl (under, miss) ↦
          rw (top_bit_miss fuel k i (omega arith) miss)
            (top_bit-IsTopBit fuel j (k / 2) i half p (omega arith) (omega arith))
    ]

-- Below the threshold the result is the threshold.
pub ck_ceil_to_k_small : (threshold i : ℕ) → i < threshold → ck_ceil_to_k threshold i ≡ threshold
unfolding ck_ceil_to_k
ck_ceil_to_k_small threshold i h = ground arith

-- `r` is a power of two, above `i` and at most its double.
pub record IsCeil (i r : ℕ) : Type 0 where
  pub exponent : ℕ
  pub power : r ≡ 2 ^ exponent
  pub above : i < r
  pub tight : r ≤ 2 * i

-- From the threshold up, for a request below 2 ^ 31 bytes, the block size is the least power of two
-- above the request: the product does not wrap and the loop ends by its test within its fuel.
pub ck_ceil_to_k-IsCeil :
    (threshold i : ℕ)
    → 0 < threshold
    → threshold ≤ i
    → i < 2 ^ 31
    → IsCeil i (ck_ceil_to_k threshold i)
unfolding ck_ceil_to_k
ck_ceil_to_k-IsCeil threshold i p h b =
    let big : ltb i threshold ≡ false = ground arith in
    let top = top_bit-IsTopBit 33 31 0x80000000 i refl (omega arith) (omega arith) (omega arith) in
    let fits : top_bit 33 0x80000000 i * 2 ^ 1 % u32_mod ≡ top_bit 33 0x80000000 i * 2 =
      omega (arith, top.below) in
    rw (big, fits)
      (record {
        exponent = suc top.exponent;
        power = ap (λ n. n * 2) top.power ∙ sym (pow-suc 2 top.exponent);
        above = omega (arith, top.above);
        tight = omega (arith, top.below);
      })

-- Either way, for a request below 2 ^ 30 bytes, the block holds more than the request, and no more
-- than twice it or the threshold; as an int its size is not negative.
pub ck_ceil_to_k_bounds :
    (threshold i : ℕ)
    → 0 < threshold
    → threshold < 2 ^ 31
    → i < 2 ^ 30
    → (i < ck_ceil_to_k threshold i)
      × (ck_ceil_to_k threshold i ≤ 2 * i + threshold)
      × (ck_ceil_to_k threshold i < 2 ^ 31)
ck_ceil_to_k_bounds threshold i p q b = elim (Bool-cases (ltb i threshold)) [
  | inl small ↦
      let low = ltb→lt i threshold small in
      rw (ck_ceil_to_k_small threshold i low) (low, omega arith, omega arith)
  | inr big ↦
      let c = ck_ceil_to_k-IsCeil threshold i p (ground arith) (omega arith) in
      (c.above, omega (arith, c.tight), omega (arith, c.tight))
]
