-- ===== src/Base/Slices.antt =====
-- A block of memory as a list of bytes: what `memcpy` writes and what a range of it holds.
use Prim.Native.Nat.{ℕ, zero, suc, ◌+◌, ◌-◌, ◌≤◌}
use mathlib.Core.Path.{◌≡◌, refl, ap, ◌∙◌, sym, ◌≡⟨◌⟩◌, ◌∎}
use mathlib.Core.List.{List, [], ◌∷◌, ◌++◌}
use native.Mathlib.Omega.{arith}
use pinpoint_c_agent.Base.Lists.{length, take, drop, length-append, length-take, length-drop}

module _ {ℓ} {A : Type ℓ} where
  -- The bytes at offsets l, …, r - 1.
  unfoldable pub slice : ℕ → ℕ → List A → List A
  slice l r xs = take (r - l) (drop l xs)

  -- memcpy(block + ofs, bytes, n) with n the length of `bytes`.
  unfoldable pub write_at : List A → ℕ → List A → List A
  write_at block ofs bytes = take ofs block ++ (bytes ++ drop (ofs + length bytes) block)

module _ {ℓ} {A : Type ℓ} where
  pub take-append_length : (n : ℕ) (xs ys : List A) → length xs ≡ n → take n (xs ++ ys) ≡ xs
  take-append_length zero [] ys h = refl
  take-append_length zero (x ∷ xs) ys h = absurd (omega arith)
  take-append_length (suc n) [] ys h = absurd (omega arith)
  take-append_length (suc n) (x ∷ xs) ys h = ap (◌∷◌ x) (take-append_length n xs ys (omega arith))

  pub take_all : (n : ℕ) (xs : List A) → length xs ≤ n → take n xs ≡ xs
  take_all zero [] h = refl
  take_all zero (x ∷ xs) h = absurd (omega arith)
  take_all (suc n) [] h = refl
  take_all (suc n) (x ∷ xs) h = ap (◌∷◌ x) (take_all n xs (omega arith))

  pub drop_all : (n : ℕ) (xs : List A) → length xs ≤ n → drop n xs ≡ []
  drop_all zero [] h = refl
  drop_all zero (x ∷ xs) h = absurd (omega arith)
  drop_all (suc n) [] h = refl
  drop_all (suc n) (x ∷ xs) h = drop_all n xs (omega arith)

  pub drop-append : (n : ℕ) (xs ys : List A) → n ≤ length xs → drop n (xs ++ ys) ≡ drop n xs ++ ys
  drop-append zero xs ys h = refl
  drop-append (suc n) [] ys h = absurd (omega arith)
  drop-append (suc n) (x ∷ xs) ys h = drop-append n xs ys (omega arith)

  pub take-append_ge :
      (n : ℕ) (xs ys : List A) → length xs ≤ n → take n (xs ++ ys) ≡ xs ++ take (n - length xs) ys
  take-append_ge n [] ys h = ap (λ k. take k ys) (omega arith)
  take-append_ge zero (x ∷ xs) ys h = absurd (omega arith)
  take-append_ge (suc n) (x ∷ xs) ys h =
      ap (◌∷◌ x) (take-append_ge n xs ys (omega arith) ∙ ap (λ k. xs ++ take k ys) (omega arith))

  take-nil : (n : ℕ) → take {A = A} n [] ≡ []
  take-nil zero = refl
  take-nil (suc n) = refl

  -- A prefix of the block, shifted, is a prefix of the shifted block.
  pub drop-take : (l n : ℕ) (xs : List A) → l ≤ n → drop l (take n xs) ≡ take (n - l) (drop l xs)
  drop-take zero n xs h = ap (λ k. take k xs) (omega arith)
  drop-take (suc l) zero xs h = absurd (omega arith)
  drop-take (suc l) (suc n) [] h = sym (take-nil (suc n - suc l))
  drop-take (suc l) (suc n) (x ∷ xs) h =
      drop-take l n xs (omega arith) ∙ ap (λ k. take k (drop l xs)) (omega arith)

  pub drop-drop : (m n : ℕ) (xs : List A) → drop n (drop m xs) ≡ drop (m + n) xs
  drop-drop zero n xs = ap (λ k. drop k xs) (omega arith)
  drop-drop (suc m) n [] = drop_all n [] (omega arith) ∙ sym (drop_all (suc m + n) [] (omega arith))
  drop-drop (suc m) n (x ∷ xs) =
      let e : suc (m + n) ≡ suc m + n = omega arith in
      drop-drop m n xs ∙ ap (λ k. drop k (x ∷ xs)) e

  pub take_add : (m n : ℕ) (xs : List A) → take (m + n) xs ≡ take m xs ++ take n (drop m xs)
  take_add zero n xs = ap (λ k. take k xs) (omega arith)
  take_add (suc m) n [] = take-nil (suc m + n) ∙ sym (take-nil n)
  take_add (suc m) n (x ∷ xs) =
      let e : suc m + n ≡ suc (m + n) = omega arith in
      ap (λ k. take k (x ∷ xs)) e ∙ ap (◌∷◌ x) (take_add m n xs)

  pub length-slice : (l r : ℕ) (xs : List A) → l ≤ r → r ≤ length xs → length (slice l r xs) ≡ r - l
  unfolding slice
  length-slice l r xs h k = omega (arith, length-take (r - l) (drop l xs), length-drop l xs)

  pub slice_empty : (l : ℕ) (xs : List A) → slice l l xs ≡ []
  unfolding slice
  slice_empty l xs = let e : l - l ≡ 0 = omega arith in rw e

  pub length-write_at :
      (block : List A) (ofs : ℕ) (bytes : List A)
      → ofs + length bytes ≤ length block
      → length (write_at block ofs bytes) ≡ length block
  unfolding write_at
  length-write_at block ofs bytes h = omega (
    arith,
    length-append (take ofs block) (bytes ++ drop (ofs + length bytes) block),
    length-append bytes (drop (ofs + length bytes) block),
    length-take ofs block,
    length-drop (ofs + length bytes) block,
  )

module _ {ℓ} {A : Type ℓ} where
  -- What is written behind a range extends it.
  pub slice-write_at :
      (block : List A) (l r : ℕ) (bytes : List A)
      → l ≤ r
      → r + length bytes ≤ length block
      → slice l (r + length bytes) (write_at block r bytes) ≡ slice l r block ++ bytes
  unfolding slice write_at
  slice-write_at block l r bytes h k =
      let old : length (take r block) ≡ r = omega (arith, length-take r block) in
      let kept : length (drop l (take r block)) ≡ r - l =
        omega (arith, length-drop l (take r block)) in
      take (r + length bytes - l) (drop l (take r block ++ (bytes ++ rest)))
      ≡⟨ ap (take _) (drop-append l (take r block) (bytes ++ rest) (omega arith)) ⟩
        take (r + length bytes - l) (drop l (take r block) ++ (bytes ++ rest))
      ≡⟨ take-append_ge _ (drop l (take r block)) (bytes ++ rest) (omega arith) ⟩
        drop l (take r block)
        ++ take (r + length bytes - l - length (drop l (take r block))) (bytes ++ rest)
      ≡⟨ ap (◌++◌ (drop l (take r block))) (take-append_length _ bytes rest (omega arith)) ⟩
        drop l (take r block) ++ bytes
      ≡⟨ ap (λ s. s ++ bytes) (drop-take l r block h) ⟩ take (r - l) (drop l block) ++ bytes ∎
    where
      rest : List A
      rest = drop (r + length bytes) block

  pub drop-slice :
      (n l r : ℕ) (block : List A) → n ≤ r - l → drop n (slice l r block) ≡ slice (l + n) r block
  unfolding slice
  drop-slice n l r block h =
      drop-take n (r - l) (drop l block) h
      ∙ (ap (take (r - l - n)) (drop-drop l n block)
          ∙ ap (λ k. take k (drop (l + n) block)) (omega arith))

  pub drop-append_length : (n : ℕ) (xs ys : List A) → length xs ≡ n → drop n (xs ++ ys) ≡ ys
  drop-append_length n xs ys h =
      drop-append n xs ys (omega arith) ∙ ap (λ s. s ++ ys) (drop_all n xs (omega arith))

  pub length-zero : (xs : List A) → length xs ≡ 0 → xs ≡ []
  length-zero [] h = refl
  length-zero (x ∷ xs) h = absurd (omega arith)
