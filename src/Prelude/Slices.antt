-- ===== src/Prelude/Slices.antt =====
-- Python slices of sequences: the laws of `take` and `drop` that the slice proofs use.
use Prim.Native.Nat.{ℕ, zero, suc, ◌+◌, ◌-◌, ◌≤◌}
use mathlib.Core.Path.{◌≡◌, refl, ap, ◌∙◌}
use mathlib.Core.List.{List, [], ◌∷◌, ◌++◌}
use native.Mathlib.Nat.{suc-add}
use native.Mathlib.Omega.{arith}
use agora_test.Prelude.Lists.{length, take, drop}

module _ {ℓ} {A : Type ℓ} where
  -- `xs[lo : lo + n]`
  abbrev pub slice : ℕ → ℕ → List A → List A
  slice lo n xs = take n (drop lo xs)

  pub take-append_le : (n : ℕ) (xs ys : List A) → n ≤ length xs → take n (xs ++ ys) ≡ take n xs
  take-append_le zero xs ys h = refl
  take-append_le (suc n) [] ys h = absurd (omega arith)
  take-append_le (suc n) (x ∷ xs) ys h = ap (λ l. x ∷ l) (take-append_le n xs ys (omega arith))

  pub drop-append_le :
      (n : ℕ) (xs ys : List A) → n ≤ length xs → drop n (xs ++ ys) ≡ drop n xs ++ ys
  drop-append_le zero xs ys h = refl
  drop-append_le (suc n) [] ys h = absurd (omega arith)
  drop-append_le (suc n) (x ∷ xs) ys h = drop-append_le n xs ys (omega arith)

  pub drop-drop : (m n : ℕ) (xs : List A) → drop m (drop n xs) ≡ drop (n + m) xs
  drop-drop m zero xs = ap (λ k. drop k xs) (omega arith)
  drop-drop zero (suc n) [] = rw suc-add refl
  drop-drop (suc m) (suc n) [] = rw suc-add refl
  drop-drop m (suc n) (x ∷ xs) = rw suc-add (drop-drop m n xs)

  pub take_all : (n : ℕ) (xs : List A) → length xs ≤ n → take n xs ≡ xs
  take_all zero [] h = refl
  take_all zero (x ∷ xs) h = absurd (omega arith)
  take_all (suc n) [] h = refl
  take_all (suc n) (x ∷ xs) h = ap (λ l. x ∷ l) (take_all n xs (omega arith))

  pub drop_all : (n : ℕ) (xs : List A) → length xs ≤ n → drop n xs ≡ []
  drop_all zero [] h = refl
  drop_all zero (x ∷ xs) h = absurd (omega arith)
  drop_all (suc n) [] h = refl
  drop_all (suc n) (x ∷ xs) h = drop_all n xs (omega arith)

  take-take_le : (m n : ℕ) (xs : List A) → m ≤ n → take m (take n xs) ≡ take m xs
  take-take_le zero n xs h = refl
  take-take_le (suc m) zero xs h = absurd (omega arith)
  take-take_le (suc m) (suc n) [] h = refl
  take-take_le (suc m) (suc n) (x ∷ xs) h = ap (λ l. x ∷ l) (take-take_le m n xs (omega arith))

  drop-take : (m n : ℕ) (xs : List A) → drop m (take (m + n) xs) ≡ take n (drop m xs)
  drop-take zero n xs = ap (λ k. take k xs) (omega arith)
  drop-take (suc m) zero [] = rw suc-add refl
  drop-take (suc m) (suc n) [] = rw suc-add refl
  drop-take (suc m) n (x ∷ xs) = rw suc-add (drop-take m n xs)

  -- A slice inside a slice of the sequence is a slice of the sequence.
  pub slice-slice :
      (lo n base m : ℕ) (xs : List A)
      → lo + n ≤ m
      → slice lo n (slice base m xs) ≡ slice (base + lo) n xs
  slice-slice lo n base m xs h =
      let rest = m - lo in
      let e : m ≡ lo + rest = omega arith in
      rw e (
        rw (drop-take lo rest (drop base xs)) (
          take-take_le n rest (drop lo (drop base xs)) (omega arith)
          ∙ ap (take n) (drop-drop lo base xs)))

  pub take-append_length : (n : ℕ) (xs ys : List A) → length xs ≡ n → take n (xs ++ ys) ≡ xs
  take-append_length n xs ys h = take-append_le n xs ys (omega arith) ∙ take_all n xs (omega arith)

  pub drop-append_length : (n : ℕ) (xs ys : List A) → length xs ≡ n → drop n (xs ++ ys) ≡ ys
  drop-append_length n xs ys h =
      drop-append_le n xs ys (omega arith) ∙ ap (λ l. l ++ ys) (drop_all n xs (omega arith))

  pub take-append_ge :
      (n k : ℕ) (xs ys : List A) → length xs ≡ n → take (n + k) (xs ++ ys) ≡ xs ++ take k ys
  take-append_ge zero k [] ys h = ap (λ j. take j ys) (omega arith)
  take-append_ge zero k (x ∷ xs) ys h = absurd (omega arith)
  take-append_ge (suc n) k [] ys h = absurd (omega arith)
  take-append_ge (suc n) k (x ∷ xs) ys h =
      rw suc-add (ap (λ l. x ∷ l) (take-append_ge n k xs ys (omega arith)))
