-- ===== src/Pithos/Corpus/Objects.antt =====
-- The chunk objects of a byte stream, by position: what `ChunkWriter` promises.
use agora_test.Prelude.{
  ℕ, zero, suc, ◌+◌, ◌*◌, ◌/◌, ◌≤◌, ◌<◌, List, [], ◌∷◌, ◌++◌, ◌≡◌, refl, ap, ap₂, ◌∙◌, arith, some,
  ◌⊎◌, inl, inr, length, take, get_elem?, slice, length-append, length-drop, take-append_le,
  drop-append_le, get_elem?-append_lt, get_elem?-append_length,
}

-- Object `k` holds the tokens `[k * c, (k + 1) * c + 1)` of the stream.
abbrev pub object : ℕ → List ℕ → ℕ → List ℕ
object c s k = slice (4 * (c * k)) (4 * (c + 1)) s

pub objects : ℕ → List ℕ → ℕ → List (ℕ × List ℕ)
objects c s zero = []
objects c s (suc n) = objects c s n ++ ((n, object c s n) ∷ [])

-- The number of objects of a stream of `t` tokens.
abbrev pub object_count : ℕ → ℕ → ℕ
object_count c zero = 0
object_count c (suc t) = t / c + 1

pub objects-zero : (c : ℕ) (s : List ℕ) → objects c s 0 ≡ []
unfolding objects
objects-zero c s = refl

pub objects-suc :
    (c : ℕ) (s : List ℕ) (n : ℕ) → objects c s (n + 1) ≡ objects c s n ++ ((n, object c s n) ∷ [])
unfolding objects
objects-suc c s n = let e : n + 1 ≡ suc n = omega arith in rw e refl

length-objects : (c : ℕ) (s : List ℕ) (n : ℕ) → length (objects c s n) ≡ n
unfolding objects
length-objects c s zero = refl
length-objects c s (suc n) =
    omega (arith, length-append {0} (objects c s n) ((n, object c s n) ∷ []), length-objects c s n)

pub get_elem?-objects :
    (c : ℕ) (s : List ℕ) (n k : ℕ) → k < n → get_elem? (objects c s n) k ≡ some (k, object c s k)
unfolding objects
get_elem?-objects c s zero k h = absurd (omega arith)
get_elem?-objects c s (suc n) k h = elim (split k n (omega arith)) [
  | inl below ↦
      get_elem?-append_lt (objects c s n) _ k (omega (arith, length-objects c s n))
      ∙ get_elem?-objects c s n k below
  | inr same ↦ rw same (
      get_elem?-append_length (objects c s n) (n, object c s n) n
        (omega (arith, length-objects c s n)))
]
  where
    split : (k n : ℕ) → k ≤ n → (k < n) ⊎ (k ≡ n)
    split k n h = grind arith

-- What follows does not change an object that lies in the stream whole.
object-append :
    (c : ℕ) (s t : List ℕ) (k : ℕ)
    → 4 * (c * k) + 4 * (c + 1) ≤ length s
    → object c (s ++ t) k ≡ object c s k
object-append c s t k h =
    ap (take (4 * (c + 1))) (drop-append_le (4 * (c * k)) s t (omega arith))
    ∙ take-append_le (4 * (c + 1)) _ t (omega (arith, length-drop {0} (4 * (c * k)) s))

pub objects-append :
    (c : ℕ) (s t : List ℕ) (n : ℕ)
    → (n ≡ 0) ⊎ (4 * (c * n) + 4 ≤ length s)
    → objects c (s ++ t) n ≡ objects c s n
unfolding objects
objects-append c s t zero h = refl
objects-append c s t (suc n) h =
    ap₂ (λ l o. l ++ ((n, o) ∷ [])) (objects-append c s t n (shorter n (omega arith)))
      (object-append c s t n (omega arith))
  where
    shorter : (n : ℕ) → 4 * (c * suc n) + 4 ≤ length s → (n ≡ 0) ⊎ (4 * (c * n) + 4 ≤ length s)
    shorter n h = inr (omega arith)
