-- ===== src/Pithos/Corpus/Windows.antt =====
-- Every sample of the stream lies inside one chunk object.
use native.Mathlib.Nat.{div-add-mod, zero-mul}
use agora_test.Prelude.{
  ℕ, ◌+◌, ◌*◌, ◌/◌, ◌%◌, ◌≤◌, ◌<◌, List, ◌≡◌, ap, ◌∙◌, arith, length, slice, Text, ok, some,
  get_elem?, slice-slice, zero, suc,
}
use agora_test.Pithos.Corpus.ChunkWriter.{ChunkWriter, init, write_all, close}
use agora_test.Pithos.Corpus.Objects.{object, object_count, get_elem?-objects}
use agora_test.Pithos.Corpus.Refine.{AllWhole, concat, write_all-objects, init-pos}

quotient_ge : (c k t : ℕ) → 1 ≤ c → c * k ≤ t → k ≤ t / c
quotient_ge c k t pos h = grind arith

product-le : (j q seq : ℕ) → j < q → j * seq + seq ≤ q * seq
product-le j q seq h = grind arith

product_pos : (q seq : ℕ) → 1 ≤ q → 1 ≤ seq → 1 ≤ q * seq
product_pos q seq h k = grind arith

factor_pos : (q seq : ℕ) → 1 ≤ q * seq → 1 ≤ q
factor_pos zero seq h = rw zero-mul at h
factor_pos (suc q) seq h = omega arith

-- `g = (g / q) * q + g % q`, in tokens.
position : (c seq q g : ℕ) → c ≡ q * seq → 1 ≤ q → c * (g / q) + (g % q) * seq ≡ g * seq
position c seq q g e h = rw e (omega (arith, ap (λ (t : ℕ). t * seq) (div-add-mod g q)))

module _ (c seq q : ℕ) (s : List ℕ) (g : ℕ) where
  sample-object :
      c ≡ q * seq
      → 1 ≤ q
      → slice (4 * ((g % q) * seq)) (4 * (seq + 1)) (object c s (g / q))
        ≡ slice (4 * (g * seq)) (4 * (seq + 1)) s
  sample-object e h =
      slice-slice (4 * ((g % q) * seq)) (4 * (seq + 1)) (4 * (c * (g / q))) (4 * (c + 1)) s
        (omega (arith, product-le (g % q) q seq (grind arith), e))
      ∙ ap (λ b. slice b (4 * (seq + 1)) s) (omega (arith, position c seq q g e h))

  sample-lt-object_count :
      (t : ℕ) → c ≡ q * seq → 1 ≤ q → 1 ≤ seq → g * seq + seq + 1 ≤ t → g / q < object_count c t
  sample-lt-object_count zero e h hs fits = absurd (omega arith)
  sample-lt-object_count (suc t) e h hs fits = omega (
    arith,
    quotient_ge c (g / q) t (rw e (product_pos q seq h hs)) (omega (arith, position c seq q g e h)),
  )

module _ (sha256 : List ℕ → Text) where
  -- For a sequence length `seq` that divides the chunk size, sample `g` of the written stream (its
  -- `seq` tokens and the next one) is a slice of the one object `g / q`, at sample `g % q` of it,
  -- where `q` is the number of samples in a chunk.
  pub written-sample :
      (c seq q g : ℕ) (ts : List (List ℕ)) (w : ChunkWriter)
      → init c ≡ ok w
      → AllWhole ts
      → c ≡ q * seq
      → 1 ≤ seq
      → 4 * (g * seq + seq + 1) ≤ length (concat ts)
      → (w' : ChunkWriter) × (blob : List ℕ) × (write_all sha256 ts w ≡ ok w')
        × (get_elem? (close sha256 w').sunk (g / q) ≡ some (g / q, blob))
        × (slice (4 * ((g % q) * seq)) (4 * (seq + 1)) blob
            ≡ slice (4 * (g * seq)) (4 * (seq + 1)) (concat ts))
  written-sample c seq q g ts w e h split hs fits =
      let (w', done, sunk, whole) = write_all-objects sha256 c ts w e h in
      let hq : 1 ≤ q = factor_pos q seq (rw (← split) (init-pos sha256 c w e)) in
      (
        w',
        object c (concat ts) (g / q),
        done,
        ap (λ l. get_elem? l (g / q)) sunk
            ∙ get_elem?-objects c (concat ts) (object_count c (length (concat ts) / 4)) (g / q) (
                sample-lt-object_count c seq q (concat ts) g (length (concat ts) / 4) split hq hs
                  (omega arith)),
        sample-object c seq q (concat ts) g split hq,
      )
