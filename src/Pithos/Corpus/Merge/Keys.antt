-- ===== src/Pithos/Corpus/Merge/Keys.antt =====
-- Ascending keys: what the checks of `merge_parts` accept.
use agora_test.Prelude.{
  ℕ, ◌+◌, List, [], ◌∷◌, ◌≡◌, refl, subst, arith, Option, none, some, true, bytes_lt,
  bytes_lt_irrefl, bytes_lt_trans, bytes_lt_total, text_eq_iff, Bool-cases, inl, inr, ok, Text,
}
use agora_test.Pithos.Corpus.ChunkWriter.{ChunkWriter, write}
use agora_test.Pithos.Corpus.Merge.{
  Record, check_key, plan, merge_loop, merge_parts, heapq_merge, Progress,
}

-- Each key is greater than the one before it, the first one greater than `k`.
abbrev pub Ascends : List ℕ → List Record → Type 0
Ascends k [] = Unit
Ascends k (r ∷ rs) = (bytes_lt k r.0 ≡ true) × Ascends r.0 rs

abbrev pub AscendsFrom : Option (List ℕ) → List Record → Type 0
AscendsFrom none [] = Unit
AscendsFrom none (r ∷ rs) = Ascends r.0 rs
AscendsFrom (some k) rs = Ascends k rs

abbrev pub IsAscending : List Record → Type 0
IsAscending = AscendsFrom none

check_key-lt : (last key : List ℕ) → check_key (some last) key ≡ none → bytes_lt last key ≡ true
unfolding check_key
check_key-lt last key h = elim (Bool-cases (bytes_lt last key)) [
  | inl lt ↦ lt
  | inr ge ↦ absurd (ground (arith, bytes_lt_total key last, text_eq_iff key last, ge))
]

lt-check_key : (last key : List ℕ) → bytes_lt last key ≡ true → check_key (some last) key ≡ none
unfolding check_key
lt-check_key last key h = ground (
  arith,
  bytes_lt_trans last key last,
  bytes_lt_irrefl last,
  text_eq_iff key last,
  λ (e : key ≡ last). subst (λ k. bytes_lt last k ≡ true) e h,
)

check_key-none :
    (last : Option (List ℕ)) (r : Record) (rs : List Record)
    → check_key last r.0 ≡ none
    → AscendsFrom (some r.0) rs
    → AscendsFrom last (r ∷ rs)
check_key-none none r rs h a = a
check_key-none (some k) r rs h a = (check_key-lt k r.0 h, a)

pub AscendsFrom-check_key :
    (last : Option (List ℕ)) (r : Record) (rs : List Record)
    → AscendsFrom last (r ∷ rs)
    → check_key last r.0 ≡ none
unfolding check_key
AscendsFrom-check_key none r rs a = refl
AscendsFrom-check_key (some k) r rs a = lt-check_key k r.0 a.0

pub AscendsFrom-tail :
    (last : Option (List ℕ)) (r : Record) (rs : List Record)
    → AscendsFrom last (r ∷ rs)
    → AscendsFrom (some r.0) rs
AscendsFrom-tail none r rs a = a
AscendsFrom-tail (some k) r rs a = a.1

module _ (sha256 : List ℕ → Text) where
  merge_loop_inv :
      (r : Record) (rs : List Record) (n : ℕ) (last : Option (List ℕ)) (w : ChunkWriter)
      (p : Progress)
      → merge_loop sha256 none (r ∷ rs) (n, last, w) ≡ ok p
      → (w1 : ChunkWriter) × (check_key last r.0 ≡ none)
        × (write sha256 r.1 w ≡ ok w1)
        × (merge_loop sha256 none rs (n + 1, some r.0, w1) ≡ ok p)
  unfolding merge_loop plan
  merge_loop_inv r rs n last w p h = ground arith

  -- A merge without a token limit that does not raise has met ascending keys only.
  merge_loop-AscendsFrom :
      (rs : List Record) (n : ℕ) (last : Option (List ℕ)) (w : ChunkWriter) (p : Progress)
      → merge_loop sha256 none rs (n, last, w) ≡ ok p
      → AscendsFrom last rs
  merge_loop-AscendsFrom [] n none w p h = tt
  merge_loop-AscendsFrom [] n (some k) w p h = tt
  merge_loop-AscendsFrom (r ∷ rs) n last w p h =
      let (w1, checked, written, more) = merge_loop_inv r rs n last w p h in
      check_key-none last r rs checked (merge_loop-AscendsFrom rs (n + 1) (some r.0) w1 p more)

  pub merge_parts-IsAscending :
      (parts : List (List Record)) (w : ChunkWriter) (p : Progress)
      → merge_parts sha256 none parts w ≡ ok p
      → IsAscending (heapq_merge parts)
  unfolding merge_parts
  merge_parts-IsAscending parts w p h =
      let (q, run) = loop in merge_loop-AscendsFrom (heapq_merge parts) 0 none w q run
    where
      loop : (q : Progress) × (merge_loop sha256 none (heapq_merge parts) (0, none, w) ≡ ok q)
      loop = ground arith
