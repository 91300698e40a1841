-- ===== src/Pithos/Corpus/Merge/Tests.antt =====
-- The merge of two parts, and its theorems at them.
use agora_test.Prelude.{
  ℕ, ◌/◌, List, [], ◌∷◌, ◌++◌, ◌≡◌, refl, arith, none, some, Option, length, Text, ok, bytes_lt, ap,
  ◌∙◌, sym, ◌≢◌, get_elem?, some-injective, inl, inr, ◌↔◌,
}
use agora_test.Pithos.Corpus.ChunkWriter.{
  ChunkWriter, entry_of, fresh, init, write, close, drain, cut, emit,
}
use agora_test.Pithos.Corpus.Merge.{
  Record, Progress, merge_parts, merge_loop, heapq_merge, merge_two, check_key, plan,
}
use agora_test.Pithos.Corpus.Merge.Deterministic.{AllAscending, merge_parts-deterministic}
use agora_test.Pithos.Corpus.Merge.Members.{Member, InParts}
use agora_test.Pithos.Corpus.Merge.Stream.{merge_parts-objects, within, bodies}
use agora_test.Pithos.Corpus.Objects.{objects, object_count}

abbrev token : ℕ → List ℕ
token n = n ∷ 0 ∷ 0 ∷ 0 ∷ []

abbrev no_hash : List ℕ → Text
no_hash b = []

abbrev odd : List Record
odd = (1 ∷ [], token 1) ∷ (3 ∷ [], token 3 ++ token 4) ∷ []

abbrev even : List Record
even = (2 ∷ [], token 2) ∷ []

init_two : init 2 ≡ ok (fresh 2)
unfolding init
init_two = refl

merged :
    heapq_merge (odd ∷ even ∷ [])
    ≡ (1 ∷ [], token 1) ∷ (2 ∷ [], token 2) ∷ (3 ∷ [], token 3 ++ token 4) ∷ []
unfolding heapq_merge merge_two bytes_lt
merged = refl

distinct : (r s : Record) → Member r odd → InParts s (even ∷ []) → r.0 ≢ s.0
distinct r s (inl a) (inl (inl b)) e = absurd (
    omega (
      arith,
      some-injective _ _ (
          ap (λ k. get_elem? k 0)
            (sym (ap (λ (x : Record). x.0) a) ∙ e ∙ ap (λ (x : Record). x.0) b)),
    ))
distinct r s (inr (inl a)) (inl (inl b)) e = absurd (
    omega (
      arith,
      some-injective _ _ (
          ap (λ k. get_elem? k 0)
            (sym (ap (λ (x : Record). x.0) a) ∙ e ∙ ap (λ (x : Record). x.0) b)),
    ))
distinct r s (inr (inr a)) m e = absurd a
distinct r s m (inr b) e = absurd b
distinct r s m (inl (inr b)) e = absurd b

ascending : AllAscending (odd ∷ even ∷ [])
unfolding bytes_lt
ascending = ((refl, tt), (tt, tt))

merge_parts-objects_example :
    (n : ℕ) × (last : Option (List ℕ)) × (w' : ChunkWriter) × (merge_parts no_hash
        (some 3)
        (odd ∷ even ∷ [])
        (fresh 2)
      ≡ ok (n, last, w'))
    × (w'.sunk
        ≡ objects 2 (within (some 3) 0 (bodies (heapq_merge (odd ∷ even ∷ [])))) (
            object_count 2
              (length (within (some 3) 0 (bodies (heapq_merge (odd ∷ even ∷ [])))) / 4)))
merge_parts-objects_example =
    merge_parts-objects no_hash (some 3) 2 (fresh 2) (odd ∷ even ∷ []) init_two ascending
      (distinct, ((λ r s m b e. b), tt)) (rw merged (refl, (refl, (refl, tt))))

abbrev first : List ℕ
first = token 1 ++ (token 2 ++ token 3)

abbrev after : Progress
after = (
  3,
  some (3 ∷ []),
  record (fresh 2) {
    idx = 2;
    total_tokens = 4;
    chunks = entry_of no_hash (0, first) ∷ entry_of no_hash (1, token 3 ++ token 4) ∷ [];
    sunk = (0, first) ∷ (1, token 3 ++ token 4) ∷ [];
  },
)

odd_then_even : merge_parts no_hash none (odd ∷ even ∷ []) (fresh 2) ≡ ok after
unfolding merge_parts merge_loop heapq_merge merge_two bytes_lt check_key plan write drain cut close
    emit
odd_then_even = refl

even_then_odd : merge_parts no_hash none (even ∷ odd ∷ []) (fresh 2) ≡ ok after
unfolding merge_parts merge_loop heapq_merge merge_two bytes_lt check_key plan write drain cut close
    emit
even_then_odd = refl

swapped : (r : Record) → InParts r (odd ∷ even ∷ []) ↔ InParts r (even ∷ odd ∷ [])
swapped r = (there, back)
  where
    there : InParts r (odd ∷ even ∷ []) → InParts r (even ∷ odd ∷ [])
    there (inl m) = inr (inl m)
    there (inr (inl m)) = inl m
    there (inr (inr m)) = inr (inr m)

    back : InParts r (even ∷ odd ∷ []) → InParts r (odd ∷ even ∷ [])
    back (inl m) = inr (inl m)
    back (inr (inl m)) = inl m
    back (inr (inr m)) = inr (inr m)

merge_parts-deterministic_example : after ≡ after
merge_parts-deterministic_example =
    merge_parts-deterministic no_hash (odd ∷ even ∷ []) (even ∷ odd ∷ []) (fresh 2) after after
      swapped odd_then_even even_then_odd
