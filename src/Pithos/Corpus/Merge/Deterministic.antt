-- ===== src/Pithos/Corpus/Merge/Deterministic.antt =====
-- The output of a merge does not depend on how the records are spread over the parts.
use agora_test.Prelude.{
  ℕ, List, ◌≡◌, sym, none, ok, Text, ◌↔◌, bytes_lt, true, false, [], ◌∷◌, bytes_lt_total, refl, ◌≢◌,
  Bool-cases, inl, inr, subst, arith,
}
use agora_test.Pithos.Corpus.ChunkWriter.{ChunkWriter}
use agora_test.Pithos.Corpus.Merge.{Record, heapq_merge, merge_two, merge_parts, Progress}
use agora_test.Pithos.Corpus.Merge.Keys.{Ascends, IsAscending, merge_parts-IsAscending}
use agora_test.Pithos.Corpus.Merge.Members.{
  Member, InParts, Member-heapq_merge, SameMembers-eq, merge_two-left, merge_two-right,
}

-- Two merges without a token limit, of parts that hold the same records, spread over them in any
-- way: if neither raises, they return the same count and last key and leave the same writer, with
-- the same objects given to the sink.
pub merge_parts-deterministic :
    (sha256 : List ℕ → Text) (parts parts' : List (List Record)) (w : ChunkWriter) (p p' : Progress)
    → ((r : Record) → InParts r parts ↔ InParts r parts')
    → merge_parts sha256 none parts w ≡ ok p
    → merge_parts sha256 none parts' w ≡ ok p'
    → p ≡ p'
unfolding merge_parts
merge_parts-deterministic sha256 parts parts' w p p' same h h' =
    let e : heapq_merge parts ≡ heapq_merge parts' =
      SameMembers-eq (heapq_merge parts) (heapq_merge parts')
        (merge_parts-IsAscending sha256 parts w p h) (merge_parts-IsAscending sha256 parts' w p' h')
        (λ r. (
          λ m. (Member-heapq_merge r parts').1 ((same r).0 ((Member-heapq_merge r parts).0 m)),
          λ m. (Member-heapq_merge r parts).1 ((same r).1 ((Member-heapq_merge r parts').0 m)),
        )) in
    ground arith

-- No two records of the two lists have one key.
abbrev DistinctKeys : List Record → List Record → Type 0
DistinctKeys xs ys = (r s : Record) → Member r xs → Member s ys → r.0 ≢ s.0

abbrev pub AllAscending : List (List Record) → Type 0
AllAscending [] = Unit
AllAscending (p ∷ ps) = IsAscending p × AllAscending ps

-- No two parts have a key in common.
abbrev pub AllDistinct : List (List Record) → Type 0
AllDistinct [] = Unit
AllDistinct (p ∷ ps) = ((r s : Record) → Member r p → InParts s ps → r.0 ≢ s.0) × AllDistinct ps

ge_distinct : (x y : List ℕ) → bytes_lt y x ≡ false → x ≢ y → bytes_lt x y ≡ true
ge_distinct x y h ne = elim (Bool-cases (bytes_lt x y)) [
  | inl lt ↦ lt
  | inr ge ↦ absurd (ne (bytes_lt_total x y ge h))
]

merge_two-Ascends :
    (k : List ℕ) (xs ys : List Record)
    → Ascends k xs
    → Ascends k ys
    → DistinctKeys xs ys
    → Ascends k (merge_two xs ys)
unfolding merge_two
merge_two-Ascends k [] ys ax ay ne = ay
merge_two-Ascends k (x ∷ xs) [] ax ay ne = ax
merge_two-Ascends k (x ∷ xs) (y ∷ ys) ax ay ne = elim (Bool-cases (bytes_lt y.0 x.0)) [
  | inl lt ↦
      subst (Ascends k) (sym (merge_two-right x y xs ys lt))
        (ay.0, merge_two-Ascends y.0 (x ∷ xs) ys (lt, ax.1) ay.1 (λ r s m l. ne r s m (inr l)))
  | inr ge ↦ subst (Ascends k) (sym (merge_two-left x y xs ys ge)) (
    ax.0,
    merge_two-Ascends x.0 xs (y ∷ ys) ax.1
        (ge_distinct x.0 y.0 ge (ne x y (inl refl) (inl refl)), ay.1) (λ r s m l. ne r s (inr m) l),
  )
]

merge_two-IsAscending :
    (xs ys : List Record)
    → IsAscending xs
    → IsAscending ys
    → DistinctKeys xs ys
    → IsAscending (merge_two xs ys)
unfolding merge_two
merge_two-IsAscending [] ys ax ay ne = ay
merge_two-IsAscending (x ∷ xs) [] ax ay ne = ax
merge_two-IsAscending (x ∷ xs) (y ∷ ys) ax ay ne = elim (Bool-cases (bytes_lt y.0 x.0)) [
  | inl lt ↦
      subst IsAscending (sym (merge_two-right x y xs ys lt))
        (merge_two-Ascends y.0 (x ∷ xs) ys (lt, ax) ay (λ r s m l. ne r s m (inr l)))
  | inr ge ↦ subst IsAscending (sym (merge_two-left x y xs ys ge)) (
      merge_two-Ascends x.0 xs (y ∷ ys) ax
        (ge_distinct x.0 y.0 ge (ne x y (inl refl) (inl refl)), ay) (λ r s m l. ne r s (inr m) l))
]

pub heapq_merge-IsAscending :
    (parts : List (List Record))
    → AllAscending parts
    → AllDistinct parts
    → IsAscending (heapq_merge parts)
unfolding heapq_merge
heapq_merge-IsAscending [] a d = tt
heapq_merge-IsAscending (p ∷ ps) a d =
    merge_two-IsAscending p (heapq_merge ps) a.0 (heapq_merge-IsAscending ps a.1 d.1)
      (λ r s m l. d.0 r s m ((Member-heapq_merge s ps).0 l))
