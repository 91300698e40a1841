-- ===== src/Pithos/Corpus/Merge.antt =====
-- `merge_parts` of pithos/src/pithos/corpus.py.
pub mod Keys
pub mod Members
pub mod Deterministic
pub mod Stream
mod Tests
use agora_test.Prelude.{
  ℕ, zero, suc, ◌+◌, ◌-◌, ◌*◌, List, [], ◌∷◌, Option, none, some, true, false, leb, ltb, bytes_lt,
  text_eq, length, take, Outcome, ok, raise, Text,
}
use agora_test.Pithos.Errors.{CorpusError, order_violation, duplicate_key}
use agora_test.Pithos.Corpus.ChunkWriter.{ChunkWriter, write, close}

-- A record of a part: its key and its token bytes.
abbrev pub Record : Type 0
Record = List ℕ × List ℕ

-- `heapq.merge(*parts, key=lambda r: r[0])`: the smallest head comes next, of equal ones that of
-- the earlier part. The heads of a merge are the smallest heads of what it merges, so the merge
-- of many iterators is a fold of the merge of two.
unfoldable pub merge_two : List Record → List Record → List Record
merge_two [] ys = ys
merge_two (x ∷ xs) [] = x ∷ xs
merge_two (x ∷ xs) (y ∷ ys) = elim (bytes_lt y.0 x.0) [
  | true ↦ y ∷ merge_two (x ∷ xs) ys
  | false ↦ x ∷ merge_two xs (y ∷ ys)
]

unfoldable pub heapq_merge : List (List Record) → List Record
heapq_merge [] = []
heapq_merge (p ∷ ps) = merge_two p (heapq_merge ps)

-- The two tests on the keys.
unfoldable pub check_key : Option (List ℕ) → List ℕ → Option CorpusError
check_key none key = none
check_key (some last) key = elim (bytes_lt key last) [
  | true ↦ some order_violation
  | false ↦ elim (text_eq key last) [ true ↦ some duplicate_key | false ↦ none ]
]

-- What a record does to the loop, by `max_tokens`: stop before it, write a part of it and stop,
-- or write it whole and go on.
pub data Plan : Type 0 where
  halt : Plan
  last_bytes : ℕ → Plan
  whole : Plan

unfoldable pub plan : Option ℕ → ℕ → ℕ → Plan
plan none total_tokens size = whole
plan (some max_tokens) total_tokens size = elim (leb max_tokens total_tokens) [
  | true ↦ halt
  | false ↦ elim (ltb (4 * (max_tokens - total_tokens)) size) [
    | true ↦ last_bytes (4 * (max_tokens - total_tokens))
    | false ↦ whole
  ]
]

abbrev pub Progress : Type 0
Progress = ℕ × Option (List ℕ) × ChunkWriter

module _ (sha256 : List ℕ → Text) (max_tokens : Option ℕ) where
  -- The loop, over what the merge still has.
  unfoldable pub merge_loop : List Record → Progress → Outcome CorpusError Progress
  merge_loop [] p = ok p
  merge_loop (r ∷ rs) (n, last, writer) = elim (check_key last r.0) [
    | some e ↦ raise e
    | none ↦ elim (plan max_tokens writer.total_tokens (length r.1)) [
      | halt ↦ ok (n, last, writer)
      | last_bytes k ↦ elim (write sha256 (take k r.1) writer) [
        | ok writer' ↦ ok (n + 1, some r.0, writer')
        | raise e ↦ raise e
      ]
      | whole ↦ elim (write sha256 r.1 writer) [
        | ok writer' ↦ merge_loop rs (n + 1, some r.0, writer')
        | raise e ↦ raise e
      ]
    ]
  ]

  unfoldable pub merge_parts : List (List Record) → ChunkWriter → Outcome CorpusError Progress
  merge_parts parts writer = elim (merge_loop (heapq_merge parts) (0, none, writer)) [
    | ok (n, last, writer') ↦ ok (n, last, close sha256 writer')
    | raise e ↦ raise e
  ]
