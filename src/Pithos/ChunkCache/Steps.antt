-- ===== src/Pithos/ChunkCache/Steps.antt =====
-- Each critical section keeps the residents within the budget, and so does any order of them.
use agora_test.Prelude.{
  ℕ, suc, List, [], ◌∷◌, ◌++◌, none, some, length, Text, lookup, remove, ◌≡◌, refl, arith, inl, inr,
  Bool-cases, Option-cases, remove-IsDict, append-IsDict, Absent-lookup, length-remove,
  length-append,
}
use agora_test.Pithos.ChunkCache.{
  Residents, Step, hit_step, publish_step, forget_step, close_step, opened, close, move_to_end,
  drop_victim, admit, publish, find_hit, forget, after, run,
}
use agora_test.Pithos.ChunkCache.Budget.{
  IsResident, IsCounted, total, total-remove, total-append, shrink-IsResident,
}
use agora_test.Pithos.ChunkCache.Sections.{
  find_hit-closed, find_hit-missing, find_hit-found, publish-closed, publish-missing, publish-found,
}

module _ {V : Type 0} (dec : Discrete Text) (size_of : Text → ℕ) (budget : ℕ) where
  abbrev Good : Residents V → Type 0
  Good = IsResident dec size_of budget

  pub move_to_end-IsResident :
      (name : Text) (v : V) (s : Residents V)
      → lookup dec name s.resident ≡ some v
      → Good s
      → Good (move_to_end dec size_of budget name v s)
  unfolding move_to_end
  move_to_end-IsResident name v s h g =
      let (absent, unique) = remove-IsDict dec name s.resident g.unique in
      let size : length (remove dec name s.resident ++ ((name, v) ∷ [])) ≡ length s.resident =
        omega (
          arith,
          length-append {0} (remove dec name s.resident) ((name, v) ∷ []),
          length-remove dec name s.resident v h,
        ) in
      record {
        unique = append-IsDict dec name v _ absent unique;
        bytes = omega (
          arith,
          g.bytes,
          total-remove dec size_of budget name s.resident v h,
          total-append dec size_of budget (remove dec name s.resident) name v,
        );
        bounded = elim g.bounded [
          | inl within ↦ inl within
          | inr lone ↦ inr (omega (arith, size, lone))
        ];
      }

  find_hit-IsResident :
      (name : Text) (s : Residents V)
      → Good s
      → Good (after dec size_of budget s (find_hit dec size_of budget {E = Unit} name s))
  find_hit-IsResident name s g = elim (Bool-cases s.closed) [
    | inl shut ↦ rw (find_hit-closed {E = Unit} dec size_of budget name s shut) g
    | inr live ↦ elim (Option-cases (lookup dec name s.resident)) [
      | inl missing ↦ rw (find_hit-missing {E = Unit} dec size_of budget name s live missing) g
      | inr (v, found) ↦
          rw (find_hit-found {E = Unit} dec size_of budget name s v live found)
            (move_to_end-IsResident name v s found g)
    ]
  ]

  pub admit-IsCounted :
      (name : Text) (v : V) (s : Residents V)
      → lookup dec name s.resident ≡ none
      → Good s
      → IsCounted dec size_of budget (admit dec size_of budget name v s)
  admit-IsCounted name v s missing g = record {
    unique =
        append-IsDict dec name v s.resident (Absent-lookup dec name s.resident missing) g.unique;
    bytes = omega (arith, g.bytes, total-append dec size_of budget s.resident name v);
  }

  publish-IsResident :
      (name : Text) (v : V) (s : Residents V)
      → Good s
      → Good (after dec size_of budget s (publish dec size_of budget {E = Unit} name v s))
  publish-IsResident name v s g = elim (Bool-cases s.closed) [
    | inl shut ↦ rw (publish-closed {E = Unit} dec size_of budget name s v shut) g
    | inr live ↦ elim (Option-cases (lookup dec name s.resident)) [
      | inl missing ↦ rw (publish-missing {E = Unit} dec size_of budget name s v live missing) (
          shrink-IsResident dec size_of budget (suc (length s.resident)) name
            (admit dec size_of budget name v s) (admit-IsCounted name v s missing g)
            (omega (arith, length-append {0} s.resident ((name, v) ∷ []))))
      | inr (w, found) ↦
          rw (publish-found {E = Unit} dec size_of budget name s v w live found)
            (move_to_end-IsResident name w s found g)
    ]
  ]

  forget-IsResident :
      (name : Text) (s : Residents V) → Good s → Good (forget dec size_of budget name s)
  unfolding forget drop_victim
  forget-IsResident name s g = elim (Option-cases (lookup dec name s.resident)) [
    | inl missing ↦ rw (missing, forget) g
    | inr (v, found) ↦
        let less = length-remove dec name s.resident v found in
        rw (found, forget)
          (record {
            unique = (remove-IsDict dec name s.resident g.unique).1;
            bytes = omega (arith, g.bytes, total-remove dec size_of budget name s.resident v found);
            bounded = elim g.bounded [
              | inl within ↦ inl (omega (arith, within))
              | inr lone ↦ inr (omega (arith, less, lone))
            ];
          })
  ]

  close-IsResident : (s : Residents V) → Good (close s)
  unfolding close total
  close-IsResident s = record { unique = tt; bytes = refl; bounded = inl (omega arith) }

  pub opened-IsResident : Good opened
  unfolding total
  opened-IsResident = record { unique = tt; bytes = refl; bounded = inl (omega arith) }

  run-steps :
      (steps : List (Step V)) (s : Residents V) → Good s → Good (run dec size_of budget steps s)
  unfolding run
  run-steps [] s g = g
  run-steps (hit_step name ∷ steps) s g = run-steps steps _ (find_hit-IsResident name s g)
  run-steps (publish_step name v ∷ steps) s g = run-steps steps _ (publish-IsResident name v s g)
  run-steps (forget_step name ∷ steps) s g = run-steps steps _ (forget-IsResident name s g)
  run-steps (close_step ∷ steps) s g = run-steps steps _ (close-IsResident s)

  -- In any order of the critical sections that threads run on a new cache, no chunk is resident
  -- twice, the byte counter is the sizes of the resident chunks, and it is within the budget unless a
  -- single chunk is resident.
  pub run-IsResident :
      (steps : List (Step V)) → IsResident dec size_of budget (run dec size_of budget steps opened)
  run-IsResident steps = run-steps steps opened opened-IsResident
