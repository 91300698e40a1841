-- ===== src/Pithos/ChunkCache/Sections.antt =====
-- What the critical sections do in each case.
use agora_test.Prelude.{
  ℕ, suc, true, false, none, some, length, Text, ok, raise, lookup, ◌≡◌, arith,
}
use agora_test.Pithos.ChunkCache.{
  Residents, cache_closed, move_to_end, shrink, admit, publish, find_hit,
}

module _ {V E : Type 0} (dec : Discrete Text) (size_of : Text → ℕ) (budget : ℕ) (name : Text)
    (s : Residents V) where
  pub find_hit-closed :
      s.closed ≡ true → find_hit dec size_of budget {E = E} name s ≡ raise cache_closed
  unfolding find_hit
  find_hit-closed h = ground arith

  pub find_hit-missing :
      s.closed ≡ false
      → lookup dec name s.resident ≡ none
      → find_hit dec size_of budget {E = E} name s ≡ ok (none, s)
  unfolding find_hit
  find_hit-missing h g = ground arith

  pub find_hit-found :
      (v : V)
      → s.closed ≡ false
      → lookup dec name s.resident ≡ some v
      → find_hit dec size_of budget {E = E} name s
        ≡ ok (some v, move_to_end dec size_of budget name v s)
  unfolding find_hit
  find_hit-found v h g = ground arith

  pub publish-closed :
      (v : V) → s.closed ≡ true → publish dec size_of budget {E = E} name v s ≡ raise cache_closed
  unfolding publish
  publish-closed v h = ground arith

  pub publish-missing :
      (v : V)
      → s.closed ≡ false
      → lookup dec name s.resident ≡ none
      → publish dec size_of budget {E = E} name v s
        ≡ ok (
          v,
          shrink dec size_of budget
              (suc (length s.resident))
              name
              (admit dec size_of budget name v s),
        )
  unfolding publish
  publish-missing v h g = ground arith

  pub publish-found :
      (v w : V)
      → s.closed ≡ false
      → lookup dec name s.resident ≡ some w
      → publish dec size_of budget {E = E} name v s
        ≡ ok (w, move_to_end dec size_of budget name w s)
  unfolding publish
  publish-found v w h g = ground arith
