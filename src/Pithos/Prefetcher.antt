-- ===== src/Pithos/Prefetcher.antt =====
-- `Prefetcher` of pithos/src/pithos/prefetch.py, and `Corpus._fetch` of pithos/src/pithos/runtime.py,
-- which asks it to warm the next chunks. A future is the outcome of the fetch that the worker runs.
pub mod Warm
mod Tests
use agora_test.Prelude.{
  ℕ, zero, suc, ◌+◌, ◌-◌, ◌%◌, List, [], ◌∷◌, ◌++◌, Bool, true, false, Option, none, some, leb,
  length, min, Text, Outcome, ok, raise, lookup, remove, get_elem?,
}

-- the error of a request after close
pub data RequestError : Type 0 where
  request_after_close : RequestError

pub record Prefetcher (R : Type 0) : Type 0 where
  pub depth : ℕ
  pub inflight : List (Text × R)
  pub closed : Bool

-- `Prefetcher.__init__`, for a depth of at least 1
abbrev pub started : {R : Type 0} → ℕ → Prefetcher R
started depth = record { depth = depth; inflight = []; closed = false }

-- `close`
unfoldable pub close : {R : Type 0} → Prefetcher R → Prefetcher R
close s = elim s.closed [ true ↦ s | false ↦ record s { inflight = []; closed = true } ]

module _ {R : Type 0} (dec : Discrete Text) (fetch : Text → R) where
  unfoldable pub request : Text → Prefetcher R → Outcome RequestError (Bool × Prefetcher R)
  request name s = elim s.closed [
    | true ↦ raise request_after_close
    | false ↦ elim (lookup dec name s.inflight) [
      | some future ↦ ok (true, s)
      | none ↦ elim (leb s.depth (length s.inflight)) [
        | true ↦ ok (false, s)
        | false ↦ ok (true, record s { inflight = s.inflight ++ ((name, fetch name) ∷ []) })
      ]
    ]
  ]

  -- The object or the error of `get`.
  unfoldable pub get : Text → Prefetcher R → R × Prefetcher R
  get name s = elim (lookup dec name s.inflight) [
    | none ↦ (fetch name, s)
    | some future ↦ (future, record s { inflight = remove dec name s.inflight })
  ]

-- A client's calls.
pub data Call : Type 0 where
  request_call : Text → Call
  get_call : Text → Call
  close_call : Call

module _ {R : Type 0} (dec : Discrete Text) (fetch : Text → R) where
  abbrev pub after : Prefetcher R → Outcome RequestError (Bool × Prefetcher R) → Prefetcher R
  after s (ok p) = p.1
  after s (raise e) = s

  -- The answers of the gets among the calls, and the prefetcher after them.
  unfoldable pub run : List Call → Prefetcher R → List R × Prefetcher R
  run [] s = ([], s)
  run (request_call name ∷ calls) s = run calls (after s (request dec fetch name s))
  run (get_call name ∷ calls) s =
      let rest = run calls (get dec fetch name s).1 in ((get dec fetch name s).0 ∷ rest.0, rest.1)
  run (close_call ∷ calls) s = run calls (close s)

-- The chunks that `Corpus._fetch` asks for after chunk `k` of `n`, from the `ahead`th on.
unfoldable pub ahead_of : ℕ → ℕ → ℕ → ℕ → List ℕ
ahead_of n k zero ahead = []
ahead_of n k (suc left) ahead = (k + ahead) % n ∷ ahead_of n k left (suc ahead)

-- `range(1, min(self._prefetch_depth, n - 1) + 1)`
abbrev pub warmed_after : ℕ → ℕ → ℕ → List ℕ
warmed_after depth n k = ahead_of n k (min depth (n - 1)) 1
