-- ===== src/Pithos/ChunkCache.antt =====
-- The resident chunks of `ChunkCache` of pithos/src/pithos/cache.py: `get` and `close`. `_ensure`,
-- which verifies or downloads the file of a chunk and maps it, is a parameter, and so are the sizes
-- that the manifest tells.
pub mod Budget
pub mod Sections
pub mod Steps
pub mod Transparent
mod Tests
use agora_test.Json.{Json}
use agora_test.Prelude.{
  ℕ, zero, suc, ◌+◌, ◌-◌, List, [], ◌∷◌, ◌++◌, Bool, true, false, Option, none, some, ltb, length,
  Text, Outcome, ok, raise, lookup, remove,
}
use agora_test.Pithos.Errors.{ManifestError}
use agora_test.Pithos.Manifest.{validate_chunk_name}

-- What `get` raises: for the name, for a closed cache, or what `_ensure` raises.
pub data GetError (E : Type 0) : Type 0 where
  bad_name : ManifestError → GetError E
  cache_closed : GetError E
  not_ensured : E → GetError E

-- `_closed`, `_resident` (the oldest first) and `_resident_bytes`
pub record Residents (V : Type 0) : Type 0 where
  pub closed : Bool
  pub resident : List (Text × V)
  pub resident_bytes : ℕ

abbrev pub opened : {V : Type 0} → Residents V
opened = record { closed = false; resident = []; resident_bytes = 0 }

-- `close`
unfoldable pub close : {V : Type 0} → Residents V → Residents V
close s = record { closed = true; resident = []; resident_bytes = 0 }

module _ {V : Type 0} (dec : Discrete Text) (size_of : Text → ℕ) (budget : ℕ) where
  -- `self._resident.move_to_end(name)` of a resident `name`
  unfoldable pub move_to_end : Text → V → Residents V → Residents V
  move_to_end name v s = record s { resident = remove dec name s.resident ++ ((name, v) ∷ []) }

  -- `next((n for n in self._resident if n != name), None)`
  unfoldable pub victim_of : Text → List (Text × V) → Option Text
  victim_of name [] = none
  victim_of name (e ∷ d) = elim (dec e.0 name) [ yes same ↦ victim_of name d | no other ↦ some e.0 ]

  -- one round of the loop
  unfoldable pub drop_victim : Text → Residents V → Residents V
  drop_victim victim s = record s {
    resident_bytes = s.resident_bytes - size_of victim;
    resident = remove dec victim s.resident;
  }

  -- The loop on the budget. A round drops a resident, so that their number is enough fuel.
  unfoldable pub shrink : ℕ → Text → Residents V → Residents V
  shrink zero name s = s
  shrink (suc fuel) name s = elim (ltb budget s.resident_bytes) [
    | false ↦ s
    | true ↦ elim (victim_of name s.resident) [
      | none ↦ s
      | some victim ↦ shrink fuel name (drop_victim victim s)
    ]
  ]

  -- the assignments before it
  abbrev pub admit : Text → V → Residents V → Residents V
  admit name v s = record s {
    resident = s.resident ++ ((name, v) ∷ []);
    resident_bytes = s.resident_bytes + size_of name;
  }

  -- The second critical section of `get`.
  unfoldable pub publish :
      {E : Type 0} → Text → V → Residents V → Outcome (GetError E) (V × Residents V)
  publish name v s = elim s.closed [
    | true ↦ raise cache_closed
    | false ↦ elim (lookup dec name s.resident) [
      | some existing ↦ ok (existing, move_to_end name existing s)
      | none ↦ ok (v, shrink (suc (length s.resident)) name (admit name v s))
    ]
  ]

  -- The first critical section of `get`: the hit, if there is one.
  unfoldable pub find_hit :
      {E : Type 0} → Text → Residents V → Outcome (GetError E) (Option V × Residents V)
  find_hit name s = elim s.closed [
    | true ↦ raise cache_closed
    | false ↦ elim (lookup dec name s.resident) [
      | some v ↦ ok (some v, move_to_end name v s)
      | none ↦ ok (none, s)
    ]
  ]

  -- What the disk's budget does to the residents when it evicts the file of a chunk.
  unfoldable pub forget : Text → Residents V → Residents V
  forget victim s = elim (lookup dec victim s.resident) [ none ↦ s | some v ↦ drop_victim victim s ]

  -- `get`, where no other thread comes in between
  unfoldable pub get :
      {E : Type 0}
      → (Text → Outcome E V)
      → Json
      → Residents V
      → Outcome (GetError E) (V × Residents V)
  get ensure name s = elim (validate_chunk_name name) [
    | raise e ↦ raise (bad_name e)
    | ok n ↦ elim (find_hit n s) [
      | raise e ↦ raise e
      | ok (some v, s') ↦ ok (v, s')
      | ok (none, s') ↦ elim (ensure n) [ raise e ↦ raise (not_ensured e) | ok v ↦ publish n v s' ]
    ]
  ]

-- The critical sections that threads run on a cache, one after the other.
pub data Step (V : Type 0) : Type 0 where
  hit_step : Text → Step V
  publish_step : Text → V → Step V
  forget_step : Text → Step V
  close_step : Step V

module _ {V : Type 0} (dec : Discrete Text) (size_of : Text → ℕ) (budget : ℕ) where
  abbrev pub after :
      {E A : Type 0} → Residents V → Outcome (GetError E) (A × Residents V) → Residents V
  after s (ok p) = p.1
  after s (raise e) = s

  unfoldable pub run : List (Step V) → Residents V → Residents V
  run [] s = s
  run (hit_step name ∷ steps) s =
      run steps (after s (find_hit dec size_of budget {E = Unit} name s))
  run (publish_step name v ∷ steps) s =
      run steps (after s (publish dec size_of budget {E = Unit} name v s))
  run (forget_step name ∷ steps) s = run steps (forget dec size_of budget name s)
  run (close_step ∷ steps) s = run steps (close s)

  -- The value that `get` returns, or its error.
  abbrev pub value_of :
      {E : Type 0} → Outcome (GetError E) (V × Residents V) → Outcome (GetError E) V
  value_of (ok p) = ok p.0
  value_of (raise e) = raise e

  -- What one `get` after the other returns or raises.
  unfoldable pub get_all :
      {E : Type 0} → (Text → Outcome E V) → List Json → Residents V → List (Outcome (GetError E) V)
  get_all ensure [] s = []
  get_all ensure (name ∷ names) s =
      let r = get dec size_of budget ensure name s in value_of r ∷ get_all ensure names (after s r)
