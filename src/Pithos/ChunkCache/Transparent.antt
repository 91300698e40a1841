-- ===== src/Pithos/ChunkCache/Transparent.antt =====
-- `get` yields what `_ensure` yields, whatever is resident.
use agora_test.Json.{Json}
use agora_test.Prelude.{ℕ, List, [], ◌∷◌, false, some, Text, Outcome, ok, raise, lookup, ◌≡◌}
use agora_test.Pithos.ChunkCache.{Residents, GetError, not_ensured}
use agora_test.Pithos.ChunkCache.Budget.{IsResident}
use agora_test.Pithos.Manifest.{validate_chunk_name}

module _ {V E : Type 0} (dec : Discrete Text) (size_of : Text → ℕ) (budget : ℕ)
    (ensure : Text → Outcome E V) where
  -- What is resident is what `_ensure` yields.
  abbrev Honest : List (Text × V) → Type 0
  Honest d = (j : Text) (v : V) → lookup dec j d ≡ some v → ensure j ≡ ok v

  -- What `_ensure` yields, as `get` raises it.
  abbrev pub ensured : Text → Outcome (GetError E) V
  ensured n = elim (ensure n) [ ok v ↦ ok v | raise e ↦ raise (not_ensured e) ]

  -- An open cache whose residents are within the budget and what `_ensure` yields.
  record IsOpen (s : Residents V) : Type 0 where
    pub live : s.closed ≡ false
    pub resident : IsResident dec size_of budget s
    honest : Honest s.resident

  -- The names are chunk names.
  abbrev Named : List Json → List Text → Type 0
  Named [] [] = Unit
  Named (name ∷ names) (n ∷ ns) = (validate_chunk_name name ≡ ok n) × Named names ns
  Named names ns = ⊥
