-- ===== src/Pithos/ChunkCache/Tests.antt =====
-- A cache of 12 bytes over chunks of 8 bytes, and the theorems at it.
use mathlib.Core.List.{List-discrete}
use agora_test.Json.{Json}
use agora_test.Prelude.{
  ℕ, List, [], ◌∷◌, codes, Text, Outcome, ok, raise, text_eq, if◌then◌else◌, ℕ_discrete,
}
use agora_test.Pithos.ChunkCache.{
  Step, hit_step, publish_step, forget_step, close_step, opened, run,
}
use agora_test.Pithos.ChunkCache.Budget.{IsResident}
use agora_test.Pithos.ChunkCache.Steps.{run-IsResident}

abbrev dec : Discrete Text
dec = List-discrete ℕ_discrete

abbrev a : Text
a = codes "a.bin"

abbrev b : Text
b = codes "b.bin"

abbrev steps : List (Step ℕ)
steps =
    publish_step a 1
    ∷ hit_step a
    ∷ publish_step b 2
    ∷ publish_step a 3
    ∷ forget_step b
    ∷ close_step
    ∷ publish_step a 1
    ∷ []

run-IsResident_example : IsResident dec (λ n. 8) 12 (run dec (λ n. 8) 12 steps opened)
run-IsResident_example = run-IsResident dec (λ n. 8) 12 steps

abbrev ensure : Text → Outcome ℕ ℕ
ensure n = if text_eq n a then ok 1 else raise 404
