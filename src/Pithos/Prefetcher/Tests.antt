-- ===== src/Pithos/Prefetcher/Tests.antt =====
-- Calls of a prefetcher of depth 1, and the chunks that are warmed.
use mathlib.Core.List.{List-discrete}
use agora_test.Prelude.{ℕ, List, [], ◌∷◌, ◌≡◌, codes, Text, length, ℕ_discrete}
use agora_test.Pithos.Prefetcher.{Call, request_call, get_call, close_call, started, run}
use agora_test.Pithos.Prefetcher.Warm.{IsWarm, run-fetched}

abbrev dec : Discrete Text
dec = List-discrete ℕ_discrete

abbrev calls : List Call
calls =
    request_call (codes "a")
    ∷ request_call (codes "bb")
    ∷ get_call (codes "a")
    ∷ get_call (codes "bb")
    ∷ close_call
    ∷ request_call (codes "a")
    ∷ get_call (codes "a")
    ∷ []

abbrev fetch : Text → ℕ
fetch name = length name

run-fetched_example :
    ((run dec fetch calls (started 1)).0 ≡ 1 ∷ 2 ∷ 1 ∷ [])
    × IsWarm dec fetch (run dec fetch calls (started 1)).1
run-fetched_example = run-fetched dec fetch 1 calls
