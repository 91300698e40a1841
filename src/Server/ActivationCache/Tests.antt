-- ===== src/Server/ActivationCache/Tests.antt =====
-- A cache of two entries, and the theorems at it.
use agora_test.Prelude.{
  ℕ, ◌+◌, ◌≤◌, List, [], ◌∷◌, ◌≡◌, refl, none, some, ok, arith, length, ℕ_discrete, map_values,
  lookup, set, remove,
}
use agora_test.Server.ActivationCache.{
  Cache, Limits, Tensors, fresh, put, pop, evict, evict_one, sweep, shrink, nbytes, record_drop,
  clear,
}
use agora_test.Server.ActivationCache.Fresh.{pop-put}
use agora_test.Server.ActivationCache.History.{
  Call, put_call, pop_call, drop_call, clear_call, run, run_queue, cleared, run-queue, run-account,
  fresh-Models,
}
use agora_test.Server.ActivationCache.Models.{inputs_of, gone}
use agora_test.Server.ActivationCache.Queue.{total}

abbrev limits : Limits
limits = record { max_entries = 2; max_bytes = 100; ttl = 10 }

abbrev floats : List ℕ → Tensors
floats values = record { element_size = 4; values = values } ∷ []

abbrev calls : List (Call ℕ)
calls =
    put_call 1 0 (floats (7 ∷ []))
    ∷ put_call 2 5 (floats (8 ∷ []))
    ∷ put_call 3 6 (floats (9 ∷ []))
    ∷ pop_call 1
    ∷ pop_call 3
    ∷ drop_call
    ∷ put_call 4 15 (floats (6 ∷ []))
    ∷ clear_call
    ∷ []

abbrev after : Cache ℕ
after = record {
  meta = [];
  handles = [];
  counters = record {
    puts = 4;
    hits = 1;
    misses = 1;
    evictions_fifo = 1;
    evictions_ttl = 1;
    overwrites = 0;
    drops = 1;
    bytes = 0;
  };
  dropped = floats (7 ∷ []) ∷ floats (8 ∷ []) ∷ floats (6 ∷ []) ∷ [];
}

calls_done : run ℕ_discrete limits calls fresh ≡ ok (none ∷ some (floats (9 ∷ [])) ∷ [], after)
unfolding run put pop evict evict_one sweep shrink nbytes record_drop clear lookup set remove
    ℕ_discrete
calls_done = refl

run-queue_example :
    (s : Cache ℕ) × (run ℕ_discrete limits calls fresh
      ≡ ok ((run_queue ℕ_discrete limits calls []).0, s))
    × (s.handles ≡ map_values inputs_of (run_queue ℕ_discrete limits calls []).1)
    × (length s.meta ≤ 2)
    × (s.counters.bytes ≤ 100)
    × (s.counters.bytes ≡ total (run_queue ℕ_discrete limits calls []).1)
run-queue_example = run-queue ℕ_discrete limits calls

run-account_example :
    after.counters.puts
    ≡ gone after.counters + length after.meta + cleared ℕ_discrete limits calls []
run-account_example =
    run-account ℕ_discrete limits calls (none ∷ some (floats (9 ∷ [])) ∷ []) after calls_done

small : nbytes (floats (1 ∷ 2 ∷ [])) ≤ 100
unfolding nbytes
small = omega arith

pop-put_example :
    (s : Cache ℕ) × (put ℕ_discrete limits 5 20 (floats (1 ∷ 2 ∷ [])) fresh ≡ ok s)
    × ((pop ℕ_discrete limits 5 s).0 ≡ some (floats (1 ∷ 2 ∷ [])))
    × ((pop ℕ_discrete limits 5 (pop ℕ_discrete limits 5 s).1).0 ≡ none)
pop-put_example =
    pop-put ℕ_discrete limits 0 5 20 (floats (1 ∷ 2 ∷ [])) [] fresh (fresh-Models ℕ_discrete limits)
      (omega arith) small
