-- ===== src/Pithos/Runtime/Tests.antt =====
-- The readers' theorems over a corpus of two chunks.
use agora_test.Json.{Json}
use agora_test.Prelude.{
  ℕ, zero, suc, ◌+◌, ◌*◌, ◌<◌, List, [], ◌∷◌, ◌≡◌, refl, ap, arith, pos, some, none, get_elem?,
  Outcome, ok, raise, ◌>>=◌, length, some-injective, none-ne-some, false,
}
use agora_test.Pithos.Errors.{CacheError, chunk_unavailable}
use agora_test.Pithos.Manifest.Example.{
  digest_zero, two_chunks, two_chunks_manifest, two_chunks_layout, two_chunks_accepted,
  two_chunks_at_two,
}
use agora_test.Pithos.Manifest.{ChunkInfo}
use agora_test.Pithos.Runtime.{
  Row, read, read_strided, read_loop, read_round, run_rows, bounds, permutation, window, ids,
  sample_rows, sample, strided_loop, activate, load,
}
use agora_test.Pithos.Runtime.Epoch.{read-full, epoch-covers, Serves, AllOf}
use agora_test.Pithos.Runtime.Reference.{read-ids, read-read_strided, read_strided-sample_rows}
use agora_test.Pithos.Runtime.Rows.{IsShuffle, rows_of}

abbrev fetch : ℕ → Outcome CacheError (List ℕ)
fetch zero = ok (10 ∷ 11 ∷ 12 ∷ 13 ∷ 14 ∷ [])
fetch (suc zero) = ok (20 ∷ 21 ∷ 22 ∷ 23 ∷ [])
fetch (suc (suc k)) = raise chunk_unavailable

abbrev swap : ℕ → ℕ → List ℕ
swap e zero = 1 ∷ 0 ∷ []
swap e (suc k) = 0 ∷ []

swap-covers : (e k s : ℕ) → get_elem? two_chunks_layout.per_chunk k ≡ some s → length (swap e k) ≡ s
swap-covers e zero s h = some-injective _ _ h
swap-covers e (suc zero) s h = some-injective _ _ h
swap-covers e (suc (suc k)) s h = absurd (none-ne-some _ h)

swap-below :
    (e k s i j : ℕ)
    → get_elem? two_chunks_layout.per_chunk k ≡ some s
    → get_elem? (swap e k) i ≡ some j
    → j < s
swap-below e zero s zero j h g = omega (arith, some-injective _ _ h, some-injective _ _ g)
swap-below e zero s (suc zero) j h g = omega (arith, some-injective _ _ h, some-injective _ _ g)
swap-below e zero s (suc (suc i)) j h g = absurd (none-ne-some _ g)
swap-below e (suc zero) s zero j h g = omega (arith, some-injective _ _ h, some-injective _ _ g)
swap-below e (suc zero) s (suc i) j h g = absurd (none-ne-some _ g)
swap-below e (suc (suc k)) s i j h g = absurd (none-ne-some _ h)

swap-IsShuffle : IsShuffle swap two_chunks_layout
swap-IsShuffle = record { covers = swap-covers; below = swap-below }

fetch-Serves : Serves fetch two_chunks_manifest
fetch-Serves zero i h = (_, refl, ap (λ (x : ChunkInfo). x.tokens) (some-injective _ _ h))
fetch-Serves (suc zero) i h = (_, refl, ap (λ (x : ChunkInfo). x.tokens) (some-injective _ _ h))
fetch-Serves (suc (suc k)) i h = absurd (none-ne-some _ h)

abbrev two_rows : List Row
two_rows = (20 ∷ 21 ∷ 22 ∷ []) ∷ (12 ∷ 13 ∷ 14 ∷ []) ∷ []

read_two :
    rows_of (read fetch swap two_chunks_layout false none (Json.int (pos 2)) (Json.int (pos 2)))
    ≡ ok two_rows
unfolding read read_loop read_round run_rows bounds permutation window
read_two = refl

strided_two :
    rows_of (
      read_strided fetch swap two_chunks_layout false none
        (Json.int (pos 0))
        (Json.int (pos 3))
        (Json.int (pos 2)))
    ≡ ok ((12 ∷ 13 ∷ 14 ∷ []) ∷ (12 ∷ 13 ∷ 14 ∷ []) ∷ [])
unfolding read_strided strided_loop activate load permutation window
strided_two = refl

read-ids_example :
    rows_of
      (read fetch swap two_chunks_layout false none (Json.int (pos (1 * 2))) (Json.int (pos 2)))
    ≡ ids fetch swap two_chunks_layout 1 2
read-ids_example =
    read-ids fetch swap two_chunks_layout digest_zero two_chunks two_chunks_manifest 2 1 2 none
      two_chunks_accepted two_chunks_at_two swap-IsShuffle tt (omega arith)

read-read_strided_example :
    rows_of (read fetch swap two_chunks_layout false none (Json.int (pos 2)) (Json.int (pos 2)))
    ≡ rows_of (
        read_strided fetch swap two_chunks_layout false none
          (Json.int (pos 2))
          (Json.int (pos 1))
          (Json.int (pos 2)))
read-read_strided_example =
    read-read_strided fetch swap two_chunks_layout digest_zero two_chunks two_chunks_manifest 2
      false (Json.int (pos 2)) (Json.int (pos 2)) none none two_chunks_accepted two_chunks_at_two
      swap-IsShuffle tt tt

read_strided-sample_rows_example :
    rows_of (
      read_strided fetch swap two_chunks_layout false none
        (Json.int (pos 0))
        (Json.int (pos 3))
        (Json.int (pos 2)))
    ≡ sample_rows fetch swap two_chunks_layout 0 3 2
read_strided-sample_rows_example =
    read_strided-sample_rows fetch swap two_chunks_layout digest_zero two_chunks two_chunks_manifest
      2 0 3 2 none two_chunks_accepted two_chunks_at_two swap-IsShuffle tt (omega arith)

read-full_example :
    (ws : List Row) × (rows_of
        (read fetch swap two_chunks_layout false none (Json.int (pos 2)) (Json.int (pos 2)))
      ≡ ok ws)
    × (length ws ≡ 2)
    × AllOf 3 ws
read-full_example =
    read-full fetch swap two_chunks_layout digest_zero two_chunks two_chunks_manifest 2 2 2 none
      two_chunks_accepted two_chunks_at_two swap-IsShuffle fetch-Serves tt

epoch-covers_example :
    sample fetch swap two_chunks_layout (4 * 3 + (0 * 2 + 0)) ≡ (fetch 0 >>= λ mm. window 2 mm 1)
epoch-covers_example =
    epoch-covers fetch swap two_chunks_layout digest_zero two_chunks two_chunks_manifest 2 4 0 2 0 1
      two_chunks_accepted two_chunks_at_two swap-IsShuffle refl (omega arith) refl
