-- ===== src/Pithos/Runtime.antt =====
-- `Corpus.read` and `Corpus.read_strided` of pithos/src/pithos/runtime.py, and the reference reader
-- `StreamShard` of pithos/src/pithos/torch.py. The chunk cache (`_fetch`, which may raise) and the
-- seeded permutations (blake2b and numpy's PCG64) are parameters.
pub mod Rows
pub mod Read
pub mod Reference
pub mod Epoch
mod Tests
use agora_test.Json.{Json, as_nat}
use agora_test.Prelude.{
  ℕ, zero, suc, ◌+◌, ◌-◌, ◌*◌, ◌/◌, ◌%◌, List, [], ◌∷◌, Bool, true, false, ◌&&◌, Option, none, some,
  ltb, ◌==◌, if◌then◌else◌, length, get_elem?, slice, min, Outcome, ok, raise, require,
  require_some, ◌>>=◌, ◌>>◌, pos, ℤ, not, ◌++◌,
}
use agora_test.Pithos.Errors.{
  CacheError, corpus_closed, bad_start, bad_stride, bad_rows, short_window, index_error, stalled,
  empty_stack,
}
use agora_test.Pithos.Manifest.Layout.{StreamLayout}

-- A row: the tokens of a sample and the overlap token.
abbrev pub Row : Type 0
Row = List ℕ

-- `_perm_key` and `_perm`
abbrev pub PermCache : Type 0
PermCache = Option ((ℕ × ℕ) × List ℕ)

-- `values[i]`
abbrev at_index {ℓ} : {A : Type ℓ} → List A → ℕ → Option A
at_index = get_elem?

unfoldable pub window : ℕ → List ℕ → ℕ → Outcome CacheError Row
window seq mm j =
    let w = slice (j * seq) (seq + 1) mm in if length w == seq + 1 then ok w else raise short_window

-- The start of chunk `k`, and its number of samples.
unfoldable pub bounds : StreamLayout → ℕ → Outcome CacheError (ℕ × ℕ)
bounds l k = do
  base ← require_some (at_index l.cumulative k) index_error
  samples ← require_some (at_index l.per_chunk k) index_error
  ok (base, samples)

-- `active_key`, `mm` and `perm` of `read_strided`
abbrev pub Active : Type 0
Active = Option ((ℕ × ℕ) × List ℕ × List ℕ)

-- an int of at least 1
abbrev as_stride : Json → Option ℕ
as_stride (Json.int (pos (suc n))) = some (suc n)
as_stride _ = none

module _ (fetch : ℕ → Outcome CacheError (List ℕ)) (shuffle : ℕ → ℕ → List ℕ)
    (l : StreamLayout) where
  -- `_permutation`: the cached permutation, if it is the one of this epoch and chunk.
  unfoldable pub permutation : PermCache → ℕ → ℕ → List ℕ × PermCache
  permutation none epoch k = (shuffle epoch k, some ((epoch, k), shuffle epoch k))
  permutation (some ((e, c), perm)) epoch k =
      if e == epoch && c == k
      then (perm, some ((e, c), perm))
      else (shuffle epoch k, some ((epoch, k), shuffle epoch k))

  -- the loop over `t` of `read`: `run` rows of one chunk, from sample `local` of its permutation
  unfoldable pub run_rows : List ℕ → List ℕ → ℕ → ℕ → Outcome CacheError (List Row)
  run_rows mm perm local zero = ok []
  run_rows mm perm local (suc run) = do
    j ← require_some (at_index perm local) index_error
    w ← window l.seq mm j
    ws ← run_rows mm perm (local + 1) run
    ok (w ∷ ws)

  -- One round of the loop of `read`: the rows of one chunk from absolute sample `at`, at most `left`.
  unfoldable pub read_round : PermCache → ℕ → ℕ → Outcome CacheError (List Row × PermCache)
  read_round cache at left = do
    let epoch = at / l.total_samples
    let pos = at % l.total_samples
    let k = pos / l.samples_per_chunk
    (base, samples) ← bounds l k
    let local = pos - base
    mm ← fetch k
    let (perm, cache') = permutation cache epoch k
    rows ← run_rows mm perm local (min left (samples - local))
    ok (rows, cache')

  -- `while written < rows`. A round writes a row at least, so `left` is enough fuel; `stalled` is
  -- never raised.
  unfoldable pub read_loop : ℕ → PermCache → ℕ → ℕ → Outcome CacheError (List Row × PermCache)
  read_loop zero cache at zero = ok ([], cache)
  read_loop zero cache at (suc left) = raise stalled
  read_loop (suc fuel) cache at zero = ok ([], cache)
  read_loop (suc fuel) cache at (suc left) = do
    (rows, cache') ← read_round cache at (suc left)
    (more, cache'') ← read_loop fuel cache' (at + length rows) (suc left - length rows)
    ok (rows ++ more, cache'')

  -- `Corpus.read`, by `_closed` and the permutation cache
  unfoldable pub read : Bool → PermCache → Json → Json → Outcome CacheError (List Row × PermCache)
  read closed cache start rows = do
    require (not closed) corpus_closed
    at ← require_some (as_nat start) bad_start
    n ← require_some (as_nat rows) bad_rows
    read_loop n cache at n

  unfoldable pub load : PermCache → ℕ → ℕ → Outcome CacheError (List ℕ × List ℕ × PermCache)
  load cache epoch k = do
    mm ← fetch k
    let (perm, cache') = permutation cache epoch k
    ok (mm, perm, cache')

  unfoldable pub activate :
      Active → PermCache → ℕ → ℕ → Outcome CacheError (List ℕ × List ℕ × PermCache)
  activate none cache epoch k = load cache epoch k
  activate (some ((e, c), mm, perm)) cache epoch k =
      if e == epoch && c == k then ok (mm, perm, cache) else load cache epoch k

  -- The loop of `read_strided`, from absolute sample `at`.
  unfoldable pub strided_loop :
      ℕ → Active → PermCache → ℕ → ℕ → Outcome CacheError (List Row × PermCache)
  strided_loop stride active cache at zero = ok ([], cache)
  strided_loop stride active cache at (suc rows) = do
    let epoch = at / l.total_samples
    let pos = at % l.total_samples
    let k = pos / l.samples_per_chunk
    base ← require_some (at_index l.cumulative k) index_error
    let local = pos - base
    (mm, perm, cache') ← activate active cache epoch k
    j ← require_some (at_index perm local) index_error
    w ← window l.seq mm j
    (ws, cache'') ← strided_loop stride (some ((epoch, k), mm, perm)) cache' (at + stride) rows
    ok (w ∷ ws, cache'')

  -- `Corpus.read_strided`
  unfoldable pub read_strided :
      Bool → PermCache → Json → Json → Json → Outcome CacheError (List Row × PermCache)
  read_strided closed cache start stride rows = do
    require (not closed) corpus_closed
    at ← require_some (as_nat start) bad_start
    step ← require_some (as_stride stride) bad_stride
    n ← require_some (as_nat rows) bad_rows
    strided_loop step none cache at n

  -- `StreamShard._sample`; its `ValueError` for a short window is `short_window` too.
  unfoldable pub sample : ℕ → Outcome CacheError Row
  sample idx = do
    let epoch = idx / l.total_samples
    let pos = idx % l.total_samples
    let k = pos / l.samples_per_chunk
    base ← require_some (at_index l.cumulative k) index_error
    let local = pos - base
    j ← require_some (at_index (shuffle epoch k) local) index_error
    mm ← fetch k
    window l.seq mm j

  -- The samples `at`, `at + stride`, ..., `rows` of them, up to the first that raises.
  unfoldable pub sample_rows : ℕ → ℕ → ℕ → Outcome CacheError (List Row)
  sample_rows at stride zero = ok []
  sample_rows at stride (suc rows) = do
    w ← sample at
    ws ← sample_rows (at + stride) stride rows
    ok (w ∷ ws)

  -- `StreamShard.ids`; `torch.stack` of no tensors raises.
  unfoldable pub ids : ℕ → ℕ → Outcome CacheError (List Row)
  ids batch_id zero = raise empty_stack
  ids batch_id (suc rows) = sample_rows (batch_id * suc rows) 1 (suc rows)
