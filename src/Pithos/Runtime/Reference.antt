-- ===== src/Pithos/Runtime/Reference.antt =====
-- The two readers of pithos/src/pithos/runtime.py against the reference reader of
-- pithos/src/pithos/torch.py, from a validated manifest on.
use agora_test.Json.{Json, Fields, as_nat}
use agora_test.Prelude.{
  Text, ℕ, zero, suc, ◌+◌, ◌*◌, ◌≤◌, ◌<◌, List, ◌≡◌, refl, ap, ◌∙◌, sym, arith, Bool, true, false,
  none, some, get_elem?, Outcome, ok, ok-injective, Option-cases, inl, inr, >>=-eq-ok, pos,
}
use agora_test.Pithos.Errors.{CacheError}
use agora_test.Pithos.Manifest.{Manifest, init}
use agora_test.Pithos.Manifest.Layout.{StreamLayout, layout}
use agora_test.Pithos.Manifest.Locate.{layout-IsLayout}
use agora_test.Pithos.Runtime.{Row, PermCache, read, read_strided, sample, sample_rows, ids}
use agora_test.Pithos.Runtime.Read.{read_loop-sample_rows}
use agora_test.Pithos.Runtime.Rows.{IsShuffle, IsCached, rows_of, strided_loop-sample_rows}

module _ (fetch : ℕ → Outcome CacheError (List ℕ)) (shuffle : ℕ → ℕ → List ℕ)
    (l : StreamLayout) where
  -- At a layout of a manifest that `Manifest.__init__` accepts, if the shuffle of a chunk holds as
  -- many numbers as the chunk has samples, all below that, and the permutation cache is empty or
  -- holds a shuffle under its key: `read` of an open corpus from `batch_id * rows`, `rows` of
  -- them, one at least, yields the rows or the error of the reference reader's `ids(batch_id,
  -- rows)`.
  pub read-ids :
      (digest : Fields → Text) (v : Json) (m : Manifest) (seq batch_id rows : ℕ) (cache : PermCache)
      → init digest v ≡ ok m
      → layout m (Json.int (pos seq)) ≡ ok l
      → IsShuffle shuffle l
      → IsCached fetch shuffle l cache
      → 1 ≤ rows
      → rows_of (
          read fetch shuffle l false cache (Json.int (pos (batch_id * rows))) (Json.int (pos rows)))
        ≡ ids fetch shuffle l batch_id rows
  unfolding read ids
  read-ids digest v m seq batch_id zero cache h e sh c some_row = absurd (omega arith)
  read-ids digest v m seq batch_id (suc rows) cache h e sh c some_row =
      read_loop-sample_rows fetch shuffle l (layout-IsLayout digest v m seq l h e).0 sh (suc rows)
        cache (batch_id * suc rows) (suc rows) c (omega arith)

  -- At a layout of an accepted manifest, if the shuffle of a chunk holds as many numbers as the
  -- chunk has samples, all below that, and with good permutation caches: for any start and number
  -- of rows, valid or not, and a closed corpus too, `read` yields the rows or the error of
  -- `read_strided` with stride 1.
  pub read-read_strided :
      (digest : Fields → Text) (v : Json) (m : Manifest) (seq : ℕ) (closed : Bool)
      (start rows : Json) (cache cache' : PermCache)
      → init digest v ≡ ok m
      → layout m (Json.int (pos seq)) ≡ ok l
      → IsShuffle shuffle l
      → IsCached fetch shuffle l cache
      → IsCached fetch shuffle l cache'
      → rows_of (read fetch shuffle l closed cache start rows)
        ≡ rows_of (read_strided fetch shuffle l closed cache' start (Json.int (pos 1)) rows)
  unfolding read read_strided
  read-read_strided digest v m seq true start rows cache cache' h e sh c c' = refl
  read-read_strided digest v m seq false start rows cache cache' h e sh c c' =
      let good = (layout-IsLayout digest v m seq l h e).0 in
      elim (Option-cases (as_nat start)) [
        | inl bad ↦ rw bad refl
        | inr (at, first) ↦ rw first (elim (Option-cases (as_nat rows)) [
          | inl bad ↦ rw bad refl
          | inr (n, count) ↦ rw count (
              read_loop-sample_rows fetch shuffle l good sh n cache at n c (omega arith)
              ∙ sym (strided_loop-sample_rows fetch shuffle l 1 none cache' at n good sh tt c'))
        ])
      ]

  -- At a layout of an accepted manifest, if the shuffle of a chunk holds as many numbers as the
  -- chunk has samples, all below that, and with a good permutation cache: `read_strided` of an
  -- open corpus with a stride of at least 1 yields what the reference reader's `_sample` yields at
  -- start, start + stride, ..., up to the first that raises.
  pub read_strided-sample_rows :
      (digest : Fields → Text) (v : Json) (m : Manifest) (seq start stride rows : ℕ)
      (cache : PermCache)
      → init digest v ≡ ok m
      → layout m (Json.int (pos seq)) ≡ ok l
      → IsShuffle shuffle l
      → IsCached fetch shuffle l cache
      → 1 ≤ stride
      → rows_of (
          read_strided fetch shuffle l false cache
            (Json.int (pos start))
            (Json.int (pos stride))
            (Json.int (pos rows)))
        ≡ sample_rows fetch shuffle l start stride rows
  unfolding read_strided
  read_strided-sample_rows digest v m seq start zero rows cache h e sh c some_stride =
      absurd (omega arith)
  read_strided-sample_rows digest v m seq start (suc stride) rows cache h e sh c some_stride =
      strided_loop-sample_rows fetch shuffle l (suc stride) none cache start rows
        (layout-IsLayout digest v m seq l h e).0 sh tt c

  -- Row `i` of some samples is sample `at + i * stride`.
  sample_rows-get_elem? :
      (at stride rows i : ℕ) (ws : List Row)
      → sample_rows fetch shuffle l at stride rows ≡ ok ws
      → i < rows
      → (w : Row) × (get_elem? ws i ≡ some w) × (sample fetch shuffle l (at + i * stride) ≡ ok w)
  unfolding sample_rows
  sample_rows-get_elem? at stride zero i ws h lt = absurd (omega arith)
  sample_rows-get_elem? at stride (suc rows) zero ws h lt =
      let (w, one, rest) = >>=-eq-ok (sample fetch shuffle l at) _ h in
      let (ws', more, same) =
        >>=-eq-ok (sample_rows fetch shuffle l (at + stride) stride rows) _ rest in
      let here : at + 0 * stride ≡ at = omega arith in
      (w, ap (λ xs. get_elem? xs 0) (sym (ok-injective same)), rw here one)
  sample_rows-get_elem? at stride (suc rows) (suc i) ws h lt =
      let (w, one, rest) = >>=-eq-ok (sample fetch shuffle l at) _ h in
      let (ws', more, same) =
        >>=-eq-ok (sample_rows fetch shuffle l (at + stride) stride rows) _ rest in
      let (x, there, is) =
        sample_rows-get_elem? (at + stride) stride rows i ws' more (omega arith) in
      let place : at + stride + i * stride ≡ at + suc i * stride = omega arith in
      (x, ap (λ xs. get_elem? xs (suc i)) (sym (ok-injective same)) ∙ there, rw (← place) is)

  -- At a layout of an accepted manifest, if the shuffle of a chunk holds as many numbers as the
  -- chunk has samples, all below that, and with good permutation caches: where `read_strided` and
  -- `read` both return rows, row i of the one and row j of the other are equal whenever start + i
  -- * stride and first + j are the same sample.
  read_strided-of_read :
      (digest : Fields → Text) (v : Json) (m : Manifest) (seq start stride rows first count i j : ℕ)
      (cache cache' : PermCache) (ws xs : List Row)
      → init digest v ≡ ok m
      → layout m (Json.int (pos seq)) ≡ ok l
      → IsShuffle shuffle l
      → IsCached fetch shuffle l cache
      → IsCached fetch shuffle l cache'
      → 1 ≤ stride
      → rows_of (
          read_strided fetch shuffle l false cache
            (Json.int (pos start))
            (Json.int (pos stride))
            (Json.int (pos rows)))
        ≡ ok ws
      → rows_of (read fetch shuffle l false cache' (Json.int (pos first)) (Json.int (pos count)))
        ≡ ok xs
      → i < rows
      → j < count
      → start + i * stride ≡ first + j
      → get_elem? ws i ≡ get_elem? xs j
  unfolding read
  read_strided-of_read digest v m seq start stride rows first count i j cache cache' ws xs h e sh c
        c' some_stride strided whole hi hj same =
      let good = (layout-IsLayout digest v m seq l h e).0 in
      let (w, mine, is) =
        sample_rows-get_elem? start stride rows i ws
          (sym
              (read_strided-sample_rows digest v m seq start stride rows cache h e sh c some_stride)
            ∙ strided)
          hi in
      let (x, theirs, too) =
        sample_rows-get_elem? first 1 count j xs
          (sym (
              read_loop-sample_rows fetch shuffle l good sh count cache' first count c'
                (omega arith))
            ∙ whole)
          hj in
      let one : first + j * 1 ≡ start + i * stride = omega arith in
      mine
      ∙ ap some (ok-injective (sym is ∙ ap (λ a. sample fetch shuffle l a) (sym one) ∙ too))
      ∙ sym theirs
