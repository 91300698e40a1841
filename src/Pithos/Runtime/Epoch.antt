-- ===== src/Pithos/Runtime/Epoch.antt =====
-- That every sample can be read, and that an epoch reads each window of each chunk.
use native.Mathlib.Nat.{div-eq_of_lt-le, div-add-mod}
use agora_test.Json.{Json, Fields}
use agora_test.Prelude.{
  Text, ℕ, zero, suc, ◌+◌, ◌-◌, ◌*◌, ◌/◌, ◌%◌, ◌≤◌, ◌<◌, List, [], ◌∷◌, ◌≡◌, refl, ap, ◌∙◌, sym,
  arith, map, some, length, get_elem?, Outcome, ok, ◌>>=◌, subst, pos, ap₂, drop, slice,
  length-take, length-drop, some-injective, ==_iff, false,
}
use agora_test.Pithos.Errors.{CacheError}
use agora_test.Pithos.Manifest.{Manifest, ChunkInfo, init}
use agora_test.Pithos.Manifest.Layout.{StreamLayout, layout, layout_of, chunk_samples}
use agora_test.Pithos.Manifest.Locate.{IsLayout, layout-IsLayout, layout-layout_of, chunk_inside}
use agora_test.Pithos.Runtime.{Row, PermCache, window, sample, sample_rows, read}
use agora_test.Pithos.Runtime.Read.{read_loop-sample_rows}
use agora_test.Pithos.Runtime.Rows.{IsShuffle, IsCached, spot, sample-Spot, rows_of}

abbrev pub AllOf : ℕ → List Row → Type 0
AllOf n [] = Unit
AllOf n (w ∷ ws) = (length w ≡ n) × AllOf n ws

-- The cache serves every chunk of the manifest, in full.
abbrev pub Serves : (ℕ → Outcome CacheError (List ℕ)) → Manifest → Type 0
Serves fetch m =
    (k : ℕ) (i : ChunkInfo)
    → get_elem? m.chunks k ≡ some i
    → (mm : List ℕ) × (fetch k ≡ ok mm) × (length mm ≡ i.tokens)

window_full :
    (seq j : ℕ) (mm : List ℕ)
    → j * seq + (seq + 1) ≤ length mm
    → (w : Row) × (window seq mm j ≡ ok w) × (length w ≡ seq + 1)
unfolding window
window_full seq j mm h =
    let n : length (slice (j * seq) (seq + 1) mm) ≡ seq + 1 =
      length-take (seq + 1) (drop (j * seq) mm) ∙ omega (arith, length-drop {0} (j * seq) mm) in
    (slice (j * seq) (seq + 1) mm, rw ((==_iff _ (seq + 1)).1 n) refl, n)

get_elem?-map :
    (seq k s : ℕ) (is : List ChunkInfo)
    → get_elem? (map (chunk_samples seq) is) k ≡ some s
    → (i : ChunkInfo) × (get_elem? is k ≡ some i) × (s ≡ chunk_samples seq i)
get_elem?-map seq k s [] h = cc
get_elem?-map seq zero s (i ∷ is) h = (i, refl, sym (some-injective _ _ h))
get_elem?-map seq (suc k) s (i ∷ is) h = get_elem?-map seq k s is h

room : (seq t j : ℕ) → 1 ≤ seq → j < (t - 1) / seq → j * seq + (seq + 1) ≤ t
room seq t j h lt = grind (arith, div-add-mod (t - 1) seq)

module _ (fetch : ℕ → Outcome CacheError (List ℕ)) (shuffle : ℕ → ℕ → List ℕ)
    (l : StreamLayout) where
  sample-full :
      (m : Manifest) (at : ℕ)
      → layout_of m l.seq ≡ l
      → IsLayout l
      → IsShuffle shuffle l
      → Serves fetch m
      → (w : Row) × (sample fetch shuffle l at ≡ ok w) × (length w ≡ l.seq + 1)
  sample-full m at same v sh serves =
      let sp = spot shuffle l at v sh in
      let (i, info, count) =
        get_elem?-map l.seq sp.k sp.samples m.chunks
          (ap (λ y. get_elem? y.per_chunk sp.k) same ∙ sp.size) in
      let (mm, served, tokens) = serves sp.k i info in
      let j = sh.below (at / l.total_samples) sp.k sp.samples _ sp.j sp.size sp.entry in
      let (w, full, n) =
        window_full l.seq sp.j mm
          (omega (arith, room l.seq i.tokens sp.j v.seq_pos (subst (λ n. sp.j < n) count j))) in
      (
        w,
        sample-Spot fetch shuffle l at sp ∙ ap (λ r. r >>= λ x. window l.seq x sp.j) served ∙ full,
        n,
      )

  sample_rows-full :
      (m : Manifest) (at rows : ℕ)
      → layout_of m l.seq ≡ l
      → IsLayout l
      → IsShuffle shuffle l
      → Serves fetch m
      → (ws : List Row) × (sample_rows fetch shuffle l at 1 rows ≡ ok ws)
        × (length ws ≡ rows)
        × AllOf (l.seq + 1) ws
  unfolding sample_rows
  sample_rows-full m at zero same v sh serves = ([], refl, refl, tt)
  sample_rows-full m at (suc rows) same v sh serves =
      let (w, one, n) = sample-full m at same v sh serves in
      let (ws, more, count, all) = sample_rows-full m (at + 1) rows same v sh serves in
      (w ∷ ws, rw one (rw more refl), ap suc count, (n, all))

  -- At a layout of an accepted manifest, if the shuffle of a chunk holds as many numbers as the
  -- chunk has samples, all below that, with a good permutation cache, and if every chunk is served
  -- with the tokens that the manifest tells: `read` of an open corpus raises nothing and returns
  -- `rows` rows, each of `seq + 1` tokens.
  pub read-full :
      (digest : Fields → Text) (v : Json) (m : Manifest) (seq start rows : ℕ) (cache : PermCache)
      → init digest v ≡ ok m
      → layout m (Json.int (pos seq)) ≡ ok l
      → IsShuffle shuffle l
      → Serves fetch m
      → IsCached fetch shuffle l cache
      → (ws : List Row) × (rows_of
            (read fetch shuffle l false cache (Json.int (pos start)) (Json.int (pos rows)))
          ≡ ok ws)
        × (length ws ≡ rows)
        × AllOf (seq + 1) ws
  unfolding read
  read-full digest v m seq start rows cache h e sh serves c =
      let (good, s, chunk) = layout-IsLayout digest v m seq l h e in
      let same : layout_of m l.seq ≡ l =
        ap (λ n. layout_of m n) s ∙ layout-layout_of digest v m seq l h e in
      let (ws, all, n, full) = sample_rows-full m start rows same good sh serves in
      (
        ws,
        read_loop-sample_rows fetch shuffle l good sh rows cache start rows c (omega arith) ∙ all,
        n,
        subst (λ k. AllOf (k + 1) ws) s full,
      )

  -- At a layout of an accepted manifest, if the shuffle of a chunk holds as many numbers as the
  -- chunk has samples, all below that: in every epoch, entry i of the shuffle of chunk k is read
  -- at one place, so that sample epoch * total + (k * samples_per_chunk + i) is the window of
  -- chunk k that the entry names.
  pub epoch-covers :
      (digest : Fields → Text) (v : Json) (m : Manifest) (seq epoch k s i j : ℕ)
      → init digest v ≡ ok m
      → layout m (Json.int (pos seq)) ≡ ok l
      → IsShuffle shuffle l
      → get_elem? l.per_chunk k ≡ some s
      → i < s
      → get_elem? (shuffle epoch k) i ≡ some j
      → sample fetch shuffle l (epoch * l.total_samples + (k * l.samples_per_chunk + i))
        ≡ (fetch k >>= λ mm. window seq mm j)
  epoch-covers digest v m seq epoch k s i j h e sh size lt entry =
      let (good, sq, chunk) = layout-IsLayout digest v m seq l h e in
      let (small, inside) = chunk_inside l.samples_per_chunk k s l.per_chunk good.counts size in
      let p = k * l.samples_per_chunk + i in
      let at = epoch * l.total_samples + p in
      let ep : at / l.total_samples ≡ epoch =
        div-eq_of_lt-le l.total_samples (omega arith) (omega (arith, good.total)) in
      let pl : at % l.total_samples ≡ p =
        omega (arith, ap (λ (a : ℕ). l.total_samples * a) ep, div-add-mod at l.total_samples) in
      let sp = spot shuffle l at good sh in
      let same : sp.k ≡ k =
        sp.chunk
        ∙ ap (λ a. a / l.samples_per_chunk) pl
        ∙ div-eq_of_lt-le l.samples_per_chunk (omega arith) (omega arith) in
      let here : at % l.total_samples - sp.k * l.samples_per_chunk ≡ i =
        omega (arith, pl, ap (λ (a : ℕ). a * l.samples_per_chunk) same) in
      let found : some sp.j ≡ some j =
        sym sp.entry ∙ ap₂ get_elem? (ap₂ shuffle ep same) here ∙ entry in
      sample-Spot fetch shuffle l at sp
      ∙ ap₂ (λ a b. fetch a >>= λ mm. window l.seq mm b) same (some-injective _ _ found)
      ∙ ap (λ n. fetch k >>= λ mm. window n mm j) sq
