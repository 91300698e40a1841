-- ===== src/Pithos/Runtime/Rows.antt =====
-- Where a sample stands, and that the permutation cache and the strided reader's reuse of a chunk
-- change nothing that is read.
use native.Mathlib.Nat.{div-add-mod, mod-lt}
use agora_test.Prelude.{
  ℕ, zero, suc, ◌+◌, ◌-◌, ◌*◌, ◌/◌, ◌%◌, ◌≤◌, ◌<◌, List, [], ◌∷◌, ◌≡◌, refl, ap, ◌∙◌, sym, arith,
  none, some, true, ◌==◌, ◌&&◌, Bool-cases, inl, inr, length, get_elem?, Outcome, ok, raise, ◌>>=◌,
  ap₂, Outcome-cases,
}
use agora_test.Pithos.Errors.{CacheError}
use agora_test.Pithos.Manifest.Layout.{StreamLayout}
use agora_test.Pithos.Manifest.Locate.{IsLayout, position-in_chunk}
use agora_test.Pithos.Runtime.{
  Row, PermCache, Active, window, permutation, load, activate, strided_loop, sample, sample_rows,
}

get_elem?-some {ℓ} :
    {A : Type ℓ} (xs : List A) (i : ℕ) → i < length xs → (x : A) × (get_elem? xs i ≡ some x)
get_elem?-some [] i h = absurd (omega arith)
get_elem?-some (x ∷ xs) zero h = (x, refl)
get_elem?-some (x ∷ xs) (suc i) h = get_elem?-some xs i (omega arith)

-- What numpy promises of `permutation(n)`, as far as a reader needs it: the numbers below `n`.
pub record IsShuffle (shuffle : ℕ → ℕ → List ℕ) (l : StreamLayout) : Type 0 where
  pub covers : (e k s : ℕ) → get_elem? l.per_chunk k ≡ some s → length (shuffle e k) ≡ s
  pub below :
      (e k s i j : ℕ)
      → get_elem? l.per_chunk k ≡ some s
      → get_elem? (shuffle e k) i ≡ some j
      → j < s

-- The chunk, the place and the entry of the permutation for sample `at`.
pub record Spot (shuffle : ℕ → ℕ → List ℕ) (l : StreamLayout) (at : ℕ) : Type 0 where
  pub k : ℕ
  pub samples : ℕ
  pub j : ℕ
  pub chunk : k ≡ at % l.total_samples / l.samples_per_chunk
  pub start : get_elem? l.cumulative k ≡ some (k * l.samples_per_chunk)
  pub size : get_elem? l.per_chunk k ≡ some samples
  pub below : k * l.samples_per_chunk ≤ at % l.total_samples
  pub place : at % l.total_samples - k * l.samples_per_chunk < samples
  pub entry :
      get_elem? (shuffle (at / l.total_samples) k) (at % l.total_samples - k * l.samples_per_chunk)
      ≡ some j
  pub small : samples ≤ l.samples_per_chunk
  pub inside : k * l.samples_per_chunk + samples ≤ l.total_samples

pub spot :
    (shuffle : ℕ → ℕ → List ℕ) (l : StreamLayout) (at : ℕ)
    → IsLayout l
    → IsShuffle shuffle l
    → Spot shuffle l at
spot shuffle l at v sh =
    let p = at % l.total_samples in
    let spc = l.samples_per_chunk in
    let (s, size, start, place, small, inside) = position-in_chunk v p (mod-lt at v.total_pos) in
    let split : spc * (p / spc) + p % spc ≡ p = div-add-mod p spc in
    let place' : p - p / spc * spc < s = omega arith in
    let (j, entry) =
      get_elem?-some (shuffle (at / l.total_samples) (p / spc)) (p - p / spc * spc)
        (omega (arith, sh.covers (at / l.total_samples) (p / spc) s size)) in
    record {
      k = p / spc;
      samples = s;
      j = j;
      chunk = refl;
      start = start;
      size = size;
      below = omega arith;
      place = place';
      entry = entry;
      small = small;
      inside = inside;
    }

-- The rows that a read returns, without its permutation cache.
abbrev pub rows_of : Outcome CacheError (List Row × PermCache) → Outcome CacheError (List Row)
rows_of m = m >>= λ p. ok p.0

abbrev put_row : Row → List Row × PermCache → Outcome CacheError (List Row × PermCache)
put_row w p = ok (w ∷ p.0, p.1)

-- To read one row and then others.
cons_rows :
    (w : Row) (m : Outcome CacheError (List Row × PermCache)) (r : Outcome CacheError (List Row))
    → rows_of m ≡ r
    → rows_of (m >>= put_row w) ≡ (r >>= λ ws. ok (w ∷ ws))
cons_rows w (ok p) r e = rw (← e) refl
cons_rows w (raise x) r e = rw (← e) refl

same_pair : (a b c d : ℕ) → (a == b && c == d) ≡ true → (a ≡ b) × (c ≡ d)
same_pair a b c d h = ground arith

module _ (fetch : ℕ → Outcome CacheError (List ℕ)) (shuffle : ℕ → ℕ → List ℕ)
    (l : StreamLayout) where
  abbrev pub IsCached : PermCache → Type 0
  IsCached none = Unit
  IsCached (some ((e, k), perm)) = perm ≡ shuffle e k

  pub permutation-IsCached :
      (cache : PermCache) (e k : ℕ)
      → IsCached cache
      → ((permutation fetch shuffle l cache e k).0 ≡ shuffle e k)
        × IsCached (permutation fetch shuffle l cache e k).1
  unfolding permutation
  permutation-IsCached none e k h = (refl, refl)
  permutation-IsCached (some ((e', k'), perm)) e k h = elim (Bool-cases (e' == e && k' == k)) [
    | inl hit ↦ rw hit (h ∙ ap₂ shuffle (same_pair e' e k' k hit).0 (same_pair e' e k' k hit).1, h)
    | inr miss ↦ rw miss (refl, refl)
  ]

  pub sample-Spot :
      (at : ℕ) (sp : Spot shuffle l at)
      → sample fetch shuffle l at ≡ (fetch sp.k >>= λ mm. window l.seq mm sp.j)
  unfolding sample
  sample-Spot at sp = rw (← sp.chunk) (rw sp.start (rw sp.entry refl))

  -- What `read_strided` holds from the row before.
  abbrev IsActive : Active → Type 0
  IsActive none = Unit
  IsActive (some ((e, k), mm, perm)) = (fetch k ≡ ok mm) × (perm ≡ shuffle e k)

  -- The chunk and the permutation, fetched or held, as the outcome of one fetch.
  load-fetch :
      (cache : PermCache) (e k : ℕ)
      → IsCached cache
      → (cache' : PermCache) × IsCached cache'
        × (load fetch shuffle l cache e k ≡ (fetch k >>= λ mm. ok (mm, shuffle e k, cache')))
  unfolding load
  load-fetch cache e k h =
      let (perm, kept) = permutation-IsCached cache e k h in
      ((permutation fetch shuffle l cache e k).1, kept, rw perm refl)

  activate-fetch :
      (active : Active) (cache : PermCache) (e k : ℕ)
      → IsActive active
      → IsCached cache
      → (cache' : PermCache) × IsCached cache'
        × (activate fetch shuffle l active cache e k
            ≡ (fetch k >>= λ mm. ok (mm, shuffle e k, cache')))
  unfolding activate
  activate-fetch none cache e k a h = load-fetch cache e k h
  activate-fetch (some ((e', k'), mm, perm)) cache e k a h =
      elim (Bool-cases (e' == e && k' == k)) [
        | inl hit ↦
            let (es, ks) = same_pair e' e k' k hit in
            (
              cache,
              h,
              rw hit (
                  rw (ap fetch (sym ks) ∙ a.0)
                    (ap (λ p. ok (mm, p, cache)) (a.1 ∙ ap₂ shuffle es ks))),
            )
        | inr miss ↦ let (cache', kept, e) = load-fetch cache e k h in (cache', kept, rw miss e)
      ]

  -- The rows of `read_strided` are the samples of the reference reader, and its cache stays good.
  pub strided_loop-sample_rows :
      (stride : ℕ) (active : Active) (cache : PermCache) (at rows : ℕ)
      → IsLayout l
      → IsShuffle shuffle l
      → IsActive active
      → IsCached cache
      → rows_of (strided_loop fetch shuffle l stride active cache at rows)
        ≡ sample_rows fetch shuffle l at stride rows
  unfolding strided_loop sample_rows
  strided_loop-sample_rows stride active cache at zero v sh a h = refl
  strided_loop-sample_rows stride active cache at (suc rows) v sh a h =
      let sp = spot shuffle l at v sh in
      let (cache', kept, act) = activate-fetch active cache (at / l.total_samples) sp.k a h in
      rw (sample-Spot at sp) (
        rw (← sp.chunk) (
          rw sp.start (
            rw act (elim (Outcome-cases (fetch sp.k)) [
              | inr (e, failed) ↦ rw failed refl
              | inl (mm, fetched) ↦ rw fetched (
                  rw sp.entry (elim (Outcome-cases (window l.seq mm sp.j)) [
                    | inr (e, short) ↦ rw short refl
                    | inl (w, full) ↦ rw full (
                        cons_rows w _ _ (
                          strided_loop-sample_rows stride
                            (some (
                              (at / l.total_samples, sp.k),
                              mm,
                              shuffle (at / l.total_samples) sp.k,
                            ))
                            cache' (at + stride) rows v sh (fetched, refl) kept))
                  ]))
            ]))))
