-- ===== src/Pithos/Runtime/Read.antt =====
-- `Corpus.read` goes by runs of one chunk; it yields what the reference reader yields row by row.
use native.Mathlib.Nat.{div-add-mod, div-eq_of_lt-le}
use agora_test.Prelude.{
  ℕ, zero, suc, ◌+◌, ◌-◌, ◌*◌, ◌/◌, ◌%◌, ◌≤◌, ◌<◌, List, ◌∷◌, ◌++◌, ◌≡◌, refl, ap, ◌∙◌, sym, arith,
  some, min, length, get_elem?, Outcome, ok, raise, ◌>>=◌, ap₂, Outcome-cases, >>=-eq-ok,
  ok-injective, inl, inr,
}
use agora_test.Pithos.Errors.{CacheError}
use agora_test.Pithos.Manifest.Layout.{StreamLayout}
use agora_test.Pithos.Manifest.Locate.{IsLayout}
use agora_test.Pithos.Runtime.{
  Row, PermCache, window, permutation, run_rows, read_round, read_loop, bounds, sample, sample_rows,
}
use agora_test.Pithos.Runtime.Rows.{
  IsShuffle, spot, IsCached, permutation-IsCached, sample-Spot, rows_of,
}

-- The next absolute sample of the same epoch.
next_sample :
    (at n e p : ℕ)
    → at / n ≡ e
    → at % n ≡ p
    → p + 1 < n
    → ((at + 1) / n ≡ e) × ((at + 1) % n ≡ p + 1)
next_sample at n e p h k lt =
    let whole : n * e + p ≡ at =
      ap₂ (λ (a : ℕ) (b : ℕ). n * a + b) (sym h) (sym k) ∙ div-add-mod at n in
    let q : (at + 1) / n ≡ e = div-eq_of_lt-le n (omega arith) (omega arith) in
    (q, omega (arith, ap (λ (a : ℕ). n * a) q, div-add-mod (at + 1) n))

chunk_again : (k spc i s : ℕ) → i < s → s ≤ spc → (k * spc + i) / spc ≡ k
chunk_again k spc i s h small = div-eq_of_lt-le spc (omega arith) (omega arith)

>>=-ok : {E A : Type 0} (m : Outcome E A) → (m >>= λ x. ok x) ≡ m
>>=-ok (ok x) = refl
>>=-ok (raise e) = refl

-- A row before two runs of rows, and before the first of them.
cons-append :
    (w : Row) (m n : Outcome CacheError (List Row))
    → (m >>= (λ xs. n >>= λ ys. ok (xs ++ ys)) >>= λ ws. ok (w ∷ ws))
      ≡ (m >>= (λ ws. ok (w ∷ ws)) >>= λ xs. n >>= λ ys. ok (xs ++ ys))
cons-append w (raise e) n = refl
cons-append w (ok xs) (raise e) = refl
cons-append w (ok xs) (ok ys) = refl

module _ (fetch : ℕ → Outcome CacheError (List ℕ)) (shuffle : ℕ → ℕ → List ℕ) (l : StreamLayout)
    (v : IsLayout l) (sh : IsShuffle shuffle l) where
  sample_rows-append :
      (at a b : ℕ)
      → sample_rows fetch shuffle l at 1 (a + b) ≡ (
          sample_rows fetch shuffle l at 1 a >>= λ xs.
          sample_rows fetch shuffle l (at + a) 1 b >>= λ ys. ok (xs ++ ys))
  unfolding sample_rows
  sample_rows-append at zero b =
      let left : 0 + b ≡ b = omega arith in
      let here : at + 0 ≡ at = omega arith in
      rw (left, here) (sym (>>=-ok (sample_rows fetch shuffle l at 1 b)))
  sample_rows-append at (suc a) b =
      let more : suc a + b ≡ suc (a + b) = omega arith in
      let there : at + suc a ≡ at + 1 + a = omega arith in
      rw (more, there)
        (elim (Outcome-cases (sample fetch shuffle l at)) [
          | inr (e, failed) ↦ rw failed refl
          | inl (w, one) ↦ rw one (
              rw (sample_rows-append (at + 1) a b)
                (cons-append w (sample_rows fetch shuffle l (at + 1) 1 a) _))
        ])

  length-sample_rows :
      (at a : ℕ) (ws : List Row) → sample_rows fetch shuffle l at 1 a ≡ ok ws → length ws ≡ a
  unfolding sample_rows
  length-sample_rows at zero ws h = ground arith
  length-sample_rows at (suc a) ws h =
      let (w, one, rest) = >>=-eq-ok (sample fetch shuffle l at) _ h in
      let (ws', more, same) = >>=-eq-ok (sample_rows fetch shuffle l (at + 1) 1 a) _ rest in
      ap length (sym (ok-injective same)) ∙ ap suc (length-sample_rows (at + 1) a ws' more)

  none_left :
      (mm perm : List ℕ) (i at : ℕ)
      → run_rows fetch shuffle l mm perm i 0 ≡ sample_rows fetch shuffle l at 1 0
  unfolding run_rows sample_rows
  none_left mm perm i at = refl

  -- A row of a run, and the run after it.
  run_rows-step :
      (mm : List ℕ) (e k s run i at : ℕ)
      → fetch k ≡ ok mm
      → at / l.total_samples ≡ e
      → at % l.total_samples ≡ k * l.samples_per_chunk + i
      → i < s
      → s ≤ l.samples_per_chunk
      → run_rows fetch shuffle l mm (shuffle e k) (i + 1) run
        ≡ sample_rows fetch shuffle l (at + 1) 1 run
      → run_rows fetch shuffle l mm (shuffle e k) i (suc run)
        ≡ sample_rows fetch shuffle l at 1 (suc run)
  unfolding run_rows sample_rows
  run_rows-step mm e k s run i at fetched he hp fit small rest =
      let sp = spot shuffle l at v sh in
      let same : sp.k ≡ k =
        sp.chunk
        ∙ ap (λ p. p / l.samples_per_chunk) hp
        ∙ chunk_again k l.samples_per_chunk i s (omega arith) small in
      let place : at % l.total_samples - sp.k * l.samples_per_chunk ≡ i =
        omega (arith, hp, ap (λ (q : ℕ). q * l.samples_per_chunk) same) in
      let entry : get_elem? (shuffle e k) i ≡ some sp.j =
        ap₂ get_elem? (ap₂ shuffle (sym he) (sym same)) (sym place) ∙ sp.entry in
      rw (sample-Spot fetch shuffle l at sp) (rw same (rw fetched (rw entry (rw rest refl))))

  -- A run of rows inside one chunk.
  run_rows-sample_rows :
      (mm : List ℕ) (e k s run i at : ℕ)
      → fetch k ≡ ok mm
      → at / l.total_samples ≡ e
      → at % l.total_samples ≡ k * l.samples_per_chunk + i
      → i + run ≤ s
      → s ≤ l.samples_per_chunk
      → k * l.samples_per_chunk + s ≤ l.total_samples
      → run_rows fetch shuffle l mm (shuffle e k) i run ≡ sample_rows fetch shuffle l at 1 run
  run_rows-sample_rows mm e k s zero i at fetched he hp fit small inside =
      none_left mm (shuffle e k) i at
  run_rows-sample_rows mm e k s (suc zero) i at fetched he hp fit small inside =
      run_rows-step mm e k s 0 i at fetched he hp (omega arith) small
        (none_left mm (shuffle e k) (i + 1) (at + 1))
  run_rows-sample_rows mm e k s (suc (suc run)) i at fetched he hp fit small inside =
      let (he', hp') =
        next_sample at l.total_samples e (k * l.samples_per_chunk + i) he hp (omega arith) in
      run_rows-step mm e k s (suc run) i at fetched he hp (omega arith) small (
        run_rows-sample_rows mm e k s (suc run) (i + 1) (at + 1) fetched he' (omega (arith, hp'))
          (omega arith) small inside)

  sample_rows-raise :
      (at run : ℕ) (e : CacheError)
      → sample fetch shuffle l at ≡ raise e
      → 1 ≤ run
      → sample_rows fetch shuffle l at 1 run ≡ raise e
  unfolding sample_rows
  sample_rows-raise at zero e failed h = absurd (omega arith)
  sample_rows-raise at (suc run) e failed h = rw failed refl

  -- A round reads `run` samples from `at`, one at least.
  read_round-sample_rows :
      (cache : PermCache) (at left : ℕ)
      → IsCached fetch shuffle l cache
      → 1 ≤ left
      → (run : ℕ) × (cache' : PermCache) × (1 ≤ run)
        × (run ≤ left)
        × IsCached fetch shuffle l cache'
        × (read_round fetch shuffle l cache at left
            ≡ (sample_rows fetch shuffle l at 1 run >>= λ ws. ok (ws, cache')))
  unfolding read_round bounds
  read_round-sample_rows cache at left h some_left =
      let sp = spot shuffle l at v sh in
      let (perm, kept) = permutation-IsCached fetch shuffle l cache (at / l.total_samples) sp.k h in
      let local = at % l.total_samples - sp.k * l.samples_per_chunk in
      let one : 1 ≤ min left (sp.samples - local) = omega (arith, sp.place) in
      let at_local : at % l.total_samples ≡ sp.k * l.samples_per_chunk + local =
        omega (arith, sp.below) in
      let fits : local + min left (sp.samples - local) ≤ sp.samples = omega (arith, sp.place) in
      (
        min left (sp.samples - local),
        (permutation fetch shuffle l cache (at / l.total_samples) sp.k).1,
        one,
        omega arith,
        kept,
        rw (← sp.chunk) (
            rw (sp.start, sp.size)
              (elim (Outcome-cases (fetch sp.k)) [
                | inr (e, failed) ↦ rw failed (
                    rw
                      (sample_rows-raise at (min left (sp.samples - local)) e
                        (sample-Spot fetch shuffle l at sp
                          ∙ ap (λ m. m >>= λ mm. window l.seq mm sp.j) failed)
                        one)
                      refl)
                | inl (mm, fetched) ↦
                    rw (fetched, perm)
                      (rw
                        (run_rows-sample_rows mm (at / l.total_samples) sp.k sp.samples
                          (min left (sp.samples - local)) local at fetched refl at_local fits
                          sp.small sp.inside)
                        refl)
              ])),
      )

  -- Some rows, and the rows of the rounds after them.
  append_rows :
      (xs : List Row) (m : Outcome CacheError (List Row × PermCache))
      (r : Outcome CacheError (List Row))
      → rows_of m ≡ r
      → rows_of (m >>= λ p. ok (xs ++ p.0, p.1)) ≡ (r >>= λ ys. ok (xs ++ ys))
  append_rows xs (ok p) r e = rw (← e) refl
  append_rows xs (raise x) r e = rw (← e) refl

  -- The rounds of `read` yield the samples `at`, `at + 1`, ... of the reference reader.
  pub read_loop-sample_rows :
      (fuel : ℕ) (cache : PermCache) (at left : ℕ)
      → IsCached fetch shuffle l cache
      → left ≤ fuel
      → rows_of (read_loop fetch shuffle l fuel cache at left)
        ≡ sample_rows fetch shuffle l at 1 left
  unfolding read_loop sample_rows
  read_loop-sample_rows zero cache at zero h enough = refl
  read_loop-sample_rows zero cache at (suc left) h enough = absurd (omega arith)
  read_loop-sample_rows (suc fuel) cache at zero h enough = refl
  read_loop-sample_rows (suc fuel) cache at (suc left) h enough =
      let (run, cache', one, fit, kept, round) =
        read_round-sample_rows cache at (suc left) h (omega arith) in
      let whole : run + (suc left - run) ≡ suc left = omega arith in
      rw round (
        elim (Outcome-cases (sample_rows fetch shuffle l at 1 run)) [
          | inr (e, failed) ↦ rw failed refl
          | inl (ws, read) ↦
              rw (read, length-sample_rows at run ws read)
                (append_rows ws _ _ (
                  read_loop-sample_rows fuel cache' (at + run) (suc left - run) kept
                    (omega (arith, one))))
        ]
        ∙ sym (sample_rows-append at run (suc left - run))
        ∙ ap (λ n. sample_rows fetch shuffle l at 1 n) whole)
