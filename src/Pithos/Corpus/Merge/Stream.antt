-- ===== src/Pithos/Corpus/Merge/Stream.antt =====
-- What a merge writes: the bodies in key order, up to the token limit.
use agora_test.Prelude.{
  ℕ, ◌+◌, ◌-◌, ◌*◌, ◌/◌, ◌%◌, ◌≤◌, ◌<◌, List, [], ◌∷◌, ◌++◌, ◌≡◌, refl, ap, ◌∙◌, sym, subst, arith,
  Option, none, some, length, take, append-nil, append_assoc, length-append, length-take,
  take-append_le, take-append_ge, take_all, Text, ok,
}
use agora_test.Pithos.Corpus.ChunkWriter.{ChunkWriter, init, write, close}
use agora_test.Pithos.Corpus.Refine.{Writes, write-Writes, close-objects, init-Writes}
use agora_test.Pithos.Corpus.Objects.{objects, object_count}
use agora_test.Pithos.Corpus.Merge.{
  Record, heapq_merge, check_key, plan, Plan, halt, last_bytes, whole, merge_loop, merge_parts,
  Progress,
}
use agora_test.Pithos.Corpus.Merge.Deterministic.{
  AllAscending, AllDistinct, heapq_merge-IsAscending,
}
use agora_test.Pithos.Corpus.Merge.Keys.{AscendsFrom, AscendsFrom-check_key, AscendsFrom-tail}

pub bodies : List Record → List ℕ
bodies [] = []
bodies (r ∷ rs) = r.1 ++ bodies rs

-- Each body is a whole number of tokens.
abbrev AllTokens : List Record → Type 0
AllTokens [] = Unit
AllTokens (r ∷ rs) = (length r.1 % 4 ≡ 0) × AllTokens rs

-- The part of a stream of bytes that fits a limit, after `total` tokens.
abbrev pub within : Option ℕ → ℕ → List ℕ → List ℕ
within none total s = s
within (some max_tokens) total s = take (4 * (max_tokens - total)) s

within-halt :
    (limit : Option ℕ) (total size : ℕ) (s : List ℕ)
    → plan limit total size ≡ halt
    → within limit total s ≡ []
unfolding plan
within-halt none total size s h = cc
within-halt (some m) total size s h =
    let e : 4 * (m - total) ≡ 0 = ground arith in ap (λ k. take k s) e

within-last_bytes :
    (limit : Option ℕ) (total k : ℕ) (b s : List ℕ)
    → plan limit total (length b) ≡ last_bytes k
    → (within limit total (b ++ s) ≡ take k b) × (k % 4 ≡ 0) × (k ≤ length b)
unfolding plan
within-last_bytes none total k b s h = cc
within-last_bytes (some m) total k b s h =
    let e : 4 * (m - total) ≡ k = ground arith in
    let short : k ≤ length b = ground arith in
    (ap (λ j. take j (b ++ s)) e ∙ take-append_le k b s short, omega arith, short)

within-whole :
    (limit : Option ℕ) (total : ℕ) (b s : List ℕ)
    → plan limit total (length b) ≡ whole
    → length b % 4 ≡ 0
    → within limit total (b ++ s) ≡ b ++ within limit (total + length b / 4) s
unfolding plan
within-whole none total b s h e = refl
within-whole (some m) total b s h e =
    let fits : length b ≤ 4 * (m - total) = ground arith in
    let split : 4 * (m - total) ≡ length b + 4 * (m - (total + length b / 4)) = omega arith in
    ap (λ j. take j (b ++ s)) split ∙ take-append_ge (length b) _ b s refl

within-nil : (limit : Option ℕ) (total : ℕ) → within limit total [] ≡ []
within-nil none total = refl
within-nil (some m) total = take_all _ [] (omega arith)

moved : (c : ℕ) {s s' : List ℕ} {w : ChunkWriter} → s ≡ s' → Writes c s w → Writes c s' w
moved c {w = w} e inv = subst (λ b. Writes c b w) e inv

nothing_more : (s : List ℕ) {b : List ℕ} → b ≡ [] → s ≡ s ++ b
nothing_more s e = sym (ap (λ l. s ++ l) e ∙ append-nil s)

length-take_tokens : (k : ℕ) (b : List ℕ) → k ≤ length b → k % 4 ≡ 0 → length (take k b) % 4 ≡ 0
length-take_tokens k b h e =
    let l : length (take k b) ≡ k = omega (arith, length-take {0} k b) in rw l e

no_tokens : (w : ChunkWriter) → 0 ≡ 4 * w.total_tokens → w.total_tokens ≡ 0
no_tokens w h = omega arith

data PlanView (p : Plan) : Type 0 where
  halts : p ≡ halt → PlanView p
  lasts : (k : ℕ) → p ≡ last_bytes k → PlanView p
  goes_on : p ≡ whole → PlanView p

view_of : (p : Plan) → PlanView p
view_of halt = halts refl
view_of (last_bytes k) = lasts k refl
view_of whole = goes_on refl

module _ (sha256 : List ℕ → Text) (limit : Option ℕ) where
  module _ (r : Record) (rs : List Record) (n : ℕ) (last : Option (List ℕ)) (w : ChunkWriter)
      (checked : check_key last r.0 ≡ none) where
    loop-halt :
        plan limit w.total_tokens (length r.1) ≡ halt
        → merge_loop sha256 limit (r ∷ rs) (n, last, w) ≡ ok (n, last, w)
    unfolding merge_loop
    loop-halt h = rw (checked, merge_loop) (rw (h, merge_loop) refl)

    loop-last_bytes :
        (k : ℕ) (w' : ChunkWriter)
        → plan limit w.total_tokens (length r.1) ≡ last_bytes k
        → write sha256 (take k r.1) w ≡ ok w'
        → merge_loop sha256 limit (r ∷ rs) (n, last, w) ≡ ok (n + 1, some r.0, w')
    unfolding merge_loop
    loop-last_bytes k w' h e =
        rw (checked, merge_loop) (rw (h, merge_loop) (rw (e, merge_loop) refl))

    loop-whole :
        (w' : ChunkWriter)
        → plan limit w.total_tokens (length r.1) ≡ whole
        → write sha256 r.1 w ≡ ok w'
        → merge_loop sha256 limit (r ∷ rs) (n, last, w)
          ≡ merge_loop sha256 limit rs (n + 1, some r.0, w')
    unfolding merge_loop
    loop-whole w' h e = rw (checked, merge_loop) (rw (h, merge_loop) (rw (e, merge_loop) refl))

  -- The merge of ascending records does not raise, and writes what fits the limit.
  merge_loop-Writes :
      (c : ℕ) (s : List ℕ) (rs : List Record) (n : ℕ) (last : Option (List ℕ)) (w : ChunkWriter)
      → 1 ≤ c
      → Writes c s w
      → length w.buf < 4 * (c + 1)
      → AscendsFrom last rs
      → AllTokens rs
      → (p : Progress) × (merge_loop sha256 limit rs (n, last, w) ≡ ok p)
        × Writes c (s ++ within limit w.total_tokens (bodies rs)) p.2
        × (length p.2.buf < 4 * (c + 1))
  unfolding bodies merge_loop
  merge_loop-Writes c s [] n last w pos inv short a t =
      ((n, last, w), refl, moved c (nothing_more s (within-nil limit w.total_tokens)) inv, short)
  merge_loop-Writes c s (r ∷ rs) n last w pos inv short a t =
      let checked = AscendsFrom-check_key last r rs a in
      elim (view_of (plan limit w.total_tokens (length r.1))) [
        | halts h ↦ (
          (n, last, w),
          loop-halt r rs n last w checked h,
          moved c
              (nothing_more s (within-halt limit w.total_tokens (length r.1) (bodies (r ∷ rs)) h))
              inv,
          short,
        )
        | lasts k h ↦
            let (fit, tokens, le) = within-last_bytes limit w.total_tokens k r.1 (bodies rs) h in
            let (w', done, inv', short') =
              write-Writes sha256 c s (take k r.1) w pos inv (length-take_tokens k r.1 le tokens) in
            (
              (n + 1, some r.0, w'),
              loop-last_bytes r rs n last w checked k w' h done,
              moved c (ap (λ b. s ++ b) (sym fit)) inv',
              short',
            )
        | goes_on h ↦
            let (w1, done, inv1, short1) = write-Writes sha256 c s r.1 w pos inv t.0 in
            let (p, run, inv2, short2) =
              merge_loop-Writes c (s ++ r.1) rs (n + 1) (some r.0) w1 pos inv1 short1
                (AscendsFrom-tail last r rs a) t.1 in
            let total : w.total_tokens + length r.1 / 4 ≡ w1.total_tokens =
              omega (arith, inv.whole, inv1.whole, length-append {0} s r.1) in
            (
              p,
              loop-whole r rs n last w checked w1 h done ∙ run,
              moved c
                  (append_assoc s r.1 _
                    ∙ ap (λ b. s ++ b)
                        (ap (λ k. r.1 ++ within limit k (bodies rs)) (sym total)
                          ∙ sym (within-whole limit w.total_tokens r.1 (bodies rs) h t.0)))
                  inv2,
              short2,
            )
      ]

  -- For parts whose keys ascend with no key in two of them and whose bodies are whole tokens, the
  -- merge into a new writer does not raise. With `limit`, the tokens written are exactly the first
  -- `limit` tokens of all bodies in key order (all of them if there are fewer); the sink has been
  -- given the chunk objects of that stream, the last one included.
  pub merge_parts-objects :
      (c : ℕ) (w : ChunkWriter) (parts : List (List Record))
      → init c ≡ ok w
      → AllAscending parts
      → AllDistinct parts
      → AllTokens (heapq_merge parts)
      → (n : ℕ) × (last : Option (List ℕ)) × (w' : ChunkWriter) × (merge_parts sha256 limit parts w
          ≡ ok (n, last, w'))
        × (w'.sunk
            ≡ objects c
                (within limit 0 (bodies (heapq_merge parts)))
                (object_count c (length (within limit 0 (bodies (heapq_merge parts))) / 4)))
  unfolding merge_parts
  merge_parts-objects c w parts e a d t =
      let (pos, inv, empty) = init-Writes sha256 c w e in
      let (p, run, inv', short) =
        merge_loop-Writes c [] (heapq_merge parts) 0 none w pos inv (rw empty (omega arith))
          (heapq_merge-IsAscending parts a d) t in
      (
        p.0,
        p.1,
        close sha256 p.2,
        rw (run, merge_parts) refl,
        subst
            (λ k.
              (close sha256 p.2).sunk
              ≡ objects c (within limit k (bodies (heapq_merge parts)))
                  (object_count c (length (within limit k (bodies (heapq_merge parts))) / 4)))
            (no_tokens w (inv.whole))
            (close-objects sha256 c (within limit w.total_tokens (bodies (heapq_merge parts))) p.2
              pos inv' short),
      )
