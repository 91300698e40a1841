-- ===== src/Pithos/Manifest/Locate.antt =====
-- A layout's sample counts, and the chunk in which a sample lies.
use native.Mathlib.Nat.{div-add-mod', div-eq_of_lt, mod-eq_of_lt, div-eq-sub-div, mod-eq-sub-mod}
use native.Mathlib.Numerals.{add-one}
use agora_test.Json.{Json, Fields}
use agora_test.Prelude.{
  Text, ℕ, zero, suc, ◌+◌, ◌-◌, ◌*◌, ◌/◌, ◌%◌, ◌≤◌, ◌<◌, List, [], ◌∷◌, ◌≡◌, refl, ap, ◌∙◌, sym,
  arith, some, some-injective, none-ne-some, map, ok, sum, get_elem?, dec_lt, subst, pos,
}
use agora_test.Pithos.Manifest.{Manifest, ChunkInfo, init}
use agora_test.Pithos.Manifest.Layout.{StreamLayout, running, chunk_samples, layout, layout_of}
use agora_test.Pithos.Manifest.Valid.{
  IsGeometry, init-IsValid, layout_result, layout-result, last_of-running, full_samples,
  last_samples,
}

-- Every chunk but the last yields `spc` samples, the last one at most that.
abbrev Counts : ℕ → List ℕ → Type 0
Counts spc [] = ⊥
Counts spc (s ∷ []) = s ≤ spc
Counts spc (s ∷ t ∷ ss) = (s ≡ spc) × Counts spc (t ∷ ss)

pub record IsLayout (l : StreamLayout) : Type 0 where
  pub seq_pos : 1 ≤ l.seq
  pub counts : Counts l.samples_per_chunk l.per_chunk
  pub cumulative : l.cumulative ≡ running 0 l.per_chunk
  pub total : l.total_samples ≡ sum l.per_chunk
  pub total_pos : 1 ≤ l.total_samples

shift : (acc s spc q : ℕ) → s ≡ spc → acc + s + q * spc ≡ acc + suc q * spc
shift acc s spc q e = rw e (omega arith)

-- Sample `p` of the chunks lies in chunk `p / spc`, at `p % spc` of it.
locate :
    (spc acc p : ℕ) (ss : List ℕ)
    → 1 ≤ spc
    → Counts spc ss
    → p < sum ss
    → (s : ℕ) × (get_elem? ss (p / spc) ≡ some s)
      × (get_elem? (running acc ss) (p / spc) ≡ some (acc + p / spc * spc))
      × (p % spc < s)
      × (s ≤ spc)
      × (p / spc * spc + s ≤ sum ss)
unfolding running
locate spc acc p [] h c lt = absurd c
locate spc acc p (s ∷ []) h c lt =
    let e : p / spc ≡ 0 = div-eq_of_lt (omega arith) in
    let f : p % spc ≡ p = mod-eq_of_lt (omega arith) in
    (s, rw e refl, rw e (ap some (omega arith)), rw f (omega arith), c, rw e (omega arith))
locate spc acc p (s ∷ t ∷ ss) h c lt = elim (dec_lt p spc) [
  | yes low ↦
      let e : p / spc ≡ 0 = div-eq_of_lt low in
      let f : p % spc ≡ p = mod-eq_of_lt low in
      (
        s,
        rw e refl,
        rw e (ap some (omega arith)),
        rw f (omega (arith, c.0)),
        omega (arith, c.0),
        rw e (omega arith),
      )
  | no high ↦
      let p' = p - spc in
      let e : p / spc ≡ suc (p' / spc) = div-eq-sub-div h (omega arith) ∙ add-one _ in
      let f : p % spc ≡ p' % spc = mod-eq-sub-mod (omega arith) in
      let (s', here, base, fits, small, inside) =
        locate spc (acc + s) p' (t ∷ ss) h c.1 (omega (arith, c.0)) in
      (
        s',
        rw e here,
        rw e (base ∙ ap some (shift acc s spc (p' / spc) c.0)),
        rw f fits,
        small,
        rw e (omega (arith, c.0, inside)),
      )
]

-- What `layout_result` has tested.
accepted :
    (m : Manifest) (seq : ℕ) (l : StreamLayout)
    → layout_result m seq ≡ ok l
    → (layout_of m seq ≡ l)
      × (1 ≤ seq)
      × (m.chunk_tokens % seq ≡ 0)
      × (1 ≤ sum (map (chunk_samples seq) m.chunks))
accepted m seq l h = (ground arith, ground arith, ground arith, ground arith)

Counts-IsGeometry :
    (c seq : ℕ) (cs : List ChunkInfo)
    → 1 ≤ seq
    → c % seq ≡ 0
    → IsGeometry c cs
    → Counts (c / seq) (map (chunk_samples seq) cs)
Counts-IsGeometry c seq [] h e g = g
Counts-IsGeometry c seq (i ∷ []) h e g = last_samples c seq i.tokens h g.1
Counts-IsGeometry c seq (i ∷ j ∷ is) h e g =
    (full_samples c seq i.tokens h e g.0, Counts-IsGeometry c seq (j ∷ is) h e g.1)

-- A layout of an accepted manifest has the samples of its chunks: each but the last yields
-- chunk_tokens / seq, the last one at most that, the starts are their running sums, the total is
-- their sum and at least 1, and samples_per_chunk times seq is the chunk size.
pub layout-IsLayout :
    (digest : Fields → Text) (v : Json) (m : Manifest) (seq : ℕ) (l : StreamLayout)
    → init digest v ≡ ok m
    → layout m (Json.int (pos seq)) ≡ ok l
    → IsLayout l × (l.seq ≡ seq) × (l.samples_per_chunk * seq ≡ m.chunk_tokens)
layout-IsLayout digest v m seq l h e =
    let r = sym (layout-result digest v m seq h) ∙ e in
    let (same, seq_pos, divides, some_sample) = accepted m seq l r in
    subst (λ k. IsLayout k × (k.seq ≡ seq) × (k.samples_per_chunk * seq ≡ m.chunk_tokens)) same
      (
        record {
          seq_pos = seq_pos;
          counts =
              Counts-IsGeometry m.chunk_tokens seq m.chunks seq_pos divides
                (init-IsValid digest v m h).geometry;
          cumulative = refl;
          total = omega (arith, last_of-running 0 0 (map (chunk_samples seq) m.chunks));
          total_pos =
              omega (arith, some_sample, last_of-running 0 0 (map (chunk_samples seq) m.chunks));
        },
        refl,
        omega (arith, div-add-mod' m.chunk_tokens seq, divides),
      )

pub layout-layout_of :
    (digest : Fields → Text) (v : Json) (m : Manifest) (seq : ℕ) (l : StreamLayout)
    → init digest v ≡ ok m
    → layout m (Json.int (pos seq)) ≡ ok l
    → layout_of m seq ≡ l
layout-layout_of digest v m seq l h e =
    (accepted m seq l (sym (layout-result digest v m seq h) ∙ e)).0

no_samples_left : (ss : List ℕ) → Counts 0 ss → sum ss ≡ 0
no_samples_left [] c = absurd c
no_samples_left (s ∷ []) c = omega arith
no_samples_left (s ∷ t ∷ ss) c = omega (arith, c.0, no_samples_left (t ∷ ss) c.1)

-- A chunk's samples lie inside the epoch.
pub chunk_inside :
    (spc k s : ℕ) (ss : List ℕ)
    → Counts spc ss
    → get_elem? ss k ≡ some s
    → (s ≤ spc) × (k * spc + s ≤ sum ss)
chunk_inside spc k s [] c h = absurd c
chunk_inside spc zero s (t ∷ []) c h =
    (omega (arith, some-injective _ _ h), omega (arith, some-injective _ _ h))
chunk_inside spc (suc k) s (t ∷ []) c h = absurd (none-ne-some _ h)
chunk_inside spc zero s (t ∷ u ∷ ss) c h =
    (omega (arith, some-injective _ _ h, c.0), omega (arith, some-injective _ _ h, c.0))
chunk_inside spc (suc k) s (t ∷ u ∷ ss) c h =
    let (small, inside) = chunk_inside spc k s (u ∷ ss) c.1 h in (small, omega (arith, c.0, inside))

samples_pos : (spc : ℕ) (ss : List ℕ) → Counts spc ss → 1 ≤ sum ss → 1 ≤ spc
samples_pos zero ss c h = absurd (omega (arith, no_samples_left ss c))
samples_pos (suc k) ss c h = omega arith

module _ {l : StreamLayout} (v : IsLayout l) where
  samples_per_chunk_pos : 1 ≤ l.samples_per_chunk
  samples_per_chunk_pos =
      samples_pos l.samples_per_chunk l.per_chunk v.counts (omega (arith, v.total_pos, v.total))

  pub position-in_chunk :
      (p : ℕ)
      → p < l.total_samples
      → (s : ℕ) × (get_elem? l.per_chunk (p / l.samples_per_chunk) ≡ some s)
        × (get_elem? l.cumulative (p / l.samples_per_chunk)
            ≡ some (p / l.samples_per_chunk * l.samples_per_chunk))
        × (p % l.samples_per_chunk < s)
        × (s ≤ l.samples_per_chunk)
        × (p / l.samples_per_chunk * l.samples_per_chunk + s ≤ l.total_samples)
  position-in_chunk p h =
      let (s, here, base, fits, small, inside) =
        locate l.samples_per_chunk 0 p l.per_chunk samples_per_chunk_pos v.counts
          (omega (arith, v.total)) in
      (
        s,
        here,
        ap (λ c. get_elem? c (p / l.samples_per_chunk)) v.cumulative ∙ base ∙ ap some (omega arith),
        fits,
        small,
        omega (arith, v.total, inside),
      )
