-- ===== src/Pithos/Corpus/Refine.antt =====
-- `ChunkWriter` against the positions of the chunk objects in the stream.
use native.Mathlib.Nat.{mul-zero, le_refl}
use agora_test.Prelude.{
  ℕ, zero, suc, ◌+◌, ◌-◌, ◌*◌, ◌/◌, ◌%◌, ◌≤◌, ◌<◌, List, [], ◌∷◌, ◌++◌, ◌≡◌, refl, sym, ap, ◌∙◌,
  arith, ◌⊎◌, inl, inr, leb, Bool-cases, ok, Text, length, take, drop, length-append, length-drop,
  drop-drop, drop-append_le, take_all, append-nil, append_assoc, leb-false→lt, leb→le, ap₂,
  length-eq-zero, subst, drop_all,
}
use agora_test.Pithos.Corpus.ChunkWriter.{
  ChunkWriter, init, fresh, cut, drain, received, write, close, write_all, limit,
}
use agora_test.Pithos.Corpus.Objects.{
  objects, object_count, objects-zero, objects-suc, objects-append,
}

-- `w` is what a writer of chunks of `c` tokens has come to after the bytes of `s`.
pub record Writes (c : ℕ) (s : List ℕ) (w : ChunkWriter) : Type 0 where
  pub size : w.c ≡ c
  pub sunk : w.sunk ≡ objects c s w.idx
  pub buf : w.buf ≡ drop (4 * (c * w.idx)) s
  pub overlap : (w.idx ≡ 0) ⊎ (4 * (c * w.idx) + 4 ≤ length s)
  pub whole : length s ≡ 4 * w.total_tokens

length-buf :
    {c : ℕ} {s : List ℕ} {w : ChunkWriter}
    → Writes c s w
    → length w.buf + 4 * (c * w.idx) ≡ length s
length-buf {c} {s} {w} inv = elim inv.overlap [
  | inl none ↦
      let e : c * w.idx ≡ 0 = rw none (mul-zero c) in
      omega (arith, e, ap length inv.buf, length-drop {0} (4 * (c * w.idx)) s)
  | inr some ↦ omega (arith, ap length inv.buf, length-drop {0} (4 * (c * w.idx)) s)
]

-- The overlap token, or the whole stream, is still in the buffer.
length-buf_pos :
    {c : ℕ} {s : List ℕ} {w : ChunkWriter} → Writes c s w → 4 ≤ length s → 4 ≤ length w.buf
length-buf_pos {c} {s} {w} inv h = elim inv.overlap [
  | inl none ↦ let e : c * w.idx ≡ 0 = rw none (mul-zero c) in omega (arith, e, length-buf inv)
  | inr some ↦ omega (arith, length-buf inv)
]

quotient : (c k t : ℕ) → 1 ≤ c → c * k ≤ t → t < c * k + c → t / c ≡ k
quotient c k t pos low high = grind arith

-- The bytes of the writes, one after another.
unfoldable pub concat : List (List ℕ) → List ℕ
concat [] = []
concat (t ∷ ts) = t ++ concat ts

-- Each write is a whole number of tokens.
abbrev pub AllWhole : List (List ℕ) → Type 0
AllWhole [] = Unit
AllWhole (t ∷ ts) = (length t % 4 ≡ 0) × AllWhole ts

module _ (sha256 : List ℕ → Text) where
  cut-Writes :
      (c : ℕ) (s : List ℕ) (w : ChunkWriter)
      → 1 ≤ c
      → Writes c s w
      → limit w ≤ length w.buf
      → Writes c s (cut sha256 w)
  unfolding cut
  cut-Writes c s w pos inv full = record {
    size = inv.size;
    sunk =
        ap₂ (λ l b. l ++ ((w.idx, b) ∷ [])) inv.sunk
          (ap₂ take (ap (λ (d : ℕ). 4 * (d + 1)) inv.size) inv.buf)
        ∙ sym (objects-suc c s w.idx);
    buf =
        ap₂ drop (ap (λ (d : ℕ). 4 * (d + 1) - 4) inv.size) inv.buf
        ∙ drop-drop (4 * (c + 1) - 4) (4 * (c * w.idx)) s
        ∙ ap (λ k. drop k s) (omega arith);
    overlap = inr (omega (arith, length-buf inv, ap (λ (d : ℕ). 4 * (d + 1)) inv.size));
    whole = inv.whole;
  }

  idx-cut : (w : ChunkWriter) → (cut sha256 w).idx ≡ w.idx + 1
  unfolding cut
  idx-cut w = refl

  drain-Writes :
      (c : ℕ) (s : List ℕ) (fuel : ℕ) (w : ChunkWriter)
      → 1 ≤ c
      → Writes c s w
      → length w.buf ≤ fuel
      → Writes c s (drain sha256 fuel w) × (length (drain sha256 fuel w).buf < 4 * (c + 1))
  unfolding drain cut
  drain-Writes c s zero w pos inv h = (inv, omega arith)
  drain-Writes c s (suc fuel) w pos inv h = elim (Bool-cases (leb (limit w) (length w.buf))) [
    | inl full ↦
        rw (full, drain)
          (drain-Writes c s fuel (cut sha256 w) pos (cut-Writes c s w pos inv (leb→le _ _ full)) (
            omega (
              arith,
              length-buf inv,
              length-buf (cut-Writes c s w pos inv (leb→le _ _ full)),
              idx-cut w,
            )))
    | inr short ↦
        rw (short, drain)
          (inv, omega (arith, leb-false→lt (limit w) (length w.buf) short, inv.size))
  ]

  received-Writes :
      (c : ℕ) (s t : List ℕ) (w : ChunkWriter)
      → Writes c s w
      → length t % 4 ≡ 0
      → Writes c (s ++ t) (received t w)
  received-Writes c s t w inv h = record {
    size = inv.size;
    sunk = inv.sunk ∙ sym (objects-append c s t w.idx inv.overlap);
    buf =
        ap (λ b. b ++ t) inv.buf
        ∙ sym (drop-append_le (4 * (c * w.idx)) s t (omega (arith, length-buf inv)));
    overlap = elim inv.overlap [
      | inl e ↦ inl e
      | inr le ↦ inr (omega (arith, length-append {0} s t))
    ];
    whole = omega (arith, length-append {0} s t, inv.whole);
  }

  pub write-Writes :
      (c : ℕ) (s t : List ℕ) (w : ChunkWriter)
      → 1 ≤ c
      → Writes c s w
      → length t % 4 ≡ 0
      → (w' : ChunkWriter) × (write sha256 t w ≡ ok w')
        × Writes c (s ++ t) w'
        × (length w'.buf < 4 * (c + 1))
  unfolding write
  write-Writes c s t w pos inv h =
      let (inv', short) =
        drain-Writes c (s ++ t) (length (received t w).buf) (received t w) pos
          (received-Writes c s t w inv h) (le_refl _) in
      (drain sha256 (length (received t w).buf) (received t w), rw h refl, inv', short)

  write_all-cons :
      (t : List ℕ) (ts : List (List ℕ)) (w : ChunkWriter) {w1 : ChunkWriter}
      → write sha256 t w ≡ ok w1
      → write_all sha256 (t ∷ ts) w ≡ write_all sha256 ts w1
  unfolding write_all
  write_all-cons t ts w e = rw (e, write_all) refl

  write_all-Writes :
      (c : ℕ) (s : List ℕ) (ts : List (List ℕ)) (w : ChunkWriter)
      → 1 ≤ c
      → Writes c s w
      → length w.buf < 4 * (c + 1)
      → AllWhole ts
      → (w' : ChunkWriter) × (write_all sha256 ts w ≡ ok w')
        × Writes c (s ++ concat ts) w'
        × (length w'.buf < 4 * (c + 1))
  unfolding write_all concat
  write_all-Writes c s [] w pos inv short h = (w, refl, rw append-nil inv, short)
  write_all-Writes c s (t ∷ ts) w pos inv short h =
      let (w1, written, inv1, short1) = write-Writes c s t w pos inv h.0 in
      let (w2, done, inv2, short2) = write_all-Writes c (s ++ t) ts w1 pos inv1 short1 h.1 in
      (w2, write_all-cons t ts w written ∙ done, rw append_assoc at inv2, short2)

  sunk-close :
      (w : ChunkWriter) → 0 < length w.buf → (close sha256 w).sunk ≡ w.sunk ++ ((w.idx, w.buf) ∷ [])
  unfolding close
  sunk-close w h = go w.buf refl h
    where
      go :
          (b : List ℕ)
          → w.buf ≡ b
          → 0 < length b
          → (close sha256 w).sunk ≡ w.sunk ++ ((w.idx, b) ∷ [])
      go [] e h = absurd (omega arith)
      go (x ∷ xs) e h = rw (e, close) refl

  sunk-close_empty : (w : ChunkWriter) → length w.buf ≡ 0 → (close sha256 w).sunk ≡ w.sunk
  unfolding close
  sunk-close_empty w h = rw (length-eq-zero w.buf h, close) refl

  pub close-objects :
      (c : ℕ) (s : List ℕ) (w : ChunkWriter)
      → 1 ≤ c
      → Writes c s w
      → length w.buf < 4 * (c + 1)
      → (close sha256 w).sunk ≡ objects c s (object_count c (length s / 4))
  close-objects c s w pos inv short = go (length s / 4) refl
    where
      go : (t : ℕ) → length s / 4 ≡ t → (close sha256 w).sunk ≡ objects c s (object_count c t)
      go zero e =
          let none : w.idx ≡ 0 = omega (arith, inv.overlap) in
          sunk-close_empty w (omega (arith, length-buf inv, inv.whole))
          ∙ inv.sunk
          ∙ ap (objects c s) none
      go (suc t) e =
          let left : 4 ≤ length w.buf = length-buf_pos inv (omega (arith, inv.whole)) in
          let whole : length w.buf + 4 * (c * w.idx) ≡ 4 * suc t =
            omega (arith, length-buf inv, inv.whole) in
          let k : t / c ≡ w.idx = quotient c w.idx t pos (omega arith) (omega arith) in
          sunk-close w (omega arith)
          ∙ ap₂ (λ l b. l ++ ((w.idx, b) ∷ [])) inv.sunk
              (sym (take_all (4 * (c + 1)) w.buf (omega arith)) ∙ ap (take (4 * (c + 1))) inv.buf)
          ∙ sym (objects-suc c s w.idx)
          ∙ ap (λ q. objects c s (q + 1)) (sym k)

  fresh-Writes : (c : ℕ) → Writes c [] (fresh c)
  fresh-Writes c = record {
    size = refl;
    sunk = sym (objects-zero c []);
    buf = sym (drop_all _ [] (omega arith));
    overlap = inl refl;
    whole = refl;
  }

  pub init-Writes :
      (c : ℕ) (w : ChunkWriter) → init c ≡ ok w → (1 ≤ c) × Writes c [] w × (w.buf ≡ [])
  unfolding init
  init-Writes zero w e = cc
  init-Writes (suc c) w e =
      let e' : fresh (suc c) ≡ w = ground arith in
      subst (λ v. (1 ≤ suc c) × Writes (suc c) [] v × (v.buf ≡ [])) e'
        (omega arith, fresh-Writes (suc c), refl)

  pub init-pos : (c : ℕ) (w : ChunkWriter) → init c ≡ ok w → 1 ≤ c
  init-pos c w e = (init-Writes c w e).0

  -- Whatever the sizes of the writes, if each is a whole number of tokens then none raises, every
  -- byte is counted, and after `close` the sink has been given the objects of the stream: object
  -- `k` holds the tokens `[k * c, (k + 1) * c + 1)`, the last one what is left.
  pub write_all-objects :
      (c : ℕ) (ts : List (List ℕ)) (w : ChunkWriter)
      → init c ≡ ok w
      → AllWhole ts
      → (w' : ChunkWriter) × (write_all sha256 ts w ≡ ok w')
        × ((close sha256 w').sunk ≡ objects c (concat ts) (object_count c (length (concat ts) / 4)))
        × (4 * w'.total_tokens ≡ length (concat ts))
  write_all-objects c ts w e h =
      let (pos, inv, empty) = init-Writes c w e in
      let (w', done, inv', short) = write_all-Writes c [] ts w pos inv (rw empty (omega arith)) h in
      (w', done, close-objects c (concat ts) w' pos inv' short, sym inv'.whole)
