-- ===== src/Pithos/Manifest/Valid.antt =====
-- What a validated manifest is, and that only a bad sequence length makes its layout raise.
use agora_test.Json.{Json, Fields, Items}
use agora_test.Json
use agora_test.Prelude.{
  ℕ, zero, suc, ◌+◌, ◌-◌, ◌/◌, ◌%◌, ◌≤◌, List, [], ◌∷◌, ◌≡◌, refl, ap, arith, some, ◌==◌, map,
  Outcome, ok, raise, Text, ok-injective, subst, ltb, codes, ◌≢◌, pos, negsuc, sum, not,
  if◌then◌else◌,
}
use agora_test.Pithos.Errors.{ManifestError, bad_seq, unsupported_seq, indivisible_seq, no_samples}
use agora_test.Pithos.Manifest.{
  Manifest, ChunkInfo, Format, init, check_geometry, check_identity, read_chunk_tokens, read_chunks,
  manifest_sha256, read_entry, read_entries, as_token_count,
}
use agora_test.Pithos.Manifest.Layout.{
  StreamLayout, supports, running, check_counts, last_of, chunk_samples, layout_nat, layout,
  layout_of,
}

-- Every chunk but the last holds `c + 1` tokens, the last one between 1 and that.
abbrev pub IsGeometry : ℕ → List ChunkInfo → Type 0
IsGeometry c [] = ⊥
IsGeometry c (i ∷ []) = (1 ≤ i.tokens) × (i.tokens ≤ c + 1)
IsGeometry c (i ∷ j ∷ is) = (i.tokens ≡ c + 1) × IsGeometry c (j ∷ is)

pub record IsValid (m : Manifest) : Type 0 where
  pub size : 1 ≤ m.chunk_tokens
  pub geometry : IsGeometry m.chunk_tokens m.chunks

-- Samples of a chunk of `c + 1` tokens.
pub full_samples : (c seq t : ℕ) → 1 ≤ seq → c % seq ≡ 0 → t ≡ c + 1 → (t - 1) / seq ≡ c / seq
full_samples c seq t h e f = let g : t - 1 ≡ c = omega arith in ap (λ k. k / seq) g

pub last_samples : (c seq t : ℕ) → 1 ≤ seq → t ≤ c + 1 → (t - 1) / seq ≤ c / seq
last_samples c seq t h f = grind arith

check_counts-IsGeometry :
    (c seq : ℕ) (cs : List ChunkInfo)
    → 1 ≤ seq
    → c % seq ≡ 0
    → IsGeometry c cs
    → check_counts (c / seq) (map (chunk_samples seq) cs) ≡ ok tt
unfolding check_counts
check_counts-IsGeometry c seq [] h e g = refl
check_counts-IsGeometry c seq (i ∷ []) h e g = ground (arith, last_samples c seq i.tokens)
check_counts-IsGeometry c seq (i ∷ j ∷ is) h e g =
    rw (full_samples c seq i.tokens h e g.0)
      (ground (arith, check_counts-IsGeometry c seq (j ∷ is) h e g.1))

-- Every chunk holds a token.
abbrev AllPos : List ChunkInfo → Type 0
AllPos [] = Unit
AllPos (i ∷ is) = (1 ≤ i.tokens) × AllPos is

token_count_pos : (v : Json) (t : ℕ) → as_token_count v ≡ some t → 1 ≤ t
token_count_pos (Json.int (pos (suc n))) t h = ground arith
token_count_pos (Json.int (pos zero)) t h = cc
token_count_pos (Json.int (negsuc n)) t h = cc
token_count_pos Json.null t h = cc
token_count_pos (Json.bool b) t h = cc
token_count_pos (Json.float z) t h = cc
token_count_pos (Json.str s) t h = cc
token_count_pos (Json.arr x) t h = cc
token_count_pos (Json.obj d) t h = cc

read_entry_pos :
    (seen : List Text) (v : Json) (i : ChunkInfo) → read_entry seen v ≡ ok i → 1 ≤ i.tokens
unfolding read_entry
read_entry_pos seen (Json.obj d) i h =
    token_count_pos (Json.get (codes "tokens") d) i.tokens (ground arith)
read_entry_pos seen Json.null i h = cc
read_entry_pos seen _ i h = cc

read_entries_pos :
    (seen : List Text) (vs : Items) (is : List ChunkInfo) → read_entries seen vs ≡ ok is → AllPos is
unfolding read_entries
read_entries_pos seen Items.nil is h = subst AllPos (ok-injective h) tt
read_entries_pos seen (Items.cons v vs) is h =
    let (i, more, first, rest, e) = split in
    subst AllPos e (read_entry_pos seen v i first, read_entries_pos (i.name ∷ seen) vs more rest)
  where
    split :
        (i : ChunkInfo) × (more : List ChunkInfo) × (read_entry seen v ≡ ok i)
        × (read_entries (i.name ∷ seen) vs ≡ ok more)
        × ((i ∷ more) ≡ is)
    split = ground arith

check_geometry-IsGeometry :
    (c : ℕ) (is : List ChunkInfo)
    → is ≢ []
    → AllPos is
    → check_geometry c is ≡ ok tt
    → IsGeometry c is
unfolding check_geometry
check_geometry-IsGeometry c [] ne p h = ne refl
check_geometry-IsGeometry c (i ∷ []) ne p h = (p.0, ground arith)
check_geometry-IsGeometry c (i ∷ j ∷ is) ne p h =
    (ground arith, check_geometry-IsGeometry c (j ∷ is) (λ e. cc) p.1 (ground arith))

read_chunks_lem : (v : Json) (is : List ChunkInfo) → read_chunks v ≡ ok is → (is ≢ []) × AllPos is
unfolding read_chunks read_entries
read_chunks_lem (Json.arr (Items.cons v vs)) is h =
    (ground arith, read_entries_pos [] (Items.cons v vs) is h)
read_chunks_lem (Json.arr Items.nil) is h = cc
read_chunks_lem v is h = cc

chunk_tokens_pos : (f : Format) (v : Json) (n : ℕ) → read_chunk_tokens f v ≡ ok n → 1 ≤ n
unfolding read_chunk_tokens
chunk_tokens_pos f (Json.int (pos k)) n h = ground arith
chunk_tokens_pos f (Json.int (negsuc k)) n h = cc
chunk_tokens_pos f v n h = cc

module _ (digest : Fields → Text) where
  init_inv :
      (d : Fields) (m : Manifest)
      → init digest (Json.obj d) ≡ ok m
      → (read_chunks (Json.get (codes "chunks") d) ≡ ok m.chunks)
        × (check_geometry m.chunk_tokens m.chunks ≡ ok tt)
        × (read_chunk_tokens m.format (Json.get (codes "chunk_tokens") d) ≡ ok m.chunk_tokens)
        × (check_identity digest d ≡ ok tt)
        × (m.identity ≡ manifest_sha256 digest d)
  unfolding init
  init_inv d m h = ground arith

  -- A manifest that `Manifest.__init__` accepts has a chunk size of at least 1 and a chunk at
  -- least; every chunk but the last holds chunk_tokens + 1 tokens, and the last one between 1 and
  -- that.
  pub init-IsValid : (v : Json) (m : Manifest) → init digest v ≡ ok m → IsValid m
  unfolding init
  init-IsValid (Json.obj d) m h =
      let (chunks, geometry, tokens, identity, same) = init_inv d m h in
      let (some_chunk, positive) = read_chunks_lem (Json.get (codes "chunks") d) m.chunks chunks in
      record {
        size = chunk_tokens_pos m.format (Json.get (codes "chunk_tokens") d) m.chunk_tokens tokens;
        geometry = check_geometry-IsGeometry m.chunk_tokens m.chunks some_chunk positive geometry;
      }
  init-IsValid v m h = cc

-- What `layout` does at a sequence length, for a manifest that `Manifest.__init__` has accepted.
abbrev pub layout_result : Manifest → ℕ → Outcome ManifestError StreamLayout
layout_result m seq =
    if ltb seq 1
    then raise bad_seq
    else if not (supports m.format seq)
    then raise unsupported_seq
    else if not (m.chunk_tokens % seq == 0)
    then raise indivisible_seq
    else if sum (map (chunk_samples seq) m.chunks) == 0
    then raise no_samples
    else ok (layout_of m seq)

pub last_of-running : (d acc : ℕ) (ss : List ℕ) → last_of d (running acc ss) ≡ acc + sum ss
unfolding last_of running
last_of-running d acc [] = omega arith
last_of-running d acc (s ∷ ss) = omega (arith, last_of-running acc (acc + s) ss)

-- For a manifest that `Manifest.__init__` accepts, `layout` raises for a sequence length of 0, an
-- unsupported one, one that does not divide the chunk size, or for want of a sample, in this
-- order, and for nothing else; it never reports a malformed chunk.
pub layout-result :
    (digest : Fields → Text) (v : Json) (m : Manifest) (seq : ℕ)
    → init digest v ≡ ok m
    → layout m (Json.int (pos seq)) ≡ layout_result m seq
unfolding layout layout_nat
layout-result digest v m zero h = refl
layout-result digest v m (suc seq) h =
    let valid = init-IsValid digest v m h in
    ground (
      arith,
      check_counts-IsGeometry m.chunk_tokens (suc seq) m.chunks (omega arith),
      valid.geometry,
      last_of-running 0 0 (map (chunk_samples (suc seq)) m.chunks),
    )
