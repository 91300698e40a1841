-- ===== src/Pithos/Manifest/Layout.antt =====
-- `Manifest.layout` of pithos/src/pithos/manifest.py: the sample arithmetic of a sequence length.
use agora_test.Json.{Json}
use agora_test.Prelude.{
  ℕ, suc, ◌+◌, ◌-◌, ◌/◌, ◌%◌, List, [], ◌∷◌, Bool, true, false, ◌||◌, leb, ltb, ◌==◌, map, Outcome,
  ok, raise, require, ◌>>◌, pos,
}
use agora_test.Pithos.Errors.{
  ManifestError, bad_seq, unsupported_seq, indivisible_seq, malformed_chunk, malformed_final_chunk,
  no_samples,
}
use agora_test.Pithos.Manifest.{Manifest, ChunkInfo, Format, pithos_stream, legacy_stream}

pub record StreamLayout : Type 0 where
  pub seq : ℕ
  pub samples_per_chunk : ℕ
  pub per_chunk : List ℕ
  pub cumulative : List ℕ
  pub total_samples : ℕ

-- `SUPPORTED_SEQ`
abbrev supported_seq : List ℕ
supported_seq = 512 ∷ 1024 ∷ 2048 ∷ 4096 ∷ 8192 ∷ 16384 ∷ 32768 ∷ 65536 ∷ 131072 ∷ []

abbrev mem_nat : ℕ → List ℕ → Bool
mem_nat n [] = false
mem_nat n (m ∷ ms) = m == n || mem_nat n ms

abbrev pub supports : Format → ℕ → Bool
supports pithos_stream seq = mem_nat seq supported_seq
supports legacy_stream seq = true

-- `cum`: the running sums, from the sum so far.
unfoldable pub running : ℕ → List ℕ → List ℕ
running acc [] = acc ∷ []
running acc (s ∷ ss) = acc ∷ running (acc + s) ss

-- The two tests on the sample counts of the chunks.
unfoldable pub check_counts : ℕ → List ℕ → Outcome ManifestError (Unit {0})
check_counts spc [] = ok tt
check_counts spc (s ∷ []) = require (leb s spc) malformed_final_chunk
check_counts spc (s ∷ t ∷ ss) = elim (s == spc) [
  | true ↦ check_counts spc (t ∷ ss)
  | false ↦ raise malformed_chunk
]

-- `cum[-1]`
unfoldable pub last_of : ℕ → List ℕ → ℕ
last_of d [] = d
last_of d (x ∷ xs) = last_of x xs

abbrev pub chunk_samples : ℕ → ChunkInfo → ℕ
chunk_samples seq c = (c.tokens - 1) / seq

abbrev pub layout_of : Manifest → ℕ → StreamLayout
layout_of m seq =
    let per_chunk = map (chunk_samples seq) m.chunks in
    record {
      seq = seq;
      samples_per_chunk = m.chunk_tokens / seq;
      per_chunk = per_chunk;
      cumulative = running 0 per_chunk;
      total_samples = last_of 0 (running 0 per_chunk);
    }

unfoldable pub layout_nat : Manifest → ℕ → Outcome ManifestError StreamLayout
unfolding check_counts
layout_nat m seq = do
  require (supports m.format seq) unsupported_seq
  require (m.chunk_tokens % seq == 0) indivisible_seq
  check_counts (m.chunk_tokens / seq) (map (chunk_samples seq) m.chunks)
  require (ltb 0 (last_of 0 (running 0 (map (chunk_samples seq) m.chunks)))) no_samples
  ok (layout_of m seq)

unfoldable pub layout : Manifest → Json → Outcome ManifestError StreamLayout
unfolding layout_nat
layout m (Json.int (pos (suc n))) = layout_nat m (suc n)
layout m seq = raise bad_seq
