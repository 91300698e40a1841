-- ===== src/Pithos/Corpus/Entries.antt =====
-- The chunk table of a `ChunkWriter`: the entries that go into the manifest.
use agora_test.Prelude.{ℕ, List, ◌≡◌, map, Text}
use agora_test.Pithos.Corpus.ChunkWriter.{ChunkWriter, entry_of, received, received}

module _ (sha256 : List ℕ → Text) where
  abbrev Listed : ChunkWriter → Type 0
  Listed w = w.chunks ≡ map (entry_of sha256) w.sunk
