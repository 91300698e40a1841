-- ===== src/Pithos/Corpus.antt =====
-- pithos/src/pithos/corpus.py: the build of a corpus from token bytes.
pub mod ChunkWriter
pub mod Objects
pub mod Refine
pub mod Records
pub mod RecordsRoundTrip
pub mod Truncation
pub mod Entries
pub mod Windows
pub mod Merge
mod Tests
