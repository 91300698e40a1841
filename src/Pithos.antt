-- ===== src/Pithos.antt =====
-- pithos: the library that builds, publishes and reads token corpora.
pub mod Errors
pub mod Corpus
pub mod Manifest
pub mod Runtime
pub mod ChunkCache
pub mod Prefetcher
