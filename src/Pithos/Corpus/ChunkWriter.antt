-- ===== src/Pithos/Corpus/ChunkWriter.antt =====
-- `ChunkWriter` of pithos/src/pithos/corpus.py: cuts a stream of token bytes into chunk objects.
-- A byte is a number; `sink` is the list of the calls made to it; sha256 is a parameter.
use agora_test.Prelude.{
  ℕ, zero, suc, ◌+◌, ◌-◌, ◌*◌, ◌/◌, ◌%◌, List, [], ◌∷◌, ◌++◌, true, false, leb, ltb, ◌==◌,
  if◌then◌else◌, length, take, drop, Outcome, ok, raise, Text, codes, padded,
}
use agora_test.Pithos.Errors.{CorpusError, bad_chunk_tokens, ragged_write}

pub record ChunkEntry : Type 0 where
  pub name : Text
  pub sha256 : Text
  pub tokens : ℕ

pub record ChunkWriter : Type 0 where
  pub c : ℕ
  pub buf : List ℕ
  pub idx : ℕ
  pub total_tokens : ℕ
  pub chunks : List ChunkEntry
  pub sunk : List (ℕ × List ℕ)

-- the fields that `ChunkWriter.__init__` sets
abbrev pub fresh : ℕ → ChunkWriter
fresh chunk_tokens = record {
  c = chunk_tokens;
  buf = [];
  idx = 0;
  total_tokens = 0;
  chunks = [];
  sunk = [];
}

-- `ChunkWriter.__init__`
unfoldable pub init : ℕ → Outcome CorpusError ChunkWriter
init chunk_tokens = if ltb chunk_tokens 1 then raise bad_chunk_tokens else ok (fresh chunk_tokens)

-- `f"chunk-{idx:05d}.bin"`
unfoldable pub chunk_name : ℕ → Text
unfolding padded
chunk_name idx = codes "chunk-" ++ (padded 5 idx ++ codes ".bin")

-- `limit` of `write`
abbrev pub limit : ChunkWriter → ℕ
limit w = 4 * (w.c + 1)

-- the first statements of `write`
abbrev pub received : List ℕ → ChunkWriter → ChunkWriter
received token_bytes w = record w {
  total_tokens = w.total_tokens + length token_bytes / 4;
  buf = w.buf ++ token_bytes;
}

module _ (sha256 : List ℕ → Text) where
  abbrev pub entry_of : ℕ × List ℕ → ChunkEntry
  entry_of (i, blob) = record {
    name = chunk_name i;
    sha256 = sha256 blob;
    tokens = length blob / 4;
  }

  unfoldable pub emit : List ℕ → ChunkWriter → ChunkWriter
  emit blob w = record w {
    chunks = w.chunks ++ (entry_of (w.idx, blob) ∷ []);
    sunk = w.sunk ++ ((w.idx, blob) ∷ []);
    idx = w.idx + 1;
  }

  -- the body of the loop of `write`
  unfoldable pub cut : ChunkWriter → ChunkWriter
  unfolding emit
  cut w = record (emit (take (limit w) w.buf) w) { buf = drop (limit w - 4) w.buf }

  -- `while len(self.buf) >= limit`
  unfoldable pub drain : ℕ → ChunkWriter → ChunkWriter
  drain zero w = w
  drain (suc fuel) w = elim (leb (limit w) (length w.buf)) [ true ↦ drain fuel (cut w) | false ↦ w ]

  unfoldable pub write : List ℕ → ChunkWriter → Outcome CorpusError ChunkWriter
  write token_bytes w =
      if length token_bytes % 4 == 0
      then (let w' = received token_bytes w in ok (drain (length w'.buf) w'))
      else raise ragged_write

  unfoldable pub close : ChunkWriter → ChunkWriter
  unfolding emit
  close w = elim w.buf [ [] ↦ w | b ∷ rest ↦ record (emit (b ∷ rest) w) { buf = [] } ]

  -- A client's writes in order, up to the first that raises.
  unfoldable pub write_all : List (List ℕ) → ChunkWriter → Outcome CorpusError ChunkWriter
  write_all [] w = ok w
  write_all (t ∷ ts) w = elim (write t w) [ ok w' ↦ write_all ts w' | raise e ↦ raise e ]
