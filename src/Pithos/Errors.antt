-- ===== src/Pithos/Errors.antt =====
-- pithos/src/pithos/errors.py: the exceptions that the modelled code raises, one constructor for
-- each message that it gives.
pub data CorpusError : Type 0 where
  bad_chunk_tokens ragged_write : CorpusError
  key_length negative_count body_length struct_error : CorpusError
  truncated_key truncated_header truncated_body : CorpusError
  order_violation duplicate_key : CorpusError

pub data ManifestError : Type 0 where
  not_an_object bad_format bad_dtype bad_eos_id bad_chunk_tokens_type chunk_tokens_too_small
        chunk_tokens_geometry :
      ManifestError
  no_chunks entry_not_an_object unsafe_chunk_name duplicate_chunk_name bad_token_count
        bad_chunk_sha256 :
      ManifestError
  short_chunk long_final_chunk : ManifestError
  bad_reported_identity identity_mismatch : ManifestError
  bad_seq unsupported_seq indivisible_seq malformed_chunk malformed_final_chunk no_samples :
      ManifestError

pub data CacheError : Type 0 where
  corpus_closed bad_start bad_stride bad_rows short_window : CacheError
  chunk_unavailable index_error empty_stack stalled : CacheError
