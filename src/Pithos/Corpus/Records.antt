-- ===== src/Pithos/Corpus/Records.antt =====
-- `write_record` and `read_records` of pithos/src/pithos/corpus.py: the framing of part streams.
use agora_test.Prelude.{
  ℕ, zero, suc, ◌+◌, ◌*◌, ◌/◌, ◌%◌, ◌^◌, List, [], ◌∷◌, ◌++◌, Option, none, some, ltb, ◌==◌, not,
  if◌then◌else◌, length, take, drop, Outcome, ok, raise, ℤ, pos, negsuc,
}
use agora_test.Pithos.Errors.{
  CorpusError, key_length, negative_count, body_length, struct_error, truncated_key,
  truncated_header, truncated_body,
}

abbrev key_bytes : ℕ
key_bytes = 16

-- `_REC_HDR.pack`, the `struct` format "<I"; `struct.error` where the count has no 4 bytes.
unfoldable pub pack : ℕ → Outcome CorpusError (List ℕ)
pack n =
    if ltb n (2 ^ 32)
    then ok ((n % 256) ∷ (n / 256 % 256) ∷ (n / 65536 % 256) ∷ (n / 16777216) ∷ [])
    else raise struct_error

-- `_REC_HDR.unpack` of four bytes
unfoldable pub unpack : List ℕ → ℕ
unpack (a ∷ b ∷ c ∷ d ∷ []) = a + 256 * b + 65536 * c + 16777216 * d
unpack _ = 0

-- The bytes that `write_record` appends to the stream.
unfoldable pub write_record : List ℕ → ℤ → List ℕ → Outcome CorpusError (List ℕ)
write_record key (negsuc n) raw =
    if not (length key == key_bytes) then raise key_length else raise negative_count
write_record key (pos n_tokens) raw =
    if not (length key == key_bytes)
    then raise key_length
    else if not (length raw == 4 * n_tokens)
    then raise body_length
    else (elim (pack n_tokens) [ ok header ↦ ok (key ++ (header ++ raw)) | raise e ↦ raise e ])

-- One round of the loop of `read_records`, on what is left of the file.
pub data Round : Type 0 where
  stop : Round
  fail : CorpusError → Round
  yielded : List ℕ → List ℕ → List ℕ → Round

unfoldable pub read_body : List ℕ → ℕ → List ℕ → Round
read_body key n rest =
    if not (length (take (4 * n) rest) == 4 * n)
    then fail truncated_body
    else yielded key (take (4 * n) rest) (drop (4 * n) rest)

unfoldable pub read_header : List ℕ → List ℕ → Round
unfolding read_body
read_header key rest =
    if not (length (take 4 rest) == 4)
    then fail truncated_header
    else read_body key (unpack (take 4 rest)) (drop 4 rest)

unfoldable pub read_round : List ℕ → Round
unfolding read_header
read_round f =
    let key = take key_bytes f in
    if length key == 0
    then stop
    else if not (length key == key_bytes)
    then fail truncated_key
    else read_header key (drop key_bytes f)

-- The records that the generator yields, and the error that ends it, if one does. A round takes
-- at least 20 bytes, so the length of the file is enough fuel.
unfoldable pub read_loop : ℕ → List ℕ → List (List ℕ × List ℕ) × Option CorpusError
read_loop zero f = ([], none)
read_loop (suc fuel) f = elim (read_round f) [
  | stop ↦ ([], none)
  | fail e ↦ ([], some e)
  | yielded key raw rest ↦ let (rs, e) = read_loop fuel rest in ((key, raw) ∷ rs, e)
]

unfoldable pub read_records : List ℕ → List (List ℕ × List ℕ) × Option CorpusError
unfolding read_loop
read_records f = read_loop (length f) f

-- A client's calls of `write_record` on one stream: the bytes of the part, up to the first raise.
unfoldable pub write_records : List (List ℕ × ℤ × List ℕ) → Outcome CorpusError (List ℕ)
write_records [] = ok []
write_records ((key, n_tokens, raw) ∷ rs) = elim (write_record key n_tokens raw) [
  | raise e ↦ raise e
  | ok bytes ↦ elim (write_records rs) [ ok part ↦ ok (bytes ++ part) | raise e ↦ raise e ]
]
