-- ===== src/Pithos/Corpus/Tests.antt =====
-- Runs of corpus.py's functions, and its theorems at concrete inputs.
use agora_test.Prelude.{
  ℕ, ◌+◌, ◌*◌, ◌/◌, ◌%◌, List, [], ◌∷◌, ◌++◌, ◌≡◌, refl, arith, none, some, map, ok, raise, length,
  take, slice, get_elem?, Text, codes, ℤ, pos,
}
use agora_test.Pithos.Corpus.ChunkWriter.{
  ChunkWriter, init, fresh, entry_of, write, write_all, close, chunk_name,
}
use agora_test.Pithos.Corpus.Objects.{objects, object_count}
use agora_test.Pithos.Corpus.Records.{write_record, write_records, pack, read_records}
use agora_test.Pithos.Corpus.RecordsRoundTrip.{read-write_records}
use agora_test.Pithos.Corpus.Refine.{concat, write_all-objects}
use agora_test.Pithos.Corpus.Truncation.{read-cut_part}
use agora_test.Pithos.Corpus.Windows.{written-sample}
use agora_test.Pithos.Errors.{truncated_header, ragged_write}

abbrev token : ℕ → List ℕ
token n = n ∷ 0 ∷ 0 ∷ 0 ∷ []

abbrev writes : List (List ℕ)
writes = token 1 ∷ (token 2 ++ token 3) ∷ (token 4 ++ (token 5 ++ token 6)) ∷ []

abbrev no_hash : List ℕ → Text
no_hash b = []

chunk_name_lem : chunk_name 42 ≡ codes "chunk-00042.bin"
unfolding chunk_name
chunk_name_lem = refl

ragged : write no_hash (1 ∷ []) (fresh 2) ≡ raise ragged_write
unfolding write
ragged = refl

init_two : init 2 ≡ ok (fresh 2)
unfolding init
init_two = refl

abbrev after_writes : ChunkWriter
after_writes = record (fresh 2) {
  buf = token 5 ++ token 6;
  idx = 2;
  total_tokens = 6;
  chunks =
      entry_of no_hash (0, token 1 ++ (token 2 ++ token 3))
      ∷ entry_of no_hash (1, token 3 ++ (token 4 ++ token 5))
      ∷ [];
  sunk = (0, token 1 ++ (token 2 ++ token 3)) ∷ (1, token 3 ++ (token 4 ++ token 5)) ∷ [];
}

write_all-objects_example :
    (w' : ChunkWriter) × (write_all no_hash writes (fresh 2) ≡ ok w')
    × ((close no_hash w').sunk
        ≡ objects 2 (concat writes) (object_count 2 (length (concat writes) / 4)))
    × (4 * w'.total_tokens ≡ length (concat writes))
write_all-objects_example = write_all-objects no_hash 2 writes (fresh 2) init_two (omega arith)

written-sample_example :
    (w' : ChunkWriter) × (blob : List ℕ) × (write_all no_hash writes (fresh 2) ≡ ok w')
    × (get_elem? (close no_hash w').sunk (3 / 2) ≡ some (3 / 2, blob))
    × (slice (4 * ((3 % 2) * 1)) (4 * (1 + 1)) blob
        ≡ slice (4 * (3 * 1)) (4 * (1 + 1)) (concat writes))
unfolding concat
written-sample_example =
    written-sample no_hash 2 1 2 3 writes (fresh 2) init_two (omega arith) refl (omega arith)
      (omega arith)

abbrev key : ℕ → List ℕ
key n = n ∷ 0 ∷ 0 ∷ 0 ∷ 0 ∷ 0 ∷ 0 ∷ 0 ∷ 0 ∷ 0 ∷ 0 ∷ 0 ∷ 0 ∷ 0 ∷ 0 ∷ 0 ∷ []

abbrev records : List (List ℕ × ℤ × List ℕ)
records = (key 7, pos 2, token 1 ++ token 2) ∷ (key 9, pos 0, []) ∷ []

abbrev part : List ℕ
part = key 7 ++ (token 2 ++ (token 1 ++ (token 2 ++ (key 9 ++ token 0))))

records_written : write_records records ≡ ok part
unfolding write_records write_record pack
records_written = refl

read-write_records_example : read_records part ≡ (map (λ r. (r.0, r.2)) records, none)
read-write_records_example = read-write_records records part records_written

one_record : write_record (key 11) (pos 1) (token 3) ≡ ok (key 11 ++ (token 1 ++ token 3))
unfolding write_record pack
one_record = refl

read-cut_part_example :
    read_records (part ++ take 18 (key 11 ++ (token 1 ++ token 3)))
    ≡ (map (λ r. (r.0, r.2)) records, some truncated_header)
read-cut_part_example =
    read-cut_part records part (key 11) (pos 1) (token 3) (key 11 ++ (token 1 ++ token 3)) 18
      records_written one_record (omega arith) (omega arith)
