-- ===== src/Pithos/Manifest/Example.antt =====
-- A small legacy manifest: two chunks of 5 and 4 tokens.
use agora_test.Json
use agora_test.Json.{Json, Items, Fields}
use agora_test.Prelude.{ℕ, [], ◌∷◌, ◌≡◌, refl, Text, codes, pos, ok}
use agora_test.Pithos.Manifest.{
  Manifest, Format, init, manifest_sha256, check_identity, validate_chunk_name, as_sha256,
  read_format, read_eos_id, read_chunk_tokens, read_chunks, read_entries, read_entry,
  check_geometry,
}
use agora_test.Pithos.Manifest.Layout.{StreamLayout, layout, last_of, running}

abbrev hash : Text
hash = codes "0123456789abcdef0123456789abcdef0123456789abcdef0123456789abcdef"

abbrev pub digest_zero : Fields → Text
digest_zero d = hash

abbrev entry : Text → ℕ → Json
entry name tokens = Json.obj (
    Fields.field (codes "name") (Json.str name) (
      Fields.field (codes "tokens") (Json.int (pos tokens))
        (Fields.field (codes "sha256") (Json.str hash) Fields.end)))

abbrev pub two_chunks : Json
two_chunks = Json.obj (
    Fields.field (codes "format") (Json.str (codes "colonnade_stream_v1")) (
      Fields.field (codes "dtype") (Json.str (codes "int32")) (
        Fields.field (codes "eos_id") (Json.int (pos 0)) (
          Fields.field (codes "chunk_tokens") (Json.int (pos 4)) (
            Fields.field (codes "chunks")
              (Json.arr (
                Items.cons (entry (codes "a.bin") 5)
                  (Items.cons (entry (codes "b.bin") 4) Items.nil)))
              (Fields.field (codes "manifest_sha256") (Json.str hash) Fields.end))))))

abbrev pub two_chunks_manifest : Manifest
two_chunks_manifest = record {
  format = Format.legacy_stream;
  eos_id = 0;
  chunk_tokens = 4;
  chunks =
      record { name = codes "a.bin"; tokens = 5; sha256 = hash }
      ∷ record { name = codes "b.bin"; tokens = 4; sha256 = hash }
      ∷ [];
  identity = hash;
}

abbrev pub two_chunks_layout : StreamLayout
two_chunks_layout = record {
  seq = 2;
  samples_per_chunk = 2;
  per_chunk = 2 ∷ 1 ∷ [];
  cumulative = 0 ∷ 2 ∷ 3 ∷ [];
  total_samples = 3;
}

pub two_chunks_accepted : init digest_zero two_chunks ≡ ok two_chunks_manifest
unfolding init check_identity manifest_sha256 validate_chunk_name as_sha256 read_format read_eos_id
    read_chunk_tokens read_chunks read_entries read_entry check_geometry Json.get
two_chunks_accepted = refl

pub two_chunks_at_two : layout two_chunks_manifest (Json.int (pos 2)) ≡ ok two_chunks_layout
unfolding layout last_of running
two_chunks_at_two = refl
