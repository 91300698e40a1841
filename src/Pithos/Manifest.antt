-- ===== src/Pithos/Manifest.antt =====
-- `Manifest` of pithos/src/pithos/manifest.py: the validation of a manifest, end to end. The digest
-- of the canonical JSON text (`json.dumps` with sorted keys, then sha256) is a parameter.
pub mod Layout
pub mod Valid
pub mod Locate
pub mod Example
mod Tests
use Prim.Native.Nat.{bit_and}
use agora_test.Json
use agora_test.Json.{Json, Items, Fields, as_int, as_str}
use agora_test.Prelude.{
  ℕ, zero, suc, ◌+◌, ◌-◌, ◌^◌, List, [], ◌∷◌, Bool, true, false, ◌&&◌, ◌||◌, not, Option, none,
  some, leb, ltb, ◌==◌, if◌then◌else◌, length, Text, codes, text_eq, Outcome, ok, raise, require,
  require_some, ◌>>=◌, ◌>>◌, ℤ, pos, negsuc,
}
use agora_test.Pithos.Errors.{
  ManifestError, not_an_object, bad_format, bad_dtype, bad_eos_id, bad_chunk_tokens_type,
  chunk_tokens_too_small, chunk_tokens_geometry, no_chunks, entry_not_an_object, unsafe_chunk_name,
  duplicate_chunk_name, bad_token_count, bad_chunk_sha256, short_chunk, long_final_chunk,
  bad_reported_identity, identity_mismatch,
}

pub data Format : Type 0 where
  pithos_stream legacy_stream : Format

abbrev pithos_chunk_tokens : ℕ
pithos_chunk_tokens = 2 ^ 26

abbrev pithos_max_chunk_tokens : ℕ
pithos_max_chunk_tokens = 2 ^ 30

pub record ChunkInfo : Type 0 where
  pub name : Text
  pub tokens : ℕ
  pub sha256 : Text

-- `chunk_names` and `chunk_token_counts` are read off `chunks`.
pub record Manifest : Type 0 where
  pub format : Format
  pub eos_id : ℕ
  pub chunk_tokens : ℕ
  pub chunks : List ChunkInfo
  pub identity : Text

abbrev all_of : (ℕ → Bool) → Text → Bool
all_of p [] = true
all_of p (x ∷ xs) = p x && all_of p xs

unfoldable is_alnum : ℕ → Bool
is_alnum c = (leb b'A' c && leb c b'Z') || (leb b'a' c && leb c b'z') || (leb b'0' c && leb c b'9')

unfoldable is_name_char : ℕ → Bool
unfolding is_alnum
is_name_char c = is_alnum c || c == b'.' || c == b'_' || c == b'-'

-- `_CHUNK_NAME_RE.fullmatch`
unfoldable matches_name : Text → Bool
unfolding is_name_char
matches_name [] = false
matches_name (c ∷ cs) = is_alnum c && leb (length cs) 254 && all_of is_name_char cs

-- `".." in name`
unfoldable has_dots : Text → Bool
has_dots [] = false
has_dots (c ∷ []) = false
has_dots (c ∷ d ∷ cs) = (c == b'.' && d == b'.') || has_dots (d ∷ cs)

unfoldable pub validate_chunk_name : Json → Outcome ManifestError Text
unfolding matches_name has_dots
validate_chunk_name name = elim (as_str name) [
  | none ↦ raise unsafe_chunk_name
  | some s ↦
      if not (matches_name s)
      then raise unsafe_chunk_name
      else if has_dots s
      then raise unsafe_chunk_name
      else ok s
]

-- `_SHA256_RE.fullmatch` of a `str`
unfoldable pub as_sha256 : Json → Option Text
as_sha256 v = elim (as_str v) [
  | none ↦ none
  | some s ↦
      if length s == 64 && all_of (λ c. (leb b'0' c && leb c b'9') || (leb b'a' c && leb c b'f')) s
      then some s
      else none
]

-- `raw_tokens` of an entry: an int of at least 1
abbrev pub as_token_count : Json → Option ℕ
as_token_count (Json.int (pos (suc n))) = some (suc n)
as_token_count _ = none

abbrev mem_text : Text → List Text → Bool
mem_text s [] = false
mem_text s (t ∷ ts) = text_eq t s || mem_text s ts

unfoldable pub read_format : Json → Outcome ManifestError Format
read_format v = elim (as_str v) [
  | none ↦ raise bad_format
  | some s ↦
      if text_eq s (codes "pithos_stream_v1")
      then ok pithos_stream
      else if text_eq s (codes "colonnade_stream_v1")
      then ok legacy_stream
      else raise bad_format
]

abbrev want_dtype : Format → Text
want_dtype pithos_stream = codes "<i4"
want_dtype legacy_stream = codes "int32"

abbrev is_text : Text → Json → Bool
is_text s (Json.str t) = text_eq t s
is_text s _ = false

unfoldable pub read_eos_id : Json → Outcome ManifestError ℕ
read_eos_id (Json.int (pos n)) = ok n
read_eos_id v = raise bad_eos_id

-- The power of two between the bounds that the pithos format wants.
unfoldable pub is_chunk_geometry : ℕ → Bool
is_chunk_geometry n =
    bit_and n (n - 1) == 0 && leb pithos_chunk_tokens n && leb n pithos_max_chunk_tokens

abbrev fits_format : Format → ℕ → Bool
fits_format pithos_stream n = is_chunk_geometry n
fits_format legacy_stream n = true

unfoldable pub read_chunk_tokens : Format → Json → Outcome ManifestError ℕ
read_chunk_tokens format v = elim (as_int v) [
  | none ↦ raise bad_chunk_tokens_type
  | some (negsuc n) ↦ raise chunk_tokens_too_small
  | some (pos n) ↦
      if ltb n 1
      then raise chunk_tokens_too_small
      else if fits_format format n
      then ok n
      else raise chunk_tokens_geometry
]

-- One entry of "chunks", against the names that stand before it.
unfoldable pub read_entry : List Text → Json → Outcome ManifestError ChunkInfo
read_entry seen (Json.obj entry) = do
  name ← validate_chunk_name (Json.get (codes "name") entry)
  require (not (mem_text name seen)) duplicate_chunk_name
  tokens ← require_some (as_token_count (Json.get (codes "tokens") entry)) bad_token_count
  sha ← require_some (as_sha256 (Json.get (codes "sha256") entry)) bad_chunk_sha256
  ok (record { name = name; tokens = tokens; sha256 = sha })
read_entry seen v = raise entry_not_an_object

unfoldable pub read_entries : List Text → Items → Outcome ManifestError (List ChunkInfo)
read_entries seen Items.nil = ok []
read_entries seen (Items.cons v vs) = elim (read_entry seen v) [
  | raise e ↦ raise e
  | ok info ↦ elim (read_entries (info.name ∷ seen) vs) [
    | raise e ↦ raise e
    | ok infos ↦ ok (info ∷ infos)
  ]
]

unfoldable pub read_chunks : Json → Outcome ManifestError (List ChunkInfo)
read_chunks (Json.arr (Items.cons v vs)) = read_entries [] (Items.cons v vs)
read_chunks v = raise no_chunks

-- The two geometry tests: every chunk but the last holds `chunk_tokens + 1` tokens, the last one at
-- most that.
unfoldable pub check_geometry : ℕ → List ChunkInfo → Outcome ManifestError (Unit {0})
check_geometry chunk_tokens [] = ok tt
check_geometry chunk_tokens (c ∷ []) = require (leb c.tokens (chunk_tokens + 1)) long_final_chunk
check_geometry chunk_tokens (c ∷ d ∷ cs) = elim (c.tokens == chunk_tokens + 1) [
  | true ↦ check_geometry chunk_tokens (d ∷ cs)
  | false ↦ raise short_chunk
]

module _ (digest : Fields → Text) where
  -- `manifest_sha256`
  unfoldable pub manifest_sha256 : Fields → Text
  manifest_sha256 manifest = digest (Json.without (codes "manifest_sha256") manifest)

  unfoldable pub check_identity : Fields → Outcome ManifestError (Unit {0})
  check_identity manifest = do
    reported ←
        require_some (as_sha256 (Json.get (codes "manifest_sha256") manifest)) bad_reported_identity
    require (text_eq reported (manifest_sha256 manifest)) identity_mismatch

  -- `Manifest.__init__`
  unfoldable pub init : Json → Outcome ManifestError Manifest
  init (Json.obj manifest) = do
    format ← read_format (Json.get (codes "format") manifest)
    require (is_text (want_dtype format) (Json.get (codes "dtype") manifest)) bad_dtype
    eos_id ← read_eos_id (Json.get (codes "eos_id") manifest)
    chunk_tokens ← read_chunk_tokens format (Json.get (codes "chunk_tokens") manifest)
    chunks ← read_chunks (Json.get (codes "chunks") manifest)
    check_geometry chunk_tokens chunks
    check_identity manifest
    ok (record {
      format = format;
      eos_id = eos_id;
      chunk_tokens = chunk_tokens;
      chunks = chunks;
      identity = manifest_sha256 manifest;
    })
  init v = raise not_an_object
