-- ===== src/Pithos/Corpus/RecordsRoundTrip.antt =====
-- Records read back as they were written; a file that is cut short raises.
use agora_test.Prelude.{
  ℕ, zero, suc, ◌+◌, ◌*◌, ◌/◌, ◌%◌, ◌≤◌, List, [], ◌∷◌, ◌++◌, ◌≡◌, refl, ap, ◌∙◌, sym, arith,
  Option, none, length, ok, ℤ, pos, negsuc, length-append, take-append_length, drop-append_length,
  append_assoc, append-nil, ok-injective, map,
}
use agora_test.Pithos.Errors.{CorpusError}
use agora_test.Pithos.Corpus.Records.{
  pack, unpack, write_record, write_records, yielded, read_body, read_header, read_round, read_loop,
  read_records,
}

pub header : ℕ → List ℕ
header n = (n % 256) ∷ (n / 256 % 256) ∷ (n / 65536 % 256) ∷ (n / 16777216) ∷ []

unpack-header : (n : ℕ) → unpack (header n) ≡ n
unfolding unpack header
unpack-header n = omega arith

pub length-header : (n : ℕ) → length (header n) ≡ 4
unfolding header
length-header n = refl

-- What a call of `write_record` that does not raise has checked, and what it appends.
pub record IsFramed (key : List ℕ) (n_tokens : ℤ) (raw bytes : List ℕ) : Type 0 where
  pub count : ℕ
  sign : n_tokens ≡ pos count
  pub key_length : length key ≡ 16
  pub raw_length : length raw ≡ 4 * count
  pub framed_as : bytes ≡ key ++ (header count ++ raw)

pub write_record-IsFramed :
    (key : List ℕ) (n_tokens : ℤ) (raw bytes : List ℕ)
    → write_record key n_tokens raw ≡ ok bytes
    → IsFramed key n_tokens raw bytes
unfolding write_record pack header
write_record-IsFramed key (pos n) raw bytes h = record {
  count = n;
  sign = refl;
  key_length = ground arith;
  raw_length = ground arith;
  framed_as = ground arith;
}
write_record-IsFramed key (negsuc n) raw bytes h = absurd (ground arith)

read_body-append :
    (key raw rest : List ℕ) (n : ℕ)
    → length raw ≡ 4 * n
    → read_body key n (raw ++ rest) ≡ yielded key raw rest
unfolding read_body
read_body-append key raw rest n h =
    rw (take-append_length (4 * n) raw rest h)
      (rw (drop-append_length (4 * n) raw rest h) (ground arith))

pub read_header-append :
    (key : List ℕ) (n : ℕ) (rest : List ℕ)
    → read_header key (header n ++ rest) ≡ read_body key n rest
unfolding read_header header
read_header-append key n rest = ap (λ k. read_body key k rest) (unpack-header n)

pub read_round-append :
    (key rest : List ℕ) → length key ≡ 16 → read_round (key ++ rest) ≡ read_header key rest
unfolding read_round
read_round-append key rest h =
    rw (take-append_length 16 key rest h) (rw (drop-append_length 16 key rest h) (ground arith))

read_round-framed :
    (key : List ℕ) (n_tokens : ℤ) (raw bytes rest : List ℕ)
    → IsFramed key n_tokens raw bytes
    → read_round (bytes ++ rest) ≡ yielded key raw rest
read_round-framed key n_tokens raw bytes rest v = rw v.framed_as (
    rw append_assoc (
      read_round-append key _ v.key_length
      ∙ rw append_assoc (
          read_header-append key v.count (raw ++ rest)
          ∙ read_body-append key raw rest v.count v.raw_length)))

bytes_pos :
    (key : List ℕ) (n_tokens : ℤ) (raw bytes : List ℕ)
    → IsFramed key n_tokens raw bytes
    → 20 ≤ length bytes
bytes_pos key n_tokens raw bytes v = omega (
  arith,
  ap length v.framed_as,
  v.key_length,
  length-append {0} key (header v.count ++ raw),
  length-append {0} (header v.count) raw,
  length-header v.count,
)

abbrev pub keys_and_bodies : List (List ℕ × ℤ × List ℕ) → List (List ℕ × List ℕ)
keys_and_bodies = map (λ r. (r.0, r.2))

-- What the loop yields over the rest of the file, after what it has yielded already.
abbrev pub after :
    List (List ℕ × List ℕ)
    → List (List ℕ × List ℕ) × Option CorpusError
    → List (List ℕ × List ℕ) × Option CorpusError
after rs (more, e) = (rs ++ more, e)

write_records_inv :
    (key : List ℕ) (n : ℤ) (raw : List ℕ) (rs : List (List ℕ × ℤ × List ℕ)) (part : List ℕ)
    → write_records ((key, n, raw) ∷ rs) ≡ ok part
    → (bytes : List ℕ) × (more : List ℕ) × (write_record key n raw ≡ ok bytes)
      × (write_records rs ≡ ok more)
      × (part ≡ bytes ++ more)
unfolding write_records
write_records_inv key n raw rs part h = ground arith

read_loop-step :
    (fuel : ℕ) (key : List ℕ) (n : ℤ) (raw bytes rest : List ℕ)
    → IsFramed key n raw bytes
    → read_loop (suc fuel) (bytes ++ rest) ≡ after ((key, raw) ∷ []) (read_loop fuel rest)
unfolding read_loop
read_loop-step fuel key n raw bytes rest v =
    rw (read_round-framed key n raw bytes rest v, read_loop) refl

-- The loop over a written part and what stands behind it: fuel is left for the rest.
pub read_loop-write_records :
    (fuel : ℕ) (rs : List (List ℕ × ℤ × List ℕ)) (part tail : List ℕ)
    → write_records rs ≡ ok part
    → length part + length tail ≤ fuel
    → (left : ℕ) × (length tail ≤ left)
      × (read_loop fuel (part ++ tail) ≡ after (keys_and_bodies rs) (read_loop left tail))
unfolding write_records
read_loop-write_records fuel [] part tail h enough = (fuel, omega arith, rw (← ok-injective h) refl)
read_loop-write_records zero ((key, n, raw) ∷ rs) part tail h enough =
    let (bytes, more, one, others, split) = write_records_inv key n raw rs part h in
    let long = bytes_pos key n raw bytes (write_record-IsFramed key n raw bytes one) in
    absurd (omega (arith, ap length split, length-append {0} bytes more))
read_loop-write_records (suc fuel) ((key, n, raw) ∷ rs) part tail h enough =
    let (bytes, more, one, others, split) = write_records_inv key n raw rs part h in
    let framed = write_record-IsFramed key n raw bytes one in
    let long = bytes_pos key n raw bytes framed in
    let (left, room, loop) =
      read_loop-write_records fuel rs more tail others
        (omega (arith, ap length split, length-append {0} bytes more)) in
    (
      left,
      room,
      ap (λ p. read_loop (suc fuel) (p ++ tail)) split
          ∙ (rw append_assoc (
              read_loop-step fuel key n raw bytes (more ++ tail) framed
              ∙ ap (after ((key, raw) ∷ [])) loop)),
    )

read_loop-nil : (fuel : ℕ) → read_loop fuel [] ≡ ([], none)
unfolding read_loop read_round
read_loop-nil zero = refl
read_loop-nil (suc fuel) = refl

-- What was written by any calls of `write_record` is read back as the same keys and bodies, in
-- order, with no error.
pub read-write_records :
    (rs : List (List ℕ × ℤ × List ℕ)) (part : List ℕ)
    → write_records rs ≡ ok part
    → read_records part ≡ (map (λ r. (r.0, r.2)) rs, none)
unfolding read_records
read-write_records rs part h =
    let (left, room, loop) = read_loop-write_records (length part) rs part [] h (omega arith) in
    ap (read_loop (length part)) (sym (append-nil part))
    ∙ loop
    ∙ ap (after (keys_and_bodies rs)) (read_loop-nil left)
    ∙ ap (λ l. (l, none)) (append-nil (keys_and_bodies rs))
