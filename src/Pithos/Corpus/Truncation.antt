-- ===== src/Pithos/Corpus/Truncation.antt =====
-- A part that is cut inside a record.
use agora_test.Prelude.{
  ℕ, zero, suc, ◌+◌, ◌-◌, ◌*◌, ◌≤◌, ◌<◌, List, [], ◌++◌, ◌≡◌, refl, ap, ◌∙◌, arith, some, length,
  take, drop, ok, ℤ, map, length-append, length-take, length-drop, ltb, if◌then◌else◌, append-nil,
  dec_lt, ap₂, take-append_ge,
}
use agora_test.Pithos.Errors.{CorpusError, truncated_key, truncated_header, truncated_body}
use agora_test.Pithos.Corpus.RecordsRoundTrip.{
  IsFramed, header, length-header, write_record-IsFramed, read_header-append, read_round-append,
  read_loop-write_records, keys_and_bodies, after,
}
use agora_test.Pithos.Corpus.Records.{
  write_record, write_records, fail, read_body, read_header, read_round, read_loop, read_records,
}

abbrev cut_error : ℕ → CorpusError
cut_error m =
    if ltb m 16 then truncated_key else if ltb m 20 then truncated_header else truncated_body

cut-key :
    (m : ℕ) (bytes : List ℕ)
    → 0 < m
    → m < 16
    → m ≤ length bytes
    → read_round (take m bytes) ≡ fail truncated_key
unfolding read_round
cut-key m bytes pos low long =
    let e : length (take 16 (take m bytes)) ≡ m =
      omega (arith, length-take {0} 16 (take m bytes), length-take {0} m bytes) in
    rw e (ground arith)

cut-header :
    (m : ℕ) (bytes : List ℕ)
    → 16 ≤ m
    → m < 20
    → m ≤ length bytes
    → read_round (take m bytes) ≡ fail truncated_header
unfolding read_round read_header
cut-header m bytes low high long =
    let e : length (take 16 (take m bytes)) ≡ 16 =
      omega (arith, length-take {0} 16 (take m bytes), length-take {0} m bytes) in
    let e' : length (take 4 (drop 16 (take m bytes))) ≡ m - 16 = omega (
      arith,
      length-take {0} 4 (drop 16 (take m bytes)),
      length-drop {0} 16 (take m bytes),
      length-take {0} m bytes,
    ) in
    rw e (rw e' (ground arith))

read_body-short :
    (key rest : List ℕ) (n : ℕ)
    → length (take (4 * n) rest) < 4 * n
    → read_body key n rest ≡ fail truncated_body
unfolding read_body
read_body-short key rest n h = ground arith

cut-body :
    (m : ℕ) (key : List ℕ) (n : ℤ) (raw bytes : List ℕ)
    → IsFramed key n raw bytes
    → 20 ≤ m
    → m < length bytes
    → read_round (take m bytes) ≡ fail truncated_body
cut-body m key n raw bytes v low high =
    let k = m - 20 in
    let e : m ≡ 16 + (4 + k) = omega arith in
    let short : k < 4 * v.count = omega (
      arith,
      ap length v.framed_as,
      v.key_length,
      v.raw_length,
      length-append {0} key (header v.count ++ raw),
      length-append {0} (header v.count) raw,
      length-header v.count,
    ) in
    let cut : take m bytes ≡ key ++ (header v.count ++ take k raw) =
      ap₂ take e v.framed_as
      ∙ take-append_ge 16 (4 + k) key _ v.key_length
      ∙ ap (λ l. key ++ l) (take-append_ge 4 k (header v.count) raw (length-header v.count)) in
    ap read_round cut
    ∙ read_round-append key _ v.key_length
    ∙ read_header-append key v.count (take k raw)
    ∙ read_body-short key (take k raw) v.count
        (omega (arith, length-take {0} (4 * v.count) (take k raw), length-take {0} k raw))

cut_round :
    (m : ℕ) (key : List ℕ) (n : ℤ) (raw bytes : List ℕ)
    → write_record key n raw ≡ ok bytes
    → 0 < m
    → m < length bytes
    → read_round (take m bytes) ≡ fail (cut_error m)
cut_round m key n raw bytes one pos high = elim (dec_lt m 16) [
  | yes low ↦ cut-key m bytes pos low (omega arith) ∙ ground arith
  | no more ↦ elim (dec_lt m 20) [
    | yes low ↦ cut-header m bytes (omega arith) low (omega arith) ∙ ground arith
    | no most ↦
        cut-body m key n raw bytes (write_record-IsFramed key n raw bytes one) (omega arith) high
        ∙ ground arith
  ]
]

read_loop-fail :
    (fuel : ℕ) (f : List ℕ) (e : CorpusError)
    → 0 < fuel
    → read_round f ≡ fail e
    → read_loop fuel f ≡ ([], some e)
unfolding read_loop
read_loop-fail zero f e h r = absurd (omega arith)
read_loop-fail (suc fuel) f e h r = rw (r, read_loop) refl

-- A part that ends inside a record (`m` bytes of it are there) yields every record before it,
-- and then raises; which error tells where the cut lies.
pub read-cut_part :
    (rs : List (List ℕ × ℤ × List ℕ)) (part key : List ℕ) (n : ℤ) (raw bytes : List ℕ) (m : ℕ)
    → write_records rs ≡ ok part
    → write_record key n raw ≡ ok bytes
    → 0 < m
    → m < length bytes
    → read_records (part ++ take m bytes) ≡ (map (λ r. (r.0, r.2)) rs, some (cut_error m))
unfolding read_records
read-cut_part rs part key n raw bytes m h one pos high =
    let tail = take m bytes in
    let (left, room, loop) =
      read_loop-write_records (length (part ++ tail)) rs part tail h
        (omega (arith, length-append {0} part tail)) in
    loop
    ∙ ap (after (keys_and_bodies rs)) (
        read_loop-fail left tail (cut_error m) (omega (arith, length-take {0} m bytes))
          (cut_round m key n raw bytes one pos high))
    ∙ ap (λ l. (l, some (cut_error m))) (append-nil (keys_and_bodies rs))
