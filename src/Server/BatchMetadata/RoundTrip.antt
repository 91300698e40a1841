-- ===== src/Server/BatchMetadata/RoundTrip.antt =====
-- What `to_bytes` writes, `from_bytes` reads.
use agora_test.Json.{
  Json, Fields, as_nat, as_positive, as_str, find, dict_of, find-dict_of, or_else, or_else-none,
  value_at,
}
use agora_test.Prelude.{
  ℕ, zero, suc, ◌≤◌, List, [], ◌∷◌, true, Option, none, some, Text, codes, ◌≡◌, refl, ◌≢◌, ap, ◌∙◌,
  pos, arith,
}
use agora_test.Server.BatchMetadata.{
  BatchMetadata, BatchPurpose, normal, coerce, is_manifest, as_manifest, as_strs, as_maddrs,
  as_purpose, list_of, json_str, json_strs, json_nat, entries, shard_of, read_fields, to_bytes,
  from_bytes,
}

abbrev Given : {A : Type 0} → (A → Type 0) → Option A → Type 0
Given P none = Unit
Given P (some a) = P a

-- The optional fields hold what `from_bytes` keeps: a digest in lower-case hex, an address or more,
-- and a positive stride and number of rows.
pub record IsSent (m : BatchMetadata) : Type 0 where
  pub manifest : Given (λ s. is_manifest s ≡ true) m.data_manifest
  pub maddrs : Given (λ ss. ss ≢ []) m.prev_hop_maddrs
  pub stride : Given (λ n. 1 ≤ n) m.sample_stride
  pub rows : Given (λ n. 1 ≤ n) m.sample_rows

as_str-json_str : (o : Option Text) → coerce as_str (json_str o) ≡ o
as_str-json_str none = refl
as_str-json_str (some s) = refl

as_manifest-json_str :
    (o : Option Text) → Given (λ s. is_manifest s ≡ true) o → coerce as_manifest (json_str o) ≡ o
unfolding as_manifest
as_manifest-json_str none h = refl
as_manifest-json_str (some s) h = rw h refl

as_strs-list_of : (ss : List Text) → as_strs (list_of ss) ≡ some ss
unfolding as_strs
as_strs-list_of [] = refl
as_strs-list_of (s ∷ ss) = rw (as_strs-list_of ss) refl

as_maddrs-json_strs :
    (o : Option (List Text)) → Given (λ ss. ss ≢ []) o → coerce as_maddrs (json_strs o) ≡ o
unfolding as_maddrs
as_maddrs-json_strs none h = refl
as_maddrs-json_strs (some []) h = absurd (h refl)
as_maddrs-json_strs (some (s ∷ ss)) h = rw (as_strs-list_of (s ∷ ss), as_maddrs) refl

as_nat-json_nat : (o : Option ℕ) → coerce as_nat (json_nat o) ≡ o
as_nat-json_nat none = refl
as_nat-json_nat (some n) = refl

as_positive-json_nat : (o : Option ℕ) → Given (λ n. 1 ≤ n) o → coerce as_positive (json_nat o) ≡ o
as_positive-json_nat none h = refl
as_positive-json_nat (some zero) h = absurd (omega arith)
as_positive-json_nat (some (suc n)) h = refl

module _ (m : BatchMetadata) where
  abbrev sent : Fields
  sent = dict_of (entries m)

  read_fields-found :
      (obj : Fields)
      → find (codes "tid") obj ≡ some m.trainer_uid
      → find (codes "seq") obj ≡ some m.seq
      → find (codes "kind") obj ≡ some (Json.int (pos 0))
      → shard_of (find (codes "shard") obj) ≡ m.data_shard
      → coerce as_str (find (codes "tpid") obj) ≡ m.trainer_peer_id
      → coerce as_str (find (codes "nh_uid") obj) ≡ m.next_hop_uid
      → coerce as_str (find (codes "nh_pid") obj) ≡ m.next_hop_peer_id
      → coerce as_str (find (codes "ph_uid") obj) ≡ m.prev_hop_uid
      → coerce as_str (find (codes "ph_pid") obj) ≡ m.prev_hop_peer_id
      → coerce as_maddrs (find (codes "ph_maddrs") obj) ≡ m.prev_hop_maddrs
      → coerce as_manifest (find (codes "manifest") obj) ≡ m.data_manifest
      → coerce as_nat (find (codes "sample_start") obj) ≡ m.sample_start
      → coerce as_positive (find (codes "sample_stride") obj) ≡ m.sample_stride
      → coerce as_positive (find (codes "sample_rows") obj) ≡ m.sample_rows
      → m.purpose ≡ normal
      → read_fields obj ≡ some m
  unfolding read_fields as_purpose
  read_fields-found obj tid seq kind shard tpid nh_uid nh_pid ph_uid ph_pid ph_maddrs manifest start
        stride rows p =
      rw (tid, read_fields)
        (rw (seq, read_fields)
          (rw (kind, read_fields, as_purpose)
            (rw
              (
                shard,
                tpid,
                nh_uid,
                nh_pid,
                ph_uid,
                ph_pid,
                ph_maddrs,
                manifest,
                start,
                stride,
                rows,
                ← p,
              )
              refl)))

  only_normal : (p : BatchPurpose) → p ≡ normal
  only_normal normal = refl

  at : (key : Text) → find key sent ≡ value_at key (entries m)
  at key = find-dict_of key (entries m)

  text_at :
      (key : Text) (o : Option Text)
      → value_at key (entries m) ≡ or_else (json_str o) none
      → coerce as_str (find key sent) ≡ o
  text_at key o h = ap (coerce as_str) (at key ∙ h ∙ or_else-none (json_str o)) ∙ as_str-json_str o

  read_fields-entries : IsSent m → read_fields sent ≡ some m
  read_fields-entries h =
      read_fields-found sent (at (codes "tid")) (at (codes "seq")) (at (codes "kind"))
        (ap shard_of (at (codes "shard"))) (text_at (codes "tpid") m.trainer_peer_id refl)
        (text_at (codes "nh_uid") m.next_hop_uid refl)
        (text_at (codes "nh_pid") m.next_hop_peer_id refl)
        (text_at (codes "ph_uid") m.prev_hop_uid refl)
        (text_at (codes "ph_pid") m.prev_hop_peer_id refl)
        (ap (coerce as_maddrs) (at (codes "ph_maddrs") ∙ or_else-none (json_strs m.prev_hop_maddrs))
          ∙ as_maddrs-json_strs m.prev_hop_maddrs h.maddrs)
        (ap (coerce as_manifest) (at (codes "manifest") ∙ or_else-none (json_str m.data_manifest))
          ∙ as_manifest-json_str m.data_manifest h.manifest)
        (ap (coerce as_nat) (at (codes "sample_start") ∙ or_else-none (json_nat m.sample_start))
          ∙ as_nat-json_nat m.sample_start)
        (ap (coerce as_positive)
            (at (codes "sample_stride") ∙ or_else-none (json_nat m.sample_stride))
          ∙ as_positive-json_nat m.sample_stride h.stride)
        (ap (coerce as_positive) (at (codes "sample_rows") ∙ or_else-none (json_nat m.sample_rows))
          ∙ as_positive-json_nat m.sample_rows h.rows)
        (only_normal m.purpose)

module _ (dumps : Json → List ℕ) (loads : List ℕ → Option Json) where
  from_bytes-loads :
      (bytes : List ℕ) (obj : Fields)
      → bytes ≢ []
      → loads bytes ≡ some (Json.obj obj)
      → from_bytes dumps loads bytes ≡ read_fields obj
  unfolding from_bytes
  from_bytes-loads [] obj h e = absurd (h refl)
  from_bytes-loads (b ∷ bs) obj h e = rw (e, from_bytes) refl

  -- If the serializer writes some bytes for the dict of `m` and loads them as the same dict, and the
  -- optional fields of `m` hold what `from_bytes` keeps, `from_bytes` of `to_bytes` of `m` is `m`.
  pub from_bytes-to_bytes :
      (m : BatchMetadata)
      → IsSent m
      → to_bytes dumps loads m ≢ []
      → loads (dumps (Json.obj (dict_of (entries m)))) ≡ some (Json.obj (dict_of (entries m)))
      → from_bytes dumps loads (to_bytes dumps loads m) ≡ some m
  unfolding to_bytes
  from_bytes-to_bytes m h some_bytes loaded =
      from_bytes-loads (dumps (Json.obj (sent m))) (sent m) some_bytes loaded
      ∙ read_fields-entries m h
