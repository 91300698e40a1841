-- ===== src/Server/BatchMetadata.antt =====
-- `BatchMetadata` of agora_server/src/agora_server/core/batch_metadata.py. `MSGPackSerializer` is a
-- parameter: `dumps`, and `loads`, which raises on some bytes.
pub mod RoundTrip
mod Tests
use agora_test.Json
use agora_test.Json.{Json, Items, Fields, as_nat, as_positive, as_str, find, dict_of}
use agora_test.Prelude.{
  ℕ, zero, suc, List, [], ◌∷◌, Bool, true, false, ◌&&◌, ◌||◌, Option, none, some, leb, ◌==◌,
  if◌then◌else◌, length, Text, codes, ℤ, pos, negsuc,
}

pub data BatchPurpose : Type 0 where
  normal : BatchPurpose

-- The first three fields hold what the dict has: `from_bytes` does not look at their types.
pub record BatchMetadata : Type 0 where
  pub trainer_uid : Json
  pub seq : Json
  pub data_shard : Json
  pub purpose : BatchPurpose
  pub trainer_peer_id : Option Text
  pub next_hop_uid : Option Text
  pub next_hop_peer_id : Option Text
  pub prev_hop_uid : Option Text
  pub prev_hop_peer_id : Option Text
  pub prev_hop_maddrs : Option (List Text)
  pub data_manifest : Option Text
  pub sample_start : Option ℕ
  pub sample_stride : Option ℕ
  pub sample_rows : Option ℕ

-- The value of a key, for a coercion of what `obj.get` returns.
abbrev pub coerce : {A : Type 0} → (Json → Option A) → Option Json → Option A
coerce f none = none
coerce f (some v) = f v

abbrev is_hex : Text → Bool
is_hex [] = true
is_hex (c ∷ cs) = ((leb b'0' c && leb c b'9') || (leb b'a' c && leb c b'f')) && is_hex cs

abbrev pub is_manifest : Text → Bool
is_manifest s = length s == 64 && is_hex s

-- `_as_manifest_or_none`
unfoldable pub as_manifest : Json → Option Text
as_manifest (Json.str s) = if is_manifest s then some s else none
as_manifest v = none

unfoldable pub as_strs : Items → Option (List Text)
as_strs Items.nil = some []
as_strs (Items.cons (Json.str s) rest) = elim (as_strs rest) [
  | none ↦ none
  | some ss ↦ some (s ∷ ss)
]
as_strs (Items.cons v rest) = none

-- `_as_maddrs_or_none`
unfoldable pub as_maddrs : Json → Option (List Text)
as_maddrs (Json.arr vs) = elim (as_strs vs) [
  | none ↦ none
  | some [] ↦ none
  | some (s ∷ ss) ↦ some (s ∷ ss)
]
as_maddrs v = none

-- `BatchPurpose(obj.get("kind", 0))`: `0`, and `False` and `0.0`, which equal it
unfoldable pub as_purpose : Option Json → Option BatchPurpose
as_purpose none = some BatchPurpose.normal
as_purpose (some (Json.int (pos zero))) = some BatchPurpose.normal
as_purpose (some (Json.bool false)) = some BatchPurpose.normal
as_purpose (some (Json.float true)) = some BatchPurpose.normal
as_purpose (some v) = none

abbrev pub list_of : List Text → Items
list_of [] = Items.nil
list_of (s ∷ ss) = Items.cons (Json.str s) (list_of ss)

abbrev pub json_str : Option Text → Option Json
json_str none = none
json_str (some s) = some (Json.str s)

abbrev pub json_strs : Option (List Text) → Option Json
json_strs none = none
json_strs (some ss) = some (Json.arr (list_of ss))

abbrev pub json_nat : Option ℕ → Option Json
json_nat none = none
json_nat (some n) = some (Json.int (pos n))

-- `obj` of `to_bytes`
abbrev pub entries : BatchMetadata → List (Text × Option Json)
entries m =
    (codes "v", some (Json.int (pos 1)))
    ∷ (codes "tid", some m.trainer_uid)
    ∷ (codes "seq", some m.seq)
    ∷ (codes "shard", some m.data_shard)
    ∷ (codes "kind", some (Json.int (pos 0)))
    ∷ (codes "nh_uid", json_str m.next_hop_uid)
    ∷ (codes "nh_pid", json_str m.next_hop_peer_id)
    ∷ (codes "tpid", json_str m.trainer_peer_id)
    ∷ (codes "ph_uid", json_str m.prev_hop_uid)
    ∷ (codes "ph_pid", json_str m.prev_hop_peer_id)
    ∷ (codes "ph_maddrs", json_strs m.prev_hop_maddrs)
    ∷ (codes "manifest", json_str m.data_manifest)
    ∷ (codes "sample_start", json_nat m.sample_start)
    ∷ (codes "sample_stride", json_nat m.sample_stride)
    ∷ (codes "sample_rows", json_nat m.sample_rows)
    ∷ []

-- `obj.get("shard", -1)`
abbrev pub shard_of : Option Json → Json
shard_of none = Json.int (negsuc 0)
shard_of (some v) = v

-- The call of `cls` in `from_bytes`; a missing "tid" or "seq" or a bad "kind" raises there.
unfoldable pub read_fields : Fields → Option BatchMetadata
read_fields obj = elim (find (codes "tid") obj) [
  | none ↦ none
  | some tid ↦ elim (find (codes "seq") obj) [
    | none ↦ none
    | some seq ↦ elim (as_purpose (find (codes "kind") obj)) [
      | none ↦ none
      | some purpose ↦ some (record {
        trainer_uid = tid;
        seq = seq;
        data_shard = shard_of (find (codes "shard") obj);
        purpose = purpose;
        trainer_peer_id = coerce as_str (find (codes "tpid") obj);
        next_hop_uid = coerce as_str (find (codes "nh_uid") obj);
        next_hop_peer_id = coerce as_str (find (codes "nh_pid") obj);
        prev_hop_uid = coerce as_str (find (codes "ph_uid") obj);
        prev_hop_peer_id = coerce as_str (find (codes "ph_pid") obj);
        prev_hop_maddrs = coerce as_maddrs (find (codes "ph_maddrs") obj);
        data_manifest = coerce as_manifest (find (codes "manifest") obj);
        sample_start = coerce as_nat (find (codes "sample_start") obj);
        sample_stride = coerce as_positive (find (codes "sample_stride") obj);
        sample_rows = coerce as_positive (find (codes "sample_rows") obj);
      })
    ]
  ]
]

module _ (dumps : Json → List ℕ) (loads : List ℕ → Option Json) where
  unfoldable pub to_bytes : BatchMetadata → List ℕ
  to_bytes m = dumps (Json.obj (dict_of (entries m)))

  unfoldable pub from_bytes : List ℕ → Option BatchMetadata
  from_bytes [] = none
  from_bytes (b ∷ bs) = elim (loads (b ∷ bs)) [
    | none ↦ none
    | some (Json.obj obj) ↦ read_fields obj
    | some v ↦ none
  ]

  -- `ActivationCache.key`
  unfoldable pub key : Text → List ℕ → Option (Text × Json × Json)
  key uid [] = none
  key uid (b ∷ bs) = elim (from_bytes (b ∷ bs)) [
    | none ↦ none
    | some md ↦ some (uid, md.trainer_uid, md.seq)
  ]
