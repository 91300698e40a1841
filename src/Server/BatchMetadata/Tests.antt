-- ===== src/Server/BatchMetadata/Tests.antt =====
-- A microbatch's metadata through the serializer.
use agora_test.Json.{Json, Fields, dict_of, find}
use agora_test.Prelude.{
  ℕ, List, [], ◌∷◌, Option, none, some, ◌≡◌, refl, ◌≢◌, codes, pos, negsuc, arith,
}
use agora_test.Server.BatchMetadata.{
  BatchMetadata, normal, entries, to_bytes, from_bytes, read_fields,
}
use agora_test.Server.BatchMetadata.RoundTrip.{IsSent, from_bytes-to_bytes}

abbrev batch : BatchMetadata
batch = record {
  trainer_uid = Json.str (codes "t0");
  seq = Json.int (pos 7);
  data_shard = Json.int (negsuc 0);
  purpose = normal;
  trainer_peer_id = none;
  next_hop_uid = some (codes "body1.0.3");
  next_hop_peer_id = some (codes "Qm");
  prev_hop_uid = none;
  prev_hop_peer_id = none;
  prev_hop_maddrs = some (codes "/ip4" ∷ []);
  data_manifest = none;
  sample_start = some 0;
  sample_stride = some 4;
  sample_rows = some 2;
}

-- A serializer of this one dict.
abbrev dumps : Json → List ℕ
dumps v = 1 ∷ []

abbrev loads : List ℕ → Option Json
loads bytes = some (Json.obj (dict_of (entries batch)))

batch-IsSent : IsSent batch
batch-IsSent = record { manifest = tt; maddrs = λ e. cc; stride = omega arith; rows = omega arith }

some_bytes : to_bytes dumps loads batch ≢ []
unfolding to_bytes
some_bytes e = cc

from_bytes-to_bytes_example : from_bytes dumps loads (to_bytes dumps loads batch) ≡ some batch
from_bytes-to_bytes_example = from_bytes-to_bytes dumps loads batch batch-IsSent some_bytes refl

no_version :
    from_bytes dumps
      (λ bytes. some (Json.obj (Fields.field (codes "tid") Json.null Fields.end)))
      (1 ∷ [])
    ≡ none
unfolding from_bytes read_fields find
no_version = refl
