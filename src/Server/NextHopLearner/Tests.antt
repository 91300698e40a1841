-- ===== src/Server/NextHopLearner/Tests.antt =====
-- Three calls of `learn`: a complete hop, a partial one, and bytes that do not parse.
use agora_test.Json.{Json}
use agora_test.Prelude.{
  ℕ, zero, suc, ◌+◌, ◌*◌, ◌/◌, ◌≤◌, List, [], ◌∷◌, Option, none, some, ◌≡◌, refl, codes, pos,
  negsuc, length, Text,
}
use agora_test.Server.BatchMetadata.{BatchMetadata, normal}
use agora_test.Server.NextHopLearner.{
  fresh, learn_all, learn, learn_next, learn_prev, on_next_learned, on_prev_learned, on_parse_error,
}
use agora_test.Server.NextHopLearner.Sampling.{events, learn_all-lines}

abbrev hop : Option Text → Option Text → BatchMetadata
hop uid peer = record {
  trainer_uid = Json.str (codes "t0");
  seq = Json.int (pos 7);
  data_shard = Json.int (negsuc 0);
  purpose = normal;
  trainer_peer_id = none;
  next_hop_uid = uid;
  next_hop_peer_id = peer;
  prev_hop_uid = none;
  prev_hop_peer_id = some (codes "Qp");
  prev_hop_maddrs = none;
  data_manifest = none;
  sample_start = none;
  sample_stride = none;
  sample_rows = none;
}

abbrev parse : List ℕ → Option BatchMetadata
parse (zero ∷ []) = some (hop (some (codes "w1")) (some (codes "Qm")))
parse (suc zero ∷ []) = some (hop (some (codes "w1")) none)
parse bytes = none

abbrev calls : List (Text × List ℕ)
calls = (codes "w0", 0 ∷ []) ∷ (codes "w0", 1 ∷ []) ∷ (codes "w0", 2 ∷ []) ∷ (codes "w0", []) ∷ []

calls_done :
    learn_all parse calls fresh
    ≡ record { next_hops_learned = 1; prev_hops_learned = 0; parse_errors = 3; log = [] }
unfolding learn_all learn learn_next learn_prev on_next_learned on_prev_learned on_parse_error
calls_done = refl

learn_all-lines_example :
    (length (learn_all parse calls fresh).log
      ≡ (learn_all parse calls fresh).next_hops_learned / 50
        + (learn_all parse calls fresh).prev_hops_learned / 50
        + (learn_all parse calls fresh).parse_errors / 50)
    × (events (learn_all parse calls fresh) ≤ 2 * length calls)
learn_all-lines_example = learn_all-lines parse calls
