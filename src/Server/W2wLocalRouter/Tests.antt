-- ===== src/Server/W2wLocalRouter/Tests.antt =====
-- A router over the sample balancer, to which one member is published.
use agora_test.Prelude.{ℕ, List, [], ◌∷◌, false, Option, none, some, refl, inl, Text, codes, lookup}
use agora_test.Server.ExpertBalancer.{Member}
use agora_test.Server.ExpertBalancer.Reserve.{excluded}
use agora_test.Server.ExpertBalancer.Sample.{env, config}
use agora_test.Server.W2wLocalRouter.{Router, has_seen, initial, resolve}
use agora_test.Server.W2wLocalRouter.Events.{
  Event, refreshed, posted, resolves, fails, asks, handle_all,
}
use agora_test.Server.W2wLocalRouter.Polls.{IsAccounted, initial-IsAccounted}
use agora_test.Server.W2wLocalRouter.Leases.{Accounts, handle_all-IsAccounted}
use agora_test.Server.W2wLocalRouter.Hops.{HopHolds, resolve-hop}
use agora_test.Server.W2wLocalRouter.Sample.{timed-IsLasting}

abbrev tail : Member ℕ
tail = record { uid = codes "tail.0.7"; endpoint = codes "peer"; expiration = 100 }

abbrev events : List (Event ℕ)
events =
    refreshed (some (tail ∷ []))
    ∷ resolves 20 5 (codes "head.0.1") 1 4 []
    ∷ posted 8 (record { origin_uid = codes "head.0.1"; seq = 1; uid = codes "tail.0.7" })
    ∷ resolves 30 9 (codes "head.0.1") 2 4 []
    ∷ fails 31 10 (record { origin_uid = codes "head.0.1"; seq = 2; uid = codes "tail.0.7" }) false
    ∷ refreshed none
    ∷ asks 50
    ∷ []

handle_all-IsAccounted_example :
    Accounts env config 60 2 1 (handle_all env config 60 events (initial env config 60 0))
handle_all-IsAccounted_example = handle_all-IsAccounted env config 60 events 0

abbrev informed : Router ℕ ℕ (List (Text × (Text × ℕ))) (List (Text × (Option Text × ℕ)))
informed = record (initial env config 60 0) {
  membership = record { version = 1; members = tail ∷ [] };
}

informed-IsAccounted : IsAccounted env config 60 0 0 informed
informed-IsAccounted =
    let a = initial-IsAccounted env config 60 0 in
    record {
      well = a.well;
      unique = a.unique;
      named = a.named;
      counted = a.counted;
      answered = a.answered;
      released = a.released;
    }

resolve-hop_example :
    HopHolds env config 60 timed-IsLasting timed-IsLasting 20 5
      (codes "head.0.1")
      1
      []
      (resolve env config 60 20 5 (codes "head.0.1") 1 4 [] informed)
unfolding lookup has_seen excluded
resolve-hop_example =
    resolve-hop env config 60 timed-IsLasting timed-IsLasting 20 0 0 5 (codes "head.0.1") 1 4 []
      tail informed informed-IsAccounted refl (inl refl) refl refl refl
