-- ===== src/Server/ExpertBalancer/Tests.antt =====
-- A balancer of two experts with times in whole seconds, where a storage is a dict that is searched for what has not
-- expired.
use agora_test.Prelude.{
  ℕ, List, [], ◌∷◌, true, false, Option, none, ◌≡◌, ◌≢◌, refl, Text, codes, lookup, set, ℕ_discrete,
  ok, ◌>>=◌, arith,
}
use agora_test.Server.ExpertBalancer.{Balancer}
use agora_test.Server.ExpertBalancer.Sample.{env, config, pair, pair-IsWell, unexpired-listed}
use agora_test.Server.ExpertBalancer.State.{
  add_expert, add_new, enter, ban_expert, mark_successful_batch,
}
use agora_test.Server.ExpertBalancer.Reserve.{
  reserve_another_expert, reserve_specific_expert, peek_least_loaded,
}
use agora_test.Server.ExpertBalancer.Use.{use_another_expert, count_batch}
use agora_test.Server.ExpertBalancer.Refresh.{Verifier}
use agora_test.Server.ExpertBalancer.Grants.{
  GrantHolds, reserve_another_expert-least, SpecificHolds, reserve_specific_expert-charges,
}
use agora_test.Server.ExpertBalancer.Views.{as_choice, use_another_expert-reserve}
use agora_test.Server.ExpertBalancer.Calls.{
  Call, add_call, short_ban_call, reserve_call, reserve_specific_call, refresh_call,
}
use agora_test.Server.ExpertBalancer.Peek.{PeekHolds, peek_least_loaded-least}

reserve_another_expert-least_example :
    GrantHolds env config 20 5
      (codes "a" ∷ [])
      false
      pair
      (reserve_another_expert env config 20 20 5 (codes "a" ∷ []) false pair)
reserve_another_expert-least_example =
    reserve_another_expert-least env config 20 5 20 (codes "a" ∷ []) false pair pair-IsWell

reserve_specific_expert-charges_example :
    SpecificHolds env config 20 5
      (codes "b")
      true
      pair
      (reserve_specific_expert env config 20 20 (codes "b") 5 true pair)
reserve_specific_expert-charges_example =
    reserve_specific_expert-charges env config 20 5 20 (codes "b") true pair pair-IsWell

use_another_expert-reserve_example :
    (use_another_expert env config 20 5 pair
      ≡ (reserve_another_expert env config 20 20 5 [] true pair >>= λ g. ok (as_choice g)))
    × ((uid : Text) (s' : Balancer ℕ ℕ (List (Text × (Text × ℕ))) (List (Text × (Option Text × ℕ))))
        → count_batch env config uid s' ≡ mark_successful_batch env config uid s')
use_another_expert-reserve_example = use_another_expert-reserve env config 20 20 5 pair pair-IsWell

abbrev calls : List (Call ℕ)
calls =
    add_call 10 (codes "a") (codes "peer a") 100
    ∷ reserve_call 20 20 5 [] false
    ∷ short_ban_call 30 (codes "a")
    ∷ reserve_specific_call 40 40 (codes "a") 5 true
    ∷ refresh_call 50 (λ uid. none) none
    ∷ []

abbrev no_arguments : Verifier ℕ
no_arguments = record { dec_value = ℕ_discrete; expected = []; model_args = λ uid. none }

abbrev Both : Type 0
Both = Balancer ℕ ℕ (List (Text × (Text × ℕ))) (List (Text × (Option Text × ℕ)))

abbrev banned : Both
banned = ban_expert env config 20 (codes "a") 60 true pair

b-ne-a : codes "b" ≢ codes "a"
b-ne-a same = ground arith

peek_least_loaded-least_example :
    PeekHolds env config 20 pair (peek_least_loaded env config 20 pair)
unfolding add_expert add_new enter lookup set
peek_least_loaded-least_example = peek_least_loaded-least env config 20 pair (record {
  shown = (refl, (refl, tt));
  listed = λ k. unexpired-listed 20 k pair.experts ((b-ne-a, tt), (tt, tt));
})
