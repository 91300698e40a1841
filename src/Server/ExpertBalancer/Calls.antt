-- ===== src/Server/ExpertBalancer/Calls.antt =====
-- A balancer over its lifetime: the calls that its clients and its update thread make, in any order.
use agora_test.Prelude.{ℕ, List, [], ◌∷◌, Bool, Option, Text, Outcome, ok, raise, ◌>>=◌}
use agora_test.Server.ExpertBalancer.{
  Env, Config, Balancer, BalancerError, key_error, pinned_unavailable, Reservation,
}
use agora_test.Server.ExpertBalancer.State.{
  add_expert, evict_expert, ban_expert, short_ban, check_and_unban_if_endpoint_changed,
}
use agora_test.Server.ExpertBalancer.Well.{IsWell}
use agora_test.Server.ExpertBalancer.Reserve.{
  Grant, reserved, refused, waits, reserve_another_expert, reserve_specific_expert,
  settle_reservation,
}
use agora_test.Server.ExpertBalancer.Use.{Ending, end_use}
use agora_test.Server.ExpertBalancer.Refresh.{Info, Verifier, update_experts}

-- A call, with the time at which it takes place.
pub data Call (F : Type 0) : Type 0 where
  add_call : F → Text → Text → F → Call F
  evict_call : Text → Call F
  ban_call : F → Text → F → Bool → Call F
  short_ban_call : F → Text → Call F
  unban_call : F → Text → Text → Call F
  reserve_call : F → F → F → List Text → Bool → Call F
  reserve_specific_call : F → F → Text → F → Bool → Call F
  settle_call : F → Reservation F → Bool → Call F
  refresh_call : F → (Text → Option (Info F)) → Option (List (Option (Info F))) → Call F
  end_call : F → Text → Ending → Call F

module _ {F M X B V : Type 0} (env : Env F M X B) (config : Config F) (verifier : Verifier V)
    (index : Text → ℕ) where
  -- the balancer after a call of `reserve_another_expert`
  abbrev after_grant : Grant F (Balancer F M X B) → Balancer F M X B
  after_grant (reserved r s) = s
  after_grant (refused s) = s
  after_grant (waits s) = s

  -- The client of a pinned expert that is not there drops its work.
  abbrev after_specific :
      Balancer F M X B
      → Outcome BalancerError (Option (Reservation F) × Balancer F M X B)
      → Outcome BalancerError (Balancer F M X B)
  after_specific s (ok (r, s')) = ok s'
  after_specific s (raise pinned_unavailable) = ok s
  after_specific s (raise key_error) = raise key_error

  unfoldable pub step : Call F → Balancer F M X B → Outcome BalancerError (Balancer F M X B)
  step (add_call now uid endpoint expiration) s =
      ok (add_expert env config now uid endpoint expiration s)
  step (evict_call uid) s = ok (evict_expert env config uid s)
  step (ban_call now uid duration only) s = ok (ban_expert env config now uid duration only s)
  step (short_ban_call now uid) s = ok (short_ban env config now uid s)
  step (unban_call now uid endpoint) s =
      ok (check_and_unban_if_endpoint_changed env config now uid endpoint s).1
  step (reserve_call now clock size exclude block) s =
      reserve_another_expert env config now clock size exclude block s >>= λ g. ok (after_grant g)
  step (reserve_specific_call now clock uid size strict) s =
      after_specific s (reserve_specific_expert env config now clock uid size strict s)
  step (settle_call clock r success) s = ok (settle_reservation env config clock r success s)
  step (refresh_call now infos response) s =
      ok (update_experts env config verifier index now infos response s)
  step (end_call now uid ending) s = ok (end_use env config now uid ending s)

  unfoldable pub run : List (Call F) → Balancer F M X B → Outcome BalancerError (Balancer F M X B)
  run [] s = ok s
  run (call ∷ calls) s = step call s >>= λ s'. run calls s'

  abbrev pub Succeeds : Outcome BalancerError (Balancer F M X B) → Type 0
  Succeeds (raise e) = ⊥
  Succeeds (ok s) = IsWell env config s
