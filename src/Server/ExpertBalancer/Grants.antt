-- ===== src/Server/ExpertBalancer/Grants.antt =====
-- `reserve_another_expert` and `reserve_specific_expert`, on every branch.
use agora_test.Prelude.{
  List, [], ◌∷◌, Bool, true, false, Option, none, some, ◌≡◌, refl, sym, subst, ◌∙◌, inl, inr, Text,
  Option-cases, lookup, lookup-set_self, Outcome, ok, raise, ◌>>=◌, none-ne-some,
}
use agora_test.Server.ExpertBalancer.{
  Env, Config, Entry, Balancer, BalancerError, key_error, pinned_unavailable, Reservation,
}
use agora_test.Server.ExpertBalancer.Heap.{dec_uid}
use agora_test.Server.ExpertBalancer.HeapOrder.{IsSorted, In-push_all, push_all-IsSorted}
use agora_test.Server.ExpertBalancer.State.{enter}
use agora_test.Server.ExpertBalancer.Links.{rate-IsLinked, map-IsLinked}
use agora_test.Server.ExpertBalancer.Well.{
  mark_successful_batch-IsWell, IsWell, enter-IsWell, update_last_runtime-rows,
}
use agora_test.Server.ExpertBalancer.Reserve.{
  settle_interval, Scan, granted, exhausted, Grant, reserved, refused, waits, nudge, conclude,
  expected_time_taken, reserve_queue_entry_locked, reserve_another_expert, unavailable,
  reserve_specific_expert,
}
use agora_test.Server.ExpertBalancer.Eligible.{
  expected_time_taken-ok, charge-ok, HasRuntime, IsEligible, IsGrant, ScanHolds,
}
use agora_test.Server.ExpertBalancer.Least.{scan-ScanHolds}

module _ {F M X B : Type 0} (env : Env F M X B) (config : Config F) (now size : F) where
  abbrev pub GrantHolds :
      List Text
      → Bool
      → Balancer F M X B
      → Outcome BalancerError (Grant F (Balancer F M X B))
      → Type 0
  GrantHolds exclude block s (raise e) = ⊥
  GrantHolds exclude block s (ok (reserved r s')) =
      IsGrant env config now size exclude s r s' × IsWell env config s'
  GrantHolds exclude block s (ok (refused s')) =
      ((uid : Text) (e : Entry F) → ¬ IsEligible env config now size exclude s uid e)
      × IsWell env config s'
  GrantHolds exclude block s (ok (waits s')) =
      (block ≡ true)
      × ((uid : Text) (e : Entry F) → ¬ IsEligible env config now size exclude s uid e)
      × IsWell env config s'

  nudge-GrantHolds :
      (exclude : List Text) (block : Bool) (s s' : Balancer F M X B)
      → ((uid : Text) (e : Entry F) → ¬ IsEligible env config now size exclude s uid e)
      → IsWell env config s'
      → GrantHolds exclude block s (ok (nudge env config block s'))
  unfolding nudge
  nudge-GrantHolds exclude true s s' nobody w =
      (refl, nobody, record { linked = w.linked; sorted = w.sorted })
  nudge-GrantHolds exclude false s s' nobody w =
      (nobody, record { linked = w.linked; sorted = w.sorted })

  conclude-GrantHolds :
      (exclude : List Text) (block : Bool) (s : Balancer F M X B)
      (found : Outcome BalancerError (Scan F (Balancer F M X B)))
      → ScanHolds env config now size exclude s found
      → GrantHolds exclude block s (found >>= λ x. ok (conclude env config block x))
  unfolding conclude
  conclude-GrantHolds exclude block s (raise e) h = h
  conclude-GrantHolds exclude block s (ok (granted r s')) h = h
  conclude-GrantHolds exclude block s (ok (exhausted [] s')) (nobody, links, empty) =
      nudge-GrantHolds exclude block s s' nobody (record {
        linked = map-IsLinked _ _ s'.uid_to_queue s'.throughputs (λ e there m. absurd m) links;
        sorted = subst (IsSorted env.float) (sym empty) tt;
      })
  conclude-GrantHolds exclude block s (ok (exhausted (e ∷ skipped) s')) (nobody, links, empty) = (
    nobody,
    record {
      linked =
          map-IsLinked _ _ s'.uid_to_queue s'.throughputs
            (λ f there m. In-push_all env.float f (e ∷ skipped) s'.queue m) links;
      sorted =
          push_all-IsSorted env.float (e ∷ skipped) s'.queue
            (subst (IsSorted env.float) (sym empty) tt);
    },
  )

  reserve-GrantHolds :
      (clock : F) (exclude : List Text) (block : Bool) (queue : List (Entry F))
      (s : Balancer F M X B)
      → IsWell env config (record s { queue = queue })
      → GrantHolds exclude block
          (record s { queue = queue })
          (reserve_another_expert env config now clock size exclude block
            (record s { queue = queue }))
  unfolding reserve_another_expert
  reserve-GrantHolds clock exclude block [] s w =
      nudge-GrantHolds exclude block _ _ (λ uid e h. w.linked.present uid e h.current) w
  reserve-GrantHolds clock exclude block (e ∷ queue) s w = conclude-GrantHolds exclude block _ _ (
      scan-ScanHolds env config now size exclude clock (e ∷ queue) [] _ tt
        (map-IsLinked _ _ s.uid_to_queue s.throughputs (λ f there m. inr m) w.linked) w.sorted)

  -- On tables that agree, `reserve_another_expert` raises nothing. What it reserves is an expert that is present, not
  -- excluded and not more loaded than any other such expert, and the expected time is added to its load. It refuses, or
  -- waits if it may block, only where there is no such expert. The tables agree after it.
  pub reserve_another_expert-least :
      (clock : F) (exclude : List Text) (block : Bool) (s : Balancer F M X B)
      → IsWell env config s
      → GrantHolds exclude block s
          (reserve_another_expert env config now clock size exclude block s)
  reserve_another_expert-least clock exclude block s w =
      reserve-GrantHolds clock exclude block s.queue s w

  -- The expert is present and named by `uid_to_queue`, with the entry.
  abbrev pub IsPresent : Balancer F M X B → Text → Entry F → Type 0
  IsPresent s uid e =
      (lookup dec_uid uid s.uid_to_queue ≡ some e)
      × (found : Text × F) × (env.storage.get now uid s.experts ≡ some found)

  abbrev pub SpecificHolds :
      Text
      → Bool
      → Balancer F M X B
      → Outcome BalancerError (Option (Reservation F) × Balancer F M X B)
      → Type 0
  SpecificHolds uid strict s (raise key_error) = ⊥
  SpecificHolds uid strict s (raise pinned_unavailable) =
      (strict ≡ true) × ((e : Entry F) → ¬ IsPresent s uid e)
  SpecificHolds uid strict s (ok (none, s')) =
      (strict ≡ false) × (s' ≡ s) × ((e : Entry F) → ¬ IsPresent s uid e)
  SpecificHolds uid strict s (ok (some r, s')) =
      (r.uid ≡ uid)
      × ((e : Entry F) × (time : F) × IsPresent s uid e
          × (expected_time_taken env config uid size s ≡ ok time)
          × HasRuntime env config uid (env.float.add e.runtime time) s')
      × IsWell env config s'

  unavailable-SpecificHolds :
      (uid : Text) (strict : Bool) (s : Balancer F M X B)
      → ((e : Entry F) → ¬ IsPresent s uid e)
      → SpecificHolds uid strict s (unavailable env config strict s)
  unfolding unavailable
  unavailable-SpecificHolds uid true s absent = (refl, absent)
  unavailable-SpecificHolds uid false s absent = (refl, refl, absent)

  charged-SpecificHolds :
      (clock : F) (uid endpoint : Text) (strict : Bool) (e : Entry F) (s : Balancer F M X B)
      → IsPresent s uid e
      → IsWell env config s
      → SpecificHolds uid strict s (
          reserve_queue_entry_locked env config clock uid endpoint e.runtime size s >>= λ r.
          ok (some r.0, r.1))
  unfolding reserve_queue_entry_locked enter
  charged-SpecificHolds clock uid endpoint strict e s here w =
      let (m, rate) = w.linked.timed uid e here.0 in
      let (time, expected) = expected_time_taken-ok env config uid size m s rate in
      let runtime : F = env.float.add e.runtime time in
      let (rows, same) =
        update_last_runtime-rows env config uid runtime (enter env config uid runtime s) in
      let entered : IsWell env config (enter env config uid runtime s) =
        enter-IsWell env config _ uid runtime m s rate (λ f h. h) w.linked w.sorted in
      rw (charge-ok env config uid e.runtime size time s expected, same)
        (
          refl,
          (e, time, here, expected, (_, lookup-set_self dec_uid uid _ s.uid_to_queue, refl)),
          record { linked = entered.linked; sorted = entered.sorted },
        )

  -- On tables that agree, `reserve_specific_expert` reserves the expert if it is present and queued, and adds the
  -- expected time to its load; else it changes nothing, and raises exactly if `strict`. It raises no other error.
  pub reserve_specific_expert-charges :
      (clock : F) (uid : Text) (strict : Bool) (s : Balancer F M X B)
      → IsWell env config s
      → SpecificHolds uid strict s (reserve_specific_expert env config now clock uid size strict s)
  unfolding reserve_specific_expert
  reserve_specific_expert-charges clock uid strict s w =
      elim (Option-cases (env.storage.get now uid s.experts)) [
        | inl gone ↦
            rw (gone, reserve_specific_expert)
              (unavailable-SpecificHolds uid strict s (λ e h. none-ne-some _ (sym gone ∙ h.2)))
        | inr (found, live) ↦ elim (Option-cases (lookup dec_uid uid s.uid_to_queue)) [
          | inl missing ↦
              rw (live, reserve_specific_expert, missing)
                (unavailable-SpecificHolds uid strict s (λ e h. none-ne-some _ (sym missing ∙ h.0)))
          | inr (e, there) ↦
              rw (live, reserve_specific_expert, there)
                (charged-SpecificHolds clock uid found.0 strict e s (there, found, live) w)
        ]
      ]

module _ {F M X B : Type 0} (env : Env F M X B) (config : Config F) where
  pub settle_interval-IsWell :
      (uid : Text) (size interval : F) (s : Balancer F M X B)
      → IsWell env config s
      → IsWell env config (settle_interval env config uid size interval s)
  unfolding settle_interval
  settle_interval-IsWell uid size interval s w =
      elim (Option-cases (lookup dec_uid uid s.throughputs)) [
        | inl missing ↦ rw (missing, settle_interval) w
        | inr (m, there) ↦
            rw (there, settle_interval)
              (mark_successful_batch-IsWell env config uid _ (record {
                linked = rate-IsLinked _ uid _ s.uid_to_queue s.throughputs w.linked;
                sorted = w.sorted;
              }))
      ]
