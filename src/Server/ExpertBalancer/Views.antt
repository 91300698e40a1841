-- ===== src/Server/ExpertBalancer/Views.antt =====
-- The context managers choose as the reservations do, and `peek_least_loaded` finds the same load.
use agora_test.Prelude.{
  ◌+◌, ◌-◌, List, [], ◌∷◌, true, false, none, some, some-injective, none-ne-some, ◌≡◌, refl, ap,
  sym, ◌∙◌, inl, inr, Text, Bool-cases, Option-cases, if◌then◌else◌, leb, lookup, set, IsDict,
  remove-IsDict, lookup-remove_self, Outcome, ok, raise, ◌>>=◌,
}
use agora_test.Server.ExpertBalancer.{Env, Config, Entry, Balancer, BalancerError, Reservation}
use agora_test.Server.ExpertBalancer.Heap.{dec_uid, push_all}
use agora_test.Server.ExpertBalancer.State.{drop_uid, enter, warmed, mark_successful_batch}
use agora_test.Server.ExpertBalancer.Well.{IsWell}
use agora_test.Server.ExpertBalancer.Reserve.{
  Scan, granted, Grant, reserved, refused, waits, excluded, base_expected_time, penalized,
  expected_time_taken, charge, reserve_queue_entry_locked, is_current, scan, nudge, conclude,
  reserve_another_expert,
}
use agora_test.Server.ExpertBalancer.Use.{
  Choice, chosen, awaits, new_runtime, take, choose, use_another_expert, count_batch,
}

-- What a context manager makes of a grant.
abbrev pub as_choice : {F S : Type 0} → Grant F S → Choice S
as_choice (reserved r s) = chosen r.uid (some r.peer_id) s
as_choice (refused s) = awaits s
as_choice (waits s) = awaits s

-- The dict is as it was when a key is given the value that it has.
set-lookup :
    {V : Type 0} (k : Text) (v : V) (d : List (Text × V))
    → lookup dec_uid k d ≡ some v
    → set dec_uid k v d ≡ d
unfolding lookup set
set-lookup k v [] h = absurd (none-ne-some _ h)
set-lookup k v (e ∷ d) h =
    elim (dec_uid e.0 k)
        as (λ x.
          elim x [ yes same ↦ some e.1 | no other ↦ lookup dec_uid k d ] ≡ some v
          → elim x [ yes same ↦ (k, v) ∷ d | no other ↦ e ∷ set dec_uid k v d ] ≡ (e ∷ d)) [
            | yes same ↦ λ g. ap (λ x. x ∷ d) (λ i. (sym same i, sym (some-injective _ _ g) i))
            | no other ↦ λ g. ap (λ x. e ∷ x) (set-lookup k v d g)
          ]
      h

module _ {F M X B : Type 0} (env : Env F M X B) (config : Config F) where
  take-charge :
      (uid : Text) (runtime size : F) (s : Balancer F M X B)
      → take env config uid runtime size s ≡ charge env config uid runtime size s
  unfolding take charge expected_time_taken penalized base_expected_time new_runtime enter
  take-charge uid runtime size s = elim (Option-cases (lookup dec_uid uid s.throughputs)) [
    | inl missing ↦ rw (missing, take, charge, expected_time_taken) refl
    | inr (m, there) ↦ rw (there, take, charge, expected_time_taken) refl
  ]

  pub count_batch-mark :
      (uid : Text) (s : Balancer F M X B)
      → count_batch env config uid s ≡ mark_successful_batch env config uid s
  unfolding count_batch mark_successful_batch warmed
  count_batch-mark uid s = elim (Option-cases (lookup dec_uid uid s.warming_up)) [
    | inl missing ↦ rw (missing, count_batch, mark_successful_batch) refl
    | inr (row, there) ↦ elim (Option-cases row.joined) [
      | inl over ↦
          rw (there, count_batch, mark_successful_batch, over, warmed)
            (ap
              (λ rows. record s {
                global_batch_counter = s.global_batch_counter + 1;
                warming_up = rows;
              })
              (sym (set-lookup uid row s.warming_up there)))
      | inr (joined, still) ↦
          rw (there, count_batch, mark_successful_batch, still, warmed)
            (elim (leb config.warmup_batches (s.global_batch_counter + 1 - joined))
              as (λ b.
                (if b
                  then record s {
                    global_batch_counter = s.global_batch_counter + 1;
                    warming_up = set dec_uid uid (record row { joined = none }) s.warming_up;
                  }
                  else record s { global_batch_counter = s.global_batch_counter + 1 })
                ≡ record s {
                  global_batch_counter = s.global_batch_counter + 1;
                  warming_up =
                      set dec_uid uid (if b then record row { joined = none } else row)
                        s.warming_up;
                }) [
                  | true ↦ refl
                  | false ↦
                      ap
                        (λ rows. record s {
                          global_batch_counter = s.global_batch_counter + 1;
                          warming_up = rows;
                        })
                        (sym (set-lookup uid row s.warming_up there))
                ])
    ]
  ]

  stale-drop_uid :
      (e : Entry F) (s : Balancer F M X B)
      → IsDict dec_uid s.uid_to_queue
      → is_current env config e (drop_uid env config e.uid s) ≡ false
  unfolding is_current drop_uid
  stale-drop_uid e s u = rw (lookup-remove_self dec_uid e.uid s.uid_to_queue u, is_current) refl

  -- What is made of the result of a scan.
  abbrev choice_of :
      Outcome BalancerError (Scan F (Balancer F M X B))
      → Outcome BalancerError (Choice (Balancer F M X B))
  choice_of found = found >>= λ x. ok (as_choice (conclude env config true x))

  charge-choice :
      (clock size : F) (e : Entry F) (endpoint : Text) (s : Balancer F M X B)
      → (charge env config e.uid e.runtime size s >>= λ taken.
          ok (chosen e.uid (some endpoint) taken))
        ≡ choice_of (
            reserve_queue_entry_locked env config clock e.uid endpoint e.runtime size s >>= λ r.
            ok (granted r.0 (record r.1 { queue = push_all env.float [] r.1.queue })))
  unfolding reserve_queue_entry_locked conclude push_all
  charge-choice clock size e endpoint s =
      let pair : Balancer F M X B → Outcome BalancerError (Reservation F × Balancer F M X B) =
        λ charged. ok (
          record { uid = e.uid; peer_id = endpoint; task_size = size; started_at = clock },
          charged,
        ) in
      elim (charge env config e.uid e.runtime size s)
        as (λ c.
          (c >>= λ taken. ok (chosen e.uid (some endpoint) taken))
          ≡ choice_of (
              (c >>= pair) >>= λ r.
              ok (granted r.0 (record r.1 { queue = push_all env.float [] r.1.queue })))) [
                | ok s' ↦ refl
                | raise x ↦ refl
              ]

  choose-scan :
      (now clock size : F) (queue : List (Entry F)) (s : Balancer F M X B)
      → IsDict dec_uid s.uid_to_queue
      → choose env config now size queue s
        ≡ choice_of (scan env config now clock size [] queue [] s)
  unfolding choose scan conclude nudge excluded
  choose-scan now clock size [] s u = refl
  choose-scan now clock size (e ∷ queue) s u =
      elim (Option-cases (env.storage.get now e.uid s.experts)) [
        | inl gone ↦
            rw (gone, choose, scan, stale-drop_uid e s u)
              (choose-scan now clock size queue (drop_uid env config e.uid s)
                (unfold drop_uid in (remove-IsDict dec_uid e.uid s.uid_to_queue u).1))
        | inr (found, live) ↦ elim (Bool-cases (is_current env config e s)) [
          | inr stale ↦ rw (live, choose, scan, stale) (choose-scan now clock size queue s u)
          | inl cur ↦
              rw (live, choose, scan, cur, take-charge)
                (charge-choice clock size e found.0 (record s { queue = queue }))
        ]
      ]

  use-reserve :
      (now clock size : F) (queue : List (Entry F)) (s : Balancer F M X B)
      → IsDict dec_uid s.uid_to_queue
      → use_another_expert env config now size (record s { queue = queue }) ≡ (
          reserve_another_expert env config now clock size [] true (record s { queue = queue })
          >>= λ g. ok (as_choice g))
  unfolding use_another_expert reserve_another_expert choose nudge
  use-reserve now clock size [] s u = refl
  use-reserve now clock size (e ∷ queue) s u =
      choose-scan now clock size (e ∷ queue) (record s { queue = e ∷ queue }) u
      ∙ elim (scan env config now clock size [] (e ∷ queue) [] (record s { queue = e ∷ queue }))
          as (λ found.
            choice_of found
            ≡ ((found >>= λ x. ok (conclude env config true x)) >>= λ g. ok (as_choice g))) [
              | ok x ↦ refl
              | raise x ↦ refl
            ]

  -- On tables that agree, `use_another_expert` chooses as a reservation does that excludes no expert and may block: the
  -- same expert, endpoint, state, wait or error. The end of its body counts the batch as `_mark_successful_batch` does.
  pub use_another_expert-reserve :
      (now clock size : F) (s : Balancer F M X B)
      → IsWell env config s
      → (use_another_expert env config now size s
          ≡ (reserve_another_expert env config now clock size [] true s >>= λ g. ok (as_choice g)))
        × ((uid : Text) (s' : Balancer F M X B)
            → count_batch env config uid s' ≡ mark_successful_batch env config uid s')
  use_another_expert-reserve now clock size s w =
      (use-reserve now clock size s.queue s w.linked.unique, count_batch-mark)
