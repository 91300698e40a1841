-- ===== src/Server/ExpertBalancer/Reserve.antt =====
-- The reservations of `ExpertBalancer`, and its two read-only views.
use agora_test.Prelude.{
  List, [], ◌∷◌, ◌++◌, Bool, true, false, ◌||◌, Option, none, some, ◌==◌, if◌then◌else◌, Text,
  text_eq, lookup, set, Outcome, ok, raise, require_some, ◌>>=◌,
}
use agora_test.Server.ExpertBalancer.{
  Env, Config, Entry, Reservation, Balancer, BalancerError, key_error, pinned_unavailable,
}
use agora_test.Server.ExpertBalancer.Heap.{dec_uid, same_entry, push_all}
use agora_test.Server.ExpertBalancer.State.{
  enter, drop_uid, is_expert_warming_up, update_last_runtime, mark_successful_batch,
}

-- How a scan of the queue ends: with a reservation, or after the last entry, having skipped some.
pub data Scan (F S : Type 0) : Type 0 where
  granted : Reservation F → S → Scan F S
  exhausted : List (Entry F) → S → Scan F S

-- How `reserve_another_expert` ends; where it blocks, it waits for the next update and starts again.
pub data Grant (F S : Type 0) : Type 0 where
  reserved : Reservation F → S → Grant F S
  refused : S → Grant F S
  waits : S → Grant F S

-- `uid in exclude_uids`
unfoldable pub excluded : List Text → Text → Bool
excluded [] uid = false
excluded (x ∷ xs) uid = text_eq x uid || excluded xs uid

module _ {F M X B : Type 0} (env : Env F M X B) (config : Config F) where
  -- the seconds that a throughput tells, before the penalty
  unfoldable pub base_expected_time : F → M → F
  base_expected_time task_size throughput =
      if env.ema.num_updates throughput == 0
      then env.float.mul config.initial_throughput task_size
      else env.float.div task_size (env.ema.samples_per_second throughput)

  -- the same, with the penalty of an expert that is warming up
  unfoldable pub penalized : Text → F → Balancer F M X B → F
  penalized uid time s =
      if is_expert_warming_up env config uid s
      then env.float.mul time config.warmup_penalty_multiplier
      else time

  unfoldable pub expected_time_taken : Text → F → Balancer F M X B → Outcome BalancerError F
  expected_time_taken uid task_size s =
      require_some (lookup dec_uid uid s.throughputs) key_error >>= λ throughput.
      ok (penalized uid (base_expected_time task_size throughput) s)

  -- the charge that `_reserve_queue_entry_locked` makes
  unfoldable pub charge : Text → F → F → Balancer F M X B → Outcome BalancerError (Balancer F M X B)
  charge uid runtime task_size s = expected_time_taken uid task_size s >>= λ time. ok (
      update_last_runtime env config uid (env.float.add runtime time)
        (enter env config uid (env.float.add runtime time) s))

  unfoldable pub reserve_queue_entry_locked :
      F
      → Text
      → Text
      → F
      → F
      → Balancer F M X B
      → Outcome BalancerError (Reservation F × Balancer F M X B)
  reserve_queue_entry_locked clock uid endpoint runtime task_size s =
      charge uid runtime task_size s >>= λ charged.
      ok (
        record { uid = uid; peer_id = endpoint; task_size = task_size; started_at = clock },
        charged,
      )

  -- `self.uid_to_queue.get(uid) == heap_entry`
  unfoldable pub is_current : Entry F → Balancer F M X B → Bool
  is_current e s = elim (lookup dec_uid e.uid s.uid_to_queue) [
    | none ↦ false
    | some entry ↦ same_entry env.float entry e
  ]

  -- The inner loop of `reserve_another_expert`, which takes the entries off the queue.
  unfoldable pub scan :
      F
      → F
      → F
      → List Text
      → List (Entry F)
      → List (Entry F)
      → Balancer F M X B
      → Outcome BalancerError (Scan F (Balancer F M X B))
  scan now clock task_size exclude [] skipped s = ok (exhausted skipped (record s { queue = [] }))
  scan now clock task_size exclude (e ∷ queue) skipped s =
      elim (env.storage.get now e.uid s.experts) [
        | none ↦ scan now clock task_size exclude queue skipped (drop_uid env config e.uid s)
        | some found ↦ elim (is_current e s) [
          | false ↦ scan now clock task_size exclude queue skipped s
          | true ↦ elim (excluded exclude e.uid) [
            | true ↦ scan now clock task_size exclude queue (skipped ++ (e ∷ [])) s
            | false ↦
                reserve_queue_entry_locked clock e.uid found.0 e.runtime task_size
                  (record s { queue = queue })
                >>= λ r.
                    ok (granted r.0 (record r.1 { queue = push_all env.float skipped r.1.queue }))
          ]
        ]
      ]

  -- `self.update_trigger.set()`, and where the call blocks, `self.update_finished.clear()` before it
  unfoldable pub nudge : Bool → Balancer F M X B → Grant F (Balancer F M X B)
  nudge block s =
      if block
      then waits (record s { update_finished = false; update_trigger = true })
      else refused (record s { update_trigger = true })

  -- what follows the inner loop
  unfoldable pub conclude : Bool → Scan F (Balancer F M X B) → Grant F (Balancer F M X B)
  conclude block (granted r s) = reserved r s
  conclude block (exhausted [] s) = nudge block s
  conclude block (exhausted (e ∷ skipped) s) =
      refused (record s { queue = push_all env.float (e ∷ skipped) s.queue })

  unfoldable pub reserve_another_expert :
      F
      → F
      → F
      → List Text
      → Bool
      → Balancer F M X B
      → Outcome BalancerError (Grant F (Balancer F M X B))
  reserve_another_expert now clock task_size exclude block s = elim s.queue [
    | [] ↦ ok (nudge block s)
    | e ∷ queue ↦
        scan now clock task_size exclude (e ∷ queue) [] s >>= λ found. ok (conclude block found)
  ]

  -- what `strict` makes of an expert that is not there
  unfoldable pub unavailable :
      Bool → Balancer F M X B → Outcome BalancerError (Option (Reservation F) × Balancer F M X B)
  unavailable strict s = if strict then raise pinned_unavailable else ok (none, s)

  unfoldable pub reserve_specific_expert :
      F
      → F
      → Text
      → F
      → Bool
      → Balancer F M X B
      → Outcome BalancerError (Option (Reservation F) × Balancer F M X B)
  reserve_specific_expert now clock uid task_size strict s =
      elim (env.storage.get now uid s.experts) [
        | none ↦ unavailable strict s
        | some found ↦ elim (lookup dec_uid uid s.uid_to_queue) [
          | none ↦ unavailable strict s
          | some entry ↦
              reserve_queue_entry_locked clock uid found.0 entry.runtime task_size s >>= λ r.
              ok (some r.0, r.1)
        ]
      ]

  -- The throughput of the uid takes the interval in, and the batch is counted.
  unfoldable pub settle_interval : Text → F → F → Balancer F M X B → Balancer F M X B
  settle_interval uid task_size interval s = elim (lookup dec_uid uid s.throughputs) [
    | none ↦ s
    | some throughput ↦ mark_successful_batch env config uid (record s {
      throughputs = set dec_uid uid (env.ema.update task_size interval throughput) s.throughputs;
    })
  ]

  -- `max(later - earlier, 1e-9)`
  unfoldable pub elapsed : F → F → F
  elapsed later earlier =
      if env.float.less (env.float.sub later earlier) env.float.nanosecond
      then env.float.nanosecond
      else env.float.sub later earlier

  unfoldable pub settle_reservation : F → Reservation F → Bool → Balancer F M X B → Balancer F M X B
  settle_reservation clock r success s =
      if success then settle_interval r.uid r.task_size (elapsed clock r.started_at) s else s

  -- the loop of `snapshot_experts`
  unfoldable eligible_items : List (Text × (Text × F)) → Balancer F M X B → List (Text × Text)
  eligible_items [] s = []
  eligible_items (item ∷ items) s = elim (lookup dec_uid item.0 s.uid_to_queue) [
    | none ↦ eligible_items items s
    | some entry ↦ (item.0, item.1.0) ∷ eligible_items items s
  ]

  unfoldable snapshot_experts : F → Balancer F M X B → List (Text × Text)
  snapshot_experts now s = eligible_items (env.storage.items now s.experts) s

  -- `best` is the runtime, the uid and the peer of the best item so far.
  unfoldable pub better : Option (F × Text × Text) → F → Text → Text → F × Text × Text
  better none runtime uid peer = (runtime, uid, peer)
  better (some best) runtime uid peer =
      if env.float.less runtime best.0 then (runtime, uid, peer) else best

  -- the loop of `peek_least_loaded`
  unfoldable pub least_loaded :
      Option (F × Text × Text)
      → List (Text × (Text × F))
      → Balancer F M X B
      → Option (F × Text × Text)
  least_loaded best [] s = best
  least_loaded best (item ∷ items) s = elim (lookup dec_uid item.0 s.uid_to_queue) [
    | none ↦ least_loaded best items s
    | some entry ↦ least_loaded (some (better best entry.runtime item.0 item.1.0)) items s
  ]

  unfoldable pub peek_least_loaded : F → Balancer F M X B → Option (Text × Text)
  peek_least_loaded now s = elim (least_loaded none (env.storage.items now s.experts) s) [
    | none ↦ none
    | some best ↦ some (best.1, best.2)
  ]
