-- ===== src/Server/ExpertBalancer/State.antt =====
-- The operations of `ExpertBalancer` on its tables: `_add_expert`, `_evict_expert`, `_ban_expert`, the
-- warm-up of new experts, and the two read-only views.
use agora_test.Prelude.{
  ℕ, ◌+◌, ◌-◌, List, [], ◌∷◌, Bool, true, false, Option, none, some, ltb, leb, if◌then◌else◌, Text,
  lookup, remove, set,
}
use agora_test.Server.ExpertBalancer.{Env, Config, Entry, Warmup, Balancer}
use agora_test.Server.ExpertBalancer.Heap.{dec_uid, heappush, max_runtime}

module _ {F M X B : Type 0} (env : Env F M X B) (config : Config F) where
  abbrev pub started : F → Balancer F M X B
  started now = record {
    experts = env.storage.new;
    blacklist = env.bans.new;
    throughputs = [];
    warming_up = [];
    queue = [];
    uid_to_queue = [];
    global_batch_counter = 0;
    drawn = 0;
    selected_experts = [];
    last_full_refresh = env.float.sub now config.refresh_experts_period;
    update_trigger = false;
    update_finished = false;
  }

  -- The row of a uid stays only if it is of the same endpoint.
  unfoldable pub ensure_single_uid_entry :
      Text → Text → List (Text × Warmup F) → List (Text × Warmup F)
  ensure_single_uid_entry uid endpoint rows = elim (lookup dec_uid uid rows) [
    | none ↦ rows
    | some row ↦ elim (dec_uid row.endpoint endpoint) [
      | yes same ↦ rows
      | no other ↦ remove dec_uid uid rows
    ]
  ]

  -- the runtime at which a new expert is placed
  unfoldable pub initial_runtime : List (Entry F) → F
  initial_runtime [] = env.float.of_int 0
  initial_runtime (e ∷ queue) = max_runtime env.float e.runtime queue

  -- the branch of `_add_expert` on whether the uid is warming up: its runtime and the rows
  unfoldable pub placement :
      Text → Text → ℕ → List (Entry F) → List (Text × Warmup F) → F × List (Text × Warmup F)
  placement uid endpoint batch queue rows = elim (lookup dec_uid uid rows) [
    | some row ↦ (row.last_runtime, rows)
    | none ↦ (
      initial_runtime queue,
      set dec_uid uid
          (record {
            endpoint = endpoint;
            joined = some batch;
            last_runtime = initial_runtime queue;
          })
          rows,
    )
  ]

  -- `heapq.heappush(self.queue, entry); self.uid_to_queue[uid] = entry`
  unfoldable pub enter : Text → F → Balancer F M X B → Balancer F M X B
  enter uid runtime s =
      let entry : Entry F = record { runtime = runtime; tie = env.random s.drawn; uid = uid } in
      record s {
        queue = heappush env.float entry s.queue;
        uid_to_queue = set dec_uid uid entry s.uid_to_queue;
        drawn = s.drawn + 1;
      }

  -- what `_add_expert` does for a uid that is not in the queue
  unfoldable pub add_new : Text → Text → Balancer F M X B → Balancer F M X B
  add_new uid endpoint s =
      let rows = ensure_single_uid_entry uid endpoint s.warming_up in
      let placed = placement uid endpoint s.global_batch_counter s.queue rows in
      enter uid placed.0 (record s {
        warming_up = placed.1;
        throughputs = set dec_uid uid env.ema.new s.throughputs;
      })

  unfoldable pub add_expert : F → Text → Text → F → Balancer F M X B → Balancer F M X B
  add_expert now uid endpoint expiration s =
      let stored = record s { experts = env.storage.store now uid endpoint expiration s.experts } in
      elim (lookup dec_uid uid s.uid_to_queue) [
        | some entry ↦ stored
        | none ↦ add_new uid endpoint stored
      ]

  -- `self.uid_to_queue.pop(uid, None); self.throughputs.pop(uid, None)`
  unfoldable pub drop_uid : Text → Balancer F M X B → Balancer F M X B
  drop_uid uid s = record s {
    uid_to_queue = remove dec_uid uid s.uid_to_queue;
    throughputs = remove dec_uid uid s.throughputs;
  }

  unfoldable pub evict_expert : Text → Balancer F M X B → Balancer F M X B
  evict_expert uid s = elim (lookup dec_uid uid s.uid_to_queue) [
    | none ↦ s
    | some entry ↦ record (drop_uid uid s) { experts = env.storage.delete uid s.experts }
  ]

  -- the end of `_ban_expert`, where `endpoint` is that of the expert, if it is present
  unfoldable pub ban : F → Text → Option Text → F → Balancer F M X B → Balancer F M X B
  ban now uid endpoint duration s = drop_uid uid (record s {
    blacklist = env.bans.store now uid endpoint (env.float.add now duration) s.blacklist;
  })

  unfoldable pub ban_expert : F → Text → F → Bool → Balancer F M X B → Balancer F M X B
  ban_expert now uid duration only_if_present s = elim (env.storage.get now uid s.experts) [
    | none ↦ if only_if_present then s else ban now uid none duration s
    | some found ↦
        ban now uid (some found.0) duration
          (record s { experts = env.storage.delete uid s.experts })
  ]

  unfoldable pub short_ban : F → Text → Balancer F M X B → Balancer F M X B
  short_ban now uid s =
      ban_expert now uid (env.float.mul config.update_period (env.float.of_int 2)) true s

  unfoldable pub is_expert_warming_up : Text → Balancer F M X B → Bool
  is_expert_warming_up uid s = elim (lookup dec_uid uid s.warming_up) [
    | none ↦ false
    | some row ↦ elim row.joined [
      | none ↦ false
      | some batch ↦ ltb (s.global_batch_counter - batch) config.warmup_batches
    ]
  ]

  unfoldable pub update_last_runtime : Text → F → Balancer F M X B → Balancer F M X B
  update_last_runtime uid runtime s = elim (lookup dec_uid uid s.warming_up) [
    | none ↦ s
    | some row ↦ record s {
      warming_up = set dec_uid uid (record row { last_runtime = runtime }) s.warming_up;
    }
  ]

  -- The ban that holds for the endpoint, if one does.
  unfoldable pub check_and_unban_if_endpoint_changed :
      F → Text → Text → Balancer F M X B → Option (Option Text × F) × Balancer F M X B
  check_and_unban_if_endpoint_changed now uid endpoint s = elim (env.bans.get now uid s.blacklist) [
    | none ↦ (none, s)
    | some banned ↦ elim banned.0 [
      | none ↦ (none, record s { blacklist = env.bans.delete uid s.blacklist })
      | some other ↦ elim (dec_uid other endpoint) [
        | yes same ↦ (some banned, s)
        | no changed ↦ (none, record s { blacklist = env.bans.delete uid s.blacklist })
      ]
    ]
  ]

  -- the last part of `_mark_successful_batch`: of the row, when `batch` batches have been processed
  unfoldable pub warmed : ℕ → Warmup F → Warmup F
  warmed batch row = elim row.joined [
    | none ↦ row
    | some joined ↦
        if leb config.warmup_batches (batch - joined) then record row { joined = none } else row
  ]

  unfoldable pub mark_successful_batch : Text → Balancer F M X B → Balancer F M X B
  mark_successful_batch uid s = elim (lookup dec_uid uid s.warming_up) [
    | none ↦ record s { global_batch_counter = s.global_batch_counter + 1 }
    | some row ↦ record s {
      global_batch_counter = s.global_batch_counter + 1;
      warming_up = set dec_uid uid (warmed (s.global_batch_counter + 1) row) s.warming_up;
    }
  ]
