-- ===== src/Server/ExpertBalancer/Use.antt =====
-- The context managers of `ExpertBalancer`: the choice of an expert, with the code that
-- `use_another_expert` and `use_specific_expert` repeat, and what follows the body. The throughput that the body is
-- timed by (`update_threadsafe`) is not modelled.
use agora_test.Prelude.{
  ◌+◌, ◌-◌, List, [], ◌∷◌, Bool, true, false, Option, none, some, ◌==◌, leb, if◌then◌else◌, Text,
  lookup, set, Outcome, ok, raise, require_some, ◌>>=◌,
}
use agora_test.Server.ExpertBalancer.{
  Env, Config, Entry, Balancer, BalancerError, key_error, pinned_unavailable,
}
use agora_test.Server.ExpertBalancer.Heap.{dec_uid, heappush}
use agora_test.Server.ExpertBalancer.State.{
  drop_uid, ban_expert, is_expert_warming_up, update_last_runtime,
}
use agora_test.Server.ExpertBalancer.Reserve.{is_current}

-- An expert that is used, with the endpoint that was found; or the wait for an update.
pub data Choice (S : Type 0) : Type 0 where
  chosen : Text → Option Text → S → Choice S
  awaits : S → Choice S

-- How the body of `with` ends.
pub data Ending : Type 0 where
  completed deadline_exceeded rpc_error p2p_error connection_error other_error : Ending

module _ {F M X B : Type 0} (env : Env F M X B) (config : Config F) where
  -- `new_runtime`, with the penalty of an expert that is warming up
  unfoldable pub new_runtime : Text → F → F → M → Balancer F M X B → F
  new_runtime uid runtime task_size throughput s =
      let base =
        if env.ema.num_updates throughput == 0
        then env.float.mul config.initial_throughput task_size
        else env.float.div task_size (env.ema.samples_per_second throughput) in
      env.float.add runtime (
        if is_expert_warming_up env config uid s
        then env.float.mul base config.warmup_penalty_multiplier
        else base)

  -- from `base_expected_time` to `_update_last_runtime`
  unfoldable pub take : Text → F → F → Balancer F M X B → Outcome BalancerError (Balancer F M X B)
  take uid runtime task_size s =
      require_some (lookup dec_uid uid s.throughputs) key_error >>= λ throughput.
      let entry : Entry F = record {
        runtime = new_runtime uid runtime task_size throughput s;
        tie = env.random s.drawn;
        uid = uid;
      } in
      ok (
        update_last_runtime env config uid entry.runtime (record s {
          queue = heappush env.float entry s.queue;
          uid_to_queue = set dec_uid uid entry s.uid_to_queue;
          drawn = s.drawn + 1;
        }))

  -- the loop of `use_another_expert`
  unfoldable pub choose :
      F → F → List (Entry F) → Balancer F M X B → Outcome BalancerError (Choice (Balancer F M X B))
  choose now task_size [] s =
      ok (awaits (record s { queue = []; update_finished = false; update_trigger = true }))
  choose now task_size (e ∷ queue) s = elim (env.storage.get now e.uid s.experts) [
    | none ↦ elim (is_current env config e (drop_uid env config e.uid s)) [
      | false ↦ choose now task_size queue (drop_uid env config e.uid s)
      | true ↦
          take e.uid e.runtime task_size (record (drop_uid env config e.uid s) { queue = queue })
          >>= λ taken. ok (chosen e.uid none taken)
    ]
    | some found ↦ elim (is_current env config e s) [
      | false ↦ choose now task_size queue s
      | true ↦ take e.uid e.runtime task_size (record s { queue = queue }) >>= λ taken.
          ok (chosen e.uid (some found.0) taken)
    ]
  ]

  unfoldable pub use_another_expert :
      F → F → Balancer F M X B → Outcome BalancerError (Choice (Balancer F M X B))
  use_another_expert now task_size s = choose now task_size s.queue s

  unfoldable use_specific_expert :
      F → Text → F → Bool → Balancer F M X B → Outcome BalancerError (Choice (Balancer F M X B))
  use_specific_expert now uid task_size strict s =
      let fallback =
        if strict then raise pinned_unavailable else use_another_expert now task_size s in
      elim (env.storage.get now uid s.experts) [
        | none ↦ fallback
        | some found ↦ elim (lookup dec_uid uid s.uid_to_queue) [
          | none ↦ fallback
          | some entry ↦
              take uid entry.runtime task_size s >>= λ taken. ok (chosen uid (some found.0) taken)
        ]
      ]

  -- `self.global_batch_counter += 1`, and the end of a warm-up
  unfoldable pub count_batch : Text → Balancer F M X B → Balancer F M X B
  count_batch uid s =
      let batch = s.global_batch_counter + 1 in
      elim (lookup dec_uid uid s.warming_up) [
        | none ↦ record s { global_batch_counter = batch }
        | some row ↦ elim row.joined [
          | none ↦ record s { global_batch_counter = batch }
          | some joined ↦
              if leb config.warmup_batches (batch - joined)
              then record s {
                global_batch_counter = batch;
                warming_up = set dec_uid uid (record row { joined = none }) s.warming_up;
              }
              else record s { global_batch_counter = batch }
        ]
      ]

  -- what the body's end leads to, for the expert that it used
  unfoldable pub end_use : F → Text → Ending → Balancer F M X B → Balancer F M X B
  end_use now uid completed s = count_batch uid s
  end_use now uid deadline_exceeded s = s
  end_use now uid rpc_error s = ban_expert env config now uid config.ban_expiration false s
  end_use now uid p2p_error s =
      ban_expert env config now uid (env.float.mul config.update_period (env.float.of_int 2)) false
        s
  end_use now uid connection_error s = ban_expert env config now uid config.ban_expiration false s
  end_use now uid other_error s = s
