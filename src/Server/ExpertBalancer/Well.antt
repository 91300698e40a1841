-- ===== src/Server/ExpertBalancer/Well.antt =====
-- Every operation on the tables of a balancer keeps that they agree.
use agora_test.Prelude.{
  List, Bool, true, false, Option, none, some, none-ne-some, ◌≡◌, refl, inl, inr, Text,
  Option-cases, if◌then◌else◌, lookup, set, lookup-set_self,
}
use agora_test.Server.ExpertBalancer.{Env, Config, Entry, Warmup, Balancer}
use agora_test.Server.ExpertBalancer.Heap.{dec_uid}
use agora_test.Server.ExpertBalancer.HeapOrder.{
  In, IsSorted, heappush-IsSorted, In-heappush, In-heappush_self,
}
use agora_test.Server.ExpertBalancer.State.{
  started, enter, add_new, add_expert, drop_uid, evict_expert, ban, ban_expert, update_last_runtime,
  mark_successful_batch, check_and_unban_if_endpoint_changed,
}
use agora_test.Server.ExpertBalancer.Links.{IsLinked, remove-IsLinked, set-IsLinked, rate-IsLinked}

module _ {F M X B : Type 0} (env : Env F M X B) (config : Config F) where
  -- An expert that `uid_to_queue` names has its entry in the queue, under its uid, and a throughput; the queue is in the
  -- order of the runtimes.
  pub record IsWell (s : Balancer F M X B) : Type 0 where
    pub linked : IsLinked (λ e. In env.float e s.queue) s.uid_to_queue s.throughputs
    pub sorted : IsSorted env.float s.queue

  pub started-IsWell : (now : F) → IsWell (started env config now)
  unfolding lookup
  started-IsWell now = record {
    linked = record {
      unique = tt;
      timed = λ uid e h. absurd (none-ne-some _ h);
      named = λ uid e h. absurd (none-ne-some _ h);
      present = λ uid e h. absurd (none-ne-some _ h);
    };
    sorted = tt;
  }

  pub enter-IsWell :
      (P : Entry F → Type 0) (uid : Text) (runtime : F) (m : M) (s : Balancer F M X B)
      → lookup dec_uid uid s.throughputs ≡ some m
      → ((e : Entry F) → P e → In env.float e s.queue)
      → IsLinked P s.uid_to_queue s.throughputs
      → IsSorted env.float s.queue
      → IsWell (enter env config uid runtime s)
  unfolding enter
  enter-IsWell P uid runtime m s rate keep l sorted = record {
    linked =
        set-IsLinked P _ uid _ m s.uid_to_queue s.throughputs rate refl
          (In-heappush_self env.float _ s.queue)
          (λ e ne h. In-heappush env.float _ e s.queue (keep e h)) l;
    sorted = heappush-IsSorted env.float _ s.queue sorted;
  }

  drop_uid-IsWell :
      (uid : Text) (s : Balancer F M X B) → IsWell s → IsWell (drop_uid env config uid s)
  unfolding drop_uid
  drop_uid-IsWell uid s w = record {
    linked = remove-IsLinked _ _ uid s.uid_to_queue s.throughputs (λ e ne h. h) w.linked;
    sorted = w.sorted;
  }

  add_new-IsWell :
      (uid endpoint : Text) (s : Balancer F M X B)
      → IsWell s
      → IsWell (add_new env config uid endpoint s)
  unfolding add_new
  add_new-IsWell uid endpoint s w =
      enter-IsWell _ uid _ env.ema.new _ (lookup-set_self dec_uid uid env.ema.new s.throughputs)
        (λ e h. h) (rate-IsLinked _ uid env.ema.new s.uid_to_queue s.throughputs w.linked) w.sorted

  pub add_expert-IsWell :
      (now : F) (uid endpoint : Text) (expiration : F) (s : Balancer F M X B)
      → IsWell s
      → IsWell (add_expert env config now uid endpoint expiration s)
  unfolding add_expert
  add_expert-IsWell now uid endpoint expiration s w =
      elim (Option-cases (lookup dec_uid uid s.uid_to_queue)) [
        | inr (entry, there) ↦
            rw (there, add_expert) (record { linked = w.linked; sorted = w.sorted })
        | inl missing ↦
            rw (missing, add_expert)
              (add_new-IsWell uid endpoint _ (record { linked = w.linked; sorted = w.sorted }))
      ]

  pub evict_expert-IsWell :
      (uid : Text) (s : Balancer F M X B) → IsWell s → IsWell (evict_expert env config uid s)
  unfolding evict_expert
  evict_expert-IsWell uid s w = elim (Option-cases (lookup dec_uid uid s.uid_to_queue)) [
    | inl missing ↦ rw (missing, evict_expert) w
    | inr (entry, there) ↦
        let d = drop_uid-IsWell uid s w in
        rw (there, evict_expert) (record { linked = d.linked; sorted = d.sorted })
  ]

  ban-IsWell :
      (now : F) (uid : Text) (endpoint : Option Text) (duration : F) (s : Balancer F M X B)
      → IsWell s
      → IsWell (ban env config now uid endpoint duration s)
  unfolding ban
  ban-IsWell now uid endpoint duration s w =
      drop_uid-IsWell uid _ (record { linked = w.linked; sorted = w.sorted })

  pub ban_expert-IsWell :
      (now : F) (uid : Text) (duration : F) (only : Bool) (s : Balancer F M X B)
      → IsWell s
      → IsWell (ban_expert env config now uid duration only s)
  unfolding ban_expert
  ban_expert-IsWell now uid duration only s w =
      elim (Option-cases (env.storage.get now uid s.experts)) [
        | inr (found, there) ↦
            rw (there, ban_expert)
              (ban-IsWell now uid _ duration _ (record { linked = w.linked; sorted = w.sorted }))
        | inl missing ↦
            rw (missing, ban_expert)
              (elim only
                as (λ b. IsWell (if b then s else ban env config now uid none duration s)) [
                  | true ↦ w
                  | false ↦ ban-IsWell now uid none duration s w
                ])
      ]

  -- Only the rows of `warming_up` change.
  pub update_last_runtime-rows :
      (uid : Text) (runtime : F) (s : Balancer F M X B)
      → (rows : List (Text × Warmup F)) × (update_last_runtime env config uid runtime s
          ≡ record s { warming_up = rows })
  unfolding update_last_runtime
  update_last_runtime-rows uid runtime s = elim (Option-cases (lookup dec_uid uid s.warming_up)) [
    | inl missing ↦ (s.warming_up, rw (missing, update_last_runtime) refl)
    | inr (row, there) ↦ (
      set dec_uid uid (record row { last_runtime = runtime }) s.warming_up,
      rw (there, update_last_runtime) refl,
    )
  ]

  pub mark_successful_batch-IsWell :
      (uid : Text) (s : Balancer F M X B)
      → IsWell s
      → IsWell (mark_successful_batch env config uid s)
  unfolding mark_successful_batch
  mark_successful_batch-IsWell uid s w = elim (Option-cases (lookup dec_uid uid s.warming_up)) [
    | inl missing ↦
        rw (missing, mark_successful_batch) (record { linked = w.linked; sorted = w.sorted })
    | inr (row, there) ↦
        rw (there, mark_successful_batch) (record { linked = w.linked; sorted = w.sorted })
  ]

  pub unban-IsWell :
      (now : F) (uid endpoint : Text) (s : Balancer F M X B)
      → IsWell s
      → IsWell (check_and_unban_if_endpoint_changed env config now uid endpoint s).1
  unfolding check_and_unban_if_endpoint_changed
  unban-IsWell now uid endpoint s w = elim (Option-cases (env.bans.get now uid s.blacklist)) [
    | inl missing ↦ rw (missing, check_and_unban_if_endpoint_changed) w
    | inr ((none, until), there) ↦
        rw (there, check_and_unban_if_endpoint_changed)
          (record { linked = w.linked; sorted = w.sorted })
    | inr ((some other, until), there) ↦
        rw (there, check_and_unban_if_endpoint_changed)
          (elim (dec_uid other endpoint)
            as (λ d.
              IsWell
                (elim d as (λ y. Option (Option Text × F) × Balancer F M X B) [
                  | yes same ↦ (some (some other, until), s)
                  | no changed ↦ (none, record s { blacklist = env.bans.delete uid s.blacklist })
                ]).1) [
                  | yes same ↦ w
                  | no changed ↦ record { linked = w.linked; sorted = w.sorted }
                ])
  ]
