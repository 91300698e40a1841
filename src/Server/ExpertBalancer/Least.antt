-- ===== src/Server/ExpertBalancer/Least.antt =====
-- A reservation is of the least loaded expert that may be taken, and it is charged.
use agora_test.Prelude.{
  ℕ, ◌+◌, List, [], ◌∷◌, ◌++◌, true, false, some, ◌≡◌, refl, ap, sym, subst, ◌∙◌, ◌⊎◌, inl, inr,
  Text, Bool-cases, Option-cases, lookup, set, lookup-set_self, ok, ◌>>=◌,
}
use agora_test.Server.ExpertBalancer.{Env, Config, Entry, Warmup, Balancer}
use agora_test.Server.ExpertBalancer.Heap.{dec_uid, heappush, push_all}
use agora_test.Server.ExpertBalancer.HeapOrder.{
  In, IsBelow-In, IsSorted, less_irrefl, heappush-IsSorted, In-heappush, In-heappush_self,
  In-push_all, In-push_all_queue, push_all-IsSorted, same_entry_sound, same_entry_refl,
}
use agora_test.Server.ExpertBalancer.State.{enter, drop_uid, is_expert_warming_up}
use agora_test.Server.ExpertBalancer.Links.{IsLinked, set-IsLinked, remove-IsLinked, map-IsLinked}
use agora_test.Server.ExpertBalancer.Well.{IsWell, update_last_runtime-rows}
use agora_test.Server.ExpertBalancer.Reserve.{
  granted, excluded, penalized, expected_time_taken, reserve_queue_entry_locked, is_current, scan,
}
use agora_test.Server.ExpertBalancer.Eligible.{
  expected_time_taken-ok, charge-ok, IsEligible, ScanHolds, drop_uid-ScanHolds, AllExcluded,
  AllExcluded-append, AllExcluded-In,
}

-- An entry that is skipped is still there.
skip-In :
    {F M X B : Type 0} (env : Env F M X B) (e f : Entry F) (queue skipped : List (Entry F))
    → (In env.float f skipped ⊎ In env.float f (e ∷ queue))
    → In env.float f (skipped ++ (e ∷ [])) ⊎ In env.float f queue
skip-In env e f queue [] (inl before) = absurd before
skip-In env e f queue [] (inr (inl same)) = inl (inl same)
skip-In env e f queue [] (inr (inr after)) = inr after
skip-In env e f queue (x ∷ skipped) (inl (inl here)) = inl (inl here)
skip-In env e f queue (x ∷ skipped) (inl (inr before)) =
    elim (skip-In env e f queue skipped (inl before)) [
      | inl more ↦ inl (inr more)
      | inr after ↦ inr after
    ]
skip-In env e f queue (x ∷ skipped) (inr later) = elim (skip-In env e f queue skipped (inr later)) [
  | inl more ↦ inl (inr more)
  | inr after ↦ inr after
]

module _ {F M X B : Type 0} (env : Env F M X B) (config : Config F) where
  is_current_sound :
      (e : Entry F) (s : Balancer F M X B)
      → is_current env config e s ≡ true
      → lookup dec_uid e.uid s.uid_to_queue ≡ some e
  unfolding is_current
  is_current_sound e s h = elim (Option-cases (lookup dec_uid e.uid s.uid_to_queue)) [
    | inl missing ↦ absurd (cc (rw (missing, is_current) at h))
    | inr (f, there) ↦
        there ∙ ap some (same_entry_sound env.float f e (rw (there, is_current) at h))
  ]

  is_current_lem :
      (e : Entry F) (s : Balancer F M X B)
      → lookup dec_uid e.uid s.uid_to_queue ≡ some e
      → is_current env config e s ≡ true
  unfolding is_current
  is_current_lem e s there = rw (there, is_current) (same_entry_refl env.float e)

  -- What a grant holds, after the charge and the pushes.
  granted-ScanHolds :
      (e new : Entry F) (m : M) (queue skipped : List (Entry F)) (s : Balancer F M X B)
      → new.uid ≡ e.uid
      → lookup dec_uid e.uid s.throughputs ≡ some m
      → IsLinked
          (λ f. In env.float f skipped ⊎ In env.float f (e ∷ queue))
          s.uid_to_queue
          s.throughputs
      → IsSorted env.float queue
      → (rows : List (Text × Warmup F)) (drawn : ℕ)
      → IsWell env config (record s {
        warming_up = rows;
        drawn = drawn;
        queue = push_all env.float skipped (heappush env.float new queue);
        uid_to_queue = set dec_uid e.uid new s.uid_to_queue;
      })
  granted-ScanHolds e new m queue skipped s name rate l sorted rows drawn = record {
    linked =
        set-IsLinked _ _ e.uid new m s.uid_to_queue s.throughputs rate name
          (In-push_all_queue env.float new skipped (heappush env.float new queue)
            (In-heappush_self env.float new queue))
          (λ f ne h. elim h [
            | inl before ↦ In-push_all env.float f skipped _ before
            | inr (inl same) ↦ absurd (ne (ap (λ (x : Entry F). x.uid) (sym same)))
            | inr (inr after) ↦
                In-push_all_queue env.float f skipped _ (In-heappush env.float new f queue after)
          ])
          l;
    sorted = push_all-IsSorted env.float skipped _ (heappush-IsSorted env.float new queue sorted);
  }

module _ {F M X B : Type 0} (env : Env F M X B) (config : Config F) (now size : F)
    (exclude : List Text) where
  -- No eligible expert has less to do than the first entry that is taken.
  taken-least :
      (e : Entry F) (queue skipped : List (Entry F)) (s : Balancer F M X B)
      → AllExcluded env config now size exclude skipped
      → IsLinked
          (λ f. In env.float f skipped ⊎ In env.float f (e ∷ queue))
          s.uid_to_queue
          s.throughputs
      → IsSorted env.float (e ∷ queue)
      → (uid : Text) (f : Entry F) → IsEligible env config now size exclude s uid f
      → env.float.less f.runtime e.runtime ≡ false
  taken-least e queue skipped s sk l sorted uid f h = elim (l.present uid f h.current) [
    | inl before ↦ absurd (
        cc (
          AllExcluded-In env config now size exclude skipped f sk before,
          subst (λ x. excluded exclude x ≡ false) (sym (l.named uid f h.current)) h.allowed,
        ))
    | inr (inl same) ↦
        subst (λ (y : Entry F). env.float.less y.runtime e.runtime ≡ false) same
          (less_irrefl env.float e.runtime)
    | inr (inr after) ↦ IsBelow-In env.float e f queue sorted.0 after
  ]

  drop_uid-links :
      (e : Entry F) (queue skipped : List (Entry F)) (s : Balancer F M X B)
      → IsLinked
          (λ f. In env.float f skipped ⊎ In env.float f (e ∷ queue))
          s.uid_to_queue
          s.throughputs
      → IsLinked
          (λ f. In env.float f skipped ⊎ In env.float f queue)
          (drop_uid env config e.uid s).uid_to_queue
          (drop_uid env config e.uid s).throughputs
  unfolding drop_uid
  drop_uid-links e queue skipped s l =
      remove-IsLinked _ _ e.uid s.uid_to_queue s.throughputs
        (λ f ne h. elim h [
          | inl before ↦ inl before
          | inr (inl same) ↦ absurd (ne (ap (λ (x : Entry F). x.uid) (sym same)))
          | inr (inr after) ↦ inr after
        ])
        l

  stale-links :
      (e : Entry F) (queue skipped : List (Entry F)) (s : Balancer F M X B)
      → is_current env config e s ≡ false
      → IsLinked
          (λ f. In env.float f skipped ⊎ In env.float f (e ∷ queue))
          s.uid_to_queue
          s.throughputs
      → IsLinked (λ f. In env.float f skipped ⊎ In env.float f queue) s.uid_to_queue s.throughputs
  stale-links e queue skipped s stale l =
      map-IsLinked _ _ s.uid_to_queue s.throughputs
        (λ f there h. elim h [
          | inl before ↦ inl before
          | inr (inl same) ↦ absurd (
              cc (
                stale,
                is_current_lem env config e s (
                    subst (λ (y : Entry F). lookup dec_uid y.uid s.uid_to_queue ≡ some y) (sym same)
                      there),
              ))
          | inr (inr after) ↦ inr after
        ])
        l

  grant-ScanHolds :
      (clock : F) (e : Entry F) (found : Text × F) (queue skipped : List (Entry F))
      (s : Balancer F M X B)
      → env.storage.get now e.uid s.experts ≡ some found
      → is_current env config e s ≡ true
      → excluded exclude e.uid ≡ false
      → AllExcluded env config now size exclude skipped
      → IsLinked
          (λ f. In env.float f skipped ⊎ In env.float f (e ∷ queue))
          s.uid_to_queue
          s.throughputs
      → IsSorted env.float (e ∷ queue)
      → ScanHolds env config now size exclude s (
          reserve_queue_entry_locked env config clock e.uid found.0 e.runtime size
            (record s { queue = queue })
          >>= λ r. ok (granted r.0 (record r.1 { queue = push_all env.float skipped r.1.queue })))
  unfolding reserve_queue_entry_locked enter expected_time_taken penalized is_expert_warming_up
  grant-ScanHolds clock e found queue skipped s live cur allowed sk l sorted =
      let there = is_current_sound env config e s cur in
      let (m, rate) = l.timed e.uid e there in
      let (time, expected) = expected_time_taken-ok env config e.uid size m s rate in
      let runtime : F = env.float.add e.runtime time in
      let new : Entry F = record { runtime = runtime; tie = env.random s.drawn; uid = e.uid } in
      let (rows, same) =
        update_last_runtime-rows env config e.uid runtime
          (enter env config e.uid runtime (record s { queue = queue })) in
      rw
        (charge-ok env config e.uid e.runtime size time (record s { queue = queue }) expected, same)
        (
          record {
            entry = e;
            eligible = record { current = there; found = found; live = live; allowed = allowed };
            endpoint = rw live refl;
            least = taken-least e queue skipped s sk l sorted;
            time = time;
            expected = expected;
            charged = (new, lookup-set_self dec_uid e.uid new s.uid_to_queue, refl);
          },
          granted-ScanHolds env config e new m queue skipped s refl rate l sorted.1 rows
              (s.drawn + 1),
        )

  pub scan-ScanHolds :
      (clock : F) (queue skipped : List (Entry F)) (s : Balancer F M X B)
      → AllExcluded env config now size exclude skipped
      → IsLinked (λ f. In env.float f skipped ⊎ In env.float f queue) s.uid_to_queue s.throughputs
      → IsSorted env.float queue
      → ScanHolds env config now size exclude s
          (scan env config now clock size exclude queue skipped s)
  unfolding scan
  scan-ScanHolds clock [] skipped s sk l sorted = (
    λ uid e h. elim (l.present uid e h.current) [
      | inl before ↦ cc (
        AllExcluded-In env config now size exclude skipped e sk before,
        subst (λ x. excluded exclude x ≡ false) (sym (l.named uid e h.current)) h.allowed,
      )
      | inr none_left ↦ none_left
    ],
    map-IsLinked _ _ s.uid_to_queue s.throughputs
        (λ e there h. elim h [ inl before ↦ before | inr none_left ↦ absurd none_left ]) l,
    refl,
  )
  scan-ScanHolds clock (e ∷ queue) skipped s sk l sorted =
      elim (Option-cases (env.storage.get now e.uid s.experts)) [
        | inl gone ↦
            rw (gone, scan)
              (drop_uid-ScanHolds env config now size exclude e.uid s _ gone l.unique (
                scan-ScanHolds clock queue skipped (drop_uid env config e.uid s) sk
                  (drop_uid-links e queue skipped s l) sorted.1))
        | inr (found, live) ↦ elim (Bool-cases (is_current env config e s)) [
          | inr stale ↦
              rw (live, scan, stale)
                (scan-ScanHolds clock queue skipped s sk (stale-links e queue skipped s stale l)
                  sorted.1)
          | inl cur ↦ elim (Bool-cases (excluded exclude e.uid)) [
            | inl out ↦
                rw (live, scan, cur, out)
                  (scan-ScanHolds clock queue (skipped ++ (e ∷ [])) s
                    (AllExcluded-append env config now size exclude skipped e sk out)
                    (map-IsLinked _ _ s.uid_to_queue s.throughputs
                      (λ f there h. skip-In env e f queue skipped h) l)
                    sorted.1)
            | inr allowed ↦
                rw (live, scan, cur, allowed)
                  (grant-ScanHolds clock e found queue skipped s live cur allowed sk l sorted)
          ]
        ]
      ]
