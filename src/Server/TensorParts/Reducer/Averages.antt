-- ===== src/Server/TensorParts/Reducer/Averages.antt =====
-- What a reducer gives for a part is the average of what is logged for it.
use agora_test.Prelude.{
  ℕ, suc, ◌<◌, List, [], ◌∷◌, ◌++◌, Bool, true, false, Option, none, some, leb, ◌==◌, if◌then◌else◌,
  get_elem?, ◌≡◌, refl, ap, sym, ◌∙◌, arith, Bool-cases, inl, inr, ◌⊎◌, subst, get_elem?-append_lt,
  get_elem?-append_length,
}
use agora_test.Server.TensorParts.Reducer.{
  Sender, set_at, Reducer, returns, Future, cancelled, result, cancel, Averaging, Event,
  accumulates, wakes, fails, cancels, finalizes, handle, initial, unstarted, finalize, begin_part,
  reset_accumulators, expect_one_less, on_sender_failed,
}
use agora_test.Server.TensorParts.Reducer.Senders.{fail, is_awaited, sum-set_at}
use agora_test.Server.TensorParts.Reducer.Underway.{IsReducing}
use agora_test.Server.TensorParts.Reducer.Parts.{fail-Underway}
use agora_test.Server.TensorParts.Reducer.Runs.{IsInOrder, Reachable, starts, goes_on}
use agora_test.Server.TensorParts.Reducer.Progress.{Reachable-IsReducing, finalize-finished}
use agora_test.Server.TensorParts.Reducer.Log.{of_part, logged, average, Logged, begins, proceeds}
use agora_test.Server.TensorParts.Reducer.Averaged.{
  fresh-Sums, IsAveraged, finalize-IsAveraged, check_current_part_finished-IsAveraged,
  with_senders-IsAveraged,
}
use agora_test.Server.TensorParts.Reducer.Contributions.{accumulate_part-IsAveraged}

module _ {V W : Type 0} (averaging : Averaging V W) (num_parts : ℕ) where
  -- The failure of a sender, for whether the reducer is finished.
  failure-IsAveraged :
      (i : ℕ) (x : Sender) (log : List (ℕ × (V × W))) (s : Reducer V W) (over : Bool)
      → s.finished ≡ over
      → get_elem? s.senders i ≡ some x
      → x.failed_after ≡ none
      → IsReducing num_parts s
      → IsAveraged averaging log s
      → IsAveraged averaging log
          (let s' = record s { senders = set_at i (fail x) s.senders } in
            if over
            then (s', returns)
            else (if s.parts_begun == suc x.num_parts_received
                then expect_one_less averaging num_parts s'
                else (s', returns))).0
  unfolding expect_one_less
  failure-IsAveraged i x log s true is_over there alive r a =
      let one = sum-set_at (is_awaited s.parts_begun) i x (fail x) s.senders there in
      with_senders-IsAveraged averaging log s _ (omega (arith, one)) a
  failure-IsAveraged i x log s false is_over there alive r a =
      let one = sum-set_at (is_awaited s.parts_begun) i x (fail x) s.senders there in
      let kept =
        with_senders-IsAveraged averaging log s (set_at i (fail x) s.senders) (omega (arith, one))
          a in
      elim (Bool-cases (s.parts_begun == suc x.num_parts_received)) [
        | inr other ↦ rw other kept
        | inl due ↦ elim r.waits [
          | inl over ↦ cc
          | inr (u, some_left) ↦
              let same : s.parts_begun ≡ suc x.num_parts_received = ground (arith, due) in
              let (n, number, left) = fail-Underway i x s there alive same u in
              let so_far = a.sums x.num_parts_received same u.unfinished in
              rw (due, number)
                (check_current_part_finished-IsAveraged averaging num_parts log x.num_parts_received
                  _ same left
                  (record { accumulator = so_far.accumulator; denominator = so_far.denominator })
                  (record {
                    size = a.earlier.size;
                    later = a.earlier.later;
                    given = a.earlier.given;
                  }))
        ]
      ]

  finalize-keeps :
      (log : List (ℕ × (V × W))) (s : Reducer V W)
      → IsReducing num_parts s
      → IsAveraged averaging log s
      → IsAveraged averaging log (finalize s)
  unfolding cancel
  finalize-keeps log s r a = elim r.waits [
    | inl over ↦
        subst (IsAveraged averaging log)
          (sym (finalize-finished averaging num_parts s over.finished)) a
    | inr (u, left) ↦
        finalize-IsAveraged averaging num_parts log s u.unfinished a.earlier
          (λ cur v at_cur h. let clash : cancelled ≡ result v = sym (ap cancel u.future) ∙ h in cc)
  ]

  handle-IsAveraged :
      (event : Event V W) (log : List (ℕ × (V × W))) (s : Reducer V W)
      → IsInOrder event s
      → IsReducing num_parts s
      → IsAveraged averaging log s
      → IsAveraged averaging (logged event s log) (handle averaging num_parts event s).0
  unfolding handle on_sender_failed
  handle-IsAveraged (accumulates i part value weight) log s order r a =
      accumulate_part-IsAveraged averaging num_parts i part value weight log s order r a
  handle-IsAveraged (wakes i part value weight) log s order r a = absurd order
  handle-IsAveraged (fails i) log s (x, there, alive) r a =
      rw (there, on_sender_failed) (failure-IsAveraged i x log s s.finished refl there alive r a)
  handle-IsAveraged cancels log s order r a = absurd order
  handle-IsAveraged finalizes log s order r a = finalize-keeps log s r a

  begin_first-IsAveraged :
      (num_senders : ℕ)
      → IsAveraged averaging []
          (begin_part averaging num_parts (unstarted averaging num_parts num_senders))
  unfolding begin_part finalize cancel
  begin_first-IsAveraged num_senders = elim (Bool-cases (leb num_parts 0)) [
    | inl no_parts ↦ rw no_parts (record {
      earlier = record {
        size = refl;
        later = λ part le. refl;
        given = λ part before. absurd (omega (arith, before));
      };
      sums = λ cur at_cur going. cc;
      now = λ cur v at_cur h. cc;
    })
    | inr parts ↦ rw parts (record {
      earlier = record {
        size = refl;
        later = λ part le. refl;
        given = λ part before. absurd (omega (arith, before));
      };
      sums = λ cur at_cur going.
          let first : 0 ≡ cur = omega (arith, at_cur) in
          fresh-Sums averaging [] 0 cur _ first refl refl refl;
      now = λ cur v at_cur h. cc;
    })
  ]

  initial-IsAveraged :
      (num_senders : ℕ) → IsAveraged averaging [] (initial averaging num_parts num_senders)
  unfolding initial reset_accumulators
  initial-IsAveraged num_senders = elim (Bool-cases (0 == num_senders)) [
    | inl same ↦ rw (same, initial, reset_accumulators) (begin_first-IsAveraged num_senders)
    | inr other ↦ rw (other, initial, reset_accumulators) (begin_first-IsAveraged num_senders)
  ]

  Logged-Reachable :
      {num_senders : ℕ} (s : Reducer V W) (log : List (ℕ × (V × W)))
      → Logged averaging num_parts num_senders s log
      → Reachable averaging num_parts num_senders s
  Logged-Reachable _ _ begins = starts
  Logged-Reachable _ _ (proceeds s log event before order) =
      goes_on s event (Logged-Reachable s log before) order

  Logged-IsAveraged :
      {num_senders : ℕ} (s : Reducer V W) (log : List (ℕ × (V × W)))
      → Logged averaging num_parts num_senders s log
      → IsAveraged averaging log s
  Logged-IsAveraged _ _ begins = initial-IsAveraged _
  Logged-IsAveraged _ _ (proceeds s log event before order) =
      handle-IsAveraged event log s order
        (Reachable-IsReducing averaging num_parts s (Logged-Reachable s log before))
        (Logged-IsAveraged s log before)

  abbrev pub future_of : ℕ → Reducer V W → Option (Future V)
  future_of part s = get_elem? (s.earlier_futures ++ (s.current_part_future ∷ [])) (suc part)

  -- The part is before the one under way, or is the last one and has its result.
  abbrev IsPast : ℕ → Reducer V W → Type 0
  IsPast part s =
      (suc part < s.parts_begun)
      ⊎ ((s.parts_begun ≡ suc part) × ((v : V) × (s.current_part_future ≡ result v)))

  -- Where the senders submit their parts in order, and fail at most once, every part before the one
  -- under way, and the last part once it has a result, has got the average of all contributions to
  -- it, in their order, of senders that had not failed: their sum from zeros, each with its weight,
  -- over the sum of the weights.
  pub Logged-average :
      (num_senders : ℕ) (s : Reducer V W) (log : List (ℕ × (V × W)))
      → Logged averaging num_parts num_senders s log
      → (part : ℕ) → IsPast part s
      → future_of part s ≡ some (result (average averaging part (of_part part log)))
  Logged-average num_senders s log reached part (inl before) =
      let a = Logged-IsAveraged s log reached in
      get_elem?-append_lt s.earlier_futures _ (suc part) (omega (arith, before, a.earlier.size))
      ∙ a.earlier.given part before
  Logged-average num_senders s log reached part (inr (at_part, (v, current))) =
      let a = Logged-IsAveraged s log reached in
      let (same, none_left) = a.now part v at_part current in
      get_elem?-append_length s.earlier_futures s.current_part_future (suc part)
        (omega (arith, at_part, a.earlier.size))
      ∙ ap some current
      ∙ ap (λ v. some (result v)) same
