-- ===== src/Server/TensorParts/Reducer/Progress.antt =====
-- Senders that submit their parts in order, each after the result of the one before: no assertion of
-- the reducer fails, none of them waits at the barrier, and the current part waits for a sender.
use agora_test.Prelude.{
  ℕ, suc, Bool, true, false, none, some, ◌==◌, if◌then◌else◌, get_elem?, ◌≡◌, refl, sym, arith,
  Bool-cases, inl, inr, subst,
}
use agora_test.Server.TensorParts.Reducer.{
  Sender, set_at, Reducer, returns, Averaging, Event, accumulates, wakes, fails, cancels, finalizes,
  handle, initial, unstarted, finalize, reset_accumulators, expect_one_less, on_sender_failed,
}
use agora_test.Server.TensorParts.Reducer.Senders.{
  AllPlaced-get_elem?, AllPlaced-set_at, IsPlaced-fail, fresh-Ready, fail, not-awaited,
  is_live-some, live-IsPlaced,
}
use agora_test.Server.TensorParts.Reducer.Runs.{IsInOrder, Reachable, starts, goes_on}
use agora_test.Server.TensorParts.Reducer.Underway.{
  IsReducing, Handled, finalize-IsReducing, begin_part-IsReducing, check_current_part_finished-Fine,
  set_at-IsReducing, over-set_at,
}
use agora_test.Server.TensorParts.Reducer.Parts.{accumulate_part-Handled, fail-Underway}

module _ {V W : Type 0} (averaging : Averaging V W) (num_parts : ℕ) where
  -- A sender that is awaited fails.
  expect_one_less-Handled :
      (i : ℕ) (x : Sender) (s : Reducer V W)
      → get_elem? s.senders i ≡ some x
      → x.failed_after ≡ none
      → s.parts_begun ≡ suc x.num_parts_received
      → s.finished ≡ false
      → IsReducing num_parts s
      → Handled num_parts s
          (expect_one_less averaging num_parts (record s { senders = set_at i (fail x) s.senders }))
  unfolding expect_one_less
  expect_one_less-Handled i x s there alive same unfinished r =
      let all =
        AllPlaced-set_at s.parts_begun i (fail x) s.senders
          (IsPlaced-fail s.parts_begun x alive same) r.placed in
      elim r.waits [
        | inl over ↦ cc
        | inr (u, some_left) ↦
            let (n, number, left) = fail-Underway i x s there alive same u in
            let (returned, reducing) =
              check_current_part_finished-Fine averaging num_parts _ r.begun all left in
            rw number (inl returned, reducing)
      ]

  -- The failure of a sender, for whether the reducer is finished.
  failure-Handled :
      (i : ℕ) (x : Sender) (s : Reducer V W) (over : Bool)
      → s.finished ≡ over
      → get_elem? s.senders i ≡ some x
      → x.failed_after ≡ none
      → IsReducing num_parts s
      → Handled num_parts s (
          let s' = record s { senders = set_at i (fail x) s.senders } in
          if over
          then (s', returns)
          else (if s.parts_begun == suc x.num_parts_received
              then expect_one_less averaging num_parts s'
              else (s', returns)))
  failure-Handled i x s true is_over there alive r =
      let stands =
        live-IsPlaced s.parts_begun x.num_parts_received x.failed_after alive
          (AllPlaced-get_elem? s.parts_begun i x s.senders there r.placed) in
      (inl refl, over-set_at num_parts s i (fail x) is_over stands.1 r)
  failure-Handled i x s false is_over there alive r =
      elim (Bool-cases (s.parts_begun == suc x.num_parts_received)) [
        | inl due ↦
            rw due (expect_one_less-Handled i x s there alive (ground (arith, due)) is_over r)
        | inr other ↦
            let stands =
              live-IsPlaced s.parts_begun x.num_parts_received x.failed_after alive
                (AllPlaced-get_elem? s.parts_begun i x s.senders there r.placed) in
            let one = is_live-some s.parts_begun x.num_parts_received x.failed_after alive in
            rw other (
              inl refl,
              set_at-IsReducing num_parts s i x (fail x) there stands.1
                  (not-awaited s.parts_begun x.num_parts_received x.failed_after alive other)
                  (omega (arith, one)) r,
            )
      ]

  on_sender_failed-Handled :
      (i : ℕ) (s : Reducer V W)
      → IsInOrder (fails i) s
      → IsReducing num_parts s
      → Handled num_parts s (on_sender_failed averaging num_parts i s)
  unfolding on_sender_failed
  on_sender_failed-Handled i s (x, there, alive) r =
      rw (there, on_sender_failed) (failure-Handled i x s s.finished refl there alive r)

  pub finalize-finished : (s : Reducer V W) → s.finished ≡ true → finalize s ≡ s
  unfolding finalize
  finalize-finished s h = if_true _ _ s.finished h
    where
      if_true : {A : Type 0} (a b : A) (x : Bool) → x ≡ true → (if x then a else b) ≡ a
      if_true a b true h = refl
      if_true a b false h = cc

  finalize-Handled : (s : Reducer V W) → IsReducing num_parts s → IsReducing num_parts (finalize s)
  finalize-Handled s r = elim r.waits [
    | inl over ↦ subst (IsReducing num_parts) (sym (finalize-finished s over.finished)) r
    | inr (u, left) ↦ finalize-IsReducing num_parts s u.unfinished r.begun r.placed
  ]

  handle-Handled :
      (event : Event V W) (s : Reducer V W)
      → IsInOrder event s
      → IsReducing num_parts s
      → Handled num_parts s (handle averaging num_parts event s)
  unfolding handle
  handle-Handled (accumulates i part value weight) s order r =
      accumulate_part-Handled averaging num_parts i part value weight s order r
  handle-Handled (wakes i part value weight) s order r = absurd order
  handle-Handled (fails i) s order r = on_sender_failed-Handled i s order r
  handle-Handled cancels s order r = absurd order
  handle-Handled finalizes s order r = (inl refl, finalize-Handled s r)

  initial-IsReducing :
      (num_senders : ℕ) → IsReducing num_parts (initial averaging num_parts num_senders)
  unfolding initial reset_accumulators
  initial-IsReducing num_senders =
      let (ready, placed) = fresh-Ready num_senders in
      let started =
        begin_part-IsReducing averaging num_parts (unstarted averaging num_parts num_senders) refl
          (omega arith) ready placed in
      elim (Bool-cases (0 == num_senders)) [
        | inl same ↦ rw (same, initial, reset_accumulators) started
        | inr other ↦ rw (other, initial, reset_accumulators) started
      ]

  pub Reachable-IsReducing :
      {num_senders : ℕ} (s : Reducer V W)
      → Reachable averaging num_parts num_senders s
      → IsReducing num_parts s
  Reachable-IsReducing _ starts = initial-IsReducing _
  Reachable-IsReducing _ (goes_on s event before order) =
      (handle-Handled event s order (Reachable-IsReducing s before)).1
