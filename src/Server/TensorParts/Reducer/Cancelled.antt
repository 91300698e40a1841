-- ===== src/Server/TensorParts/Reducer/Cancelled.antt =====
-- A task that is cancelled while it awaits the future of the current part.
use agora_test.Prelude.{
  ℕ, zero, suc, List, [], ◌∷◌, Bool, true, false, some, leb, if◌then◌else◌, get_elem?, ◌≡◌, refl,
  Bool-cases, inl, inr, Option-cases,
}
use agora_test.Server.TensorParts.Reducer.{
  Sender, set_at, Reducer, Reply, pending, cancelled, cancel, Averaging, Event, accumulates, wakes,
  fails, cancels, finalizes, handle, run, finish_part, check_current_part_finished, add_part, enter,
  accumulate_part, wake, expect_one_less, on_sender_failed, cancel_task,
}

-- The part `begun` is under way, and its future is cancelled.
record IsStopped {V W : Type 0} (begun : ℕ) (s : Reducer V W) : Type 0 where
  begun_stays : s.parts_begun ≡ begun
  future : s.current_part_future ≡ cancelled
  unfinished : s.finished ≡ false

abbrev AllBefore : {V W : Type 0} → List (Event V W) → Type 0
AllBefore [] = Unit
AllBefore (finalizes ∷ events) = ⊥
AllBefore (_ ∷ events) = AllBefore events

if-IsStopped :
    {V W : Type 0} (begun : ℕ) (test : Bool) (a b : Reducer V W × Reply)
    → IsStopped begun a.0
    → IsStopped begun b.0
    → IsStopped begun (if test then a else b).0
if-IsStopped begun true a b h k = h
if-IsStopped begun false a b h k = k

AllBefore-cons :
    {V W : Type 0} (event : Event V W) (events : List (Event V W))
    → AllBefore (event ∷ events)
    → AllBefore (event ∷ []) × AllBefore events
AllBefore-cons finalizes events h = absurd h
AllBefore-cons (accumulates i part value weight) events h = (tt, h)
AllBefore-cons (wakes i part value weight) events h = (tt, h)
AllBefore-cons (fails i) events h = (tt, h)
AllBefore-cons cancels events h = (tt, h)

with_senders :
    {V W : Type 0} {begun : ℕ} (s : Reducer V W) (senders : List Sender)
    → IsStopped begun s
    → IsStopped begun (record s { senders = senders })
with_senders s senders h = record {
  begun_stays = h.begun_stays;
  future = h.future;
  unfinished = h.unfinished;
}

module _ {V W : Type 0} (averaging : Averaging V W) (num_parts begun : ℕ) where
  finish_part-IsStopped :
      (s : Reducer V W) → IsStopped begun s → IsStopped begun (finish_part averaging num_parts s).0
  unfolding finish_part
  finish_part-IsStopped s h = elim (Option-cases s.accumulator) [
    | inl empty ↦ rw (empty, finish_part) h
    | inr (total, held) ↦
        rw (held, h.future, finish_part)
          (record { begun_stays = h.begun_stays; future = h.future; unfinished = h.unfinished })
  ]

  check_current_part_finished-IsStopped :
      (s : Reducer V W)
      → IsStopped begun s
      → IsStopped begun (check_current_part_finished averaging num_parts s).0
  unfolding check_current_part_finished
  check_current_part_finished-IsStopped s h =
      if-IsStopped begun _ _ _ h (if-IsStopped begun _ _ _ (finish_part-IsStopped s h) h)

  add_part-IsStopped :
      (value : V) (weight : W) (s : Reducer V W)
      → IsStopped begun s
      → IsStopped begun (add_part averaging num_parts value weight s).0
  unfolding add_part
  add_part-IsStopped value weight s h = elim (Option-cases s.accumulator) [
    | inl empty ↦ rw (empty, add_part) h
    | inr (total, held) ↦
        rw (held, add_part)
          (check_current_part_finished-IsStopped _
            (record { begun_stays = h.begun_stays; future = h.future; unfinished = h.unfinished }))
  ]

  enter-IsStopped :
      (i part : ℕ) (value : V) (weight : W) (s : Reducer V W)
      → IsStopped begun s
      → IsStopped begun (enter averaging num_parts i part value weight s).0
  unfolding enter
  enter-IsStopped i part value weight s h = elim (Bool-cases (leb s.parts_begun part)) [
    | inl early ↦ rw (early, enter) h
    | inr now ↦ elim (Option-cases (get_elem? s.senders i)) [
      | inl absent ↦ rw (now, absent, enter) h
      | inr (x, there) ↦ elim (Option-cases x.failed_after) [
        | inr (f, failed) ↦ rw (now, there, failed, enter) h
        | inl alive ↦
            rw (now, there, alive, enter)
              (if-IsStopped begun _ _ _ (add_part-IsStopped value weight s h) h)
      ]
    ]
  ]

  accumulate_part-IsStopped :
      (i part : ℕ) (value : V) (weight : W) (s : Reducer V W)
      → IsStopped begun s
      → IsStopped begun (accumulate_part averaging num_parts i part value weight s).0
  unfolding accumulate_part
  accumulate_part-IsStopped i part value weight s h = elim (Option-cases (get_elem? s.senders i)) [
    | inl absent ↦ rw (absent, accumulate_part) h
    | inr (x, there) ↦
        rw (there, accumulate_part)
          (if-IsStopped begun _ _ _ (enter-IsStopped i part value weight _ (with_senders s _ h)) h)
  ]

  expect_one_less-IsStopped :
      (s : Reducer V W)
      → IsStopped begun s
      → IsStopped begun (expect_one_less averaging num_parts s).0
  unfolding expect_one_less
  expect_one_less-IsStopped s h = by_number s.num_current_senders refl
    where
      by_number :
          (n : ℕ)
          → s.num_current_senders ≡ n
          → IsStopped begun (expect_one_less averaging num_parts s).0
      by_number zero e = rw (e, expect_one_less) h
      by_number (suc n) e =
          rw (e, expect_one_less)
            (check_current_part_finished-IsStopped _ (record {
              begun_stays = h.begun_stays;
              future = h.future;
              unfinished = h.unfinished;
            }))

  on_sender_failed-IsStopped :
      (i : ℕ) (s : Reducer V W)
      → IsStopped begun s
      → IsStopped begun (on_sender_failed averaging num_parts i s).0
  unfolding on_sender_failed
  on_sender_failed-IsStopped i s h = elim (Option-cases (get_elem? s.senders i)) [
    | inl absent ↦ rw (absent, on_sender_failed) h
    | inr (x, there) ↦
        let h' =
          with_senders s
            (set_at i (record x { failed_after = some x.num_parts_received }) s.senders) h in
        rw (there, on_sender_failed)
          (if-IsStopped begun _ _ _ h'
            (if-IsStopped begun _ _ _ (expect_one_less-IsStopped _ h') h'))
  ]

  handle-IsStopped :
      (event : Event V W) (s : Reducer V W)
      → AllBefore (event ∷ [])
      → IsStopped begun s
      → IsStopped begun (handle averaging num_parts event s).0
  unfolding handle wake cancel_task cancel
  handle-IsStopped (accumulates i part value weight) s before h =
      accumulate_part-IsStopped i part value weight s h
  handle-IsStopped (wakes i part value weight) s before h =
      if-IsStopped begun _ _ _ h (enter-IsStopped i part value weight s h)
  handle-IsStopped (fails i) s before h = on_sender_failed-IsStopped i s h
  handle-IsStopped cancels s before h = record {
    begun_stays = h.begun_stays;
    future = rw h.future refl;
    unfinished = h.unfinished;
  }
  handle-IsStopped finalizes s before h = absurd before

  run-IsStopped :
      (events : List (Event V W)) (s : Reducer V W)
      → AllBefore events
      → IsStopped begun s
      → IsStopped begun (run averaging num_parts events s)
  unfolding run
  run-IsStopped [] s before h = h
  run-IsStopped (event ∷ events) s before h =
      let (first, rest) = AllBefore-cons event events before in
      run-IsStopped events _ rest (handle-IsStopped event s first h)

module _ {V W : Type 0} (averaging : Averaging V W) (num_parts : ℕ) where
  -- A task that is cancelled while it awaits the part under way stops the reducer for all senders:
  -- over any events until it is finalized, that part gets no average and no other part is begun.
  pub cancel_task-stops :
      (events : List (Event V W)) (s : Reducer V W)
      → AllBefore events
      → s.finished ≡ false
      → s.current_part_future ≡ pending
      → let s' = run averaging num_parts events (cancel_task s) in
        (s'.parts_begun ≡ s.parts_begun)
        × (s'.current_part_future ≡ cancelled)
        × (s'.finished ≡ false)
  unfolding cancel_task cancel
  cancel_task-stops events s before unfinished waiting =
      let stopped =
        run-IsStopped averaging num_parts s.parts_begun events (cancel_task s) before
          (record { begun_stays = refl; future = rw waiting refl; unfinished = unfinished }) in
      (stopped.begun_stays, stopped.future, stopped.unfinished)
