-- ===== src/Server/TensorParts/Reducer/Tests.antt =====
-- A reducer of two parts and three senders, over numbers.
use agora_test.Prelude.{ℕ, some, ◌+◌, ◌*◌, ◌/◌, List, [], ◌∷◌, false, ◌≡◌, refl, arith, inl}
use agora_test.Server.TensorParts.Reducer.{
  set_at, is_sent, Reducer, raises, invalid_state, pending, cancelled, result, cancel, Averaging,
  Event, accumulates, fails, handle, run, finish_part, check_current_part_finished, add_part, enter,
  accumulate_part, expect_one_less, on_sender_failed, cancel_task, initial, reset_accumulators,
  begin_part,
}
use agora_test.Server.TensorParts.Reducer.Log.{of_part, average, Logged, begins, proceeds}
use agora_test.Server.TensorParts.Reducer.Averages.{future_of, Logged-average}
use agora_test.Server.TensorParts.Reducer.Cancelled.{cancel_task-stops}

abbrev numbers : Averaging ℕ ℕ
numbers = record {
  zeros = λ part. 0;
  add = λ a b w. a + b * w;
  div = λ a w. a / w;
  no_weight = 0;
  add_weight = λ a b. a + b;
}

abbrev two_submitted : List (Event ℕ ℕ)
two_submitted = accumulates 0 0 6 1 ∷ accumulates 2 0 2 1 ∷ []

abbrev waiting : Reducer ℕ ℕ
waiting = (handle numbers 2 (accumulates 0 0 6 1) (initial numbers 2 3)).0

abbrev one_failed : Reducer ℕ ℕ
one_failed = (handle numbers 2 (fails 1) waiting).0

-- The third sender completes the part: the average of 6 and 2.
averages :
    (run numbers 2 (accumulates 2 0 2 1 ∷ []) one_failed).earlier_futures ≡ pending ∷ result 4 ∷ []
unfolding handle run finish_part check_current_part_finished add_part enter accumulate_part
    expect_one_less on_sender_failed initial reset_accumulators begin_part set_at is_sent
averages = refl

abbrev none_left : Reducer ℕ ℕ
none_left = run numbers 2 (fails 0 ∷ fails 1 ∷ fails 2 ∷ []) (initial numbers 2 3)

-- With no sender left, the last part is begun, awaits nobody and is not ended.
stalls :
    (none_left.finished ≡ false) × (none_left.parts_begun ≡ 2) × (none_left.num_current_senders ≡ 0)
unfolding handle run finish_part check_current_part_finished expect_one_less on_sender_failed
    initial reset_accumulators begin_part set_at is_sent
stalls = (refl, refl, refl)

-- The sender that completes the part after a cancellation gets `InvalidStateError`.
completes_cancelled :
    (handle numbers 2 (accumulates 2 0 2 1) (cancel_task one_failed)).1 ≡ raises invalid_state
unfolding handle finish_part check_current_part_finished add_part enter accumulate_part
    expect_one_less on_sender_failed initial reset_accumulators begin_part set_at is_sent
    cancel_task cancel
completes_cancelled = refl

-- The first part has the average, and the contributions of the first and the third sender.
abbrev first_done : Reducer ℕ ℕ
first_done = (handle numbers 2 (accumulates 2 0 2 1) one_failed).0

abbrev two_logged : List (ℕ × (ℕ × ℕ))
two_logged = (0, (6, 1)) ∷ (0, (2, 1)) ∷ []

first_done-Logged : Logged numbers 2 3 first_done two_logged
unfolding handle finish_part check_current_part_finished add_part enter accumulate_part
    expect_one_less on_sender_failed initial reset_accumulators begin_part set_at is_sent
first_done-Logged =
    proceeds one_failed ((0, (6, 1)) ∷ []) (accumulates 2 0 2 1)
      (proceeds waiting ((0, (6, 1)) ∷ []) (fails 1)
        (proceeds (initial numbers 2 3) [] (accumulates 0 0 6 1) begins
          (_, refl, refl, omega arith))
        (_, refl, refl))
      (_, refl, refl, omega arith)

Logged-average_example :
    future_of numbers 2 0 first_done ≡ some (result (average numbers 0 (of_part 0 two_logged)))
unfolding handle finish_part check_current_part_finished add_part enter accumulate_part
    expect_one_less on_sender_failed initial reset_accumulators begin_part set_at is_sent
Logged-average_example =
    Logged-average numbers 2 3 first_done two_logged first_done-Logged 0 (inl (omega arith))

cancel_task-stops_example :
    let s' = run numbers 2 two_submitted (cancel_task one_failed) in
    (s'.parts_begun ≡ one_failed.parts_begun)
    × (s'.current_part_future ≡ cancelled)
    × (s'.finished ≡ false)
unfolding handle finish_part check_current_part_finished add_part enter accumulate_part
    expect_one_less on_sender_failed initial reset_accumulators begin_part set_at is_sent
cancel_task-stops_example = cancel_task-stops numbers 2 two_submitted one_failed tt refl refl
