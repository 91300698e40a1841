-- ===== src/Server/TensorParts/Reducer.antt =====
-- `TensorPartReducer` of agora_server/src/agora_server/core/all_reduce/partition.py: the parts of
-- the senders are averaged, one part after the other. A coroutine is its code up to the next
-- `await`, and the code after a wait; tensors, weights and the shapes are parameters.
pub mod Senders
pub mod Runs
pub mod Underway
pub mod Parts
pub mod Progress
pub mod Cancelled
pub mod Log
pub mod Averaged
pub mod Contributions
pub mod Averages
mod Tests
use agora_test.Prelude.{
  ℕ, zero, suc, ◌+◌, List, [], ◌∷◌, ◌++◌, Bool, true, false, ◌||◌, Option, none, some, ltb, leb,
  ◌==◌, if◌then◌else◌, length, get_elem?, map, sum, replicate,
}

pub data ReducerError : Type 0 where
  invalid_sender_index invalid_part_index index_error finalized banned assertion_error
        attribute_error invalid_state :
      ReducerError

-- What a call gives: it returns or goes on to await the future of its part, it waits for an
-- earlier part, or it raises.
pub data Reply : Type 0 where
  returns at_barrier : Reply
  raises : ReducerError → Reply

pub data Future (V : Type 0) : Type 0 where
  pending cancelled : Future V
  result : V → Future V

-- `future.cancel()`, which leaves a future that is done as it is
unfoldable pub cancel : {V : Type 0} → Future V → Future V
cancel pending = cancelled
cancel cancelled = cancelled
cancel (result value) = result value

-- The tensors and the weights: `torch.zeros` of the shape of a part, `a.add_(b, alpha=w)`,
-- `a.div_(w)`.
pub record Averaging (V W : Type 0) : Type 0 where
  pub zeros : ℕ → V
  pub add : V → V → W → V
  pub div : V → W → V
  pub no_weight : W
  pub add_weight : W → W → W

-- `num_parts_received[i]` and `sender_failed_after[i]`, where none is `float("inf")`
pub record Sender : Type 0 where
  pub num_parts_received : ℕ
  pub failed_after : Option ℕ

-- `parts_begun` is `current_part_index + 1`. The futures of the earlier parts are kept for the
-- coroutines that hold them.
pub record Reducer (V W : Type 0) : Type 0 where
  pub parts_begun : ℕ
  pub current_part_accumulated_from : ℕ
  pub num_current_senders : ℕ
  pub accumulator : Option V
  pub denominator : W
  pub current_part_future : Future V
  pub earlier_futures : List (Future V)
  pub finished : Bool
  pub senders : List Sender

-- `part < failed_after`
unfoldable pub is_sent : ℕ → Sender → ℕ
is_sent part sender = elim sender.failed_after [
  | none ↦ 1
  | some failed_after ↦ if ltb part failed_after then 1 else 0
]

-- `xs[i] = x`, for an index within the list
unfoldable pub set_at : {A : Type 0} → ℕ → A → List A → List A
set_at i x [] = []
set_at zero x (y ∷ ys) = x ∷ ys
set_at (suc i) x (y ∷ ys) = y ∷ set_at i x ys

-- `self.num_parts_received[i] += 1`
abbrev pub receive : Sender → Sender
receive sender = record sender { num_parts_received = suc sender.num_parts_received }

unfoldable pub finalize : {V W : Type 0} → Reducer V W → Reducer V W
finalize s = if s.finished then s else record s {
  current_part_future = cancel s.current_part_future;
  accumulator = none;
  finished = true;
}

-- A task that awaits the future of the current part is cancelled: `Task.cancel` cancels the
-- future that it awaits.
unfoldable pub cancel_task : {V W : Type 0} → Reducer V W → Reducer V W
cancel_task s = record s { current_part_future = cancel s.current_part_future }

module _ {V W : Type 0} (averaging : Averaging V W) (num_parts : ℕ) where
  -- `reset_accumulators` after its assertion
  unfoldable pub begin_part : Reducer V W → Reducer V W
  begin_part s = if leb num_parts s.parts_begun then finalize s else record s {
    parts_begun = suc s.parts_begun;
    current_part_accumulated_from = 0;
    earlier_futures = s.earlier_futures ++ (s.current_part_future ∷ []);
    current_part_future = pending;
    num_current_senders = sum (map (is_sent s.parts_begun) s.senders);
    accumulator = some (averaging.zeros s.parts_begun);
    denominator = averaging.no_weight;
  }

  unfoldable pub reset_accumulators : Reducer V W → Reducer V W × Reply
  reset_accumulators s =
      if (s.current_part_accumulated_from == s.num_current_senders) || (s.parts_begun == 0)
      then (begin_part s, returns)
      else (s, raises assertion_error)

  -- `set_result` of the average, which the accumulator itself becomes
  unfoldable pub finish_part : Reducer V W → Reducer V W × Reply
  finish_part s = elim s.accumulator [
    | none ↦ (s, raises attribute_error)
    | some total ↦ elim s.current_part_future [
      | pending ↦ reset_accumulators (record s {
        accumulator = some (averaging.div total s.denominator);
        current_part_future = result (averaging.div total s.denominator);
      })
      | cancelled ↦ (
        record s { accumulator = some (averaging.div total s.denominator) },
        raises invalid_state,
      )
      | result value ↦ (
        record s { accumulator = some (averaging.div total s.denominator) },
        raises invalid_state,
      )
    ]
  ]

  unfoldable pub check_current_part_finished : Reducer V W → Reducer V W × Reply
  check_current_part_finished s =
      if ltb s.num_current_senders s.current_part_accumulated_from
      then (s, raises assertion_error)
      else (if s.current_part_accumulated_from == s.num_current_senders
          then finish_part s
          else (s, returns))

  unfoldable pub add_part : V → W → Reducer V W → Reducer V W × Reply
  add_part tensor_part weight s = elim s.accumulator [
    | none ↦ (s, raises attribute_error)
    | some total ↦ check_current_part_finished (record s {
      accumulator = some (averaging.add total tensor_part weight);
      current_part_accumulated_from = suc s.current_part_accumulated_from;
      denominator = averaging.add_weight s.denominator weight;
    })
  ]

  -- `accumulate_part` from the test of its loop on; a sender that is not banned has the infinite
  -- `sender_failed_after`.
  unfoldable pub enter : ℕ → ℕ → V → W → Reducer V W → Reducer V W × Reply
  enter sender_index part_index tensor_part weight s =
      if leb s.parts_begun part_index
      then (s, at_barrier)
      else (elim (get_elem? s.senders sender_index) [
        | none ↦ (s, raises index_error)
        | some sender ↦ elim sender.failed_after [
          | some failed_after ↦ (s, raises banned)
          | none ↦
              if s.parts_begun == suc part_index
              then add_part tensor_part weight s
              else (s, raises assertion_error)
        ]
      ])

  unfoldable pub accumulate_part : ℕ → ℕ → V → W → Reducer V W → Reducer V W × Reply
  accumulate_part sender_index part_index tensor_part weight s =
      elim (get_elem? s.senders sender_index) [
        | none ↦ (s, raises invalid_sender_index)
        | some sender ↦
            if ltb part_index num_parts
            then enter sender_index part_index tensor_part weight
                (record s { senders = set_at sender_index (receive sender) s.senders })
            else (s, raises invalid_part_index)
      ]

  -- `accumulate_part` when its wait for an earlier part ends
  unfoldable pub wake : ℕ → ℕ → V → W → Reducer V W → Reducer V W × Reply
  wake sender_index part_index tensor_part weight s =
      if s.finished
      then (s, raises finalized)
      else enter sender_index part_index tensor_part weight s

  -- One sender less for the current part. Without any, the count is -1 and the assertion fails.
  unfoldable pub expect_one_less : Reducer V W → Reducer V W × Reply
  expect_one_less s = elim s.num_current_senders [
    | zero ↦ (s, raises assertion_error)
    | suc n ↦ check_current_part_finished (record s { num_current_senders = n })
  ]

  unfoldable pub on_sender_failed : ℕ → Reducer V W → Reducer V W × Reply
  on_sender_failed sender_index s = elim (get_elem? s.senders sender_index) [
    | none ↦ (s, raises index_error)
    | some sender ↦
        let failed = record sender { failed_after = some sender.num_parts_received } in
        let s' = record s { senders = set_at sender_index failed s.senders } in
        if s.finished
        then (s', returns)
        else (if s.parts_begun == suc sender.num_parts_received
            then expect_one_less s'
            else (s', returns))
  ]

  -- the fields as `__init__` sets them
  abbrev pub unstarted : ℕ → Reducer V W
  unstarted num_senders = record {
    parts_begun = 0;
    current_part_accumulated_from = 0;
    num_current_senders = num_senders;
    accumulator = none;
    denominator = averaging.no_weight;
    current_part_future = pending;
    earlier_futures = [];
    finished = false;
    senders = replicate num_senders (record { num_parts_received = 0; failed_after = none });
  }

  unfoldable pub initial : ℕ → Reducer V W
  initial num_senders = (reset_accumulators (unstarted num_senders)).0

-- What the runner does with a reducer.
pub data Event (V W : Type 0) : Type 0 where
  accumulates wakes : ℕ → ℕ → V → W → Event V W
  fails : ℕ → Event V W
  cancels finalizes : Event V W

module _ {V W : Type 0} (averaging : Averaging V W) (num_parts : ℕ) where
  unfoldable pub handle : Event V W → Reducer V W → Reducer V W × Reply
  handle (accumulates i part value weight) s =
      accumulate_part averaging num_parts i part value weight s
  handle (wakes i part value weight) s = wake averaging num_parts i part value weight s
  handle (fails i) s = on_sender_failed averaging num_parts i s
  handle cancels s = (cancel_task s, returns)
  handle finalizes s = (finalize s, returns)

  unfoldable pub run : List (Event V W) → Reducer V W → Reducer V W
  run [] s = s
  run (event ∷ events) s = run events (handle event s).0
