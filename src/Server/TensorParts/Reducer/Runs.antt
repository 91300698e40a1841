-- ===== src/Server/TensorParts/Reducer/Runs.antt =====
-- The events of a reducer in the order of the runner, and the reducers that they lead to.
use agora_test.Prelude.{ℕ, suc, ◌<◌, true, none, some, get_elem?, ◌≡◌, ◌⊎◌}
use agora_test.Server.TensorParts.Reducer.{
  Sender, Reducer, Reply, returns, raises, banned, attribute_error, Averaging, Event, accumulates,
  wakes, fails, cancels, finalizes, handle, initial,
}

module _ {V W : Type 0} where
  -- A sender submits its next part, once the next one after its last is begun; a sender fails once;
  -- no task is cancelled.
  abbrev pub IsInOrder : Event V W → Reducer V W → Type 0
  IsInOrder (accumulates i part value weight) s =
      (sender : Sender) × (get_elem? s.senders i ≡ some sender)
      × (part ≡ sender.num_parts_received)
      × (part < s.parts_begun)
  IsInOrder (wakes i part value weight) s = ⊥
  IsInOrder (fails i) s =
      (sender : Sender) × (get_elem? s.senders i ≡ some sender) × (sender.failed_after ≡ none)
  IsInOrder cancels s = ⊥
  IsInOrder finalizes s = Unit

  -- The reply to an event: at most a sender that has failed is banned, or the reducer is finished.
  abbrev pub IsExpected : Reducer V W → Reply → Type 0
  IsExpected s reply =
      (reply ≡ returns)
      ⊎ ((reply ≡ raises banned) ⊎ ((reply ≡ raises attribute_error) × (s.finished ≡ true)))

  abbrev pub IsWaitedFor : Reducer V W → Type 0
  IsWaitedFor s =
      (i : ℕ) × (sender : Sender) × (get_elem? s.senders i ≡ some sender)
      × (sender.failed_after ≡ none)
      × (s.parts_begun ≡ suc sender.num_parts_received)

module _ {V W : Type 0} (averaging : Averaging V W) (num_parts : ℕ) where
  pub data Reachable (num_senders : ℕ) : Reducer V W → Type 0 where
    starts : Reachable num_senders (initial averaging num_parts num_senders)
    goes_on :
        (s : Reducer V W) (event : Event V W)
        → Reachable num_senders s
        → IsInOrder event s
        → Reachable num_senders (handle averaging num_parts event s).0
