-- ===== src/Server/TensorParts/Reducer/Parts.antt =====
-- A part of a sender, which keeps what holds of the reducer.
use agora_test.Prelude.{
  ℕ, suc, ◌+◌, true, false, none, some, ltb, leb, ◌==◌, get_elem?, ◌≡◌, refl, arith, inl, inr,
  Option-cases,
}
use agora_test.Server.TensorParts.Reducer.{
  Sender, set_at, receive, Reducer, Averaging, accumulates, add_part, enter, accumulate_part,
}
use agora_test.Server.TensorParts.Reducer.Senders.{
  is_awaited, awaited, sum-set_at, AllPlaced-get_elem?, AllPlaced-set_at, is_awaited-due,
  is_awaited-receive, IsPlaced-receive, failed-receive, live-IsPlaced, get_elem?-set_at, fail,
}
use agora_test.Server.TensorParts.Reducer.Runs.{IsInOrder}
use agora_test.Server.TensorParts.Reducer.Underway.{
  Underway, IsReducing, Handled, check_current_part_finished-Fine, set_at-IsReducing,
}

module _ {V W : Type 0} (i : ℕ) (x : Sender) (s : Reducer V W) where
  -- A sender that is awaited submits its part, which makes the sums `t` and `d`.
  pub submit-Underway :
      (t : V) (d : W)
      → get_elem? s.senders i ≡ some x
      → x.failed_after ≡ none
      → s.parts_begun ≡ suc x.num_parts_received
      → Underway s
      → Underway (record s {
        senders = set_at i (receive x) s.senders;
        accumulator = some t;
        current_part_accumulated_from = suc s.current_part_accumulated_from;
        denominator = d;
      })
  submit-Underway t d there alive same u =
      let was = is_awaited-due s.parts_begun x alive same in
      let is = is_awaited-receive s.parts_begun x alive same in
      let one = sum-set_at (is_awaited s.parts_begun) i x (receive x) s.senders there in
      let counted : suc s.current_part_accumulated_from
            + awaited s.parts_begun (set_at i (receive x) s.senders)
          ≡ s.num_current_senders =
        omega (arith, one, was, is, u.counted) in
      record {
        total = t;
        accumulator = refl;
        future = u.future;
        unfinished = u.unfinished;
        counted = counted;
      }

  -- A sender that is awaited fails, which leaves `n` for the part.
  pub fail-Underway :
      get_elem? s.senders i ≡ some x
      → x.failed_after ≡ none
      → s.parts_begun ≡ suc x.num_parts_received
      → Underway s
      → (n : ℕ) × (s.num_current_senders ≡ suc n)
        × Underway (record s { senders = set_at i (fail x) s.senders; num_current_senders = n })
  fail-Underway there alive same u =
      let was = is_awaited-due s.parts_begun x alive same in
      let one = sum-set_at (is_awaited s.parts_begun) i x (fail x) s.senders there in
      (
        s.current_part_accumulated_from + awaited s.parts_begun (set_at i (fail x) s.senders),
        omega (arith, one, was, u.counted),
        record {
          total = u.total;
          accumulator = u.accumulator;
          future = u.future;
          unfinished = u.unfinished;
          counted = refl;
        },
      )

module _ {V W : Type 0} (averaging : Averaging V W) (num_parts : ℕ) where
  -- The contribution of a sender that is awaited.
  add_part-Handled :
      (i : ℕ) (x : Sender) (value : V) (weight : W) (s : Reducer V W)
      → get_elem? s.senders i ≡ some x
      → x.failed_after ≡ none
      → s.parts_begun ≡ suc x.num_parts_received
      → IsReducing num_parts s
      → Handled num_parts s (
          add_part averaging num_parts value weight
            (record s { senders = set_at i (receive x) s.senders }))
  unfolding add_part
  add_part-Handled i x value weight s there alive same r =
      let placed = IsPlaced-receive s.parts_begun x alive same in
      let all = AllPlaced-set_at s.parts_begun i (receive x) s.senders placed r.placed in
      elim r.waits [
        | inl over ↦ rw over.accumulator (
          inr (inr (refl, over.finished)),
          record {
            begun = r.begun;
            placed = all;
            waits = inl (record { finished = over.finished; accumulator = refl });
          },
        )
        | inr (u, some_left) ↦
            let (returned, reducing) =
              check_current_part_finished-Fine averaging num_parts _ r.begun all (
                submit-Underway i x s (averaging.add u.total value weight)
                  (averaging.add_weight s.denominator weight) there alive same u) in
            rw u.accumulator (inl returned, reducing)
      ]

  pub accumulate_part-Handled :
      (i part : ℕ) (value : V) (weight : W) (s : Reducer V W)
      → IsInOrder (accumulates i part value weight) s
      → IsReducing num_parts s
      → Handled num_parts s (accumulate_part averaging num_parts i part value weight s)
  unfolding accumulate_part enter
  accumulate_part-Handled i part value weight s (x, there, next, begun) r =
      let placed = AllPlaced-get_elem? s.parts_begun i x s.senders there r.placed in
      let within : ltb part num_parts ≡ true = ground (arith, begun, r.begun) in
      let open_now : leb s.parts_begun part ≡ false = ground (arith, begun) in
      let found = get_elem?-set_at i x (receive x) s.senders there in
      elim (Option-cases x.failed_after) [
        | inr (f, failed) ↦
            let (placed', same, alike) =
              failed-receive s.parts_begun x.num_parts_received x.failed_after f failed placed in
            rw (there, within, accumulate_part, enter, open_now, found, failed)
              (
                inr (inl refl),
                set_at-IsReducing num_parts s i x (receive x) there placed' same
                    (omega (arith, alike)) r,
              )
        | inl alive ↦
            let due : s.parts_begun ≡ suc x.num_parts_received =
              let stands =
                live-IsPlaced s.parts_begun x.num_parts_received x.failed_after alive placed in
              omega (arith, stands.0, next, begun) in
            let current : (s.parts_begun == suc part) ≡ true = ground (arith, due, next) in
            rw (there, within, accumulate_part, enter, open_now, found, alive, current)
              (add_part-Handled i x value weight s there alive due r)
      ]
