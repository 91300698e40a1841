-- ===== src/Server/TensorParts/Reducer/Contributions.antt =====
-- The contribution of a sender to the sums and the averages of a reducer.
use agora_test.Prelude.{
  ℕ, suc, List, [], ◌∷◌, ◌++◌, true, false, none, some, ltb, leb, ◌==◌, get_elem?, ◌≡◌, ap, sym,
  ◌∙◌, arith, inl, inr, Option-cases,
}
use agora_test.Server.TensorParts.Reducer.{
  Sender, set_at, receive, Reducer, Averaging, accumulates, add_part, enter, accumulate_part,
}
use agora_test.Server.TensorParts.Reducer.Senders.{
  is_awaited, sum-set_at, is_awaited-due, is_awaited-receive, live-IsPlaced, failed-receive,
  get_elem?-set_at, AllPlaced-get_elem?,
}
use agora_test.Server.TensorParts.Reducer.Underway.{IsReducing}
use agora_test.Server.TensorParts.Reducer.Parts.{submit-Underway}
use agora_test.Server.TensorParts.Reducer.Runs.{IsInOrder}
use agora_test.Server.TensorParts.Reducer.Log.{
  of_part, logged, logged-live, logged-failed, of_part-snoc, total, weights, total-snoc,
  weights-snoc,
}
use agora_test.Server.TensorParts.Reducer.Averaged.{
  IsAveraged, check_current_part_finished-IsAveraged, with_senders-IsAveraged, Earlier-snoc,
}

module _ {V W : Type 0} (averaging : Averaging V W) (num_parts : ℕ) where
  -- The contribution of a sender that is awaited, where the reducer is over.
  late-IsAveraged :
      (i : ℕ) (x : Sender) (c : V × W) (cur : ℕ) (log : List (ℕ × (V × W))) (s : Reducer V W)
      → get_elem? s.senders i ≡ some x
      → x.failed_after ≡ none
      → cur ≡ x.num_parts_received
      → s.parts_begun ≡ suc x.num_parts_received
      → s.finished ≡ true
      → IsAveraged averaging log s
      → IsAveraged averaging
          (log ++ ((cur, c) ∷ []))
          (record s { senders = set_at i (receive x) s.senders; accumulator = none })
  late-IsAveraged i x c cur log s there alive at same over a =
      let e = Earlier-snoc averaging log cur c s (omega (arith, at, same)) a.earlier in
      let was = is_awaited-due s.parts_begun x alive same in
      let one = sum-set_at (is_awaited s.parts_begun) i x (receive x) s.senders there in
      record {
        earlier = record { size = e.size; later = e.later; given = e.given };
        sums = λ cur' at_cur going. cc;
        now = λ cur' v at_cur h.
            let none_left = (a.now cur' v at_cur h).1 in
            absurd
              (omega (arith, none_left, was, one, is_awaited-receive s.parts_begun x alive same));
      }

  pub accumulate_part-IsAveraged :
      (i part : ℕ) (value : V) (weight : W) (log : List (ℕ × (V × W))) (s : Reducer V W)
      → IsInOrder (accumulates i part value weight) s
      → IsReducing num_parts s
      → IsAveraged averaging log s
      → IsAveraged averaging
          (logged (accumulates i part value weight) s log)
          (accumulate_part averaging num_parts i part value weight s).0
  unfolding accumulate_part enter add_part
  accumulate_part-IsAveraged i part value weight log s (x, there, next, begun) r a =
      let placed = AllPlaced-get_elem? s.parts_begun i x s.senders there r.placed in
      let within : ltb part num_parts ≡ true = ground (arith, begun, r.begun) in
      let open_now : leb s.parts_begun part ≡ false = ground (arith, begun) in
      let found = get_elem?-set_at i x (receive x) s.senders there in
      let one = sum-set_at (is_awaited s.parts_begun) i x (receive x) s.senders there in
      elim (Option-cases x.failed_after) [
        | inr (f, failed) ↦
            let (placed', same, alike) =
              failed-receive s.parts_begun x.num_parts_received x.failed_after f failed placed in
            rw
              (
                logged-failed i part f value weight x log s there failed,
                there,
                within,
                accumulate_part,
                enter,
                open_now,
                found,
                failed,
              )
              (with_senders-IsAveraged averaging log s _ (omega (arith, one, same)) a)
        | inl alive ↦
            let stands =
              live-IsPlaced s.parts_begun x.num_parts_received x.failed_after alive placed in
            let due : s.parts_begun ≡ suc x.num_parts_received =
              omega (arith, stands.0, next, begun) in
            let at_part : s.parts_begun ≡ suc part = omega (arith, due, next) in
            let current : (s.parts_begun == suc part) ≡ true = ground (arith, due, next) in
            let e = Earlier-snoc averaging log part (value, weight) s at_part a.earlier in
            let grown = logged-live i part value weight x log s there alive in
            elim r.waits [
              | inl over ↦
                  rw
                    (
                      grown, there, within, accumulate_part, enter, open_now, found, alive, current,
                      over.accumulator,
                    )
                    (late-IsAveraged i x (value, weight) part log s there alive next due
                      over.finished a)
              | inr (u, some_left) ↦
                  let so_far = a.sums part at_part u.unfinished in
                  rw
                    (
                      grown, there, within, accumulate_part, enter, open_now, found, alive, current,
                      so_far.accumulator, add_part,
                    )
                    (check_current_part_finished-IsAveraged averaging num_parts _ part _ at_part
                      (submit-Underway i x s _ _ there alive due u)
                      (record {
                        accumulator = ap some (
                            sym (
                              ap (total averaging (averaging.zeros part))
                                (of_part-snoc part (value, weight) log)
                              ∙ total-snoc averaging (averaging.zeros part) (value, weight)
                                  (of_part part log)));
                        denominator =
                            ap (λ d. averaging.add_weight d weight) so_far.denominator
                            ∙ sym (
                                ap (weights averaging averaging.no_weight)
                                  (of_part-snoc part (value, weight) log)
                                ∙ weights-snoc averaging averaging.no_weight (value, weight)
                                    (of_part part log));
                      })
                      (record { size = e.size; later = e.later; given = e.given }))
            ]
      ]
