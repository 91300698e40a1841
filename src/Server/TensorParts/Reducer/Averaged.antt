-- ===== src/Server/TensorParts/Reducer/Averaged.antt =====
-- What holds of the sums and the averages of a reducer, for the log of the contributions.
use agora_test.Prelude.{
  ℕ, suc, ◌≤◌, ◌<◌, List, [], ◌∷◌, ◌++◌, false, some, ltb, leb, ◌==◌, get_elem?, ◌≡◌, refl, ap, sym,
  ◌∙◌, arith, Bool-cases, inl, inr, subst, length, length-append, get_elem?-append_lt,
  get_elem?-append_length,
}
use agora_test.Server.TensorParts.Reducer.{
  Sender, Reducer, Future, result, cancel, Averaging, finalize, begin_part, reset_accumulators,
  finish_part, check_current_part_finished,
}
use agora_test.Server.TensorParts.Reducer.Senders.{awaited}
use agora_test.Server.TensorParts.Reducer.Underway.{Underway}
use agora_test.Server.TensorParts.Reducer.Log.{of_part, of_part-other, total, weights, average}

result-injective : {V : Type 0} {a b : V} → result a ≡ result b → a ≡ b
result-injective h = cc

module _ {V W : Type 0} (averaging : Averaging V W) where
  abbrev average_of : ℕ → List (ℕ × (V × W)) → V
  average_of part log = average averaging part (of_part part log)

  -- What the part `cur` has so far is what is logged for it.
  pub record Sums (cur : ℕ) (log : List (ℕ × (V × W))) (s : Reducer V W) : Type 0 where
    pub accumulator : s.accumulator ≡ some (total averaging (averaging.zeros cur) (of_part cur log))
    pub denominator : s.denominator ≡ weights averaging averaging.no_weight (of_part cur log)

  -- The averages before the part under way, which has the index `cur` and none later is logged.
  pub record Earlier (log : List (ℕ × (V × W))) (s : Reducer V W) : Type 0 where
    pub size : length s.earlier_futures ≡ s.parts_begun
    pub later : (part : ℕ) → s.parts_begun ≤ part → of_part part log ≡ []
    pub given :
        (part : ℕ)
        → suc part < s.parts_begun
        → get_elem? s.earlier_futures (suc part) ≡ some (result (average_of part log))

  pub record IsAveraged (log : List (ℕ × (V × W))) (s : Reducer V W) : Type 0 where
    pub earlier : Earlier log s
    pub sums : (cur : ℕ) → s.parts_begun ≡ suc cur → s.finished ≡ false → Sums cur log s
    pub now :
        (cur : ℕ) (v : V)
        → s.parts_begun ≡ suc cur
        → s.current_part_future ≡ result v
        → (v ≡ average_of cur log) × (awaited s.parts_begun s.senders ≡ 0)

  result-average :
      (log : List (ℕ × (V × W))) (cur cur' : ℕ) (v : V) (future : Future V)
      → future ≡ result (average_of cur log)
      → future ≡ result v
      → cur ≡ cur'
      → v ≡ average_of cur' log
  result-average log cur cur' v future is has same =
      result-injective (sym has ∙ is) ∙ ap (λ c. average_of c log) same

  pub fresh-Sums :
      (log : List (ℕ × (V × W))) (cur cur' : ℕ) (s : Reducer V W)
      → cur ≡ cur'
      → s.accumulator ≡ some (averaging.zeros cur)
      → s.denominator ≡ averaging.no_weight
      → of_part cur log ≡ []
      → Sums cur' log s
  fresh-Sums log cur cur' s same zeros nothing empty =
      subst (λ c. Sums c log s) same
        (record { accumulator = rw empty zeros; denominator = rw empty nothing })

  -- Other senders, none of which is awaited anew.
  pub with_senders-IsAveraged :
      (log : List (ℕ × (V × W))) (s : Reducer V W) (senders : List Sender)
      → awaited s.parts_begun senders ≤ awaited s.parts_begun s.senders
      → IsAveraged log s
      → IsAveraged log (record s { senders = senders })
  with_senders-IsAveraged log s senders le a = record {
    earlier = record { size = a.earlier.size; later = a.earlier.later; given = a.earlier.given };
    sums = λ cur at_cur going.
        let so_far = a.sums cur at_cur going in
        record { accumulator = so_far.accumulator; denominator = so_far.denominator };
    now = λ cur v at_cur h.
        let (same, none_left) = a.now cur v at_cur h in (same, omega (arith, le, none_left));
  }

  -- One contribution more to the part under way.
  pub Earlier-snoc :
      (log : List (ℕ × (V × W))) (cur : ℕ) (c : V × W) (s : Reducer V W)
      → s.parts_begun ≡ suc cur
      → Earlier log s
      → Earlier (log ++ ((cur, c) ∷ [])) s
  Earlier-snoc log cur c s begun e = record {
    size = e.size;
    later = λ part le.
        of_part-other part cur c log (λ same. absurd (omega (arith, same, begun, le)))
        ∙ e.later part le;
    given = λ part before.
        e.given part before
        ∙ ap (λ cs. some (result (average averaging part cs)))
            (sym
              (of_part-other part cur c log (λ same. absurd (omega (arith, same, begun, before)))));
  }

  given_last :
      (log : List (ℕ × (V × W))) (cur part : ℕ) (future : Future V) (futures : List (Future V))
      → future ≡ result (average_of cur log)
      → cur ≡ part
      → suc part ≡ length futures
      → get_elem? (futures ++ (future ∷ [])) (suc part) ≡ some (result (average_of part log))
  given_last log cur part future futures done same at_end =
      get_elem?-append_length futures future (suc part) at_end
      ∙ ap some done
      ∙ ap (λ c. some (result (average_of c log))) same

  module _ (num_parts : ℕ) where
    pub finalize-IsAveraged :
        (log : List (ℕ × (V × W))) (s : Reducer V W)
        → s.finished ≡ false
        → Earlier log s
        → ((cur : ℕ) (v : V)
            → s.parts_begun ≡ suc cur
            → cancel s.current_part_future ≡ result v
            → (v ≡ average_of cur log) × (awaited s.parts_begun s.senders ≡ 0))
        → IsAveraged log (finalize s)
    unfolding finalize
    finalize-IsAveraged log s unfinished e now = rw unfinished (record {
      earlier = record { size = e.size; later = e.later; given = e.given };
      sums = λ cur at_cur going. cc;
      now = now;
    })

    -- The next part after the result `v` of the part `cur`.
    begin_part-IsAveraged :
        (log : List (ℕ × (V × W))) (cur : ℕ) (s : Reducer V W)
        → s.finished ≡ false
        → s.parts_begun ≡ suc cur
        → s.current_part_future ≡ result (average_of cur log)
        → awaited s.parts_begun s.senders ≡ 0
        → Earlier log s
        → IsAveraged log (begin_part averaging num_parts s)
    unfolding begin_part cancel
    begin_part-IsAveraged log cur s unfinished begun done none_left e =
        elim (Bool-cases (leb num_parts s.parts_begun)) [
          | inl last ↦ rw last (
              finalize-IsAveraged log s unfinished e (λ cur' v at_cur is_v. (
                result-average log cur cur' v _ (ap cancel done) is_v
                    (omega (arith, begun, at_cur)),
                none_left,
              )))
          | inr more ↦ rw more (record {
            earlier = record {
              size =
                  omega
                    (arith, e.size, length-append s.earlier_futures (s.current_part_future ∷ []));
              later = λ part le. e.later part (omega (arith, le));
              given = λ part before. elim (Bool-cases (suc part == s.parts_begun)) [
                | inr other ↦
                    get_elem?-append_lt s.earlier_futures _ (suc part)
                      (ground (arith, other, before, e.size))
                    ∙ e.given part (ground (arith, other, before))
                | inl last_one ↦
                    given_last log cur part s.current_part_future s.earlier_futures done
                      (ground (arith, last_one, begun)) (ground (arith, last_one, e.size))
              ];
            };
            sums = λ cur' at_cur going.
                let same : s.parts_begun ≡ cur' = omega (arith, at_cur) in
                fresh-Sums log s.parts_begun cur' _ same refl refl
                  (e.later s.parts_begun (omega arith));
            now = λ cur' v at_cur h. cc;
          })
        ]

    pub check_current_part_finished-IsAveraged :
        (log : List (ℕ × (V × W))) (cur : ℕ) (s : Reducer V W)
        → s.parts_begun ≡ suc cur
        → Underway s
        → Sums cur log s
        → Earlier log s
        → IsAveraged log (check_current_part_finished averaging num_parts s).0
    unfolding check_current_part_finished finish_part reset_accumulators
    check_current_part_finished-IsAveraged log cur s begun u sums e =
        let expected : ltb s.num_current_senders s.current_part_accumulated_from ≡ false =
          ground (arith, u.counted) in
        elim (Bool-cases (s.current_part_accumulated_from == s.num_current_senders)) [
          | inl all ↦
              rw (expected, all, sums.accumulator, u.future, all)
                (begin_part-IsAveraged log cur _ u.unfinished begun
                  (ap
                    (λ w.
                      result
                        (averaging.div (total averaging (averaging.zeros cur) (of_part cur log)) w))
                    sums.denominator)
                  (ground (arith, all, u.counted))
                  (record { size = e.size; later = e.later; given = e.given }))
          | inr some_left ↦
              rw (expected, some_left)
                (record {
                  earlier = e;
                  sums = λ cur' at_cur going.
                      subst (λ c. Sums c log s) (omega (arith, begun, at_cur)) sums;
                  now = λ cur' v at_cur h. cc;
                })
        ]
