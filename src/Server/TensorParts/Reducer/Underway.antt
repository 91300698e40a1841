-- ===== src/Server/TensorParts/Reducer/Underway.antt =====
-- What holds of a reducer between two events, and that it holds after the end of a part.
use agora_test.Prelude.{
  ℕ, suc, ◌+◌, ◌≤◌, ◌<◌, List, true, false, none, some, ltb, leb, ◌==◌, get_elem?, map, sum, ◌≡◌,
  refl, arith, Bool-cases, inl, inr, ◌⊎◌,
}
use agora_test.Server.TensorParts.Reducer.{
  Sender, is_sent, set_at, Reducer, Reply, returns, pending, Averaging, finalize, begin_part,
  reset_accumulators, finish_part, check_current_part_finished,
}
use agora_test.Server.TensorParts.Reducer.Senders.{
  is_live, is_awaited, IsPlaced, AllPlaced, live, awaited, sum-set_at, AllPlaced-set_at, Ready,
  awaited-Ready,
}
use agora_test.Server.TensorParts.Reducer.Runs.{IsExpected}

live-or-awaited :
    (begun : ℕ) (ss : List Sender)
    → awaited begun ss ≡ live ss
    → (live ss ≡ 0) ⊎ (0 < awaited begun ss)
live-or-awaited begun ss h = elim (Bool-cases (live ss == 0)) [
  | inl none_left ↦ inl (ground (arith, none_left))
  | inr some_left ↦ inr (ground (arith, some_left, h))
]

module _ {V W : Type 0} where
  -- The part under way, of which each sender has been counted or is awaited.
  pub record Underway (s : Reducer V W) : Type 0 where
    pub total : V
    pub accumulator : s.accumulator ≡ some total
    pub future : s.current_part_future ≡ pending
    pub unfinished : s.finished ≡ false
    pub counted :
        s.current_part_accumulated_from + awaited s.parts_begun s.senders ≡ s.num_current_senders

  pub record Over (s : Reducer V W) : Type 0 where
    pub finished : s.finished ≡ true
    pub accumulator : s.accumulator ≡ none

module _ {V W : Type 0} (num_parts : ℕ) where
  pub record IsReducing (s : Reducer V W) : Type 0 where
    pub begun : s.parts_begun ≤ num_parts
    pub placed : AllPlaced s.parts_begun s.senders
    pub waits :
        Over s ⊎ (Underway s × ((live s.senders ≡ 0) ⊎ (0 < awaited s.parts_begun s.senders)))

  abbrev Fine : Reducer V W × Reply → Type 0
  Fine (s, reply) = (reply ≡ returns) × IsReducing s

  abbrev pub Handled : Reducer V W → Reducer V W × Reply → Type 0
  Handled s (s', reply) = IsExpected s reply × IsReducing s'

  pub finalize-IsReducing :
      (s : Reducer V W)
      → s.finished ≡ false
      → s.parts_begun ≤ num_parts
      → AllPlaced s.parts_begun s.senders
      → IsReducing (finalize s)
  unfolding finalize
  finalize-IsReducing s unfinished le placed = rw unfinished (record {
    begun = le;
    placed = placed;
    waits = inl (record { finished = refl; accumulator = refl });
  })

  -- A sender is replaced by one that is awaited no more and no less, and as alive.
  pub set_at-IsReducing :
      (s : Reducer V W) (i : ℕ) (x y : Sender)
      → get_elem? s.senders i ≡ some x
      → IsPlaced s.parts_begun y
      → is_awaited s.parts_begun x ≡ is_awaited s.parts_begun y
      → is_live y ≤ is_live x
      → IsReducing s
      → IsReducing (record s { senders = set_at i y s.senders })
  set_at-IsReducing s i x y there placed same alike r =
      let still = sum-set_at (is_awaited s.parts_begun) i x y s.senders there in
      let alive = sum-set_at is_live i x y s.senders there in
      record {
        begun = r.begun;
        placed = AllPlaced-set_at s.parts_begun i y s.senders placed r.placed;
        waits = elim r.waits [
          | inl over ↦ inl (record { finished = over.finished; accumulator = over.accumulator })
          | inr (u, some_left) ↦ inr (
            record {
              total = u.total;
              accumulator = u.accumulator;
              future = u.future;
              unfinished = u.unfinished;
              counted = omega (arith, still, same, u.counted);
            },
            elim some_left [
              | inl none_left ↦ inl (omega (arith, alive, alike, none_left))
              | inr left ↦ inr (omega (arith, still, same, left))
            ],
          )
        ];
      }

  pub over-set_at :
      (s : Reducer V W) (i : ℕ) (y : Sender)
      → s.finished ≡ true
      → IsPlaced s.parts_begun y
      → IsReducing s
      → IsReducing (record s { senders = set_at i y s.senders })
  over-set_at s i y over placed r = record {
    begun = r.begun;
    placed = AllPlaced-set_at s.parts_begun i y s.senders placed r.placed;
    waits = elim r.waits [
      | inl o ↦ inl (record { finished = o.finished; accumulator = o.accumulator })
      | inr (u, left) ↦ cc
    ];
  }

module _ {V W : Type 0} (averaging : Averaging V W) (num_parts : ℕ) where
  pub begin_part-IsReducing :
      (s : Reducer V W)
      → s.finished ≡ false
      → s.parts_begun ≤ num_parts
      → Ready s.parts_begun s.senders
      → AllPlaced s.parts_begun s.senders
      → IsReducing num_parts (begin_part averaging num_parts s)
  unfolding begin_part
  begin_part-IsReducing s unfinished le ready placed =
      elim (Bool-cases (leb num_parts s.parts_begun)) [
        | inl last ↦ rw last (finalize-IsReducing num_parts s unfinished le placed)
        | inr more ↦
            let counted : 0 + awaited (suc s.parts_begun) s.senders
                ≡ sum (map (is_sent s.parts_begun) s.senders) =
              omega (arith, ready.next, ready.sent) in
            rw more (record {
              begun = ground (arith, more);
              placed = ready.placed;
              waits = inr (
                record {
                  total = averaging.zeros s.parts_begun;
                  accumulator = refl;
                  future = refl;
                  unfinished = unfinished;
                  counted = counted;
                },
                live-or-awaited (suc s.parts_begun) s.senders ready.next,
              );
            })
      ]

  pub check_current_part_finished-Fine :
      (s : Reducer V W)
      → s.parts_begun ≤ num_parts
      → AllPlaced s.parts_begun s.senders
      → Underway s
      → Fine num_parts (check_current_part_finished averaging num_parts s)
  unfolding check_current_part_finished finish_part reset_accumulators
  check_current_part_finished-Fine s le placed u =
      let expected : ltb s.num_current_senders s.current_part_accumulated_from ≡ false =
        ground (arith, u.counted) in
      elim (Bool-cases (s.current_part_accumulated_from == s.num_current_senders)) [
        | inl all ↦
            rw (expected, all, u.accumulator, u.future, all)
              (
                refl,
                begin_part-IsReducing _ u.unfinished le
                    (awaited-Ready s.parts_begun s.senders placed (ground (arith, all, u.counted)))
                    placed,
              )
        | inr some_left ↦
            rw (expected, some_left)
              (
                refl,
                record {
                  begun = le;
                  placed = placed;
                  waits = inr (u, inr (ground (arith, some_left, u.counted)));
                },
              )
      ]
