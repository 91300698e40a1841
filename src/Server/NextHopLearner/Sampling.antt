-- ===== src/Server/NextHopLearner/Sampling.antt =====
-- What a learner counts and how much it logs, over any calls.
use agora_test.Prelude.{
  ℕ, ◌+◌, ◌*◌, ◌/◌, ◌%◌, ◌≤◌, List, [], ◌∷◌, ◌≡◌, refl, Bool, true, false, ◌&&◌, ◌||◌, Option, ◌==◌,
  Text, length, arith, Bool-cases, inl, inr, length-append, Option-cases,
}
use agora_test.Server.BatchMetadata.{BatchMetadata}
use agora_test.Server.NextHopLearner.{
  Line, Learner, fresh, sampled, truth, on_next_learned, on_prev_learned, on_parse_error,
  learn_next, learn_prev, learn, learn_all,
}

-- The log has a line for each fiftieth of each of the three counters.
record Sampled (s : Learner) : Type 0 where
  pub lines :
      length s.log ≡ s.next_hops_learned / 50 + s.prev_hops_learned / 50 + s.parse_errors / 50

abbrev pub events : Learner → ℕ
events s = s.next_hops_learned + s.prev_hops_learned + s.parse_errors

length-sampled :
    (n : ℕ) (line : Line) (log : List Line)
    → length (sampled (n + 1) line log) + n / 50 ≡ length log + (n + 1) / 50
length-sampled n line log = elim (Bool-cases ((n + 1) % 50 == 0)) [
  | inl logged ↦
      let e : (n + 1) % 50 ≡ 0 = ground arith in
      rw logged (omega (arith, length-append {0} log (line ∷ [])))
  | inr skipped ↦ let e : 1 ≤ (n + 1) % 50 = ground arith in rw skipped (omega arith)
]

on_next_learned-Sampled :
    (worker : Text) (uid peer : Option Text) (s : Learner)
    → Sampled s
    → Sampled (on_next_learned worker uid peer s)
unfolding on_next_learned
on_next_learned-Sampled worker uid peer s h = record {
  lines = omega (
    arith,
    h.lines,
    length-sampled s.next_hops_learned (Line.next_learned worker uid peer) s.log,
  );
}

on_prev_learned-Sampled :
    (worker : Text) (uid peer : Option Text) (s : Learner)
    → Sampled s
    → Sampled (on_prev_learned worker uid peer s)
unfolding on_prev_learned
on_prev_learned-Sampled worker uid peer s h = record {
  lines = omega (
    arith,
    h.lines,
    length-sampled s.prev_hops_learned (Line.prev_learned worker uid peer) s.log,
  );
}

on_parse_error-Sampled : (line : Line) (s : Learner) → Sampled s → Sampled (on_parse_error line s)
unfolding on_parse_error
on_parse_error-Sampled line s h = record {
  lines = omega (arith, h.lines, length-sampled s.parse_errors line s.log);
}

-- Neither, either, or both of two Booleans.
data Either (p q : Bool) : Type 0 where
  both : (p && q) ≡ true → Either p q
  one : (p && q) ≡ false → (p || q) ≡ true → Either p q
  neither : (p && q) ≡ false → (p || q) ≡ false → Either p q

either : (p q : Bool) → Either p q
either true true = both refl
either true false = one refl refl
either false true = one refl refl
either false false = neither refl refl

learn_next-Sampled :
    (worker : Text) (md : BatchMetadata) (s : Learner)
    → Sampled s
    → Sampled (learn_next worker md s)
unfolding learn_next
learn_next-Sampled worker md s h =
    elim (either (truth md.next_hop_uid) (truth md.next_hop_peer_id)) [
      | both e ↦ rw e (on_next_learned-Sampled worker md.next_hop_uid md.next_hop_peer_id s h)
      | one e f ↦ rw (e, f) (on_parse_error-Sampled _ s h)
      | neither e f ↦ rw (e, f) h
    ]

learn_prev-Sampled :
    (worker : Text) (md : BatchMetadata) (s : Learner)
    → Sampled s
    → Sampled (learn_prev worker md s)
unfolding learn_prev
learn_prev-Sampled worker md s h =
    elim (either (truth md.prev_hop_uid) (truth md.prev_hop_peer_id)) [
      | both e ↦ rw e (on_prev_learned-Sampled worker md.prev_hop_uid md.prev_hop_peer_id s h)
      | one e f ↦ rw (e, f) (on_parse_error-Sampled _ s h)
      | neither e f ↦ rw (e, f) h
    ]

-- What one call adds to the counters, for one direction.
learn_next-events :
    (worker : Text) (md : BatchMetadata) (s : Learner)
    → (events s ≤ events (learn_next worker md s))
      × (events (learn_next worker md s) ≤ events s + 1)
unfolding learn_next on_next_learned on_parse_error
learn_next-events worker md s = elim (either (truth md.next_hop_uid) (truth md.next_hop_peer_id)) [
  | both e ↦ rw e (omega arith, omega arith)
  | one e f ↦ rw (e, f) (omega arith, omega arith)
  | neither e f ↦ rw (e, f) (omega arith, omega arith)
]

learn_prev-events :
    (worker : Text) (md : BatchMetadata) (s : Learner)
    → (events s ≤ events (learn_prev worker md s))
      × (events (learn_prev worker md s) ≤ events s + 1)
unfolding learn_prev on_prev_learned on_parse_error
learn_prev-events worker md s = elim (either (truth md.prev_hop_uid) (truth md.prev_hop_peer_id)) [
  | both e ↦ rw e (omega arith, omega arith)
  | one e f ↦ rw (e, f) (omega arith, omega arith)
  | neither e f ↦ rw (e, f) (omega arith, omega arith)
]

module _ (parse : List ℕ → Option BatchMetadata) where
  learn-Sampled :
      (worker : Text) (metadata : List ℕ) (s : Learner)
      → Sampled s
      → Sampled (learn parse worker metadata s)
        × (events (learn parse worker metadata s) ≤ events s + 2)
  unfolding learn
  learn-Sampled worker [] s h = (h, omega arith)
  learn-Sampled worker (b ∷ bs) s h = elim (Option-cases (parse (b ∷ bs))) [
    | inl bad ↦ rw (bad, learn) (h, omega arith)
    | inr (md, good) ↦
        rw (good, learn)
          (
            learn_prev-Sampled worker md _ (learn_next-Sampled worker md s h),
            omega (
              arith,
              (learn_next-events worker md s).1,
              (learn_prev-events worker md (learn_next worker md s)).1,
            ),
          )
  ]

  learn_all-Sampled :
      (calls : List (Text × List ℕ)) (s : Learner)
      → Sampled s
      → Sampled (learn_all parse calls s)
        × (events (learn_all parse calls s) ≤ events s + 2 * length calls)
  unfolding learn_all
  learn_all-Sampled [] s h = (h, omega arith)
  learn_all-Sampled ((worker, metadata) ∷ calls) s h =
      let (first, more) = learn-Sampled worker metadata s h in
      let (all, rest) = learn_all-Sampled calls (learn parse worker metadata s) first in
      (all, omega (arith, more, rest))

  -- Over any calls of `learn` from a new learner, the log has exactly one line for each fiftieth
  -- event of each of the three counters, and the counters count at most two events for each call.
  pub learn_all-lines :
      (calls : List (Text × List ℕ))
      → (length (learn_all parse calls fresh).log
          ≡ (learn_all parse calls fresh).next_hops_learned / 50
            + (learn_all parse calls fresh).prev_hops_learned / 50
            + (learn_all parse calls fresh).parse_errors / 50)
        × (events (learn_all parse calls fresh) ≤ 2 * length calls)
  learn_all-lines calls =
      let (all, rest) = learn_all-Sampled calls fresh (record { lines = refl }) in
      (all.lines, omega (arith, rest))
