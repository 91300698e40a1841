-- ===== src/Server/TensorParts/Reducer/Log.antt =====
-- What the senders contribute to the parts of a reducer, and the averages of it.
use agora_test.Prelude.{
  ℕ, List, [], ◌∷◌, ◌++◌, true, false, none, some, ◌==◌, if◌then◌else◌, get_elem?, ◌≡◌, refl, ap,
  inl, inr, ◌≢◌, arith, Bool-cases,
}
use agora_test.Server.TensorParts.Reducer.{
  Sender, Reducer, Averaging, Event, accumulates, wakes, fails, cancels, finalizes, handle, initial,
}
use agora_test.Server.TensorParts.Reducer.Runs.{IsInOrder}

module _ {V W : Type 0} where
  -- The tensors of a part with their weights, from a log of the part, the tensor and the weight of
  -- each contribution.
  abbrev pub of_part : ℕ → List (ℕ × (V × W)) → List (V × W)
  of_part part [] = []
  of_part part (entry ∷ log) =
      if entry.0 == part then entry.1 ∷ of_part part log else of_part part log

  -- The contribution of a sender that has not failed is logged.
  abbrev pub logged : Event V W → Reducer V W → List (ℕ × (V × W)) → List (ℕ × (V × W))
  logged (accumulates i part value weight) s log = elim (get_elem? s.senders i) [
    | none ↦ log
    | some sender ↦ elim sender.failed_after [
      | none ↦ log ++ ((part, (value, weight)) ∷ [])
      | some failed_after ↦ log
    ]
  ]
  logged (wakes i part value weight) s log = log
  logged (fails i) s log = log
  logged cancels s log = log
  logged finalizes s log = log

  pub logged-live :
      (i part : ℕ) (value : V) (weight : W) (x : Sender) (log : List (ℕ × (V × W)))
      (s : Reducer V W)
      → get_elem? s.senders i ≡ some x
      → x.failed_after ≡ none
      → logged (accumulates i part value weight) s log ≡ log ++ ((part, (value, weight)) ∷ [])
  logged-live i part value weight x log s there alive = rw (there, alive, logged) refl

  pub logged-failed :
      (i part f : ℕ) (value : V) (weight : W) (x : Sender) (log : List (ℕ × (V × W)))
      (s : Reducer V W)
      → get_elem? s.senders i ≡ some x
      → x.failed_after ≡ some f
      → logged (accumulates i part value weight) s log ≡ log
  logged-failed i part f value weight x log s there failed = rw (there, failed, logged) refl

  pub of_part-snoc :
      (part : ℕ) (c : V × W) (log : List (ℕ × (V × W)))
      → of_part part (log ++ ((part, c) ∷ [])) ≡ of_part part log ++ (c ∷ [])
  of_part-snoc part c [] = let same : (part == part) ≡ true = ground arith in rw same refl
  of_part-snoc part c (entry ∷ log) = elim (Bool-cases (entry.0 == part)) [
    | inl same ↦ rw same (ap (λ cs. entry.1 ∷ cs) (of_part-snoc part c log))
    | inr other ↦ rw other (of_part-snoc part c log)
  ]

  pub of_part-other :
      (part q : ℕ) (c : V × W) (log : List (ℕ × (V × W)))
      → q ≢ part
      → of_part part (log ++ ((q, c) ∷ [])) ≡ of_part part log
  of_part-other part q c [] h = let other : (q == part) ≡ false = ground (arith, h) in rw other refl
  of_part-other part q c (entry ∷ log) h = elim (Bool-cases (entry.0 == part)) [
    | inl same ↦ rw same (ap (λ cs. entry.1 ∷ cs) (of_part-other part q c log h))
    | inr other ↦ rw other (of_part-other part q c log h)
  ]

module _ {V W : Type 0} (averaging : Averaging V W) where
  abbrev pub total : V → List (V × W) → V
  total a [] = a
  total a (c ∷ cs) = total (averaging.add a c.0 c.1) cs

  abbrev pub weights : W → List (V × W) → W
  weights a [] = a
  weights a (c ∷ cs) = weights (averaging.add_weight a c.1) cs

  -- The average of what is logged for a part.
  abbrev pub average : ℕ → List (V × W) → V
  average part cs = averaging.div (total (averaging.zeros part) cs) (weights averaging.no_weight cs)

  pub total-snoc :
      (a : V) (c : V × W) (cs : List (V × W))
      → total a (cs ++ (c ∷ [])) ≡ averaging.add (total a cs) c.0 c.1
  total-snoc a c [] = refl
  total-snoc a c (d ∷ cs) = total-snoc (averaging.add a d.0 d.1) c cs

  pub weights-snoc :
      (a : W) (c : V × W) (cs : List (V × W))
      → weights a (cs ++ (c ∷ [])) ≡ averaging.add_weight (weights a cs) c.1
  weights-snoc a c [] = refl
  weights-snoc a c (d ∷ cs) = weights-snoc (averaging.add_weight a d.1) c cs

  -- A reducer that its events lead to, with the log of them.
  pub data Logged (num_parts num_senders : ℕ) : Reducer V W → List (ℕ × (V × W)) → Type 0 where
    begins : Logged num_parts num_senders (initial averaging num_parts num_senders) []
    proceeds :
        (s : Reducer V W) (log : List (ℕ × (V × W))) (event : Event V W)
        → Logged num_parts num_senders s log
        → IsInOrder event s
        → Logged num_parts num_senders (handle averaging num_parts event s).0 (logged event s log)
