-- ===== src/Server/ActivationCache/Fresh.antt =====
-- What was put last can be popped, once.
use mathlib.Core.Option
use agora_test.Prelude.{
  ℕ, ◌-◌, ◌≤◌, ◌<◌, [], ◌∷◌, ◌++◌, ◌≡◌, refl, ap, ◌∙◌, ltb, ok, lookup, remove, none, some, arith,
  Bool-cases, inl, inr, remove-IsDict, lookup-Absent, Absent, IsDict, lookup-head,
}
use agora_test.Server.ActivationCache.{Cache, Limits, Tensors, nbytes, put, pop}
use agora_test.Server.ActivationCache.Models.{Models, inputs_of}
use agora_test.Server.ActivationCache.Queue.{Entry, Queue, total, expire, fit, too_much, put_queue}
use agora_test.Server.ActivationCache.Refine.{put-Models, pop-Models}

module _ {K : Type 0} (dec : Discrete K) (limits : Limits) where
  -- The queue ends with the entry, and has its key once.
  abbrev Ends : K → Entry → Queue K → Type 0
  Ends key e q = (before : Queue K) × (q ≡ before ++ ((key, e) ∷ [])) × Absent dec key before

  fit-Ends :
      (key : K) (e : Entry) (q : Queue K)
      → Absent dec key q
      → 1 ≤ limits.max_entries
      → nbytes e.inputs ≤ limits.max_bytes
      → Ends key e (fit limits (q ++ ((key, e) ∷ [])))
  unfolding fit total
  fit-Ends key e [] a some_entry small = ([], ground arith, tt)
  fit-Ends key e (x ∷ q) a some_entry small =
      elim (Bool-cases (too_much limits (x ∷ (q ++ ((key, e) ∷ []))))) [
        | inl much ↦ rw much (fit-Ends key e q a.1 some_entry small)
        | inr fits ↦ rw fits (x ∷ q, refl, a)
      ]

  expire-Ends :
      (now : ℕ) (key : K) (e : Entry) (q : Queue K)
      → Absent dec key q
      → e.inserted ≡ now
      → 0 < limits.ttl
      → Ends key e (expire limits now (q ++ ((key, e) ∷ [])))
  unfolding expire
  expire-Ends now key e [] a same timed = ([], ground arith, tt)
  expire-Ends now key e (x ∷ q) a same timed =
      elim (Bool-cases (ltb (now - x.1.inserted) limits.ttl)) [
        | inl live ↦ rw live (x ∷ q, refl, a)
        | inr expired ↦ rw expired (expire-Ends now key e q a.1 same timed)
      ]

  lookup-Ends :
      (key : K) (e : Entry) (q : Queue K)
      → Absent dec key q
      → lookup dec key (q ++ ((key, e) ∷ [])) ≡ some e
  unfolding lookup
  lookup-Ends key e [] a = lookup-head dec key e []
  lookup-Ends key e (x ∷ q) a =
      elim (dec x.0 key)
        as (λ d.
          elim d [ yes same ↦ some x.1 | no other ↦ lookup dec key (q ++ ((key, e) ∷ [])) ]
          ≡ some e) [ yes same ↦ absurd (a.0 same) | no other ↦ lookup-Ends key e q a.1 ]

  put_queue-Ends :
      (key : K) (now : ℕ) (inputs : Tensors) (q : Queue K)
      → IsDict dec q
      → 1 ≤ limits.max_entries
      → nbytes inputs ≤ limits.max_bytes
      → lookup dec key (put_queue limits dec key now inputs q)
        ≡ some (record { inserted = now; inputs = inputs })
  unfolding put_queue
  put_queue-Ends key now inputs q u some_entry small =
      let e : Entry = record { inserted = now; inputs = inputs } in
      let a = (remove-IsDict dec key q u).0 in
      elim (Bool-cases (ltb 0 limits.ttl)) [
        | inl timed ↦
            let (rest, ends, b) = expire-Ends now key e (remove dec key q) a refl (ground arith) in
            let (kept, left, c) = fit-Ends key e rest b some_entry small in
            rw timed (
              ap (λ d. lookup dec key (fit limits d)) ends
              ∙ ap (lookup dec key) left
              ∙ lookup-Ends key e kept c)
        | inr untimed ↦
            let (kept, left, c) = fit-Ends key e (remove dec key q) a some_entry small in
            rw untimed (ap (lookup dec key) left ∙ lookup-Ends key e kept c)
      ]

  -- If the bounds allow one entry of its size, a put of inputs is answered by the next pop of its
  -- key, and a second pop finds nothing.
  pub pop-put :
      (lost : ℕ) (key : K) (now : ℕ) (inputs : Tensors) (q : Queue K) (s : Cache K)
      → Models dec lost q s
      → 1 ≤ limits.max_entries
      → nbytes inputs ≤ limits.max_bytes
      → (s' : Cache K) × (put dec limits key now inputs s ≡ ok s')
        × ((pop dec limits key s').0 ≡ some inputs)
        × ((pop dec limits key (pop dec limits key s').1).0 ≡ none)
  pop-put lost key now inputs q s m some_entry small =
      let (s', done, m') = put-Models dec limits lost key now inputs q s m in
      let q' = put_queue limits dec key now inputs q in
      let (first, m1) = pop-Models dec limits lost key q' s' m' in
      let (second, m2) =
        pop-Models dec limits lost key (remove dec key q') (pop dec limits key s').1 m1 in
      (
        s',
        done,
        first
            ∙ ap (Option.map inputs_of) (put_queue-Ends key now inputs q m.unique some_entry small),
        second
            ∙ ap (Option.map inputs_of)
                (lookup-Absent dec key (remove dec key q') (remove-IsDict dec key q' m'.unique).0),
      )
