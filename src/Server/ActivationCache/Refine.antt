-- ===== src/Server/ActivationCache/Refine.antt =====
-- The activation cache keeps the queue that Queue describes, and never raises.
use mathlib.Core.Option
use agora_test.Prelude.{
  ℕ, ◌+◌, ◌-◌, [], ◌∷◌, ◌++◌, ◌≡◌, refl, ap, sym, ◌∙◌, ok, lookup, remove, set, none, some, arith,
  subst, inl, inr, Absent, Absent-lookup, remove-Absent, set-Absent, remove-IsDict, append-IsDict,
  length-remove, length-append, lookup-map_values, remove-map_values, Absent-map_values,
  map_values-append, Option-cases,
}
use agora_test.Server.ActivationCache.{
  Cache, Limits, Tensors, nbytes, Reason, evict_one, evict, insert, put, pop,
}
use agora_test.Server.ActivationCache.Queue.{Queue, put_queue}
use agora_test.Server.ActivationCache.Models.{
  Models, meta_of, inputs_of, total-remove, total-append, evict_one-Models, evict-Models,
}

module _ {K : Type 0} (dec : Discrete K) (limits : Limits) (lost : ℕ) where
  insert-Models :
      (key : K) (now : ℕ) (inputs : Tensors) (q : Queue K) (s : Cache K)
      → Models dec lost q s
      → Absent dec key q
      → Models dec lost
          (q ++ ((key, record { inserted = now; inputs = inputs }) ∷ []))
          (insert dec limits key now inputs s)
  insert-Models key now inputs q s m a = record {
    unique = append-IsDict dec key _ q a m.unique;
    meta =
        ap (set dec key (nbytes inputs, now)) m.meta
        ∙ set-Absent dec key _ _ (Absent-map_values dec meta_of key q a)
        ∙ sym (map_values-append dec meta_of q _);
    handles =
        ap (set dec key inputs) m.handles
        ∙ set-Absent dec key _ _ (Absent-map_values dec inputs_of key q a)
        ∙ sym (map_values-append dec inputs_of q _);
    bytes = omega (
      arith,
      m.bytes,
      total-append dec limits lost q key (record { inserted = now; inputs = inputs }),
    );
    account = omega (
      arith,
      m.account,
      length-append {0} q ((key, record { inserted = now; inputs = inputs }) ∷ []),
    );
  }

  put-new :
      (key : K) (now : ℕ) (inputs : Tensors) (s : Cache K)
      → lookup dec key s.meta ≡ none
      → put dec limits key now inputs s ≡ evict dec limits now (insert dec limits key now inputs s)
  unfolding put
  put-new key now inputs s h = rw (h, put) refl

  put-again :
      (key : K) (now : ℕ) (inputs : Tensors) (s s' : Cache K) (size inserted : ℕ)
      → lookup dec key s.meta ≡ some (size, inserted)
      → evict_one dec limits key Reason.overwrites s ≡ ok s'
      → put dec limits key now inputs s ≡ evict dec limits now (insert dec limits key now inputs s')
  unfolding put
  put-again key now inputs s s' size inserted h done = ground arith

  -- `put` never raises, and does to the queue what `put_queue` does.
  pub put-Models :
      (key : K) (now : ℕ) (inputs : Tensors) (q : Queue K) (s : Cache K)
      → Models dec lost q s
      → (s' : Cache K) × (put dec limits key now inputs s ≡ ok s')
        × Models dec lost (put_queue limits dec key now inputs q) s'
  unfolding put_queue
  put-Models key now inputs q s m =
      let found : lookup dec key s.meta ≡ Option.map meta_of (lookup dec key q) =
        ap (λ d. lookup dec key d) m.meta ∙ lookup-map_values dec meta_of key q in
      elim (Option-cases (lookup dec key q)) [
        | inl missing ↦
            let a = Absent-lookup dec key q missing in
            let (s', done, m') =
              evict-Models dec limits lost now _ _ (insert-Models key now inputs q s m a) in
            (
              s',
              put-new key now inputs s (found ∙ ap (Option.map meta_of) missing) ∙ done,
              rw (remove-Absent dec key q a) m',
            )
        | inr (e, present) ↦
            let (s1, evicted, m1) =
              evict_one-Models dec limits lost key Reason.overwrites q s e m present in
            let (s', done, m') = evict-Models dec limits lost now _ _ (
              insert-Models key now inputs (remove dec key q) s1 m1
                (remove-IsDict dec key q m.unique).0) in
            (
              s',
              put-again key now inputs s s1 _ _ (found ∙ ap (Option.map meta_of) present) evicted
                  ∙ done,
              m',
            )
      ]

  abbrev after_miss : Cache K → Cache K
  after_miss s = record s { counters = record s.counters { misses = s.counters.misses + 1 } }

  abbrev after_hit : K → ℕ → Cache K → Cache K
  after_hit key size s = record s {
    meta = remove dec key s.meta;
    handles = remove dec key s.handles;
    counters = record s.counters { bytes = s.counters.bytes - size; hits = s.counters.hits + 1 };
  }

  pop-miss :
      (key : K) (s : Cache K)
      → lookup dec key s.meta ≡ none
      → pop dec limits key s ≡ (none, after_miss s)
  unfolding pop
  pop-miss key s h = rw (h, pop) refl

  pop-hit :
      (key : K) (s : Cache K) (size inserted : ℕ) (inputs : Tensors)
      → lookup dec key s.meta ≡ some (size, inserted)
      → lookup dec key s.handles ≡ some inputs
      → pop dec limits key s ≡ (some inputs, after_hit key size s)
  unfolding pop
  pop-hit key s size inserted inputs h g = rw (h, pop) (rw (g, pop) refl)

  -- `pop` returns the inputs that the queue has for the key, if any, and removes them.
  pub pop-Models :
      (key : K) (q : Queue K) (s : Cache K)
      → Models dec lost q s
      → ((pop dec limits key s).0 ≡ Option.map inputs_of (lookup dec key q))
        × Models dec lost (remove dec key q) (pop dec limits key s).1
  pop-Models key q s m =
      let found : lookup dec key s.meta ≡ Option.map meta_of (lookup dec key q) =
        ap (λ d. lookup dec key d) m.meta ∙ lookup-map_values dec meta_of key q in
      let held : lookup dec key s.handles ≡ Option.map inputs_of (lookup dec key q) =
        ap (λ d. lookup dec key d) m.handles ∙ lookup-map_values dec inputs_of key q in
      elim (Option-cases (lookup dec key q)) [
        | inl missing ↦ rw (pop-miss key s (found ∙ ap (Option.map meta_of) missing)) (
          rw missing refl,
          subst (λ d. Models dec lost d (after_miss s))
              (sym (remove-Absent dec key q (Absent-lookup dec key q missing)))
              (record {
                unique = m.unique;
                meta = m.meta;
                handles = m.handles;
                bytes = m.bytes;
                account = m.account;
              }),
        )
        | inr (e, present) ↦
            rw
              (pop-hit key s _ _ _ (found ∙ ap (Option.map meta_of) present)
                (held ∙ ap (Option.map inputs_of) present))
              (
                rw present refl,
                record {
                  unique = (remove-IsDict dec key q m.unique).1;
                  meta = ap (remove dec key) m.meta ∙ remove-map_values dec meta_of key q;
                  handles = ap (remove dec key) m.handles ∙ remove-map_values dec inputs_of key q;
                  bytes = omega (arith, m.bytes, total-remove dec limits lost key q e present);
                  account = omega (arith, m.account, length-remove dec key q e present);
                },
              )
      ]
