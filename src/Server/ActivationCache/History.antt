-- ===== src/Server/ActivationCache/History.antt =====
-- A worker's calls of its activation cache in order, against the queue.
use mathlib.Core.Option
use agora_test.Prelude.{
  ℕ, ◌+◌, ◌≤◌, List, [], ◌∷◌, ◌≡◌, refl, ap, sym, ◌∙◌, length, Outcome, ok, ok-injective, raise,
  lookup, remove, Option, arith, subst, Bool-cases, inl, inr, Option-cases, Absent-lookup,
  remove-Absent, length-remove, map_values,
}
use agora_test.Server.ActivationCache.{
  Cache, Limits, Tensors, KeyError, put, pop, record_drop, clear, fresh,
}
use agora_test.Server.ActivationCache.Models.{Models, inputs_of, gone, total-remove, length-Models}
use agora_test.Server.ActivationCache.Queue.{Queue, total, fit, too_much, put_queue}
use agora_test.Server.ActivationCache.Refine.{put-Models, pop-Models}

pub data Call (K : Type 0) : Type 0 where
  put_call : K → ℕ → Tensors → Call K
  pop_call : K → Call K
  drop_call : Call K
  clear_call : Call K

module _ {K : Type 0} (dec : Discrete K) (limits : Limits) where
  -- The answers of the pops among the calls, and the cache after them.
  unfoldable pub run : List (Call K) → Cache K → Outcome KeyError (List (Option Tensors) × Cache K)
  run [] s = ok ([], s)
  run (put_call key now inputs ∷ calls) s = elim (put dec limits key now inputs s) [
    | ok s' ↦ run calls s'
    | raise e ↦ raise e
  ]
  run (pop_call key ∷ calls) s = elim (run calls (pop dec limits key s).1) [
    | ok (answers, s') ↦ ok ((pop dec limits key s).0 ∷ answers, s')
    | raise e ↦ raise e
  ]
  run (drop_call ∷ calls) s = run calls (record_drop s)
  run (clear_call ∷ calls) s = run calls (clear s)

  -- The same calls of a queue.
  unfoldable pub run_queue : List (Call K) → Queue K → List (Option Tensors) × Queue K
  run_queue [] q = ([], q)
  run_queue (put_call key now inputs ∷ calls) q =
      run_queue calls (put_queue limits dec key now inputs q)
  run_queue (pop_call key ∷ calls) q =
      let rest = run_queue calls (remove dec key q) in
      (Option.map inputs_of (lookup dec key q) ∷ rest.0, rest.1)
  run_queue (drop_call ∷ calls) q = run_queue calls q
  run_queue (clear_call ∷ calls) q = run_queue calls []

  -- The entries that `clear` removes over the calls.
  unfoldable pub cleared : List (Call K) → Queue K → ℕ
  cleared [] q = 0
  cleared (put_call key now inputs ∷ calls) q =
      cleared calls (put_queue limits dec key now inputs q)
  cleared (pop_call key ∷ calls) q = cleared calls (remove dec key q)
  cleared (drop_call ∷ calls) q = cleared calls q
  cleared (clear_call ∷ calls) q = length q + cleared calls []

  record Bounded (q : Queue K) : Type 0 where
    pub entries : length q ≤ limits.max_entries
    pub bytes : total q ≤ limits.max_bytes

  fit-Bounded : (q : Queue K) → Bounded (fit limits q)
  unfolding fit total
  fit-Bounded [] = record { entries = omega arith; bytes = omega arith }
  fit-Bounded (e ∷ q) = elim (Bool-cases (too_much limits (e ∷ q))) [
    | inl much ↦ rw much (fit-Bounded q)
    | inr fits ↦ rw fits (record { entries = ground arith; bytes = ground arith })
  ]

  remove-Bounded : (key : K) (q : Queue K) → Bounded q → Bounded (remove dec key q)
  remove-Bounded key q b = elim (Option-cases (lookup dec key q)) [
    | inl missing ↦ rw (remove-Absent dec key q (Absent-lookup dec key q missing)) b
    | inr (e, present) ↦ record {
      entries = omega (arith, b.entries, length-remove dec key q e present);
      bytes = omega (arith, b.bytes, total-remove dec limits 0 key q e present);
    }
  ]

  put_queue-Bounded :
      (key : K) (now : ℕ) (inputs : Tensors) (q : Queue K)
      → Bounded (put_queue limits dec key now inputs q)
  unfolding put_queue
  put_queue-Bounded key now inputs q = fit-Bounded _

  empty-Bounded : Bounded []
  unfolding total
  empty-Bounded = record { entries = omega arith; bytes = omega arith }

  record_drop-Models :
      (lost : ℕ) (q : Queue K) (s : Cache K)
      → Models dec lost q s
      → Models dec lost q (record_drop s)
  unfolding record_drop
  record_drop-Models lost q s m = record {
    unique = m.unique;
    meta = m.meta;
    handles = m.handles;
    bytes = m.bytes;
    account = m.account;
  }

  clear-Models :
      (lost : ℕ) (q : Queue K) (s : Cache K)
      → Models dec lost q s
      → Models dec (lost + length q) [] (clear s)
  unfolding clear total
  clear-Models lost q s m = record {
    unique = tt;
    meta = refl;
    handles = refl;
    bytes = omega arith;
    account = omega (arith, m.account);
  }

  pub fresh-Models : Models dec 0 [] fresh
  unfolding total
  fresh-Models = record {
    unique = tt;
    meta = refl;
    handles = refl;
    bytes = refl;
    account = omega arith;
  }

  -- Any calls.
  run-Models :
      (calls : List (Call K)) (lost : ℕ) (q : Queue K) (s : Cache K)
      → Models dec lost q s
      → Bounded q
      → (s' : Cache K) × (run calls s ≡ ok ((run_queue calls q).0, s'))
        × Models dec (lost + cleared calls q) (run_queue calls q).1 s'
        × Bounded (run_queue calls q).1
  unfolding run run_queue cleared
  run-Models [] lost q s m b = (s, refl, subst (λ n. Models dec n q s) (omega arith) m, b)
  run-Models (put_call key now inputs ∷ calls) lost q s m b =
      let (s1, done, m1) = put-Models dec limits lost key now inputs q s m in
      let (s', rest, m', b') =
        run-Models calls lost (put_queue limits dec key now inputs q) s1 m1
          (put_queue-Bounded key now inputs q) in
      (s', rw (done, run) rest, m', b')
  run-Models (pop_call key ∷ calls) lost q s m b =
      let (answer, m1) = pop-Models dec limits lost key q s m in
      let (s', rest, m', b') =
        run-Models calls lost (remove dec key q) (pop dec limits key s).1 m1
          (remove-Bounded key q b) in
      (
        s',
        rw (rest, run) (ap (λ a. ok (a ∷ (run_queue calls (remove dec key q)).0, s')) answer),
        m',
        b',
      )
  run-Models (drop_call ∷ calls) lost q s m b =
      run-Models calls lost q (record_drop s) (record_drop-Models lost q s m) b
  run-Models (clear_call ∷ calls) lost q s m b =
      let (s', rest, m', b') =
        run-Models calls (lost + length q) [] (clear s) (clear-Models lost q s m) empty-Bounded in
      (s', rest, subst (λ n. Models dec n (run_queue calls []).1 s') (omega arith) m', b')

  -- Over any calls from a new cache, no call raises, the pops answer what the queue of entries
  -- answers, each handle being kept until its key is popped or put again, it expires, or it is the
  -- oldest of too many; the cache stays within both bounds, and its byte counter is the size of what
  -- it holds.
  pub run-queue :
      (calls : List (Call K))
      → (s : Cache K) × (run calls fresh ≡ ok ((run_queue calls []).0, s))
        × (s.handles ≡ map_values inputs_of (run_queue calls []).1)
        × (length s.meta ≤ limits.max_entries)
        × (s.counters.bytes ≤ limits.max_bytes)
        × (s.counters.bytes ≡ total (run_queue calls []).1)
  run-queue calls =
      let (s, done, m, b) = run-Models calls 0 [] fresh fresh-Models empty-Bounded in
      (
        s,
        done,
        m.handles,
        omega (arith, length-Models dec limits (0 + cleared calls []) _ s m, b.entries),
        omega (arith, m.bytes, b.bytes),
        m.bytes,
      )

  -- Over any calls from a new cache, each put is counted once: its entry is still held, or it was a
  -- hit of a pop, an eviction for the bounds or for its age, an overwrite, or was cleared.
  pub run-account :
      (calls : List (Call K)) (answers : List (Option Tensors)) (s : Cache K)
      → run calls fresh ≡ ok (answers, s)
      → s.counters.puts ≡ gone s.counters + length s.meta + cleared calls []
  run-account calls answers s h =
      let (s', done, m, b) = run-Models calls 0 [] fresh fresh-Models empty-Bounded in
      let same : s' ≡ s = ap (λ p. p.1) (ok-injective (sym done ∙ h)) in
      subst (λ x. x.counters.puts ≡ gone x.counters + length x.meta + cleared calls []) same
        (omega (arith, m.account, length-Models dec limits (0 + cleared calls []) _ s' m))
