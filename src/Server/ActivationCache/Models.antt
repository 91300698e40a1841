-- ===== src/Server/ActivationCache/Models.antt =====
-- The activation cache and the queue that Queue describes: eviction.
use mathlib.Core.Option
use agora_test.Prelude.{
  ℕ, zero, suc, ◌+◌, ◌-◌, ◌≤◌, List, [], ◌∷◌, ◌++◌, map, ◌≡◌, refl, ap, ◌∙◌, true, false, ltb,
  if◌then◌else◌, length, ok, lookup, remove, some, arith, subst, Bool-cases, inl, inr, ◌>>=◌,
  IsDict, lookup-head, remove-head, remove-IsDict, length-remove, map_values, length-map_values,
  lookup-map_values, remove-map_values, some-injective,
}
use agora_test.Server.ActivationCache.{
  Cache, Limits, Tensors, nbytes, Reason, evict_one, sweep, shrink, evict, over, Counters,
  bump_reason, drop_handle,
}
use agora_test.Server.ActivationCache.Queue.{Entry, Queue, total, expire, fit, too_much}

abbrev pub meta_of : Entry → ℕ × ℕ
meta_of e = (nbytes e.inputs, e.inserted)

abbrev pub inputs_of : Entry → Tensors
inputs_of e = e.inputs

-- The entries that were popped or evicted.
abbrev pub gone : Counters → ℕ
gone c = c.hits + c.evictions_fifo + c.evictions_ttl + c.overwrites

-- The cache `s` holds the queue `q`: its metadata and its handles are the entries of `q` in order,
-- its byte counter is their size, and each put is in the
-- queue, popped, evicted, or one of the `lost` ones that were cleared.
pub record Models {K : Type 0} (dec : Discrete K) (lost : ℕ) (q : Queue K) (s : Cache K)
    : Type 0 where
  pub unique : IsDict dec q
  pub meta : s.meta ≡ map_values meta_of q
  pub handles : s.handles ≡ map_values inputs_of q
  pub bytes : s.counters.bytes ≡ total q
  pub account : s.counters.puts ≡ gone s.counters + length q + lost

bytes-bump_reason : (reason : Reason) (c : Counters) → (bump_reason reason c).bytes ≡ c.bytes
bytes-bump_reason Reason.overwrites c = refl
bytes-bump_reason Reason.evictions_ttl c = refl
bytes-bump_reason Reason.evictions_fifo c = refl

gone-bump_reason :
    (reason : Reason) (c : Counters)
    → (gone (bump_reason reason c) ≡ gone c + 1) × ((bump_reason reason c).puts ≡ c.puts)
gone-bump_reason Reason.overwrites c = (omega arith, refl)
gone-bump_reason Reason.evictions_ttl c = (omega arith, refl)
gone-bump_reason Reason.evictions_fifo c = (omega arith, refl)

module _ {K : Type 0} (dec : Discrete K) (limits : Limits) (lost : ℕ) where
  pub total-remove :
      (key : K) (q : Queue K) (e : Entry)
      → lookup dec key q ≡ some e
      → total q ≡ nbytes e.inputs + total (remove dec key q)
  unfolding total lookup remove
  total-remove key [] e h = cc
  total-remove key (x ∷ q) e h =
      elim (dec x.0 key)
          as (λ d.
            elim d [ yes same ↦ some x.1 | no other ↦ lookup dec key q ] ≡ some e
            → nbytes x.1.inputs + total q
              ≡ nbytes e.inputs
                + total (elim d [ yes same ↦ q | no other ↦ x ∷ remove dec key q ])) [
                  | yes same ↦ λ found.
                      ap (λ (y : Entry). nbytes y.inputs + total q) (some-injective _ _ found)
                  | no other ↦ λ found. omega (arith, total-remove key q e found)
                ]
        h

  pub total-append :
      (q : Queue K) (key : K) (e : Entry) → total (q ++ ((key, e) ∷ [])) ≡ total q + nbytes e.inputs
  unfolding total
  total-append [] key e = omega arith
  total-append (x ∷ q) key e = omega (arith, total-append q key e)

  -- To evict a key removes its entry.
  pub evict_one-Models :
      (key : K) (reason : Reason) (q : Queue K) (s : Cache K) (e : Entry)
      → Models dec lost q s
      → lookup dec key q ≡ some e
      → (s' : Cache K) × (evict_one dec limits key reason s ≡ ok s')
        × Models dec lost (remove dec key q) s'
  unfolding evict_one
  evict_one-Models key reason q s e m h =
      let size : lookup dec key s.meta ≡ some (meta_of e) =
        ap (λ d. lookup dec key d) m.meta
        ∙ lookup-map_values dec meta_of key q
        ∙ ap (Option.map meta_of) h in
      let kept = remove-IsDict dec key q m.unique in
      (
        record s {
          meta = remove dec key s.meta;
          handles = remove dec key s.handles;
          dropped = drop_handle (lookup dec key s.handles) s.dropped;
          counters =
              bump_reason reason (record s.counters { bytes = s.counters.bytes - nbytes e.inputs });
        },
        rw size refl,
        record {
          unique = kept.1;
          meta = ap (remove dec key) m.meta ∙ remove-map_values dec meta_of key q;
          handles = ap (remove dec key) m.handles ∙ remove-map_values dec inputs_of key q;
          bytes = bytes-bump_reason reason _ ∙ omega (arith, m.bytes, total-remove key q e h);
          account =
              (gone-bump_reason reason _).1
              ∙ m.account
              ∙ omega (
                arith,
                (gone-bump_reason reason
                    (record s.counters { bytes = s.counters.bytes - nbytes e.inputs })).0,
                length-remove dec key q e h,
              );
        },
      )

  pub length-Models : (q : Queue K) (s : Cache K) → Models dec lost q s → length s.meta ≡ length q
  length-Models q s m = ap length m.meta ∙ length-map_values meta_of q

  sweep-live :
      (now : ℕ) (key : K) (keys : List K) (s : Cache K) (size inserted : ℕ)
      → lookup dec key s.meta ≡ some (size, inserted)
      → ltb (now - inserted) limits.ttl ≡ true
      → sweep dec limits now (key ∷ keys) s ≡ ok s
  unfolding sweep
  sweep-live now key keys s size inserted h live = ground arith

  sweep-expired :
      (now : ℕ) (key : K) (keys : List K) (s s' : Cache K) (size inserted : ℕ)
      → lookup dec key s.meta ≡ some (size, inserted)
      → ltb (now - inserted) limits.ttl ≡ false
      → evict_one dec limits key Reason.evictions_ttl s ≡ ok s'
      → sweep dec limits now (key ∷ keys) s ≡ sweep dec limits now keys s'
  unfolding sweep
  sweep-expired now key keys s s' size inserted h expired done = ground arith

  shrink-empty : (fuel : ℕ) (s : Cache K) → s.meta ≡ [] → shrink dec limits fuel s ≡ ok s
  unfolding shrink
  shrink-empty zero s h = refl
  shrink-empty (suc fuel) s h = ground arith

  shrink-fits :
      (fuel : ℕ) (s : Cache K) → over dec limits s ≡ false → shrink dec limits fuel s ≡ ok s
  unfolding shrink
  shrink-fits zero s h = refl
  shrink-fits (suc fuel) s h = ground arith

  shrink-over :
      (fuel : ℕ) (s s' : Cache K) (e : K × (ℕ × ℕ)) (d : List (K × (ℕ × ℕ)))
      → s.meta ≡ e ∷ d
      → over dec limits s ≡ true
      → evict_one dec limits e.0 Reason.evictions_fifo s ≡ ok s'
      → shrink dec limits (suc fuel) s ≡ shrink dec limits fuel s'
  unfolding shrink
  shrink-over fuel s s' e d h much done = ground arith

  -- The TTL sweep drops the expired entries at the head.
  sweep-Models :
      (now : ℕ) (q : Queue K) (s : Cache K)
      → Models dec lost q s
      → (s' : Cache K) × (sweep dec limits now (map (λ e. e.0) (map_values meta_of q)) s ≡ ok s')
        × Models dec lost (expire limits now q) s'
  unfolding sweep expire
  sweep-Models now [] s m = (s, refl, m)
  sweep-Models now (e ∷ q) s m =
      let size : lookup dec e.0 s.meta ≡ some (meta_of e.1) =
        ap (λ d. lookup dec e.0 d) m.meta
        ∙ lookup-head dec e.0 (meta_of e.1) (map_values meta_of q) in
      elim (Bool-cases (ltb (now - e.1.inserted) limits.ttl)) [
        | inl live ↦ (s, sweep-live now e.0 _ s _ _ size live, rw live m)
        | inr expired ↦
            let (s1, done, m1) =
              evict_one-Models e.0 Reason.evictions_ttl (e ∷ q) s e.1 m
                (lookup-head dec e.0 e.1 q) in
            let (s', rest, m') =
              sweep-Models now q s1
                (subst (λ d. Models dec lost d s1) (remove-head dec e.0 e.1 q) m1) in
            (s', sweep-expired now e.0 _ s s1 _ _ size expired done ∙ rest, rw expired m')
      ]

  over-Models :
      (q : Queue K) (s : Cache K) → Models dec lost q s → over dec limits s ≡ too_much limits q
  over-Models q s m = rw (length-Models q s m, m.bytes) refl

  -- The bounds loop drops entries at the head until the rest fits.
  shrink-Models :
      (fuel : ℕ) (q : Queue K) (s : Cache K)
      → Models dec lost q s
      → length q ≤ fuel
      → (s' : Cache K) × (shrink dec limits fuel s ≡ ok s') × Models dec lost (fit limits q) s'
  unfolding shrink fit
  shrink-Models zero [] s m h = (s, refl, m)
  shrink-Models (suc fuel) [] s m h = (s, shrink-empty (suc fuel) s m.meta, m)
  shrink-Models zero (e ∷ q) s m h = absurd (omega arith)
  shrink-Models (suc fuel) (e ∷ q) s m h = elim (Bool-cases (too_much limits (e ∷ q))) [
    | inl much ↦
        let (s1, done, m1) =
          evict_one-Models e.0 Reason.evictions_fifo (e ∷ q) s e.1 m (lookup-head dec e.0 e.1 q) in
        let (s', rest, m') =
          shrink-Models fuel q s1 (subst (λ d. Models dec lost d s1) (remove-head dec e.0 e.1 q) m1)
            (omega arith) in
        (
          s',
          shrink-over fuel s s1 _ _ m.meta (over-Models (e ∷ q) s m ∙ much) done ∙ rest,
          rw much m',
        )
    | inr fits ↦ (s, shrink-fits (suc fuel) s (over-Models (e ∷ q) s m ∙ fits), rw fits m)
  ]

  pub evict-Models :
      (now : ℕ) (q : Queue K) (s : Cache K)
      → Models dec lost q s
      → (s' : Cache K) × (evict dec limits now s ≡ ok s')
        × Models dec lost (fit limits (if ltb 0 limits.ttl then expire limits now q else q)) s'
  unfolding evict
  evict-Models now q s m = elim (Bool-cases (ltb 0 limits.ttl)) [
    | inl timed ↦
        let (s1, swept, m1) = sweep-Models now q s m in
        let (s', shrunk, m') =
          shrink-Models (length s1.meta) (expire limits now q) s1 m1
            (omega (arith, length-Models _ s1 m1)) in
        (
          s',
          rw timed (
              ap
                (λ d. sweep dec limits now (map (λ e. e.0) d) s >>= λ x.
                  shrink dec limits (length x.meta) x)
                m.meta
              ∙ ap (λ r. r >>= λ x. shrink dec limits (length x.meta) x) swept
              ∙ shrunk),
          rw timed m',
        )
    | inr untimed ↦
        let (s', shrunk, m') =
          shrink-Models (length s.meta) q s m (omega (arith, length-Models q s m)) in
        (s', rw untimed shrunk, rw untimed m')
  ]
