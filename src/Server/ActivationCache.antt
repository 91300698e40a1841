-- ===== src/Server/ActivationCache.antt =====
-- `ActivationCache` of agora_server/src/agora_server/core/server/activation_cache.py, with
-- `SharedMemoryStore`. The lock makes each operation one step. Times are ticks of the monotonic
-- clock; a handle is the tensors themselves, since a clone has their values.
pub mod Queue
pub mod Models
pub mod Refine
pub mod History
pub mod Fresh
mod Tests
use agora_test.Prelude.{
  ℕ, zero, suc, ◌+◌, ◌-◌, ◌*◌, List, [], ◌∷◌, ◌++◌, map, Bool, true, false, ◌||◌, Option, none,
  some, ltb, if◌then◌else◌, length, Outcome, ok, raise, require_some, ◌>>=◌, lookup, remove, set,
}

pub record Tensor : Type 0 where
  pub element_size : ℕ
  pub values : List ℕ

abbrev pub Tensors : Type 0
Tensors = List Tensor

-- `Store.nbytes`
unfoldable pub nbytes : Tensors → ℕ
nbytes [] = 0
nbytes (t ∷ ts) = t.element_size * length t.values + nbytes ts

-- The error of `self._meta.pop(key)` and `self._meta[key]` on a missing key.
pub data KeyError : Type 0 where
  key_error : KeyError

pub data Reason : Type 0 where
  overwrites evictions_ttl evictions_fifo : Reason

pub record Counters : Type 0 where
  pub puts : ℕ
  pub hits : ℕ
  pub misses : ℕ
  pub evictions_fifo : ℕ
  pub evictions_ttl : ℕ
  pub overwrites : ℕ
  pub drops : ℕ
  pub bytes : ℕ

abbrev pub bump_reason : Reason → Counters → Counters
bump_reason Reason.overwrites c = record c { overwrites = c.overwrites + 1 }
bump_reason Reason.evictions_ttl c = record c { evictions_ttl = c.evictions_ttl + 1 }
bump_reason Reason.evictions_fifo c = record c { evictions_fifo = c.evictions_fifo + 1 }

-- `max_entries`, `max_bytes` and `ttl_seconds`
pub record Limits : Type 0 where
  pub max_entries : ℕ
  pub max_bytes : ℕ
  pub ttl : ℕ

-- `handles` is `_data`; `dropped` lists the handles given to `store.drop`. The byte counter is a natural number: it is
-- the sum of the sizes held, which makes each subtraction from it exact.
pub record Cache (K : Type 0) : Type 0 where
  pub meta : List (K × (ℕ × ℕ))
  pub handles : List (K × Tensors)
  pub counters : Counters
  pub dropped : List Tensors

abbrev pub fresh : {K : Type 0} → Cache K
fresh = record {
  meta = [];
  handles = [];
  counters = record {
    puts = 0;
    hits = 0;
    misses = 0;
    evictions_fifo = 0;
    evictions_ttl = 0;
    overwrites = 0;
    drops = 0;
    bytes = 0;
  };
  dropped = [];
}

abbrev pub drop_handle : Option Tensors → List Tensors → List Tensors
drop_handle none dropped = dropped
drop_handle (some handle) dropped = dropped ++ (handle ∷ [])

module _ {K : Type 0} (dec : Discrete K) (limits : Limits) where
  -- `_evict_one_locked`
  unfoldable pub evict_one : K → Reason → Cache K → Outcome KeyError (Cache K)
  evict_one key reason s = do
    (size, inserted) ← require_some (lookup dec key s.meta) key_error
    ok (record s {
      meta = remove dec key s.meta;
      handles = remove dec key s.handles;
      dropped = drop_handle (lookup dec key s.handles) s.dropped;
      counters = bump_reason reason (record s.counters { bytes = s.counters.bytes - size });
    })

  -- the TTL sweep of `_evict_locked`, over the keys that `list` took before it
  unfoldable pub sweep : ℕ → List K → Cache K → Outcome KeyError (Cache K)
  sweep now [] s = ok s
  sweep now (key ∷ keys) s = do
    (size, inserted) ← require_some (lookup dec key s.meta) key_error
    elim (ltb (now - inserted) limits.ttl) [
      | true ↦ ok s
      | false ↦ elim (evict_one key Reason.evictions_ttl s) [
        | ok s' ↦ sweep now keys s'
        | raise e ↦ raise e
      ]
    ]

  abbrev pub over : Cache K → Bool
  over s = ltb limits.max_entries (length s.meta) || ltb limits.max_bytes s.counters.bytes

  -- The loop of `_evict_locked` on the bounds. A round evicts an entry, so that their number is
  -- enough fuel.
  unfoldable pub shrink : ℕ → Cache K → Outcome KeyError (Cache K)
  shrink zero s = ok s
  shrink (suc fuel) s = elim s.meta [
    | [] ↦ ok s
    | oldest ∷ rest ↦ elim (over s) [
      | true ↦ elim (evict_one oldest.0 Reason.evictions_fifo s) [
        | ok s' ↦ shrink fuel s'
        | raise e ↦ raise e
      ]
      | false ↦ ok s
    ]
  ]

  -- `_evict_locked`
  unfoldable pub evict : ℕ → Cache K → Outcome KeyError (Cache K)
  evict now s = do
    s' ← if ltb 0 limits.ttl then sweep now (map (λ e. e.0) s.meta) s else ok s
    shrink (length s'.meta) s'

  -- The assignments of `put`, at time `now`.
  abbrev pub insert : K → ℕ → Tensors → Cache K → Cache K
  insert key now inputs s = record s {
    meta = set dec key (nbytes inputs, now) s.meta;
    handles = set dec key inputs s.handles;
    counters = record s.counters {
      bytes = s.counters.bytes + nbytes inputs;
      puts = s.counters.puts + 1;
    };
  }

  unfoldable pub put : K → ℕ → Tensors → Cache K → Outcome KeyError (Cache K)
  put key now inputs s = elim (lookup dec key s.meta) [
    | none ↦ evict now (insert key now inputs s)
    | some entry ↦ elim (evict_one key Reason.overwrites s) [
      | raise e ↦ raise e
      | ok s' ↦ evict now (insert key now inputs s')
    ]
  ]

  unfoldable pub pop : K → Cache K → Option Tensors × Cache K
  pop key s = elim (lookup dec key s.meta) [
    | none ↦ (none, record s { counters = record s.counters { misses = s.counters.misses + 1 } })
    | some (size, inserted) ↦
        let counters = record s.counters { bytes = s.counters.bytes - size } in
        let s' = record s { meta = remove dec key s.meta; handles = remove dec key s.handles } in
        elim (lookup dec key s.handles) [
          | none ↦ (none, record s' { counters = record counters { misses = counters.misses + 1 } })
          | some handle ↦
              (some handle, record s' { counters = record counters { hits = counters.hits + 1 } })
        ]
  ]

unfoldable pub record_drop : {K : Type 0} → Cache K → Cache K
record_drop s = record s { counters = record s.counters { drops = s.counters.drops + 1 } }

unfoldable pub clear : {K : Type 0} → Cache K → Cache K
clear s = record s {
  meta = [];
  handles = [];
  dropped = s.dropped ++ map (λ e. e.1) s.handles;
  counters = record s.counters { bytes = s.counters.bytes - s.counters.bytes };
}
