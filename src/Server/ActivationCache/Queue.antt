-- ===== src/Server/ActivationCache/Queue.antt =====
-- What an activation cache promises: a queue of entries, the oldest first.
use agora_test.Prelude.{
  ℕ, ◌+◌, ◌-◌, List, [], ◌∷◌, ◌++◌, Bool, ◌||◌, ltb, if◌then◌else◌, length, remove,
}
use agora_test.Server.ActivationCache.{Tensors, nbytes, Limits}

pub record Entry : Type 0 where
  pub inserted : ℕ
  pub inputs : Tensors

abbrev pub Queue : Type 0 → Type 0
Queue K = List (K × Entry)

unfoldable pub total : {K : Type 0} → Queue K → ℕ
total [] = 0
total (e ∷ q) = nbytes e.1.inputs + total q

module _ {K : Type 0} (limits : Limits) where
  -- The entries from the first live one on.
  unfoldable pub expire : ℕ → Queue K → Queue K
  expire now [] = []
  expire now (e ∷ q) = if ltb (now - e.1.inserted) limits.ttl then e ∷ q else expire now q

  abbrev pub too_much : Queue K → Bool
  too_much q = ltb limits.max_entries (length q) || ltb limits.max_bytes (total q)

  -- The longest end of the queue that is within the bounds.
  unfoldable pub fit : Queue K → Queue K
  fit [] = []
  fit (e ∷ q) = if too_much (e ∷ q) then fit q else e ∷ q

  unfoldable pub put_queue : (dec : Discrete K) → K → ℕ → Tensors → Queue K → Queue K
  put_queue dec key now inputs q =
      let q' = remove dec key q ++ ((key, record { inserted = now; inputs = inputs }) ∷ []) in
      fit (if ltb 0 limits.ttl then expire now q' else q')
