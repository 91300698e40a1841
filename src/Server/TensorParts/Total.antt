-- ===== src/Server/TensorParts/Total.antt =====
-- When the last pivot is the size of all tensors, every part finds a peer.
use agora_test.Prelude.{ℕ, ◌+◌, ◌≤◌, List, [], ◌∷◌, length, ◌≡◌}
use agora_test.Server.TensorParts.{Split}

-- There is a last pivot, and it is at least `n`.
abbrev pub Reaches : ℕ → List ℕ → Type 0
Reaches n [] = ⊥
Reaches n (p ∷ []) = n ≤ p
Reaches n (p ∷ q ∷ ps) = Reaches n (q ∷ ps)

module _ {V : Type 0} where
  -- There are peers for the pivots ahead, and the last of these is at least `n`.
  record IsAhead (n : ℕ) (s : Split V) : Type 0 where
    reaches : Reaches n s.ahead
    peers : s.current_peer_index + length s.ahead ≡ length s.inputs
