-- ===== src/Server/ExpertBalancer/Heap.antt =====
-- The heap of a balancer, as the list of its entries in their order, and the dict keys.
use agora_test.Prelude.{
  List, [], ◌∷◌, Bool, true, false, if◌then◌else◌, Text, text_eq, text_eq_iff, bytes_lt, ◌≡◌, refl,
}
use agora_test.Server.ExpertBalancer.{Float, Entry}

pub false-ne-true : {P : Type 0} → false ≡ true → P
false-ne-true e = cc

-- `a == b` of two uids or endpoints, as a decision
abbrev dec_of : {P : Type 0} → (b : Bool) → (b ≡ true → P) → (P → b ≡ true) → Dec P
dec_of true sound complete = yes (sound refl)
dec_of false sound complete = no (λ p. false-ne-true (complete p))

abbrev pub dec_uid : Discrete Text
dec_uid a b = dec_of (text_eq a b) (text_eq_iff a b).0 (text_eq_iff a b).1

module _ {F : Type 0} (float : Float F) where
  -- `a < b` of two tuples: by the first place where they differ.
  unfoldable pub entry_less : Entry F → Entry F → Bool
  entry_less a b = elim (float.dec a.runtime b.runtime) [
    | no other ↦ float.less a.runtime b.runtime
    | yes same ↦ elim (float.dec a.tie b.tie) [
      | no other ↦ float.less a.tie b.tie
      | yes same ↦ bytes_lt a.uid b.uid
    ]
  ]

  -- `a == b` of two tuples
  unfoldable pub same_entry : Entry F → Entry F → Bool
  same_entry a b = elim (float.dec a.runtime b.runtime) [
    | no other ↦ false
    | yes same ↦ elim (float.dec a.tie b.tie) [
      | no other ↦ false
      | yes same ↦ elim (dec_uid a.uid b.uid) [ yes same ↦ true | no other ↦ false ]
    ]
  ]

  -- `heapq.heappush`; `heapq.heappop` takes the first entry off.
  unfoldable pub heappush : Entry F → List (Entry F) → List (Entry F)
  heappush e [] = e ∷ []
  heappush e (x ∷ queue) =
      let rest = heappush e queue in if entry_less x e then x ∷ rest else e ∷ x ∷ queue

  -- `for entry in skipped: heapq.heappush(self.queue, entry)`
  unfoldable pub push_all : List (Entry F) → List (Entry F) → List (Entry F)
  push_all [] queue = queue
  push_all (e ∷ skipped) queue = push_all skipped (heappush e queue)

  -- `max(entry[0] for entry in ...)`, where `best` is the greatest so far
  unfoldable pub max_runtime : F → List (Entry F) → F
  max_runtime best [] = best
  max_runtime best (e ∷ queue) =
      max_runtime (if float.less best e.runtime then e.runtime else best) queue
