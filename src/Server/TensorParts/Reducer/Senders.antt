-- ===== src/Server/TensorParts/Reducer/Senders.antt =====
-- The senders of a reducer: who has not failed, who has yet to submit the current part, and where
-- each of them stands.
use agora_test.Prelude.{
  ℕ, zero, suc, ◌+◌, ◌≤◌, ◌<◌, List, [], ◌∷◌, false, Option, none, some, ◌==◌, if◌then◌else◌,
  get_elem?, map, sum, ◌≡◌, refl, ap, ap₂, arith, Bool-cases, inl, inr, ◌⊎◌, replicate, subst,
}
use agora_test.Server.TensorParts.Reducer.{Sender, is_sent, set_at, receive}

-- 1 for a sender that has not failed
abbrev pub is_live : Sender → ℕ
is_live sender = elim sender.failed_after [ none ↦ 1 | some failed_after ↦ 0 ]

-- 1 for a sender that has not failed and has yet to submit the part
abbrev pub is_awaited : ℕ → Sender → ℕ
is_awaited begun sender = elim sender.failed_after [
  | none ↦ if begun == suc sender.num_parts_received then 1 else 0
  | some failed_after ↦ 0
]

-- A sender that has not failed has submitted the parts before the current one, and perhaps that;
-- another has failed after no part past the current one.
abbrev pub IsPlaced : ℕ → Sender → Type 0
IsPlaced begun sender = elim sender.failed_after [
  | none ↦ (begun ≤ suc sender.num_parts_received) × (sender.num_parts_received ≤ begun)
  | some failed_after ↦ failed_after ≤ begun
]

abbrev pub AllPlaced : ℕ → List Sender → Type 0
AllPlaced begun [] = Unit
AllPlaced begun (s ∷ ss) = IsPlaced begun s × AllPlaced begun ss

abbrev pub live : List Sender → ℕ
live ss = sum (map is_live ss)

abbrev pub awaited : ℕ → List Sender → ℕ
awaited begun ss = sum (map (is_awaited begun) ss)

some-eq : {a b : Sender} → some a ≡ some b → a ≡ b
some-eq h = cc

pub sum-set_at :
    (f : Sender → ℕ) (i : ℕ) (x y : Sender) (ss : List Sender)
    → get_elem? ss i ≡ some x
    → sum (map f (set_at i y ss)) + f x ≡ sum (map f ss) + f y
unfolding set_at
sum-set_at f i x y [] h = cc
sum-set_at f zero x y (s ∷ ss) h = rw (ap f (some-eq h)) (omega arith)
sum-set_at f (suc i) x y (s ∷ ss) h = omega (arith, sum-set_at f i x y ss h)

pub AllPlaced-get_elem? :
    (begun i : ℕ) (x : Sender) (ss : List Sender)
    → get_elem? ss i ≡ some x
    → AllPlaced begun ss
    → IsPlaced begun x
AllPlaced-get_elem? begun i x [] h p = cc
AllPlaced-get_elem? begun zero x (s ∷ ss) h p = subst (IsPlaced begun) (some-eq h) p.0
AllPlaced-get_elem? begun (suc i) x (s ∷ ss) h p = AllPlaced-get_elem? begun i x ss h p.1

pub AllPlaced-set_at :
    (begun i : ℕ) (x : Sender) (ss : List Sender)
    → IsPlaced begun x
    → AllPlaced begun ss
    → AllPlaced begun (set_at i x ss)
unfolding set_at
AllPlaced-set_at begun i x [] v p = tt
AllPlaced-set_at begun zero x (s ∷ ss) v p = (v, p.1)
AllPlaced-set_at begun (suc i) x (s ∷ ss) v p = (p.0, AllPlaced-set_at begun i x ss v p.1)

-- What the next part finds, when no sender is awaited for the current one.
pub record Ready (begun : ℕ) (ss : List Sender) : Type 0 where
  pub sent : sum (map (is_sent begun) ss) ≡ live ss
  pub next : awaited (suc begun) ss ≡ live ss
  pub placed : AllPlaced (suc begun) ss

module _ (begun : ℕ) (n : ℕ) where
  abbrev sender : Option ℕ → Sender
  sender failed_after = record { num_parts_received = n; failed_after = failed_after }

  -- What a sender that is not awaited is to the next part.
  sender-Ready :
      (f : Option ℕ)
      → IsPlaced begun (sender f)
      → is_awaited begun (sender f) ≡ 0
      → (is_sent begun (sender f) ≡ is_live (sender f))
        × (is_awaited (suc begun) (sender f) ≡ is_live (sender f))
        × IsPlaced (suc begun) (sender f)
  unfolding is_sent
  sender-Ready none p h = elim (Bool-cases (begun == suc n)) [
    | inl same ↦ absurd (ground (arith, h, same))
    | inr other ↦ (refl, ground (arith, p.0, p.1), (ground (arith, p.0), ground (arith, p.1)))
  ]
  sender-Ready (some f) p h = (ground (arith, p), refl, omega (arith, p))

  is_awaited-exists :
      (f : Option ℕ) → (is_awaited begun (sender f) ≡ 0) ⊎ ((f ≡ none) × (begun ≡ suc n))
  is_awaited-exists none = elim (Bool-cases (begun == suc n)) [
    | inl same ↦ inr (refl, ground (arith, same))
    | inr other ↦ inl (rw other refl)
  ]
  is_awaited-exists (some f) = inl refl

  -- A sender that has failed, when it submits a part all the same.
  pub failed-receive :
      (f : Option ℕ) (at : ℕ)
      → f ≡ some at
      → IsPlaced begun (sender f)
      → IsPlaced begun (receive (sender f))
        × (is_awaited begun (sender f) ≡ is_awaited begun (receive (sender f)))
        × (is_live (sender f) ≡ is_live (receive (sender f)))
  failed-receive none at h p = cc
  failed-receive (some f) at h p = (p, refl, refl)

  -- A sender that has submitted the current part is not awaited.
  pub not-awaited :
      (f : Option ℕ) → f ≡ none → (begun == suc n) ≡ false → is_awaited begun (sender f) ≡ 0
  not-awaited none h other = rw other refl
  not-awaited (some f) h other = cc

  pub is_live-some : (f : Option ℕ) → f ≡ none → is_live (sender f) ≡ 1
  is_live-some none h = refl
  is_live-some (some f) h = cc

  pub live-IsPlaced :
      (f : Option ℕ) → f ≡ none → IsPlaced begun (sender f) → (begun ≤ suc n) × (n ≤ begun)
  live-IsPlaced none h p = p
  live-IsPlaced (some f) h p = cc

pub awaited-Ready :
    (begun : ℕ) (ss : List Sender) → AllPlaced begun ss → awaited begun ss ≡ 0 → Ready begun ss
awaited-Ready begun [] p h = record { sent = refl; next = refl; placed = tt }
awaited-Ready begun (s ∷ ss) p h =
    let (sent, next, placed) =
      sender-Ready begun s.num_parts_received s.failed_after p.0 (omega (arith, h)) in
    let rest = awaited-Ready begun ss p.1 (omega (arith, h)) in
    record {
      sent = ap₂ (λ a b. a + b) sent rest.sent;
      next = ap₂ (λ a b. a + b) next rest.next;
      placed = (placed, rest.placed);
    }

pub awaited-exists :
    (begun : ℕ) (ss : List Sender)
    → 0 < awaited begun ss
    → (i : ℕ) × (x : Sender) × (get_elem? ss i ≡ some x)
      × (x.failed_after ≡ none)
      × (begun ≡ suc x.num_parts_received)
awaited-exists begun [] h = absurd (omega (arith, h))
awaited-exists begun (s ∷ ss) h =
    elim (is_awaited-exists begun s.num_parts_received s.failed_after) [
      | inr (alive, same) ↦ (0, s, refl, alive, same)
      | inl none_here ↦
          let (i, x, there, alive, same) = awaited-exists begun ss (omega (arith, h, none_here)) in
          (suc i, x, there, alive, same)
    ]

-- A sender at its failure.
abbrev pub fail : Sender → Sender
fail x = record x { failed_after = some x.num_parts_received }

-- A sender that is awaited, before and after it submits its part.
module _ (begun : ℕ) (x : Sender) (alive : x.failed_after ≡ none)
    (due : begun ≡ suc x.num_parts_received) where
  pub is_awaited-due : is_awaited begun x ≡ 1
  is_awaited-due = rw alive (ground (arith, due))

  pub is_awaited-receive : is_awaited begun (receive x) ≡ 0
  is_awaited-receive = rw alive (ground (arith, due))

  pub IsPlaced-fail : IsPlaced begun (fail x)
  IsPlaced-fail = omega (arith, due)

  pub IsPlaced-receive : IsPlaced begun (receive x)
  IsPlaced-receive = rw alive (ground (arith, due), ground (arith, due))

pub get_elem?-set_at :
    (i : ℕ) (x y : Sender) (ss : List Sender)
    → get_elem? ss i ≡ some x
    → get_elem? (set_at i y ss) i ≡ some y
unfolding set_at
get_elem?-set_at i x y [] h = cc
get_elem?-set_at zero x y (s ∷ ss) h = refl
get_elem?-set_at (suc i) x y (s ∷ ss) h = get_elem?-set_at i x y ss h

abbrev fresh : Sender
fresh = record { num_parts_received = 0; failed_after = none }

pub fresh-Ready : (n : ℕ) → (Ready 0 (replicate n fresh)) × AllPlaced 0 (replicate n fresh)
fresh-Ready n = (awaited-Ready 0 (replicate n fresh) (placed n) (none_awaited n), placed n)
  where
    placed : (n : ℕ) → AllPlaced 0 (replicate n fresh)
    placed zero = tt
    placed (suc n) = ((omega arith, omega arith), placed n)

    none_awaited : (n : ℕ) → awaited 0 (replicate n fresh) ≡ 0
    none_awaited zero = refl
    none_awaited (suc n) = ground (arith, none_awaited n)
