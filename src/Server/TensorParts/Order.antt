-- ===== src/Server/TensorParts/Order.antt =====
-- The parts of all tensors in order are the parts of the peers in order.
use agora_test.Prelude.{
  ℕ, zero, suc, ◌+◌, ◌-◌, ◌≤◌, ◌<◌, List, [], ◌∷◌, ◌++◌, true, false, ltb, length, ok, ◌≡◌, refl,
  ap, sym, ◌∙◌, arith, append_assoc, append-nil, Bool-cases, Outcome-cases, inl, inr, ok-injective,
  ok-ne-raise, subst, min,
}
use agora_test.Server.TensorParts.{append_at, cross, argmax_from, Split, place, place_all, cat}

module _ {A : Type 0} where
  abbrev pub AllEmpty : List (List A) → Type 0
  AllEmpty [] = Unit
  AllEmpty (b ∷ bs) = (b ≡ []) × AllEmpty bs

  -- The peers after peer `i` have no parts yet.
  abbrev EmptyAfter : ℕ → List (List A) → Type 0
  EmptyAfter i [] = Unit
  EmptyAfter zero (b ∷ bs) = AllEmpty bs
  EmptyAfter (suc i) (b ∷ bs) = EmptyAfter i bs

  pub cat-AllEmpty : (bs : List (List A)) → AllEmpty bs → cat bs ≡ []
  cat-AllEmpty [] e = refl
  cat-AllEmpty (b ∷ bs) e = ap (λ x. x ++ cat bs) e.0 ∙ cat-AllEmpty bs e.1

  pub AllEmpty-EmptyAfter : (i : ℕ) (bs : List (List A)) → AllEmpty bs → EmptyAfter i bs
  AllEmpty-EmptyAfter i [] e = tt
  AllEmpty-EmptyAfter zero (b ∷ bs) e = e.1
  AllEmpty-EmptyAfter (suc i) (b ∷ bs) e = AllEmpty-EmptyAfter i bs e.1

  later : (i j : ℕ) (bs : List (List A)) → EmptyAfter i bs → i ≤ j → EmptyAfter j bs
  later i j [] e h = tt
  later zero zero (b ∷ bs) e h = e
  later zero (suc j) (b ∷ bs) e h = AllEmpty-EmptyAfter j bs e
  later (suc i) zero (b ∷ bs) e h = absurd (omega arith)
  later (suc i) (suc j) (b ∷ bs) e h = later i j bs e (omega arith)

  append_at-suc :
      (i : ℕ) (x : A) (b : List A) (bs bs' : List (List A))
      → append_at (suc i) x (b ∷ bs) ≡ ok bs'
      → (cs : List (List A)) × (append_at i x bs ≡ ok cs) × ((b ∷ cs) ≡ bs')
  unfolding append_at
  append_at-suc i x b bs bs' a = ground arith

  cat-append_at :
      (i : ℕ) (x : A) (bs bs' : List (List A))
      → EmptyAfter i bs
      → append_at i x bs ≡ ok bs'
      → (cat bs' ≡ cat bs ++ (x ∷ [])) × EmptyAfter i bs'
  unfolding append_at
  cat-append_at i x [] bs' e a = ok-ne-raise (sym a)
  cat-append_at zero x (b ∷ bs) bs' e a =
      subst (λ c. (cat c ≡ (b ++ cat bs) ++ (x ∷ [])) × EmptyAfter 0 c) (ok-injective a)
        (
          rw (cat-AllEmpty bs e)
              (append-nil (b ++ (x ∷ [])) ∙ ap (λ y. y ++ (x ∷ [])) (sym (append-nil b))),
          e,
        )
  cat-append_at (suc i) x (b ∷ bs) bs' e a =
      let (cs, inner, same) = append_at-suc i x b bs bs' a in
      let (order, empty) = cat-append_at i x bs cs e inner in
      subst (λ c. (cat c ≡ (b ++ cat bs) ++ (x ∷ [])) × EmptyAfter (suc i) c) same
        (ap (λ y. b ++ y) order ∙ sym (append_assoc b (cat bs) (x ∷ [])), empty)

-- The place of the largest of `xs` is among them.
pub argmax_from-le :
    (best at here : ℕ) (xs : List ℕ) → at < here → argmax_from best at here xs < here + length xs
unfolding argmax_from
argmax_from-le best at here [] h = omega (arith, h)
argmax_from-le best at here (x ∷ xs) h = elim (Bool-cases (ltb best x)) [
  | inl more ↦
      rw (more, argmax_from) (omega (arith, argmax_from-le x here (suc here) xs (omega arith)))
  | inr less ↦
      rw (less, argmax_from)
        (omega (arith, argmax_from-le best at (suc here) xs (omega (arith, h))))
]

cross-suc :
    (part_end before p : ℕ) (ps : List ℕ) (k : ℕ) (is : List ℕ)
    → ltb p part_end ≡ true
    → cross part_end before (p ∷ ps) ≡ ok (k, is)
    → (k' : ℕ) × (is' : List ℕ) × (cross part_end p ps ≡ ok (k', is'))
      × ◌≡◌ {A = ℕ × List ℕ} (suc k', (min part_end p - before) ∷ is') (k, is)
unfolding cross
cross-suc part_end before p ps k is on h = elim (Outcome-cases (cross part_end p ps)) [
  | inr (e, failed) ↦ absurd (ground arith)
  | inl ((k', is'), inner) ↦ (k', is', inner, ground arith)
]

pub cross-length :
    (part_end before : ℕ) (ps : List ℕ) (k : ℕ) (is : List ℕ)
    → cross part_end before ps ≡ ok (k, is)
    → length is ≡ k
unfolding cross
cross-length part_end before [] k is h = ok-ne-raise (sym h)
cross-length part_end before (p ∷ ps) k is h = elim (Bool-cases (ltb p part_end)) [
  | inr stop ↦
      let e : ◌≡◌ {A = ℕ × List ℕ} (1, (min part_end p - before) ∷ []) (k, is) = ground arith in
      sym (ap (λ q. length q.1) e) ∙ ap (λ q. q.0) e
  | inl on ↦
      let (k', is', inner, e) = cross-suc part_end before p ps k is on h in
      sym (ap (λ q. length q.1) e)
      ∙ ap suc (cross-length part_end p ps k' is' inner)
      ∙ ap (λ q. q.0) e
]

module _ {V : Type 0} where
  place-stays :
      (part : List V) (s s' : Split V) (p : ℕ) (ps : List ℕ)
      → s.ahead ≡ p ∷ ps
      → ltb p (s.current_length + length part) ≡ false
      → place part s ≡ ok s'
      → (append_at s.current_peer_index part s.inputs ≡ ok s'.inputs)
        × (s'.current_peer_index ≡ s.current_peer_index)
  unfolding place
  place-stays part s s' p ps a stays h =
      elim (Outcome-cases (append_at s.current_peer_index part s.inputs)) [
        | inr (e, failed) ↦ absurd (ground arith)
        | inl (inputs, done) ↦ (ground arith, ground arith)
      ]

  place-moves :
      (part : List V) (s s' : Split V) (p : ℕ) (ps : List ℕ) (k : ℕ) (is : List ℕ)
      → s.ahead ≡ p ∷ ps
      → ltb p (s.current_length + length part) ≡ true
      → cross (s.current_length + length part) p ps ≡ ok (k, is)
      → place part s ≡ ok s'
      → (append_at (s.current_peer_index + argmax_from (p - s.current_length) 0 1 is) part s.inputs
          ≡ ok s'.inputs)
        × (s'.current_peer_index ≡ s.current_peer_index + k)
  unfolding place
  place-moves part s s' p ps k is a over crossed h =
      elim (Outcome-cases (
        append_at (s.current_peer_index + argmax_from (p - s.current_length) 0 1 is) part
          s.inputs)) [
            | inr (e, failed) ↦ absurd (ground arith)
            | inl (inputs, done) ↦ (ground arith, ground arith)
          ]

  place-crosses :
      (part : List V) (s s' : Split V) (p : ℕ) (ps : List ℕ)
      → s.ahead ≡ p ∷ ps
      → ltb p (s.current_length + length part) ≡ true
      → place part s ≡ ok s'
      → (k : ℕ) × (is : List ℕ) × (cross (s.current_length + length part) p ps ≡ ok (k, is))
  unfolding place
  place-crosses part s s' p ps a over h =
      elim (Outcome-cases (cross (s.current_length + length part) p ps)) [
        | inr (e, failed) ↦ absurd (ground arith)
        | inl ((k, is), crossed) ↦ (k, is, crossed)
      ]

  place-nowhere : (part : List V) (s s' : Split V) → s.ahead ≡ [] → place part s ≡ ok s' → ⊥
  unfolding place
  place-nowhere part s s' a h = ground arith

  -- Where a part goes: to the current peer, or to one of the peers up to the next current one.
  place-at :
      (part : List V) (s s' : Split V)
      → place part s ≡ ok s'
      → (i : ℕ) × (s.current_peer_index ≤ i)
        × (i ≤ s'.current_peer_index)
        × (append_at i part s.inputs ≡ ok s'.inputs)
  place-at part s s' h = go s.ahead refl
    where
      go :
          (ahead : List ℕ)
          → s.ahead ≡ ahead
          → (i : ℕ) × (s.current_peer_index ≤ i)
            × (i ≤ s'.current_peer_index)
            × (append_at i part s.inputs ≡ ok s'.inputs)
      go [] a = absurd (place-nowhere part s s' a h)
      go (p ∷ ps) a = elim (Bool-cases (ltb p (s.current_length + length part))) [
        | inr stays ↦
            let (done, cur) = place-stays part s s' p ps a stays h in
            (s.current_peer_index, omega arith, omega (arith, cur), done)
        | inl over ↦
            let (k, is, crossed) = place-crosses part s s' p ps a over h in
            let (done, cur) = place-moves part s s' p ps k is a over crossed h in
            (
              s.current_peer_index + argmax_from (p - s.current_length) 0 1 is,
              omega arith,
              omega (
                arith,
                cur,
                cross-length _ _ _ k is crossed,
                argmax_from-le (p - s.current_length) 0 1 is (omega arith),
              ),
              done,
            )
      ]

  place-order :
      (part : List V) (s s' : Split V)
      → EmptyAfter s.current_peer_index s.inputs
      → place part s ≡ ok s'
      → (cat s'.inputs ≡ cat s.inputs ++ (part ∷ [])) × EmptyAfter s'.current_peer_index s'.inputs
  place-order part s s' e h =
      let (i, above, below, done) = place-at part s s' h in
      let (order, empty) =
        cat-append_at i part s.inputs s'.inputs (later s.current_peer_index i s.inputs e above)
          done in
      (order, later i s'.current_peer_index s'.inputs empty below)

  pub place_all-order :
      (parts : List (List V)) (s s' : Split V)
      → EmptyAfter s.current_peer_index s.inputs
      → place_all parts s ≡ ok s'
      → cat s'.inputs ≡ cat s.inputs ++ parts
  unfolding place_all
  place_all-order [] s s' e h =
      ap (λ r. cat r.inputs) (sym (ok-injective h)) ∙ sym (append-nil (cat s.inputs))
  place_all-order (part ∷ parts) s s' e h = elim (Outcome-cases (place part s)) [
    | inr (x, failed) ↦ absurd (ground arith)
    | inl (s1, done) ↦
        let (order, empty) = place-order part s s1 e done in
        place_all-order parts s1 s' empty (ground arith)
        ∙ ap (λ y. y ++ parts) order
        ∙ append_assoc (cat s.inputs) (part ∷ []) parts
  ]
