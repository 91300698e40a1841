-- ===== src/Server/TensorParts/RoundTrip.antt =====
-- The output tensors are the tensors of the parts that the peers return.
use agora_test.Prelude.{
  ℕ, zero, suc, List, [], ◌∷◌, ◌++◌, leb, length, drop, take, take-append-drop, ok, ◌≡◌, refl, ap,
  ap₂, sym, ◌∙◌, append-nil, replicate, Bool-cases, inl, inr, map,
}
use agora_test.Server.TensorParts.{
  Split, cat, Flat, all_parts, tensor_parts, split, init, next_part, next_parts, output_tensors,
}
use agora_test.Server.TensorParts.Order.{
  AllEmpty, AllEmpty-EmptyAfter, cat-AllEmpty, place_all-order,
}

pub cat-split : {V : Type 0} (fuel n : ℕ) (xs : List V) → cat (split fuel n xs) ≡ xs
unfolding split
cat-split zero n xs = append-nil xs
cat-split (suc fuel) n xs = elim (Bool-cases (leb (length xs) n)) [
  | inl short ↦ rw (short, split) (append-nil xs)
  | inr long ↦
      rw (long, split)
        (ap (λ y. take n xs ++ y) (cat-split fuel n (drop n xs)) ∙ take-append-drop n xs)
]

AllEmpty-replicate : (A : Type 0) (n : ℕ) → AllEmpty {A = A} (replicate n [])
AllEmpty-replicate A zero = tt
AllEmpty-replicate A (suc n) = (refl, AllEmpty-replicate A n)

module _ {A : Type 0} where
  next_part-cat :
      (x : A) (xs : List A) (outputs : List (List A))
      → cat outputs ≡ x ∷ xs
      → (rest : List (List A)) × (next_part outputs ≡ ok (x, rest)) × (cat rest ≡ xs)
  unfolding next_part
  next_part-cat x xs [] h = cc
  next_part-cat x xs ([] ∷ outputs) h = next_part-cat x xs outputs h
  next_part-cat x xs ((y ∷ ys) ∷ outputs) h = (ys ∷ outputs, cc, cc)

  next_parts-cat :
      (xs ys : List A) (outputs : List (List A))
      → cat outputs ≡ xs ++ ys
      → (rest : List (List A)) × (next_parts (length xs) outputs ≡ ok (xs, rest)) × (cat rest ≡ ys)
  unfolding next_parts
  next_parts-cat [] ys outputs h = (outputs, refl, h)
  next_parts-cat (x ∷ xs) ys outputs h =
      let (rest, first, left) = next_part-cat x (xs ++ ys) outputs h in
      let (rest', more, left') = next_parts-cat xs ys rest left in
      (rest', rw (first, next_parts) (rw (more, next_parts) refl), left')

module _ {V : Type 0} (g : List V → List V) where
  map-append : (xs ys : List (List V)) → map g (xs ++ ys) ≡ map g xs ++ map g ys
  map-append [] ys = refl
  map-append (x ∷ xs) ys = ap (λ y. g x ∷ y) (map-append xs ys)

  cat-map : (bs : List (List (List V))) → cat (map (map g) bs) ≡ map g (cat bs)
  cat-map [] = refl
  cat-map (b ∷ bs) = ap (λ y. map g b ++ y) (cat-map bs) ∙ sym (map-append b (cat bs))

  length-map_parts : (xs : List (List V)) → length (map g xs) ≡ length xs
  length-map_parts [] = refl
  length-map_parts (x ∷ xs) = ap suc (length-map_parts xs)

  -- The tensors that the parts as the peers return them make up.
  abbrev pub returned : Flat V → List V
  returned t = cat (map g (tensor_parts t))

  output_tensors-cat :
      (ts : List (Flat V)) (outputs : List (List (List V)))
      → cat outputs ≡ map g (all_parts ts)
      → output_tensors (map (λ t. length (tensor_parts t)) ts) outputs ≡ ok (map returned ts)
  unfolding output_tensors
  output_tensors-cat [] outputs h = refl
  output_tensors-cat (t ∷ ts) outputs h =
      let (rest, parts, left) =
        next_parts-cat (map g (tensor_parts t)) (map g (all_parts ts)) outputs
          (h ∙ map-append (tensor_parts t) (all_parts ts)) in
      let n = length-map_parts (tensor_parts t) in
      rw (← n)
        (rw (parts, output_tensors) (rw (output_tensors-cat ts rest left, output_tensors) refl))

  init-order :
      (ts : List (Flat V)) (pivots : List ℕ) (s : Split V)
      → init ts pivots ≡ ok s
      → cat s.inputs ≡ all_parts ts
  unfolding init
  init-order ts pivots s h =
      let empty = AllEmpty-replicate (List V) (length pivots) in
      place_all-order (all_parts ts) _ s
        (AllEmpty-EmptyAfter 0 (replicate (length pivots) []) empty) h
      ∙ ap (λ y. y ++ all_parts ts) (cat-AllEmpty (replicate (length pivots) []) empty)

  -- If the parts of the tensors have been given to peers, by any pivots, and each peer returns its
  -- parts in order, each changed in some way, the output tensors are those of the changed parts.
  pub output_tensors-init :
      (ts : List (Flat V)) (pivots : List ℕ) (s : Split V)
      → init ts pivots ≡ ok s
      → output_tensors (map (λ t. length (tensor_parts t)) ts) (map (map g) s.inputs)
        ≡ ok (map returned ts)
  output_tensors-init ts pivots s h =
      output_tensors-cat ts (map (map g) s.inputs)
        (cat-map s.inputs ∙ ap (map g) (init-order ts pivots s h))

map_same : {A : Type 0} (g : A → A) → ((x : A) → g x ≡ x) → (xs : List A) → map g xs ≡ xs
map_same g h [] = refl
map_same g h (x ∷ xs) = ap₂ (λ y ys. y ∷ ys) (h x) (map_same g h xs)

returned_same : {V : Type 0} (t : Flat V) → returned (λ (p : List V). p) t ≡ t.values
returned_same t =
    ap cat (map_same (λ p. p) (λ p. refl) (tensor_parts t))
    ∙ cat-split (length t.values) t.part_size_values t.values

-- If the parts of the tensors have been given to peers, by any pivots, and each peer returns its
-- parts in order and unchanged, the output tensors are the tensors.
output_tensors-values :
    {V : Type 0} (ts : List (Flat V)) (pivots : List ℕ) (s : Split V)
    → init ts pivots ≡ ok s
    → output_tensors (map (λ t. length (tensor_parts t)) ts) s.inputs ≡ ok (map (λ t. t.values) ts)
output_tensors-values {V} ts pivots s h =
    ap (output_tensors (map (λ t. length (tensor_parts t)) ts))
      (sym (map_same (map (λ (p : List V). p)) (map_same (λ p. p) (λ p. refl)) s.inputs))
    ∙ output_tensors-init (λ p. p) ts pivots s h
    ∙ ap ok (all_same ts)
  where
    all_same : (us : List (Flat V)) → map (returned (λ p. p)) us ≡ map (λ t. t.values) us
    all_same [] = refl
    all_same (u ∷ us) = ap₂ (λ y ys. y ∷ ys) (returned_same u) (all_same us)
