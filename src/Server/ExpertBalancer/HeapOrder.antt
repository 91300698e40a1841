-- ===== src/Server/ExpertBalancer/HeapOrder.antt =====
-- What a heap keeps: the order of its entries by runtime, and its entries.
use agora_test.Prelude.{
  List, [], ◌∷◌, true, false, ◌≡◌, refl, sym, subst, ◌⊎◌, inl, inr, Bool-cases, bytes_lt, arith,
}
use agora_test.Server.ExpertBalancer.{Float, Entry}
use agora_test.Server.ExpertBalancer.Heap.{entry_less, same_entry, heappush, push_all}

module _ {F : Type 0} (float : Float F) where
  pub less_irrefl : (a : F) → float.less a a ≡ false
  less_irrefl a = elim (Bool-cases (float.less a a)) [
    | inl less ↦ float.less_asym a a less
    | inr not_less ↦ not_less
  ]

  -- No entry of the list has a runtime below that of `e`.
  abbrev IsBelow : Entry F → List (Entry F) → Type 0
  IsBelow e [] = Unit
  IsBelow e (x ∷ xs) = (float.less x.runtime e.runtime ≡ false) × IsBelow e xs

  abbrev pub IsSorted : List (Entry F) → Type 0
  IsSorted [] = Unit
  IsSorted (e ∷ xs) = IsBelow e xs × IsSorted xs

  abbrev pub In : Entry F → List (Entry F) → Type 0
  In e [] = ⊥
  In e (x ∷ xs) = (x ≡ e) ⊎ In e xs

  pub IsBelow-In :
      (e f : Entry F) (xs : List (Entry F))
      → IsBelow e xs
      → In f xs
      → float.less f.runtime e.runtime ≡ false
  IsBelow-In e f [] b m = elim m [ ]
  IsBelow-In e f (x ∷ xs) b (inl same) =
      subst (λ y. float.less y.runtime e.runtime ≡ false) same b.0
  IsBelow-In e f (x ∷ xs) b (inr more) = IsBelow-In e f xs b.1 more

  IsBelow-trans :
      (a b : Entry F) (xs : List (Entry F))
      → float.less b.runtime a.runtime ≡ false
      → IsBelow b xs
      → IsBelow a xs
  IsBelow-trans a b [] h below = tt
  IsBelow-trans a b (x ∷ xs) h below =
      (float.not_less_trans a.runtime b.runtime x.runtime h below.0, IsBelow-trans a b xs h below.1)

  entry_less-runtime :
      (a b : Entry F)
      → ((entry_less float a b ≡ true) → float.less b.runtime a.runtime ≡ false)
        × ((entry_less float a b ≡ false) → float.less a.runtime b.runtime ≡ false)
  unfolding entry_less
  entry_less-runtime a b =
      elim (float.dec a.runtime b.runtime)
        as (λ d.
          ((elim d [
            | no other ↦ float.less a.runtime b.runtime
            | yes same ↦ elim (float.dec a.tie b.tie) [
              | no other ↦ float.less a.tie b.tie
              | yes same ↦ bytes_lt a.uid b.uid
            ]
          ]
              ≡ true)
            → float.less b.runtime a.runtime ≡ false)
          × ((elim d [
            | no other ↦ float.less a.runtime b.runtime
            | yes same ↦ elim (float.dec a.tie b.tie) [
              | no other ↦ float.less a.tie b.tie
              | yes same ↦ bytes_lt a.uid b.uid
            ]
          ]
                ≡ false)
              → float.less a.runtime b.runtime ≡ false)) [
                | no other ↦ (λ h. float.less_asym _ _ h, λ h. h)
                | yes same ↦ (
                  λ h.
                      subst (λ x. float.less b.runtime x ≡ false) (sym same)
                        (less_irrefl b.runtime),
                  λ h.
                      subst (λ x. float.less x b.runtime ≡ false) (sym same)
                        (less_irrefl b.runtime),
                )
              ]

  heappush-last :
      (e x : Entry F) (xs : List (Entry F))
      → entry_less float x e ≡ true
      → heappush float e (x ∷ xs) ≡ (x ∷ heappush float e xs)
  unfolding heappush
  heappush-last e x xs h = rw h refl

  heappush-first :
      (e x : Entry F) (xs : List (Entry F))
      → entry_less float x e ≡ false
      → heappush float e (x ∷ xs) ≡ (e ∷ x ∷ xs)
  unfolding heappush
  heappush-first e x xs h = rw h refl

  IsBelow-heappush :
      (a e : Entry F) (xs : List (Entry F))
      → float.less e.runtime a.runtime ≡ false
      → IsBelow a xs
      → IsBelow a (heappush float e xs)
  unfolding heappush
  IsBelow-heappush a e [] h below = (h, tt)
  IsBelow-heappush a e (x ∷ xs) h below = elim (Bool-cases (entry_less float x e)) [
    | inl last ↦ rw last (below.0, IsBelow-heappush a e xs h below.1)
    | inr first ↦ rw first (h, below)
  ]

  pub heappush-IsSorted :
      (e : Entry F) (xs : List (Entry F)) → IsSorted xs → IsSorted (heappush float e xs)
  heappush-IsSorted e [] s = unfold heappush in (tt, tt)
  heappush-IsSorted e (x ∷ xs) s = elim (Bool-cases (entry_less float x e)) [
    | inl last ↦
        rw (heappush-last e x xs last) (
          IsBelow-heappush x e xs ((entry_less-runtime x e).0 last) s.0,
          heappush-IsSorted e xs s.1,
        )
    | inr first ↦
        let le = (entry_less-runtime x e).1 first in
        rw (heappush-first e x xs first) ((le, IsBelow-trans e x xs le s.0), s)
  ]

  pub In-heappush_self : (e : Entry F) (xs : List (Entry F)) → In e (heappush float e xs)
  In-heappush_self e [] = unfold heappush in inl refl
  In-heappush_self e (x ∷ xs) = elim (Bool-cases (entry_less float x e)) [
    | inl last ↦ rw (heappush-last e x xs last) (inr (In-heappush_self e xs))
    | inr first ↦ rw (heappush-first e x xs first) (inl refl)
  ]

  pub In-heappush : (e f : Entry F) (xs : List (Entry F)) → In f xs → In f (heappush float e xs)
  In-heappush e f [] m = elim m [ ]
  In-heappush e f (x ∷ xs) m = elim (Bool-cases (entry_less float x e)) [
    | inr first ↦ rw (heappush-first e x xs first) (inr m)
    | inl last ↦
        rw (heappush-last e x xs last)
          (elim m [ inl here ↦ inl here | inr more ↦ inr (In-heappush e f xs more) ])
  ]

  pub push_all-IsSorted :
      (skipped xs : List (Entry F)) → IsSorted xs → IsSorted (push_all float skipped xs)
  unfolding push_all
  push_all-IsSorted [] xs s = s
  push_all-IsSorted (e ∷ skipped) xs s =
      push_all-IsSorted skipped (heappush float e xs) (heappush-IsSorted e xs s)

  pub In-push_all_queue :
      (f : Entry F) (skipped xs : List (Entry F)) → In f xs → In f (push_all float skipped xs)
  unfolding push_all
  In-push_all_queue f [] xs m = m
  In-push_all_queue f (e ∷ skipped) xs m =
      In-push_all_queue f skipped (heappush float e xs) (In-heappush e f xs m)

  pub In-push_all :
      (f : Entry F) (skipped xs : List (Entry F)) → In f skipped → In f (push_all float skipped xs)
  unfolding push_all
  In-push_all f [] xs m = elim m [ ]
  In-push_all f (e ∷ skipped) xs (inr more) = In-push_all f skipped (heappush float e xs) more
  In-push_all f (e ∷ skipped) xs (inl same) =
      In-push_all_queue f skipped (heappush float e xs)
        (subst (λ y. In y (heappush float e xs)) same (In-heappush_self e xs))

  pub same_entry_sound : (a b : Entry F) → same_entry float a b ≡ true → a ≡ b
  unfolding same_entry
  same_entry_sound a b h = ground arith

  pub same_entry_refl : (a : Entry F) → same_entry float a a ≡ true
  unfolding same_entry
  same_entry_refl a = ground arith
