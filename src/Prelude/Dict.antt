-- ===== src/Prelude/Dict.antt =====
-- Python's `dict`, as the list of its items in the order of insertion.
use Prim.Native.Nat.{suc}
use mathlib.Core.Path.{◌≡◌, refl, ap, sym, subst, ◌∙◌}
use mathlib.Core.Logic.{◌≢◌}
use mathlib.Core.Option
use mathlib.Core.Option.{Option, none, some, none-ne-some}
use mathlib.Core.List.{List, [], ◌∷◌, ◌++◌}
use agora_test.Prelude.Lists.{length}

module _ {K V : Type 0} (dec : Discrete K) where
  -- `d.get(k)`
  unfoldable pub lookup : K → List (K × V) → Option V
  lookup k [] = none
  lookup k (e ∷ d) = elim (dec e.0 k) [ yes same ↦ some e.1 | no other ↦ lookup k d ]

  -- the dict after `d.pop(k, None)`
  unfoldable pub remove : K → List (K × V) → List (K × V)
  remove k [] = []
  remove k (e ∷ d) = elim (dec e.0 k) [ yes same ↦ d | no other ↦ e ∷ remove k d ]

  -- `d[k] = v`: in place, or at the end
  unfoldable pub set : K → V → List (K × V) → List (K × V)
  set k v [] = (k, v) ∷ []
  set k v (e ∷ d) = elim (dec e.0 k) [ yes same ↦ (k, v) ∷ d | no other ↦ e ∷ set k v d ]

  -- `k` is not a key.
  abbrev pub Absent : K → List (K × V) → Type 0
  Absent k [] = Unit
  Absent k (e ∷ d) = (e.0 ≢ k) × Absent k d

  -- Each key stands once.
  abbrev pub IsDict : List (K × V) → Type 0
  IsDict [] = Unit
  IsDict (e ∷ d) = Absent e.0 d × IsDict d

  pub lookup-head : (k : K) (v : V) (d : List (K × V)) → lookup k ((k, v) ∷ d) ≡ some v
  unfolding lookup
  lookup-head k v d =
      elim (dec k k) as (λ x. elim x [ yes same ↦ some v | no other ↦ lookup k d ] ≡ some v) [
        | yes same ↦ refl
        | no other ↦ absurd (other refl)
      ]

  pub Absent-lookup : (k : K) (d : List (K × V)) → lookup k d ≡ none → Absent k d
  unfolding lookup
  Absent-lookup k [] h = tt
  Absent-lookup k (e ∷ d) h =
      elim (dec e.0 k)
          as (λ x.
            elim x [ yes same ↦ some e.1 | no other ↦ lookup k d ] ≡ none
            → (e.0 ≢ k) × Absent k d) [
              | yes same ↦ λ h. absurd (none-ne-some _ (sym h))
              | no other ↦ λ h. (other, Absent-lookup k d h)
            ]
        h

  pub remove-head : (k : K) (v : V) (d : List (K × V)) → remove k ((k, v) ∷ d) ≡ d
  unfolding remove
  remove-head k v d =
      elim (dec k k) as (λ x. elim x [ yes same ↦ d | no other ↦ (k, v) ∷ remove k d ] ≡ d) [
        | yes same ↦ refl
        | no other ↦ absurd (other refl)
      ]

  pub lookup-Absent : (k : K) (d : List (K × V)) → Absent k d → lookup k d ≡ none
  unfolding lookup
  lookup-Absent k [] a = refl
  lookup-Absent k (e ∷ d) a =
      elim (dec e.0 k) as (λ x. elim x [ yes same ↦ some e.1 | no other ↦ lookup k d ] ≡ none) [
        | yes same ↦ absurd (a.0 same)
        | no other ↦ lookup-Absent k d a.1
      ]

  pub length-remove :
      (k : K) (d : List (K × V)) (v : V)
      → lookup k d ≡ some v
      → length d ≡ suc (length (remove k d))
  unfolding lookup remove
  length-remove k [] v h = absurd (none-ne-some _ h)
  length-remove k (e ∷ d) v h =
      elim (dec e.0 k)
          as (λ x.
            elim x [ yes same ↦ some e.1 | no other ↦ lookup k d ] ≡ some v
            → suc (length d) ≡ suc (length (elim x [ yes same ↦ d | no other ↦ e ∷ remove k d ]))) [
              | yes same ↦ λ g. refl
              | no other ↦ λ g. ap suc (length-remove k d v g)
            ]
        h

  pub lookup-remove : (j k : K) (d : List (K × V)) → j ≢ k → lookup j (remove k d) ≡ lookup j d
  unfolding lookup remove
  lookup-remove j k [] ne = refl
  lookup-remove j k (e ∷ d) ne =
      elim (dec e.0 k)
        as (λ x.
          lookup j (elim x [ yes same ↦ d | no other ↦ e ∷ remove k d ])
          ≡ elim (dec e.0 j) [ yes same ↦ some e.1 | no other ↦ lookup j d ]) [
            | yes same ↦
                elim (dec e.0 j)
                  as (λ y. lookup j d ≡ elim y [ yes also ↦ some e.1 | no other ↦ lookup j d ]) [
                    | yes also ↦ absurd (ne (sym also ∙ same))
                    | no other ↦ refl
                  ]
            | no other ↦
                ap (λ o. elim (dec e.0 j) [ yes also ↦ some e.1 | no also ↦ o ])
                  (lookup-remove j k d ne)
          ]

  pub lookup-append :
      (j k : K) (v : V) (d : List (K × V)) → j ≢ k → lookup j (d ++ ((k, v) ∷ [])) ≡ lookup j d
  unfolding lookup
  lookup-append j k v [] ne =
      elim (dec k j) as (λ y. elim y [ yes same ↦ some v | no other ↦ none ] ≡ none) [
        | yes same ↦ absurd (ne (sym same))
        | no other ↦ refl
      ]
  lookup-append j k v (e ∷ d) ne =
      ap (λ o. elim (dec e.0 j) [ yes also ↦ some e.1 | no also ↦ o ]) (lookup-append j k v d ne)

  pub lookup-append_Absent :
      (k : K) (v : V) (d : List (K × V)) → Absent k d → lookup k (d ++ ((k, v) ∷ [])) ≡ some v
  unfolding lookup
  lookup-append_Absent k v [] a = lookup-head k v []
  lookup-append_Absent k v (e ∷ d) a =
      elim (dec e.0 k)
        as (λ x.
          elim x [ yes same ↦ some e.1 | no other ↦ lookup k (d ++ ((k, v) ∷ [])) ] ≡ some v) [
            | yes same ↦ absurd (a.0 same)
            | no other ↦ lookup-append_Absent k v d a.1
          ]

  pub remove-Absent : (k : K) (d : List (K × V)) → Absent k d → remove k d ≡ d
  unfolding remove
  remove-Absent k [] a = refl
  remove-Absent k (e ∷ d) a =
      elim (dec e.0 k) as (λ x. elim x [ yes same ↦ d | no other ↦ e ∷ remove k d ] ≡ (e ∷ d)) [
        | yes same ↦ absurd (a.0 same)
        | no other ↦ ap (◌∷◌ e) (remove-Absent k d a.1)
      ]

  pub set-Absent : (k : K) (v : V) (d : List (K × V)) → Absent k d → set k v d ≡ d ++ ((k, v) ∷ [])
  unfolding set
  set-Absent k v [] a = refl
  set-Absent k v (e ∷ d) a =
      elim (dec e.0 k)
        as (λ x.
          elim x [ yes same ↦ (k, v) ∷ d | no other ↦ e ∷ set k v d ]
          ≡ (e ∷ (d ++ ((k, v) ∷ [])))) [
            | yes same ↦ absurd (a.0 same)
            | no other ↦ ap (◌∷◌ e) (set-Absent k v d a.1)
          ]

  Absent-remove : (j k : K) (d : List (K × V)) → Absent j d → Absent j (remove k d)
  unfolding remove
  Absent-remove j k [] a = tt
  Absent-remove j k (e ∷ d) a =
      elim (dec e.0 k) as (λ x. Absent j (elim x [ yes same ↦ d | no other ↦ e ∷ remove k d ])) [
        | yes same ↦ a.1
        | no other ↦ (a.0, Absent-remove j k d a.1)
      ]

  pub remove-IsDict :
      (k : K) (d : List (K × V)) → IsDict d → Absent k (remove k d) × IsDict (remove k d)
  unfolding remove
  remove-IsDict k [] u = (tt, tt)
  remove-IsDict k (e ∷ d) u =
      elim (dec e.0 k)
        as (λ x.
          Absent k (elim x [ yes same ↦ d | no other ↦ e ∷ remove k d ])
          × IsDict (elim x [ yes same ↦ d | no other ↦ e ∷ remove k d ])) [
            | yes same ↦ (subst (λ j. Absent j d) same u.0, u.1)
            | no other ↦
                let (gone, rest) = remove-IsDict k d u.1 in
                ((other, gone), (Absent-remove e.0 k d u.0, rest))
          ]

  Absent-append :
      (j k : K) (v : V) (d : List (K × V)) → Absent j d → k ≢ j → Absent j (d ++ ((k, v) ∷ []))
  Absent-append j k v [] a ne = (ne, tt)
  Absent-append j k v (e ∷ d) a ne = (a.0, Absent-append j k v d a.1 ne)

  pub append-IsDict :
      (k : K) (v : V) (d : List (K × V)) → Absent k d → IsDict d → IsDict (d ++ ((k, v) ∷ []))
  append-IsDict k v [] a u = (tt, tt)
  append-IsDict k v (e ∷ d) a u =
      (Absent-append e.0 k v d u.0 (λ same. a.0 (sym same)), append-IsDict k v d a.1 u.1)

-- The dict with each value `v` replaced by `f v`.
abbrev pub map_values : {K V W : Type 0} → (V → W) → List (K × V) → List (K × W)
map_values f [] = []
map_values f (e ∷ d) = (e.0, f e.1) ∷ map_values f d

module _ {K V W : Type 0} (dec : Discrete K) (f : V → W) where
  pub lookup-map_values :
      (k : K) (d : List (K × V)) → lookup dec k (map_values f d) ≡ Option.map f (lookup dec k d)
  unfolding lookup
  lookup-map_values k [] = refl
  lookup-map_values k (e ∷ d) =
      elim (dec e.0 k)
        as (λ x.
          elim x [ yes same ↦ some (f e.1) | no other ↦ lookup dec k (map_values f d) ]
          ≡ Option.map f (elim x [ yes same ↦ some e.1 | no other ↦ lookup dec k d ])) [
            | yes same ↦ refl
            | no other ↦ lookup-map_values k d
          ]

  pub remove-map_values :
      (k : K) (d : List (K × V)) → remove dec k (map_values f d) ≡ map_values f (remove dec k d)
  unfolding remove
  remove-map_values k [] = refl
  remove-map_values k (e ∷ d) =
      elim (dec e.0 k)
        as (λ x.
          elim x [
            | yes same ↦ map_values f d
            | no other ↦ (e.0, f e.1) ∷ remove dec k (map_values f d)
          ]
          ≡ map_values f (elim x [ yes same ↦ d | no other ↦ e ∷ remove dec k d ])) [
            | yes same ↦ refl
            | no other ↦ ap (◌∷◌ (e.0, f e.1)) (remove-map_values k d)
          ]

  pub Absent-map_values :
      (k : K) (d : List (K × V)) → Absent dec k d → Absent dec k (map_values f d)
  Absent-map_values k [] a = tt
  Absent-map_values k (e ∷ d) a = (a.0, Absent-map_values k d a.1)

  pub map_values-append :
      (c d : List (K × V)) → map_values f (c ++ d) ≡ map_values f c ++ map_values f d
  map_values-append [] d = refl
  map_values-append (e ∷ c) d = ap (◌∷◌ (e.0, f e.1)) (map_values-append c d)

pub length-map_values :
    {K V W : Type 0} (f : V → W) (d : List (K × V)) → length (map_values f d) ≡ length d
length-map_values f [] = refl
length-map_values f (e ∷ d) = ap suc (length-map_values f d)
