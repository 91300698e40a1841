-- ===== src/Prelude/DictSet.antt =====
-- Assignment to a key of a `dict`, and the keys of the result.
use mathlib.Core.Path.{◌≡◌, refl, ap, sym, subst, ◌∙◌}
use Prim.Native.Nat.{◌+◌, ◌≤◌}
use mathlib.Core.Logic.{◌≢◌, ◌⊎◌, inl, inr}
use native.Mathlib.Omega.{arith}
use agora_test.Prelude.Lists.{length}
use mathlib.Core.Option.{none, some, none-ne-some, some-injective}
use mathlib.Core.List.{List, [], ◌∷◌}
use agora_test.Prelude.Dict.{
  lookup, set, remove, Absent, IsDict, lookup-head, lookup-Absent, remove-IsDict, lookup-remove,
}

module _ {K V : Type 0} (dec : Discrete K) where
  pub lookup-set_self : (k : K) (v : V) (d : List (K × V)) → lookup dec k (set dec k v d) ≡ some v
  unfolding lookup set
  lookup-set_self k v [] = lookup-head dec k v []
  lookup-set_self k v (e ∷ d) =
      elim (dec e.0 k)
        as (λ x.
          lookup dec k (elim x [ yes same ↦ (k, v) ∷ d | no other ↦ e ∷ set dec k v d ]) ≡ some v) [
            | yes same ↦ lookup-head dec k v d
            | no other ↦
                elim (dec e.0 k)
                  as (λ y.
                    elim y [ yes same ↦ some e.1 | no ne ↦ lookup dec k (set dec k v d) ]
                    ≡ some v) [ yes same ↦ absurd (other same) | no ne ↦ lookup-set_self k v d ]
          ]

  pub lookup-set_other :
      (j k : K) (v : V) (d : List (K × V)) → j ≢ k → lookup dec j (set dec k v d) ≡ lookup dec j d
  unfolding lookup set
  lookup-set_other j k v [] ne =
      elim (dec k j) as (λ y. elim y [ yes same ↦ some v | no other ↦ none ] ≡ none) [
        | yes same ↦ absurd (ne (sym same))
        | no other ↦ refl
      ]
  lookup-set_other j k v (e ∷ d) ne =
      elim (dec e.0 k)
        as (λ x.
          lookup dec j (elim x [ yes same ↦ (k, v) ∷ d | no other ↦ e ∷ set dec k v d ])
          ≡ elim (dec e.0 j) [ yes same ↦ some e.1 | no other ↦ lookup dec j d ]) [
            | yes same ↦
                elim (dec k j)
                  as (λ y.
                    elim y [ yes also ↦ some v | no other ↦ lookup dec j d ]
                    ≡ elim (dec e.0 j) [ yes also ↦ some e.1 | no other ↦ lookup dec j d ]) [
                      | yes also ↦ absurd (ne (sym also))
                      | no there ↦
                          elim (dec e.0 j)
                            as (λ z.
                              lookup dec j d
                              ≡ elim z [ yes also ↦ some e.1 | no other ↦ lookup dec j d ]) [
                                | yes also ↦ absurd (ne (sym also ∙ same))
                                | no other ↦ refl
                              ]
                    ]
            | no other ↦
                ap (λ o. elim (dec e.0 j) [ yes also ↦ some e.1 | no also ↦ o ])
                  (lookup-set_other j k v d ne)
          ]

  Absent-set :
      (j k : K) (v : V) (d : List (K × V)) → k ≢ j → Absent dec j d → Absent dec j (set dec k v d)
  unfolding set
  Absent-set j k v [] ne a = (ne, tt)
  Absent-set j k v (e ∷ d) ne a =
      elim (dec e.0 k)
        as (λ x. Absent dec j (elim x [ yes same ↦ (k, v) ∷ d | no other ↦ e ∷ set dec k v d ])) [
          | yes same ↦ (ne, a.1)
          | no other ↦ (a.0, Absent-set j k v d ne a.1)
        ]

  pub set-IsDict : (k : K) (v : V) (d : List (K × V)) → IsDict dec d → IsDict dec (set dec k v d)
  unfolding set
  set-IsDict k v [] u = (tt, tt)
  set-IsDict k v (e ∷ d) u =
      elim (dec e.0 k)
        as (λ x. IsDict dec (elim x [ yes same ↦ (k, v) ∷ d | no other ↦ e ∷ set dec k v d ])) [
          | yes same ↦ (subst (λ j. Absent dec j d) same u.0, u.1)
          | no other ↦ (Absent-set e.0 k v d (λ same. other (sym same)) u.0, set-IsDict k v d u.1)
        ]

  pub lookup-remove_self :
      (k : K) (d : List (K × V)) → IsDict dec d → lookup dec k (remove dec k d) ≡ none
  lookup-remove_self k d u = lookup-Absent dec k (remove dec k d) (remove-IsDict dec k d u).0

  -- What is there after a removal is another key, and was there before.
  pub lookup-remove-some :
      (k j : K) (v : V) (d : List (K × V))
      → IsDict dec d
      → lookup dec j (remove dec k d) ≡ some v
      → (j ≢ k) × (lookup dec j d ≡ some v)
  lookup-remove-some k j v d u h = elim (dec j k) [
    | yes same ↦ absurd (
        none-ne-some _ (
          sym (lookup-remove_self k d u)
          ∙ subst (λ x. lookup dec x (remove dec k d) ≡ some v) same h))
    | no other ↦ (other, sym (lookup-remove dec j k d other) ∙ h)
  ]

  -- What is there after an assignment is what was assigned, or was there before.
  pub lookup-set-some :
      (k j : K) (v w : V) (d : List (K × V))
      → lookup dec j (set dec k v d) ≡ some w
      → ((j ≡ k) × (v ≡ w)) ⊎ ((j ≢ k) × (lookup dec j d ≡ some w))
  lookup-set-some k j v w d h = elim (dec j k) [
    | yes same ↦ inl (
      same,
      some-injective _ _
          (sym (lookup-set_self k v d) ∙ subst (λ x. lookup dec x (set dec k v d) ≡ some w) same h),
    )
    | no other ↦ inr (other, sym (lookup-set_other j k v d other) ∙ h)
  ]

  pub length-set-le : (k : K) (v : V) (d : List (K × V)) → length (set dec k v d) ≤ length d + 1
  unfolding set
  length-set-le k v [] = omega arith
  length-set-le k v (e ∷ d) =
      elim (dec e.0 k)
        as (λ x.
          length (elim x [ yes same ↦ (k, v) ∷ d | no other ↦ e ∷ set dec k v d ])
          ≤ length (e ∷ d) + 1) [
            | yes same ↦ omega arith
            | no other ↦ omega (arith, length-set-le k v d)
          ]

  pub length-remove-le : (k : K) (d : List (K × V)) → length (remove dec k d) ≤ length d
  unfolding remove
  length-remove-le k [] = omega arith
  length-remove-le k (e ∷ d) =
      elim (dec e.0 k)
        as (λ x.
          length (elim x [ yes same ↦ d | no other ↦ e ∷ remove dec k d ]) ≤ length (e ∷ d)) [
            | yes same ↦ omega arith
            | no other ↦ omega (arith, length-remove-le k d)
          ]

  -- Each item of the list is in the dict.
  abbrev pub AllThere : List (K × V) → List (K × V) → Type 0
  AllThere [] d = Unit
  AllThere (e ∷ items) d = (lookup dec e.0 d ≡ some e.1) × AllThere items d

  pub AllThere-remove :
      (k : K) (items d : List (K × V))
      → Absent dec k items
      → AllThere items d
      → AllThere items (remove dec k d)
  AllThere-remove k [] d a t = tt
  AllThere-remove k (e ∷ items) d a t =
      (lookup-remove dec e.0 k d a.0 ∙ t.0, AllThere-remove k items d a.1 t.1)

  AllThere-cons :
      (e : K × V) (items d : List (K × V))
      → Absent dec e.0 items
      → AllThere items d
      → AllThere items (e ∷ d)
  unfolding lookup
  AllThere-cons e [] d a t = tt
  AllThere-cons e (x ∷ items) d a t = (
    elim (dec e.0 x.0)
        as (λ y. elim y [ yes same ↦ some e.1 | no other ↦ lookup dec x.0 d ] ≡ some x.1) [
          | yes same ↦ absurd (a.0 (sym same))
          | no other ↦ t.0
        ],
    AllThere-cons e items d a.1 t.1,
  )

  -- A dict has its own items.
  pub AllThere-refl : (d : List (K × V)) → IsDict dec d → AllThere d d
  AllThere-refl [] u = tt
  AllThere-refl (e ∷ d) u =
      (lookup-head dec e.0 e.1 d, AllThere-cons e d d u.0 (AllThere-refl d u.1))
