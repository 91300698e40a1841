-- ===== src/Pithos/ChunkCache/Budget.antt =====
-- The resident chunks stay within the budget, in any order of the critical sections.
use agora_test.Prelude.{
  ℕ, zero, suc, ◌+◌, ◌≤◌, List, [], ◌∷◌, ◌++◌, none, some, ltb, length, Text, lookup, remove, ◌≡◌,
  ◌≢◌, refl, ap, sym, ◌∙◌, arith, subst, ◌⊎◌, inl, inr, Bool-cases, Option-cases, IsDict, Absent,
  remove-IsDict, length-remove, some-injective, none-ne-some, lookup-head,
}
use agora_test.Pithos.ChunkCache.{Residents, victim_of, drop_victim, shrink}

module _ {V : Type 0} (dec : Discrete Text) (size_of : Text → ℕ) (budget : ℕ) where
  unfoldable pub total : List (Text × V) → ℕ
  total [] = 0
  total (e ∷ d) = size_of e.0 + total d

  -- No chunk is resident twice, the bytes are those of the residents, and they are within the budget
  -- unless a single chunk is resident.
  pub record IsResident (s : Residents V) : Type 0 where
    pub unique : IsDict dec s.resident
    pub bytes : s.resident_bytes ≡ total s.resident
    pub bounded : (s.resident_bytes ≤ budget) ⊎ (length s.resident ≤ 1)

  pub total-remove :
      (k : Text) (d : List (Text × V)) (v : V)
      → lookup dec k d ≡ some v
      → total d ≡ size_of k + total (remove dec k d)
  unfolding total lookup remove
  total-remove k [] v h = absurd (none-ne-some _ h)
  total-remove k (e ∷ d) v h =
      elim (dec e.0 k)
          as (λ x.
            elim x [ yes same ↦ some e.1 | no other ↦ lookup dec k d ] ≡ some v
            → size_of e.0 + total d
              ≡ size_of k + total (elim x [ yes same ↦ d | no other ↦ e ∷ remove dec k d ])) [
                | yes same ↦ λ g. ap (λ n. size_of n + total d) same
                | no other ↦ λ g. omega (arith, total-remove k d v g)
              ]
        h

  pub total-append :
      (d : List (Text × V)) (k : Text) (v : V) → total (d ++ ((k, v) ∷ [])) ≡ total d + size_of k
  unfolding total
  total-append [] k v = omega arith
  total-append (e ∷ d) k v = omega (arith, total-append d k v)

  lookup-other :
      (j : Text) (e : Text × V) (d : List (Text × V))
      → e.0 ≢ j
      → lookup dec j (e ∷ d) ≡ lookup dec j d
  unfolding lookup
  lookup-other j e d ne =
      elim (dec e.0 j)
        as (λ x. elim x [ yes same ↦ some e.1 | no other ↦ lookup dec j d ] ≡ lookup dec j d) [
          | yes same ↦ absurd (ne same)
          | no other ↦ refl
        ]

  pub victim-lookup :
      (name victim : Text) (d : List (Text × V))
      → victim_of dec size_of budget name d ≡ some victim
      → (victim ≢ name) × (v : V) × (lookup dec victim d ≡ some v)
  unfolding victim_of
  victim-lookup name victim [] h = absurd (none-ne-some _ h)
  victim-lookup name victim (e ∷ d) h =
      elim (dec e.0 name)
          as (λ x.
            elim x [ yes same ↦ victim_of dec size_of budget name d | no other ↦ some e.0 ]
              ≡ some victim
            → (victim ≢ name) × (v : V) × (lookup dec victim (e ∷ d) ≡ some v)) [
              | yes same ↦ λ g.
                  let (ne, v, found) = victim-lookup name victim d g in
                  (ne, v, lookup-other victim e d (λ also. ne (sym also ∙ same)) ∙ found)
              | no other ↦ λ g.
                  let first : e.0 ≡ victim = some-injective _ _ g in
                  (
                    subst (λ k. k ≢ name) first other,
                    e.1,
                    subst (λ k. lookup dec k (e ∷ d) ≡ some e.1) first (lookup-head dec e.0 e.1 d),
                  )
            ]
        h

  lone :
      (name : Text) (d : List (Text × V))
      → Absent dec name d
      → victim_of dec size_of budget name d ≡ none
      → length d ≡ 0
  unfolding victim_of
  lone name [] a h = refl
  lone name (e ∷ d) a h =
      elim (dec e.0 name)
          as (λ x.
            elim x [ yes same ↦ victim_of dec size_of budget name d | no other ↦ some e.0 ] ≡ none
            → suc (length d) ≡ 0) [
              | yes same ↦ absurd (a.0 same)
              | no other ↦ λ g. absurd (none-ne-some _ (sym g))
            ]
        h

  no_victim :
      (name : Text) (d : List (Text × V))
      → IsDict dec d
      → victim_of dec size_of budget name d ≡ none
      → length d ≤ 1
  unfolding victim_of
  no_victim name [] u h = omega arith
  no_victim name (e ∷ d) u h =
      elim (dec e.0 name)
          as (λ x.
            elim x [ yes same ↦ victim_of dec size_of budget name d | no other ↦ some e.0 ] ≡ none
            → suc (length d) ≤ 1) [
              | yes same ↦ λ g. omega (arith, lone name d (subst (λ k. Absent dec k d) same u.0) g)
              | no other ↦ λ g. absurd (none-ne-some _ (sym g))
            ]
        h

  -- What the loop needs of the state that it starts from.
  pub record IsCounted (s : Residents V) : Type 0 where
    pub unique : IsDict dec s.resident
    pub bytes : s.resident_bytes ≡ total s.resident

  pub drop_victim-IsCounted :
      (victim : Text) (s : Residents V) (v : V)
      → lookup dec victim s.resident ≡ some v
      → IsCounted s
      → IsCounted (drop_victim dec size_of budget victim s)
        × (suc (length (drop_victim dec size_of budget victim s).resident) ≡ length s.resident)
  unfolding drop_victim
  drop_victim-IsCounted victim s v h c = (
    record {
      unique = (remove-IsDict dec victim s.resident c.unique).1;
      bytes = omega (arith, c.bytes, total-remove victim s.resident v h);
    },
    sym (length-remove dec victim s.resident v h),
  )

  pub shrink-IsResident :
      (fuel : ℕ) (name : Text) (s : Residents V)
      → IsCounted s
      → length s.resident ≤ fuel
      → IsResident (shrink dec size_of budget fuel name s)
  unfolding shrink
  shrink-IsResident zero name s c h = record {
    unique = c.unique;
    bytes = c.bytes;
    bounded = inr (omega arith);
  }
  shrink-IsResident (suc fuel) name s c h = elim (Bool-cases (ltb budget s.resident_bytes)) [
    | inr fits ↦
        rw (fits, shrink)
          (record { unique = c.unique; bytes = c.bytes; bounded = inl (ground arith) })
    | inl much ↦ elim (Option-cases (victim_of dec size_of budget name s.resident)) [
      | inl alone ↦
          rw (much, shrink)
            (rw (alone, shrink)
              (record {
                unique = c.unique;
                bytes = c.bytes;
                bounded = inr (no_victim name s.resident c.unique alone);
              }))
      | inr (victim, found) ↦
          let (ne, v, there) = victim-lookup name victim s.resident found in
          let (c', less) = drop_victim-IsCounted victim s v there c in
          rw (much, shrink)
            (rw (found, shrink)
              (shrink-IsResident fuel name (drop_victim dec size_of budget victim s) c'
                (omega (arith, less))))
    ]
  ]
