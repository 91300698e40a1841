-- ===== src/Server/W2wLocalRouter/Sample.antt =====
-- A storage of the sample balancer meets the laws that a router relies on.
use agora_test.Prelude.{
  ℕ, List, [], ◌∷◌, none, some, ◌≡◌, ◌≢◌, refl, ap, sym, subst, ◌∙◌, inl, inr, ltb, Bool-cases,
  Text, lookup, lookup-set_other,
}
use agora_test.Server.ExpertBalancer.Heap.{dec_uid}
use agora_test.Server.ExpertBalancer.Sample.{kept, discard, seconds, timed, stored, lookup-discard}
use agora_test.Server.W2wLocalRouter.Lasting.{IsLasting}

lookup-discard_other :
    {V : Type 0} (j k : Text) (d : List (Text × V))
    → j ≢ k
    → lookup dec_uid j (discard k d) ≡ lookup dec_uid j d
unfolding lookup
lookup-discard_other j k [] ne = refl
lookup-discard_other j k (e ∷ d) ne =
    elim (dec_uid e.0 k)
      as (λ x.
        lookup dec_uid j (elim x [ yes same ↦ discard k d | no other ↦ e ∷ discard k d ])
        ≡ elim (dec_uid e.0 j) [ yes same ↦ some e.1 | no other ↦ lookup dec_uid j d ]) [
          | yes same ↦
              lookup-discard_other j k d ne
              ∙ (elim (dec_uid e.0 j)
                  as (λ y.
                    lookup dec_uid j d
                    ≡ elim y [ yes also ↦ some e.1 | no other ↦ lookup dec_uid j d ]) [
                      | yes also ↦ absurd (ne (sym also ∙ same))
                      | no other ↦ refl
                    ])
          | no other ↦
              ap (λ o. elim (dec_uid e.0 j) [ yes also ↦ some e.1 | no also ↦ o ])
                (lookup-discard_other j k d ne)
        ]

-- A value that is found is still found after any value is stored.
stored_kept :
    {V : Type 0} (now until : ℕ) (j k : Text) (v : V) (w : V × ℕ) (s : List (Text × (V × ℕ)))
    → kept now (lookup dec_uid j s) ≡ some w
    → (w' : V × ℕ) × (timed.get now j (timed.store now k v until s) ≡ some w')
stored_kept now until j k v w s h = elim (Bool-cases (ltb until now)) [
  | inl over ↦ (w, rw over h)
  | inr still ↦ elim (dec_uid j k) [
    | yes same ↦ (
      (v, until),
      subst (λ x. timed.get now x (timed.store now k v until s) ≡ some (v, until)) (sym same)
          (stored now until now k v s still still),
    )
    | no other ↦ (w, rw (still, lookup-set_other dec_uid j k (v, until) s other) h)
  ]
]

pub timed-IsLasting : {V : Type 0} → IsLasting {V = V} seconds timed
timed-IsLasting {V} = record {
  get-store = λ now until k v s h. ((v, until), stored now until now k v s h h);
  get-store_kept = stored_kept;
  get-delete_none = λ now j k s h. elim (dec_uid j k) [
    | yes same ↦
        subst (λ x. kept now (lookup dec_uid x (discard k s)) ≡ none) (sym same)
          (rw (lookup-discard k s) refl)
    | no other ↦ rw (lookup-discard_other j k s other) h
  ];
}
