-- ===== src/Server/ExpertBalancer/Links.antt =====
-- The tables of a balancer agree: an expert that `uid_to_queue` names has its entry in the queue and a
-- throughput.
use agora_test.Prelude.{
  List, some, some-injective, none-ne-some, ◌≡◌, ◌≢◌, ap, sym, subst, ◌∙◌, ◌⊎◌, inl, inr, Text,
  lookup, remove, set, IsDict, remove-IsDict, set-IsDict, lookup-remove, lookup-remove_self,
  lookup-set_self, lookup-set_other,
}
use agora_test.Server.ExpertBalancer.{Entry}
use agora_test.Server.ExpertBalancer.Heap.{dec_uid}

-- What is in a dict after a removal is another key.
pub remove-ne :
    {V : Type 0} (k j : Text) (v : V) (d : List (Text × V))
    → IsDict dec_uid d
    → lookup dec_uid j (remove dec_uid k d) ≡ some v
    → (j ≢ k) × (lookup dec_uid j d ≡ some v)
remove-ne k j v d u h = elim (dec_uid j k) [
  | yes same ↦ absurd (
      none-ne-some _ (
        sym (lookup-remove_self dec_uid k d u)
        ∙ subst (λ x. lookup dec_uid x (remove dec_uid k d) ≡ some v) same h))
  | no other ↦ (other, sym (lookup-remove dec_uid j k d other) ∙ h)
]

module _ {F M : Type 0} where
  pub record IsLinked (P : Entry F → Type 0) (index : List (Text × Entry F))
      (rates : List (Text × M)) : Type 0 where
    pub unique : IsDict dec_uid index
    pub timed :
        (uid : Text) (e : Entry F)
        → lookup dec_uid uid index ≡ some e
        → (m : M) × (lookup dec_uid uid rates ≡ some m)
    pub named : (uid : Text) (e : Entry F) → lookup dec_uid uid index ≡ some e → e.uid ≡ uid
    pub present : (uid : Text) (e : Entry F) → lookup dec_uid uid index ≡ some e → P e

  pub remove-IsLinked :
      (P Q : Entry F → Type 0) (k : Text) (index : List (Text × Entry F)) (rates : List (Text × M))
      → ((e : Entry F) → e.uid ≢ k → P e → Q e)
      → IsLinked P index rates
      → IsLinked Q (remove dec_uid k index) (remove dec_uid k rates)
  remove-IsLinked P Q k index rates keep l = record {
    unique = (remove-IsDict dec_uid k index l.unique).1;
    timed = λ uid e h.
        let (ne, found) = remove-ne k uid e index l.unique h in
        let (m, there) = l.timed uid e found in (m, lookup-remove dec_uid uid k rates ne ∙ there);
    named = λ uid e h. l.named uid e (remove-ne k uid e index l.unique h).1;
    present = λ uid e h.
        let (ne, found) = remove-ne k uid e index l.unique h in
        keep e (λ same. ne (sym (l.named uid e found) ∙ same)) (l.present uid e found);
  }

  pub set-IsLinked :
      (P Q : Entry F → Type 0) (k : Text) (new : Entry F) (m : M) (index : List (Text × Entry F))
      (rates : List (Text × M))
      → lookup dec_uid k rates ≡ some m
      → new.uid ≡ k
      → Q new
      → ((e : Entry F) → e.uid ≢ k → P e → Q e)
      → IsLinked P index rates
      → IsLinked Q (set dec_uid k new index) rates
  set-IsLinked P Q k new m index rates rate name here keep l =
      let split : (uid : Text) (e : Entry F)
          → lookup dec_uid uid (set dec_uid k new index) ≡ some e
          → ((uid ≡ k) × (new ≡ e)) ⊎ ((uid ≢ k) × (lookup dec_uid uid index ≡ some e)) =
        λ uid e h. elim (dec_uid uid k) [
          | yes same ↦ inl (
            same,
            some-injective _ _ (
                sym (lookup-set_self dec_uid k new index)
                ∙ subst (λ x. lookup dec_uid x (set dec_uid k new index) ≡ some e) same h),
          )
          | no other ↦ inr (other, sym (lookup-set_other dec_uid uid k new index other) ∙ h)
        ] in
      record {
        unique = set-IsDict dec_uid k new index l.unique;
        timed = λ uid e h. elim (split uid e h) [
          | inl (same, is_new) ↦ (m, subst (λ x. lookup dec_uid x rates ≡ some m) (sym same) rate)
          | inr (ne, old) ↦ l.timed uid e old
        ];
        named = λ uid e h. elim (split uid e h) [
          | inl (same, is_new) ↦ ap (λ (x : Entry F). x.uid) (sym is_new) ∙ name ∙ sym same
          | inr (ne, old) ↦ l.named uid e old
        ];
        present = λ uid e h. elim (split uid e h) [
          | inl (same, is_new) ↦ subst Q is_new here
          | inr (ne, old) ↦
              keep e (λ same. ne (sym (l.named uid e old) ∙ same)) (l.present uid e old)
        ];
      }

  pub rate-IsLinked :
      (P : Entry F → Type 0) (k : Text) (m : M) (index : List (Text × Entry F))
      (rates : List (Text × M))
      → IsLinked P index rates
      → IsLinked P index (set dec_uid k m rates)
  rate-IsLinked P k m index rates l = record {
    unique = l.unique;
    timed = λ uid e h. elim (dec_uid uid k) [
      | yes same ↦ (
        m,
        subst (λ x. lookup dec_uid x (set dec_uid k m rates) ≡ some m) (sym same)
            (lookup-set_self dec_uid k m rates),
      )
      | no other ↦
          let (old, there) = l.timed uid e h in
          (old, lookup-set_other dec_uid uid k m rates other ∙ there)
    ];
    named = l.named;
    present = l.present;
  }

  -- Only the entries that `index` names count.
  pub map-IsLinked :
      (P Q : Entry F → Type 0) (index : List (Text × Entry F)) (rates : List (Text × M))
      → ((e : Entry F) → lookup dec_uid e.uid index ≡ some e → P e → Q e)
      → IsLinked P index rates
      → IsLinked Q index rates
  map-IsLinked P Q index rates keep l = record {
    unique = l.unique;
    timed = l.timed;
    named = l.named;
    present = λ uid e h.
        keep e (subst (λ x. lookup dec_uid x index ≡ some e) (sym (l.named uid e h)) h)
          (l.present uid e h);
  }
