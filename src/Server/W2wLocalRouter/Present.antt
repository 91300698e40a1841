-- ===== src/Server/W2wLocalRouter/Present.antt =====
-- Which experts a router's balancer has after the members of a new snapshot have been added.
use agora_test.Prelude.{
  List, [], ◌∷◌, false, Option, none, some, ◌≡◌, refl, ap, sym, subst, ◌∙◌, ◌⊎◌, inl, inr,
  Bool-cases, Option-cases, Text, lookup, set, lookup-set_self, lookup-set_other,
}
use agora_test.Server.ExpertBalancer.{Env, Config, Entry, Member, Balancer}
use agora_test.Server.ExpertBalancer.Heap.{dec_uid}
use agora_test.Server.ExpertBalancer.State.{
  add_expert, add_new, enter, check_and_unban_if_endpoint_changed,
}
use agora_test.Server.W2wLocalRouter.{add_unbanned, add_members}
use agora_test.Server.W2wLocalRouter.Lasting.{IsLasting, IsThere, IsMember}
use agora_test.Server.W2wLocalRouter.Unbanned.{check-unbanned, check-free, add_unbanned-blacklist}

-- A key has a value after an assignment if it had one before, or is assigned to.
set-there :
    {V : Type 0} (j k : Text) (v : V) (d : List (Text × V))
    → ((w : V) × (lookup dec_uid j d ≡ some w)) ⊎ (j ≡ k)
    → (w : V) × (lookup dec_uid j (set dec_uid k v d) ≡ some w)
set-there j k v d h = elim (dec_uid j k) [
  | yes same ↦ (
    v,
    subst (λ x. lookup dec_uid x (set dec_uid k v d) ≡ some v) (sym same)
        (lookup-set_self dec_uid k v d),
  )
  | no other ↦ elim h [
    | inr same ↦ absurd (other same)
    | inl (w, there) ↦ (w, lookup-set_other dec_uid j k v d other ∙ there)
  ]
]

module _ {F M X B : Type 0} (env : Env F M X B) (config : Config F) (lease_ttl : F)
    (experts : IsLasting env.float env.storage) (bans : IsLasting env.float env.bans)
    (now : F) where
  add_new-index :
      (uid endpoint j : Text) (s : Balancer F M X B)
      → ((e : Entry F) × (lookup dec_uid j s.uid_to_queue ≡ some e)) ⊎ (j ≡ uid)
      → (e : Entry F) × (lookup dec_uid j (add_new env config uid endpoint s).uid_to_queue ≡ some e)
  unfolding add_new enter
  add_new-index uid endpoint j s h = set-there j uid _ s.uid_to_queue h

  add_new-experts :
      (uid endpoint : Text) (s : Balancer F M X B)
      → (add_new env config uid endpoint s).experts ≡ s.experts
  unfolding add_new enter
  add_new-experts uid endpoint s = refl

  add_expert-index :
      (uid endpoint j : Text) (expiration : F) (s : Balancer F M X B)
      → ((e : Entry F) × (lookup dec_uid j s.uid_to_queue ≡ some e)) ⊎ (j ≡ uid)
      → (e : Entry F) × (lookup dec_uid j
            (add_expert env config now uid endpoint expiration s).uid_to_queue
          ≡ some e)
  unfolding add_expert
  add_expert-index uid endpoint j expiration s h =
      elim (Option-cases (lookup dec_uid uid s.uid_to_queue)) [
        | inl missing ↦ rw (missing, add_expert) (add_new-index uid endpoint j _ h)
        | inr (e, there) ↦
            rw (there, add_expert)
              (elim h [
                | inl old ↦ old
                | inr same ↦
                    (e, subst (λ x. lookup dec_uid x s.uid_to_queue ≡ some e) (sym same) there)
              ])
      ]

  add_expert-experts :
      (uid endpoint : Text) (expiration : F) (s : Balancer F M X B)
      → (add_expert env config now uid endpoint expiration s).experts
        ≡ env.storage.store now uid endpoint expiration s.experts
  unfolding add_expert
  add_expert-experts uid endpoint expiration s =
      elim (Option-cases (lookup dec_uid uid s.uid_to_queue)) [
        | inl missing ↦ rw (missing, add_expert) (add_new-experts uid endpoint _)
        | inr (e, there) ↦ rw (there, add_expert) refl
      ]

  add_expert-IsThere :
      (uid endpoint : Text) (expiration : F) (s : Balancer F M X B)
      → env.float.less expiration now ≡ false
      → IsThere env now uid (add_expert env config now uid endpoint expiration s)
  add_expert-IsThere uid endpoint expiration s fresh =
      let (found, live) = experts.get-store now expiration uid endpoint s.experts fresh in
      (
        add_expert-index uid endpoint uid expiration s (inr refl),
        (found, ap (env.storage.get now uid) (add_expert-experts uid endpoint expiration s) ∙ live),
      )

  add_expert-kept :
      (uid endpoint j : Text) (expiration : F) (s : Balancer F M X B)
      → IsThere env now j s
      → IsThere env now j (add_expert env config now uid endpoint expiration s)
  add_expert-kept uid endpoint j expiration s (entry, (found, live)) =
      let (found', live') =
        experts.get-store_kept now expiration j uid endpoint found s.experts live in
      (
        add_expert-index uid endpoint j expiration s (inl entry),
        (found', ap (env.storage.get now j) (add_expert-experts uid endpoint expiration s) ∙ live'),
      )

  check-experts :
      (uid endpoint j : Text) (s : Balancer F M X B)
      → IsThere env now j s
      → IsThere env now j (check_and_unban_if_endpoint_changed env config now uid endpoint s).1
  unfolding check_and_unban_if_endpoint_changed
  check-experts uid endpoint j s h = elim (Option-cases (env.bans.get now uid s.blacklist)) [
    | inl missing ↦ rw (missing, check_and_unban_if_endpoint_changed) h
    | inr ((none, until), there) ↦ rw (there, check_and_unban_if_endpoint_changed) h
    | inr ((some other, until), there) ↦
        rw (there, check_and_unban_if_endpoint_changed)
          (elim (dec_uid other endpoint)
            as (λ d.
              IsThere env now j
                (elim d as (λ y. Option (Option Text × F) × Balancer F M X B) [
                  | yes same ↦ (some (some other, until), s)
                  | no changed ↦ (none, record s { blacklist = env.bans.delete uid s.blacklist })
                ]).1) [ yes same ↦ h | no changed ↦ h ])
  ]

  add_unbanned-kept :
      (m : Member F) (ban : Option (Option Text × F)) (j : Text) (s : Balancer F M X B)
      → IsThere env now j s
      → IsThere env now j (add_unbanned env config lease_ttl now m ban s)
  unfolding add_unbanned
  add_unbanned-kept m none j s h = add_expert-kept m.uid m.endpoint j m.expiration s h
  add_unbanned-kept m (some ban) j s h = elim (Bool-cases (env.float.less ban.1 m.expiration)) [
    | inl newer ↦ rw newer (add_expert-kept m.uid m.endpoint j m.expiration s h)
    | inr older ↦ rw older h
  ]

  add_members-kept :
      (members : List (Member F)) (j : Text) (s : Balancer F M X B)
      → IsThere env now j s
      → IsThere env now j (add_members env config lease_ttl now members s)
  unfolding add_members
  add_members-kept [] j s h = h
  add_members-kept (m ∷ members) j s h =
      add_members-kept members j _
        (add_unbanned-kept m _ j _ (check-experts m.uid m.endpoint j s h))

  add_members-free :
      (x : Member F) (members : List (Member F)) (s : Balancer F M X B)
      → env.bans.get now x.uid s.blacklist ≡ none
      → add_members env config lease_ttl now (x ∷ members) s
        ≡ add_members env config lease_ttl now members
            (add_expert env config now x.uid x.endpoint x.expiration s)
  unfolding add_members add_unbanned
  add_members-free x members s free =
      ap
        (λ c.
          add_members env config lease_ttl now members
            (add_unbanned env config lease_ttl now x c.0 c.1))
        (check-free env config lease_ttl bans now x.uid x.endpoint s free)

  -- A member that has not expired and is not banned is there once the members have been added.
  pub add_members-IsThere :
      (members : List (Member F)) (m : Member F) (s : Balancer F M X B)
      → IsMember m members
      → env.float.less m.expiration now ≡ false
      → env.bans.get now m.uid s.blacklist ≡ none
      → IsThere env now m.uid (add_members env config lease_ttl now members s)
  unfolding add_members add_unbanned
  add_members-IsThere [] m s h fresh free = absurd h
  add_members-IsThere (x ∷ members) m s (inl same) fresh free =
      let free' : env.bans.get now x.uid s.blacklist ≡ none =
        subst (λ (y : Member F). env.bans.get now y.uid s.blacklist ≡ none) (sym same) free in
      let fresh' : env.float.less x.expiration now ≡ false =
        subst (λ (y : Member F). env.float.less y.expiration now ≡ false) (sym same) fresh in
      subst
        (λ (y : Member F).
          IsThere env now y.uid (add_members env config lease_ttl now (x ∷ members) s))
        same
        (subst (IsThere env now x.uid) (sym (add_members-free x members s free')) (
          add_members-kept members x.uid _
            (add_expert-IsThere x.uid x.endpoint x.expiration s fresh')))
  add_members-IsThere (x ∷ members) m s (inr more) fresh free =
      add_members-IsThere members m _ more fresh (
        ap (env.bans.get now m.uid) (add_unbanned-blacklist env config lease_ttl bans now x _ _)
        ∙ check-unbanned env config lease_ttl bans now x.uid x.endpoint m.uid s free)
