-- ===== src/Server/W2wLocalRouter/Unbanned.antt =====
-- A member without a ban has none when another member is added.
use agora_test.Prelude.{
  Option, none, some, ◌≡◌, refl, inl, inr, Bool-cases, Option-cases, Text, lookup,
}
use agora_test.Server.ExpertBalancer.{Env, Config, Member, Balancer}
use agora_test.Server.ExpertBalancer.Heap.{dec_uid}
use agora_test.Server.ExpertBalancer.State.{
  add_expert, add_new, enter, check_and_unban_if_endpoint_changed,
}
use agora_test.Server.W2wLocalRouter.{add_unbanned}
use agora_test.Server.W2wLocalRouter.Lasting.{IsLasting}

module _ {F M X B : Type 0} (env : Env F M X B) (config : Config F) (lease_ttl : F)
    (bans : IsLasting env.float env.bans) (now : F) where
  -- A uid without a ban has none after the check of another.
  pub check-unbanned :
      (uid endpoint j : Text) (s : Balancer F M X B)
      → env.bans.get now j s.blacklist ≡ none
      → env.bans.get now j
          (check_and_unban_if_endpoint_changed env config now uid endpoint s).1.blacklist
        ≡ none
  unfolding check_and_unban_if_endpoint_changed
  check-unbanned uid endpoint j s h = elim (Option-cases (env.bans.get now uid s.blacklist)) [
    | inl missing ↦ rw (missing, check_and_unban_if_endpoint_changed) h
    | inr ((none, until), there) ↦
        rw (there, check_and_unban_if_endpoint_changed)
          (bans.get-delete_none now j uid s.blacklist h)
    | inr ((some other, until), there) ↦
        rw (there, check_and_unban_if_endpoint_changed)
          (elim (dec_uid other endpoint)
            as (λ d.
              env.bans.get now j
                (elim d as (λ y. Option (Option Text × F) × Balancer F M X B) [
                  | yes same ↦ (some (some other, until), s)
                  | no changed ↦ (none, record s { blacklist = env.bans.delete uid s.blacklist })
                ]).1.blacklist
              ≡ none) [ yes same ↦ h | no changed ↦ bans.get-delete_none now j uid s.blacklist h ])
  ]

  pub check-free :
      (uid endpoint : Text) (s : Balancer F M X B)
      → env.bans.get now uid s.blacklist ≡ none
      → check_and_unban_if_endpoint_changed env config now uid endpoint s ≡ (none, s)
  unfolding check_and_unban_if_endpoint_changed
  check-free uid endpoint s free = rw (free, check_and_unban_if_endpoint_changed) refl

  add_expert-blacklist :
      (uid endpoint : Text) (expiration : F) (s : Balancer F M X B)
      → (add_expert env config now uid endpoint expiration s).blacklist ≡ s.blacklist
  unfolding add_expert add_new enter
  add_expert-blacklist uid endpoint expiration s =
      elim (Option-cases (lookup dec_uid uid s.uid_to_queue)) [
        | inl missing ↦ rw (missing, add_expert) refl
        | inr (e, there) ↦ rw (there, add_expert) refl
      ]

  pub add_unbanned-blacklist :
      (m : Member F) (ban : Option (Option Text × F)) (s : Balancer F M X B)
      → (add_unbanned env config lease_ttl now m ban s).blacklist ≡ s.blacklist
  unfolding add_unbanned
  add_unbanned-blacklist m none s = add_expert-blacklist m.uid m.endpoint m.expiration s
  add_unbanned-blacklist m (some ban) s = elim (Bool-cases (env.float.less ban.1 m.expiration)) [
    | inl newer ↦ rw newer (add_expert-blacklist m.uid m.endpoint m.expiration s)
    | inr older ↦ rw older refl
  ]
