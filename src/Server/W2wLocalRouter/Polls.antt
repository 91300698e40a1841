-- ===== src/Server/W2wLocalRouter/Polls.antt =====
-- The leases and the counters of a router: what the sync and the poll keep.
use agora_test.Prelude.{
  ℕ, suc, ◌+◌, ◌≤◌, List, [], ◌∷◌, true, false, Option, none, some, none-ne-some, ◌≡◌, refl, sym,
  inl, inr, Bool-cases, Option-cases, if◌then◌else◌, length, Text, lookup, remove, IsDict,
  remove-IsDict, lookup-remove-some, length-remove, AllThere, AllThere-remove, AllThere-refl, arith,
}
use agora_test.Server.ExpertBalancer.{Env, Config, Entry, Member, Balancer}
use agora_test.Server.ExpertBalancer.State.{evict_expert}
use agora_test.Server.ExpertBalancer.Well.{
  IsWell, started-IsWell, add_expert-IsWell, evict_expert-IsWell, unban-IsWell,
}
use agora_test.Server.ExpertBalancer.Grants.{settle_interval-IsWell}
use agora_test.Server.W2wLocalRouter.{
  Key, dec_key, Lease, Router, initial, is_live, evict_gone, add_unbanned, add_members, has_seen,
  sync_membership, settle_lease, expire_lease, poll_lease, poll_leases, poll_receipts,
}

module _ {F M X B : Type 0} (env : Env F M X B) (config : Config F) (lease_ttl : F) where
  -- The tables of the balancer agree; a lease is held once, under the uid of its reservation; a resolve that gave a hop
  -- is settled, expired or open at most once; every resolve and every failure is counted.
  pub record IsAccounted (n m : ℕ) (r : Router F M X B) : Type 0 where
    pub well : IsWell env config r.balancer
    pub unique : IsDict dec_key r.leases
    pub named :
        (k : Key) (l : Lease F) → lookup dec_key k r.leases ≡ some l → l.reservation.uid ≡ k.uid
    pub counted :
        length r.leases + r.counters.settled + r.counters.expired_leases ≤ r.counters.resolves
    pub answered : r.counters.resolves + r.counters.drops ≡ n
    pub released : r.counters.failed ≡ m

  pub initial-IsAccounted : (now : F) → IsAccounted 0 0 (initial env config lease_ttl now)
  unfolding lookup
  initial-IsAccounted now = record {
    well = started-IsWell env config now;
    unique = tt;
    named = λ k l h. absurd (none-ne-some _ h);
    counted = omega arith;
    answered = refl;
    released = refl;
  }

  -- Only the balancer changes.
  rebalanced-IsAccounted :
      (n m : ℕ) (r : Router F M X B) (s : Balancer F M X B) (seen : Option ℕ)
      → IsWell env config s
      → IsAccounted n m r
      → IsAccounted n m (record r { balancer = s; seen_version = seen })
  rebalanced-IsAccounted n m r s seen w a = record {
    well = w;
    unique = a.unique;
    named = a.named;
    counted = a.counted;
    answered = a.answered;
    released = a.released;
  }

  evict_gone-IsWell :
      (members : List (Member F)) (index : List (Text × Entry F)) (s : Balancer F M X B)
      → IsWell env config s
      → IsWell env config (evict_gone env config lease_ttl members index s)
  unfolding evict_gone
  evict_gone-IsWell members [] s w = w
  evict_gone-IsWell members (item ∷ index) s w =
      evict_gone-IsWell members index _
        (elim (is_live env config lease_ttl members item.0)
          as (λ b. IsWell env config (if b then s else evict_expert env config item.0 s)) [
            | true ↦ w
            | false ↦ evict_expert-IsWell env config item.0 s w
          ])

  add_unbanned-IsWell :
      (now : F) (m : Member F) (ban : Option (Option Text × F)) (s : Balancer F M X B)
      → IsWell env config s
      → IsWell env config (add_unbanned env config lease_ttl now m ban s)
  unfolding add_unbanned
  add_unbanned-IsWell now m none s w =
      add_expert-IsWell env config now m.uid m.endpoint m.expiration s w
  add_unbanned-IsWell now m (some ban) s w = elim (Bool-cases (env.float.less ban.1 m.expiration)) [
    | inl newer ↦ rw newer (add_expert-IsWell env config now m.uid m.endpoint m.expiration s w)
    | inr older ↦ rw older w
  ]

  add_members-IsWell :
      (now : F) (members : List (Member F)) (s : Balancer F M X B)
      → IsWell env config s
      → IsWell env config (add_members env config lease_ttl now members s)
  unfolding add_members
  add_members-IsWell now [] s w = w
  add_members-IsWell now (m ∷ members) s w =
      add_members-IsWell now members _
        (add_unbanned-IsWell now m _ _ (unban-IsWell env config now m.uid m.endpoint s w))

  pub sync_membership-IsAccounted :
      (n m : ℕ) (now : F) (r : Router F M X B)
      → IsAccounted n m r
      → IsAccounted n m (sync_membership env config lease_ttl now r)
  unfolding sync_membership
  sync_membership-IsAccounted n m now r a =
      elim (Bool-cases (has_seen env config lease_ttl r.seen_version r.membership.version)) [
        | inl seen ↦ rw seen a
        | inr newer ↦ rw newer (
            rebalanced-IsAccounted n m r _ _
              (add_members-IsWell now r.membership.members _
                (evict_gone-IsWell r.membership.members r.balancer.uid_to_queue _ a.well))
              a)
      ]

  -- A lease that is there is taken, and the counter of its end goes up.
  taken-counted :
      (key : Key) (lease : Lease F) (r : Router F M X B)
      → lookup dec_key key r.leases ≡ some lease
      → suc (length (remove dec_key key r.leases)) ≡ length r.leases
  taken-counted key lease r there = sym (length-remove dec_key key r.leases lease there)

  pub removed-named :
      (key : Key) (r : Router F M X B)
      → IsDict dec_key r.leases
      → ((k : Key) (l : Lease F) → lookup dec_key k r.leases ≡ some l → l.reservation.uid ≡ k.uid)
      → (k : Key) (l : Lease F) → lookup dec_key k (remove dec_key key r.leases) ≡ some l
      → l.reservation.uid ≡ k.uid
  removed-named key r u named k l h = named k l (lookup-remove-some dec_key key k l r.leases u h).1

  settle_lease-IsAccounted :
      (n m : ℕ) (key : Key) (lease : Lease F) (arrival : F) (r : Router F M X B)
      → lookup dec_key key r.leases ≡ some lease
      → IsAccounted n m r
      → IsAccounted n m (settle_lease env config lease_ttl key lease arrival r)
  unfolding settle_lease
  settle_lease-IsAccounted n m key lease arrival r there a = record {
    well = settle_interval-IsWell env config _ _ _ r.balancer a.well;
    unique = (remove-IsDict dec_key key r.leases a.unique).1;
    named = removed-named key r a.unique a.named;
    counted = omega (arith, a.counted, taken-counted key lease r there);
    answered = a.answered;
    released = a.released;
  }

  expire_lease-IsAccounted :
      (n m : ℕ) (key : Key) (lease : Lease F) (r : Router F M X B)
      → lookup dec_key key r.leases ≡ some lease
      → IsAccounted n m r
      → IsAccounted n m (expire_lease env config lease_ttl key r)
  unfolding expire_lease
  expire_lease-IsAccounted n m key lease r there a = record {
    well = a.well;
    unique = (remove-IsDict dec_key key r.leases a.unique).1;
    named = removed-named key r a.unique a.named;
    counted = omega (arith, a.counted, taken-counted key lease r there);
    answered = a.answered;
    released = a.released;
  }

  -- What is left to poll is still leased, and this goes on.
  poll_lease-IsAccounted :
      (n m : ℕ) (clock : F) (item : Key × Lease F) (items : List (Key × Lease F))
      (r : Router F M X B)
      → IsDict dec_key (item ∷ items)
      → AllThere dec_key (item ∷ items) r.leases
      → IsAccounted n m r
      → IsAccounted n m (poll_lease env config lease_ttl clock item.0 item.1 r)
        × AllThere dec_key items (poll_lease env config lease_ttl clock item.0 item.1 r).leases
  unfolding poll_lease
  poll_lease-IsAccounted n m clock item items r u t a =
      elim (Option-cases (lookup dec_key item.0 r.mailbox)) [
        | inr (arrival, arrived) ↦
            rw (arrived, poll_lease)
              (
                settle_lease-IsAccounted n m item.0 item.1 arrival r t.0 a,
                unfold settle_lease in AllThere-remove dec_key item.0 items r.leases u.0 t.1,
              )
        | inl missing ↦ elim (Bool-cases (env.float.less clock item.1.deadline)) [
          | inl early ↦ rw (missing, poll_lease, early) (a, t.1)
          | inr late ↦
              rw (missing, poll_lease, late)
                (
                  expire_lease-IsAccounted n m item.0 item.1 r t.0 a,
                  unfold expire_lease in AllThere-remove dec_key item.0 items r.leases u.0 t.1,
                )
        ]
      ]

  poll_leases-IsAccounted :
      (n m : ℕ) (clock : F) (items : List (Key × Lease F)) (r : Router F M X B)
      → IsDict dec_key items
      → AllThere dec_key items r.leases
      → IsAccounted n m r
      → IsAccounted n m (poll_leases env config lease_ttl clock items r)
  unfolding poll_leases
  poll_leases-IsAccounted n m clock [] r u t a = a
  poll_leases-IsAccounted n m clock (item ∷ items) r u t a =
      let (a', t') = poll_lease-IsAccounted n m clock item items r u t a in
      poll_leases-IsAccounted n m clock items _ u.1 t' a'

  pub poll_receipts-IsAccounted :
      (n m : ℕ) (clock : F) (r : Router F M X B)
      → IsAccounted n m r
      → IsAccounted n m (poll_receipts env config lease_ttl clock r)
  unfolding poll_receipts
  poll_receipts-IsAccounted n m clock r a =
      poll_leases-IsAccounted n m clock r.leases r a.unique
        (AllThere-refl dec_key r.leases a.unique) a
