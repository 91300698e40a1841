-- ===== src/Server/W2wLocalRouter/Hops.antt =====
-- A router that has new members to choose from gives a hop.
use agora_test.Prelude.{
  ℕ, List, [], ◌∷◌, Bool, true, false, none, some, ◌≡◌, refl, ap, ◌∙◌, inl, inr, Bool-cases,
  Option-cases, if◌then◌else◌, Text, lookup, lookup-set_self, Outcome, ok, raise, ◌>>=◌,
}
use agora_test.Server.ExpertBalancer.{Env, Config, Entry, Member, Balancer, BalancerError}
use agora_test.Server.ExpertBalancer.Heap.{dec_uid}
use agora_test.Server.ExpertBalancer.State.{evict_expert, drop_uid, mark_successful_batch}
use agora_test.Server.ExpertBalancer.Reserve.{
  Grant, reserved, refused, waits, excluded, settle_interval,
}
use agora_test.Server.ExpertBalancer.Grants.{GrantHolds, reserve_another_expert-least}
use agora_test.Server.W2wLocalRouter.{
  Key, dec_key, Lease, Router, Resolved, hop, drop, evict_gone, is_live, has_seen, sync_membership,
  settle_lease, expire_lease, poll_lease, poll_leases, poll_receipts, lease_grant, resolve,
}
use agora_test.Server.W2wLocalRouter.Polls.{
  IsAccounted, sync_membership-IsAccounted, poll_receipts-IsAccounted,
}
use agora_test.Server.W2wLocalRouter.Lasting.{IsLasting, IsThere, IsMember}
use agora_test.Server.W2wLocalRouter.Present.{add_members-IsThere}

module _ {F M X B : Type 0} (env : Env F M X B) (config : Config F) (lease_ttl : F)
    (experts : IsLasting env.float env.storage) (bans : IsLasting env.float env.bans)
    (now : F) where
  abbrev There : Text → Balancer F M X B → Type 0
  There = IsThere env now

  evicted-blacklist :
      (b : Bool) (uid : Text) (s : Balancer F M X B)
      → (if b then s else evict_expert env config uid s).blacklist ≡ s.blacklist
  unfolding evict_expert drop_uid
  evicted-blacklist true uid s = refl
  evicted-blacklist false uid s = elim (Option-cases (lookup dec_uid uid s.uid_to_queue)) [
    | inl missing ↦ rw (missing, evict_expert) refl
    | inr (e, there) ↦ rw (there, evict_expert) refl
  ]

  evict_gone-blacklist :
      (members : List (Member F)) (index : List (Text × Entry F)) (s : Balancer F M X B)
      → (evict_gone env config lease_ttl members index s).blacklist ≡ s.blacklist
  unfolding evict_gone
  evict_gone-blacklist members [] s = refl
  evict_gone-blacklist members (item ∷ index) s =
      evict_gone-blacklist members index _
      ∙ evicted-blacklist (is_live env config lease_ttl members item.0) item.0 s

  mark-kept :
      (uid j : Text) (s : Balancer F M X B)
      → There j s
      → There j (mark_successful_batch env config uid s)
  unfolding mark_successful_batch
  mark-kept uid j s h = elim (Option-cases (lookup dec_uid uid s.warming_up)) [
    | inl missing ↦ rw (missing, mark_successful_batch) h
    | inr (row, there) ↦ rw (there, mark_successful_batch) h
  ]

  settle_interval-kept :
      (uid j : Text) (size interval : F) (s : Balancer F M X B)
      → There j s
      → There j (settle_interval env config uid size interval s)
  unfolding settle_interval
  settle_interval-kept uid j size interval s h =
      elim (Option-cases (lookup dec_uid uid s.throughputs)) [
        | inl missing ↦ rw (missing, settle_interval) h
        | inr (m, there) ↦ rw (there, settle_interval) (mark-kept uid j _ h)
      ]

  poll_lease-kept :
      (clock : F) (key : Key) (lease : Lease F) (j : Text) (r : Router F M X B)
      → There j r.balancer
      → There j (poll_lease env config lease_ttl clock key lease r).balancer
  unfolding poll_lease settle_lease expire_lease
  poll_lease-kept clock key lease j r h = elim (Option-cases (lookup dec_key key r.mailbox)) [
    | inr (arrival, arrived) ↦ rw (arrived, poll_lease) (settle_interval-kept _ j _ _ r.balancer h)
    | inl missing ↦ elim (Bool-cases (env.float.less clock lease.deadline)) [
      | inl early ↦ rw (missing, poll_lease, early) h
      | inr late ↦ rw (missing, poll_lease, late) h
    ]
  ]

  poll_leases-kept :
      (clock : F) (items : List (Key × Lease F)) (j : Text) (r : Router F M X B)
      → There j r.balancer
      → There j (poll_leases env config lease_ttl clock items r).balancer
  unfolding poll_leases
  poll_leases-kept clock [] j r h = h
  poll_leases-kept clock (item ∷ items) j r h =
      poll_leases-kept clock items j _ (poll_lease-kept clock item.0 item.1 j r h)

  sync_membership-There :
      (m : Member F) (r : Router F M X B)
      → has_seen env config lease_ttl r.seen_version r.membership.version ≡ false
      → IsMember m r.membership.members
      → env.float.less m.expiration now ≡ false
      → env.bans.get now m.uid r.balancer.blacklist ≡ none
      → There m.uid (sync_membership env config lease_ttl now r).balancer
  unfolding sync_membership
  sync_membership-There m r newer h fresh free = rw newer (
      add_members-IsThere env config lease_ttl experts bans now r.membership.members m _ h fresh (
        ap (env.bans.get now m.uid)
          (evict_gone-blacklist r.membership.members r.balancer.uid_to_queue r.balancer)
        ∙ free))

  -- What a resolve comes to: a hop to an expert that is not excluded, which is leased from now on.
  abbrev pub HopHolds :
      F → Text → ℕ → List Text → Outcome BalancerError (Resolved × Router F M X B) → Type 0
  HopHolds clock origin seq exclude (raise e) = ⊥
  HopHolds clock origin seq exclude (ok (drop, r)) = ⊥
  HopHolds clock origin seq exclude (ok (hop uid peer, r)) =
      (excluded exclude uid ≡ false)
      × ((lease : Lease F) × (lookup dec_key (record { origin_uid = origin; seq = seq; uid = uid })
              r.leases
            ≡ some lease)
          × (lease.reserved_at ≡ clock)
          × (lease.deadline ≡ env.float.add clock lease_ttl)
          × (lease.reservation.peer_id ≡ peer))

  lease_grant-HopHolds :
      (size clock : F) (exclude : List Text) (origin : Text) (seq : ℕ) (uid : Text)
      (r : Router F M X B) (g : Outcome BalancerError (Grant F (Balancer F M X B)))
      → GrantHolds env config now size exclude false r.balancer g
      → There uid r.balancer
      → excluded exclude uid ≡ false
      → HopHolds clock origin seq exclude
          (g >>= λ x. ok (lease_grant env config lease_ttl clock origin seq r x))
  unfolding lease_grant
  lease_grant-HopHolds size clock exclude origin seq uid r (raise e) h there allowed = h
  lease_grant-HopHolds size clock exclude origin seq uid r (ok (reserved reservation s)) h there
        allowed =
      (h.0.eligible.allowed, (_, lookup-set_self dec_key _ _ r.leases, refl, refl, refl))
  lease_grant-HopHolds size clock exclude origin seq uid r (ok (refused s)) (nobody, w)
        ((e, queued), (found, live)) allowed =
      nobody uid e (record { current = queued; found = found; live = live; allowed = allowed })
  lease_grant-HopHolds size clock exclude origin seq uid r (ok (waits s)) (blocks, nobody, w)
        ((e, queued), (found, live)) allowed =
      nobody uid e (record { current = queued; found = found; live = live; allowed = allowed })

  -- Where the members have changed since the last resolve, and one of them has not expired, is not banned and is not
  -- excluded, `resolve` gives a hop: it goes to an expert that is not excluded, and the lease of it is kept, from this
  -- time until the lease's end, with the peer that the hop names.
  pub resolve-hop :
      (n k : ℕ) (clock : F) (origin : Text) (seq : ℕ) (size : F) (exclude : List Text)
      (m : Member F) (r : Router F M X B)
      → IsAccounted env config lease_ttl n k r
      → has_seen env config lease_ttl r.seen_version r.membership.version ≡ false
      → IsMember m r.membership.members
      → env.float.less m.expiration now ≡ false
      → env.bans.get now m.uid r.balancer.blacklist ≡ none
      → excluded exclude m.uid ≡ false
      → HopHolds clock origin seq exclude
          (resolve env config lease_ttl now clock origin seq size exclude r)
  unfolding resolve poll_receipts
  resolve-hop n k clock origin seq size exclude m r a newer h fresh free allowed =
      let synced = sync_membership-IsAccounted env config lease_ttl n k now r a in
      let ready = poll_receipts-IsAccounted env config lease_ttl n k clock _ synced in
      lease_grant-HopHolds size clock exclude origin seq m.uid _ _
        (reserve_another_expert-least env config now size clock exclude false _ ready.well)
        (poll_leases-kept clock _ m.uid _ (sync_membership-There m r newer h fresh free)) allowed
