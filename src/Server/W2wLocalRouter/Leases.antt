-- ===== src/Server/W2wLocalRouter/Leases.antt =====
-- The leases and the counters of a router over its lifetime.
use agora_test.Prelude.{
  ℕ, suc, ◌+◌, List, [], ◌∷◌, Bool, true, false, Option, none, some, ◌≡◌, refl, ap, sym, subst, ◌∙◌,
  inl, inr, Text, lookup, set, remove-IsDict, set-IsDict, lookup-set-some, length-set-le,
  length-remove-le, Outcome, ok, raise, ◌>>=◌, Outcome-cases, arith,
}
use agora_test.Server.ExpertBalancer.{Env, Config, Balancer, BalancerError}
use agora_test.Server.ExpertBalancer.State.{short_ban}
use agora_test.Server.ExpertBalancer.Well.{IsWell, ban_expert-IsWell}
use agora_test.Server.ExpertBalancer.Reserve.{Grant, reserved, refused, waits, settle_reservation}
use agora_test.Server.ExpertBalancer.Grants.{GrantHolds, reserve_another_expert-least}
use agora_test.Server.W2wLocalRouter.{
  Key, dec_key, Lease, Router, initial, poll_receipts, lease_grant, resolve, release, fail, stats,
}
use agora_test.Server.W2wLocalRouter.Events.{
  Event, refreshed, posted, resolves, fails, asks, handle, handle_all, asked, failures,
}
use agora_test.Server.W2wLocalRouter.Polls.{
  IsAccounted, initial-IsAccounted, sync_membership-IsAccounted, poll_receipts-IsAccounted,
  removed-named,
}

module _ {F M X B : Type 0} (env : Env F M X B) (config : Config F) (lease_ttl : F) where
  abbrev pub Accounts : ℕ → ℕ → Outcome BalancerError (Router F M X B) → Type 0
  Accounts n m (raise e) = ⊥
  Accounts n m (ok r) = IsAccounted env config lease_ttl n m r

  shift :
      (n m n' m' : ℕ) (r : Outcome BalancerError (Router F M X B))
      → n ≡ n'
      → m ≡ m'
      → Accounts n m r
      → Accounts n' m' r
  shift n m n' m' r e f h = subst (λ x. Accounts n' x r) f (subst (λ x. Accounts x m r) e h)

  asked-cons :
      (n : ℕ) (event : Event F) (events : List (Event F))
      → n + asked env config lease_ttl (event ∷ events)
        ≡ n + asked env config lease_ttl (event ∷ []) + asked env config lease_ttl events
  asked-cons n (refreshed members) events = omega arith
  asked-cons n (posted clock key) events = omega arith
  asked-cons n (resolves now clock origin seq size exclude) events = omega arith
  asked-cons n (fails now clock key busy) events = omega arith
  asked-cons n (asks clock) events = omega arith

  failures-cons :
      (n : ℕ) (event : Event F) (events : List (Event F))
      → n + failures env config lease_ttl (event ∷ events)
        ≡ n + failures env config lease_ttl (event ∷ []) + failures env config lease_ttl events
  failures-cons n (refreshed members) events = omega arith
  failures-cons n (posted clock key) events = omega arith
  failures-cons n (resolves now clock origin seq size exclude) events = omega arith
  failures-cons n (fails now clock key busy) events = omega arith
  failures-cons n (asks clock) events = omega arith

  dropped-IsAccounted :
      (n m : ℕ) (s : Balancer F M X B) (r : Router F M X B)
      → IsWell env config s
      → IsAccounted env config lease_ttl n m r
      → IsAccounted env config lease_ttl (suc n) m (record r {
        balancer = s;
        counters = record (r.counters) { drops = r.counters.drops + 1 };
      })
  dropped-IsAccounted n m s r w a = record {
    well = w;
    unique = a.unique;
    named = a.named;
    counted = a.counted;
    answered = omega (arith, a.answered);
    released = a.released;
  }

  leased-IsAccounted :
      (n m : ℕ) (key : Key) (lease : Lease F) (s : Balancer F M X B) (r : Router F M X B)
      → lease.reservation.uid ≡ key.uid
      → IsWell env config s
      → IsAccounted env config lease_ttl n m r
      → IsAccounted env config lease_ttl (suc n) m (record r {
        balancer = s;
        leases = set dec_key key lease r.leases;
        counters = record (r.counters) { resolves = r.counters.resolves + 1 };
      })
  leased-IsAccounted n m key lease s r name w a = record {
    well = w;
    unique = set-IsDict dec_key key lease r.leases a.unique;
    named = λ k l h. elim (lookup-set-some dec_key key k lease l r.leases h) [
      | inl (same, is_new) ↦
          ap (λ (x : Lease F). x.reservation.uid) (sym is_new)
          ∙ name
          ∙ ap (λ (x : Key). x.uid) (sym same)
      | inr (other, old) ↦ a.named k l old
    ];
    counted = omega (arith, a.counted, length-set-le dec_key key lease r.leases);
    answered = omega (arith, a.answered);
    released = a.released;
  }

  -- What a resolve leaves, where the balancer's answer keeps the tables.
  lease_grant-Accounts :
      (n m : ℕ) (now size clock : F) (exclude : List Text) (origin : Text) (seq : ℕ)
      (r : Router F M X B) (g : Outcome BalancerError (Grant F (Balancer F M X B)))
      → GrantHolds env config now size exclude false r.balancer g
      → IsAccounted env config lease_ttl n m r
      → Accounts
          (suc n)
          m
          ((g >>= λ x. ok (lease_grant env config lease_ttl clock origin seq r x)) >>= λ a. ok a.1)
  unfolding lease_grant
  lease_grant-Accounts n m now size clock exclude origin seq r (raise e) h a = h
  lease_grant-Accounts n m now size clock exclude origin seq r (ok (reserved reservation s)) h a =
      leased-IsAccounted n m _ _ s r refl h.1 a
  lease_grant-Accounts n m now size clock exclude origin seq r (ok (refused s)) h a =
      dropped-IsAccounted n m s r h.1 a
  lease_grant-Accounts n m now size clock exclude origin seq r (ok (waits s)) h a =
      dropped-IsAccounted n m s r h.2 a

  release-IsWell :
      (now clock : F) (uid : Text) (lease : Option (Lease F)) (busy : Bool) (s : Balancer F M X B)
      → IsWell env config s
      → IsWell env config (release env config lease_ttl now clock uid lease busy s)
  unfolding release settle_reservation short_ban
  release-IsWell now clock uid none true s w = w
  release-IsWell now clock uid none false s w = ban_expert-IsWell env config now uid _ true s w
  release-IsWell now clock uid (some lease) true s w = w
  release-IsWell now clock uid (some lease) false s w =
      ban_expert-IsWell env config now uid _ true s w

  fail-IsAccounted :
      (n m : ℕ) (now clock : F) (key : Key) (busy : Bool) (r : Router F M X B)
      → IsAccounted env config lease_ttl n m r
      → IsAccounted env config lease_ttl n (suc m) (fail env config lease_ttl now clock key busy r)
  unfolding fail
  fail-IsAccounted n m now clock key busy r a = record {
    well = release-IsWell now clock key.uid (lookup dec_key key r.leases) busy r.balancer a.well;
    unique = (remove-IsDict dec_key key r.leases a.unique).1;
    named = removed-named env config lease_ttl key r a.unique a.named;
    counted = omega (arith, a.counted, length-remove-le dec_key key r.leases);
    answered = a.answered;
    released = omega (arith, a.released);
  }

  resolve-Accounts :
      (n m : ℕ) (now clock : F) (origin : Text) (seq : ℕ) (size : F) (exclude : List Text)
      (r : Router F M X B)
      → IsAccounted env config lease_ttl n m r
      → Accounts
          (suc n)
          m
          (resolve env config lease_ttl now clock origin seq size exclude r >>= λ a. ok a.1)
  unfolding resolve
  resolve-Accounts n m now clock origin seq size exclude r a =
      let synced = sync_membership-IsAccounted env config lease_ttl n m now r a in
      let ready = poll_receipts-IsAccounted env config lease_ttl n m clock _ synced in
      lease_grant-Accounts n m now size clock exclude origin seq _ _
        (reserve_another_expert-least env config now size clock exclude false _ ready.well) ready

  -- One event more.
  handle-Accounts :
      (n m : ℕ) (event : Event F) (r : Router F M X B)
      → IsAccounted env config lease_ttl n m r
      → Accounts
          (n + asked env config lease_ttl (event ∷ []))
          (m + failures env config lease_ttl (event ∷ []))
          (handle env config lease_ttl event r)
  unfolding handle stats
  handle-Accounts n m (refreshed members) r a = record {
    well = a.well;
    unique = a.unique;
    named = a.named;
    counted = a.counted;
    answered = omega (arith, a.answered);
    released = omega (arith, a.released);
  }
  handle-Accounts n m (posted clock key) r a = record {
    well = a.well;
    unique = a.unique;
    named = a.named;
    counted = a.counted;
    answered = omega (arith, a.answered);
    released = omega (arith, a.released);
  }
  handle-Accounts n m (resolves now clock origin seq size exclude) r a =
      shift (suc n) m (n + 1) (m + 0) _ (omega arith) (omega arith)
        (resolve-Accounts n m now clock origin seq size exclude r a)
  handle-Accounts n m (fails now clock key busy) r a =
      shift n (suc m) (n + 0) (m + 1) (ok (fail env config lease_ttl now clock key busy r))
        (omega arith) (omega arith) (fail-IsAccounted n m now clock key busy r a)
  handle-Accounts n m (asks clock) r a =
      shift n m (n + 0) (m + 0) (ok (poll_receipts env config lease_ttl clock r)) (omega arith)
        (omega arith) (poll_receipts-IsAccounted env config lease_ttl n m clock r a)

  handle_all-Accounts :
      (events : List (Event F)) (n m : ℕ) (r : Router F M X B)
      → IsAccounted env config lease_ttl n m r
      → Accounts
          (n + asked env config lease_ttl events)
          (m + failures env config lease_ttl events)
          (handle_all env config lease_ttl events r)
  unfolding handle_all
  handle_all-Accounts [] n m r a = shift n m (n + 0) (m + 0) (ok r) (omega arith) (omega arith) a
  handle_all-Accounts (event ∷ events) n m r a =
      elim (Outcome-cases (handle env config lease_ttl event r)) [
        | inr (e, failed) ↦ absurd (subst (Accounts _ _) failed (handle-Accounts n m event r a))
        | inl (r', done) ↦ rw done (
            shift _ _ _ _ _ (sym (asked-cons n event events)) (sym (failures-cons m event events)) (
              handle_all-Accounts events _ _ r'
                (subst (Accounts _ _) done (handle-Accounts n m event r a))))
      ]

  -- Over any events of a new router, no event raises; each resolve gives a hop or a drop and is counted, and so is each
  -- failure; a hop is settled, expired or still leased at most once. A lease is held once, under the uid of its
  -- reservation, and the tables of the balancer agree.
  pub handle_all-IsAccounted :
      (events : List (Event F)) (now : F)
      → Accounts
          (asked env config lease_ttl events)
          (failures env config lease_ttl events)
          (handle_all env config lease_ttl events (initial env config lease_ttl now))
  handle_all-IsAccounted events now = shift _ _ _ _ _ (omega arith) (omega arith) (
      handle_all-Accounts events 0 0 (initial env config lease_ttl now)
        (initial-IsAccounted env config lease_ttl now))
