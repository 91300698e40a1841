-- ===== src/Server/W2wLocalRouter.antt =====
-- agora_server/src/agora_server/core/server/w2w_local_router.py: the shared snapshot of the members, the mailbox of
-- receipts, and `W2WLocalRouter`, which leases an expert of its balancer for each hop. `now` is the time of the
-- metadata store and `clock` the monotonic clock; a method takes place at one time.
pub mod Events
pub mod Polls
pub mod Leases
pub mod Lasting
pub mod Unbanned
pub mod Present
pub mod Hops
mod Sample
mod Tests
use agora_test.Prelude.{
  ℕ, suc, ◌+◌, List, [], ◌∷◌, ◌++◌, Bool, true, false, not, ◌≡◌, ap, Option, none, some, ◌==◌,
  if◌then◌else◌, length, Text, codes, text_eq, ℕ_discrete, lookup, remove, set, Outcome, ok, raise,
  ◌>>=◌,
}
use agora_test.Server.ExpertBalancer.{
  Env, Config, Entry, Member, Reservation, Balancer, BalancerError,
}
use agora_test.Server.ExpertBalancer.Heap.{dec_uid}
use agora_test.Server.ExpertBalancer.State.{
  started, add_expert, evict_expert, short_ban, check_and_unban_if_endpoint_changed,
}
use agora_test.Server.ExpertBalancer.Reserve.{
  Grant, reserved, refused, waits, reserve_another_expert, settle_interval, elapsed,
  settle_reservation,
}

-- `(origin_uid, seq, uid)`
pub record Key : Type 0 where
  pub origin_uid : Text
  pub seq : ℕ
  pub uid : Text

abbrev pub dec_key : Discrete Key
dec_key a b = elim (dec_uid a.origin_uid b.origin_uid) [
  | no other ↦ no (λ e. other (ap (λ (k : Key). k.origin_uid) e))
  | yes same_origin ↦ elim (ℕ_discrete a.seq b.seq) [
    | no other ↦ no (λ e. other (ap (λ (k : Key). k.seq) e))
    | yes same_seq ↦ elim (dec_uid a.uid b.uid) [
      | no other ↦ no (λ e. other (ap (λ (k : Key). k.uid) e))
      | yes same_uid ↦
          yes (λ i. record { origin_uid = same_origin i; seq = same_seq i; uid = same_uid i })
    ]
  ]
]

-- The manager dict that `W2WMembership` shares.
pub record Membership (F : Type 0) : Type 0 where
  pub version : ℕ
  pub members : List (Member F)

unfoldable pub publish : {F : Type 0} → List (Member F) → Membership F → Membership F
publish members shared = record { version = shared.version + 1; members = members }

-- `refresh_once`: what the store yields, or `none` on a hiccup
unfoldable pub refresh_once : {F : Type 0} → Option (List (Member F)) → Membership F → Membership F
refresh_once none shared = shared
refresh_once (some members) shared = publish members shared

pub record Lease (F : Type 0) : Type 0 where
  pub reservation : Reservation F
  pub reserved_at : F
  pub deadline : F

pub record Counters : Type 0 where
  pub resolves : ℕ
  pub drops : ℕ
  pub failed : ℕ
  pub settled : ℕ
  pub expired_leases : ℕ

-- A router, with what it shares: the members and the mailbox. `seen_version` is `none` for -1.
pub record Router (F M X B : Type 0) : Type 0 where
  pub balancer : Balancer F M X B
  pub leases : List (Key × Lease F)
  pub seen_version : Option ℕ
  pub counters : Counters
  pub membership : Membership F
  pub mailbox : List (Key × F)

pub data Resolved : Type 0 where
  hop : Text → Text → Resolved
  drop : Resolved

-- `W2WReceiptMailbox.post`
unfoldable pub post : {F : Type 0} → F → Key → List (Key × F) → List (Key × F)
post clock key mailbox = set dec_key key clock mailbox

module _ {F M X B : Type 0} (env : Env F M X B) (config : Config F) (lease_ttl : F) where
  abbrev pub initial : F → Router F M X B
  initial now = record {
    balancer = started env config now;
    leases = [];
    seen_version = none;
    counters = record { resolves = 0; drops = 0; failed = 0; settled = 0; expired_leases = 0 };
    membership = record { version = 0; members = [] };
    mailbox = [];
  }

  -- `uid in live`
  unfoldable pub is_live : List (Member F) → Text → Bool
  is_live [] uid = false
  is_live (m ∷ members) uid = if text_eq m.uid uid then true else is_live members uid

  -- the first loop of `_sync_membership`, over the keys of `uid_to_queue`
  unfoldable pub evict_gone :
      List (Member F) → List (Text × Entry F) → Balancer F M X B → Balancer F M X B
  evict_gone members [] s = s
  evict_gone members (item ∷ index) s =
      evict_gone members index
        (if is_live members item.0 then s else evict_expert env config item.0 s)

  -- the body of the second loop, where `ban` is the one that holds
  unfoldable pub add_unbanned :
      F → Member F → Option (Option Text × F) → Balancer F M X B → Balancer F M X B
  add_unbanned now m none s = add_expert env config now m.uid m.endpoint m.expiration s
  add_unbanned now m (some ban) s =
      if env.float.less ban.1 m.expiration
      then add_expert env config now m.uid m.endpoint m.expiration s
      else s

  unfoldable pub add_members : F → List (Member F) → Balancer F M X B → Balancer F M X B
  add_members now [] s = s
  add_members now (m ∷ members) s =
      let checked = check_and_unban_if_endpoint_changed env config now m.uid m.endpoint s in
      add_members now members (add_unbanned now m checked.0 checked.1)

  -- `version == self._seen_version`
  unfoldable pub has_seen : Option ℕ → ℕ → Bool
  has_seen none version = false
  has_seen (some seen) version = seen == version

  unfoldable pub sync_membership : F → Router F M X B → Router F M X B
  sync_membership now r = if has_seen r.seen_version r.membership.version then r else record r {
    seen_version = some r.membership.version;
    balancer =
        add_members now r.membership.members
          (evict_gone r.membership.members r.balancer.uid_to_queue r.balancer);
  }

  -- A receipt has arrived for the lease.
  unfoldable pub settle_lease : Key → Lease F → F → Router F M X B → Router F M X B
  settle_lease key lease arrival r = record r {
    mailbox = remove dec_key key r.mailbox;
    leases = remove dec_key key r.leases;
    balancer =
        settle_interval env config lease.reservation.uid lease.reservation.task_size
          (elapsed env config arrival lease.reserved_at) r.balancer;
    counters = record (r.counters) { settled = r.counters.settled + 1 };
  }

  unfoldable pub expire_lease : Key → Router F M X B → Router F M X B
  expire_lease key r = record r {
    leases = remove dec_key key r.leases;
    counters = record (r.counters) { expired_leases = r.counters.expired_leases + 1 };
  }

  -- the body of the loop of `_poll_receipts`
  unfoldable pub poll_lease : F → Key → Lease F → Router F M X B → Router F M X B
  poll_lease clock key lease r = elim (lookup dec_key key r.mailbox) [
    | some arrival ↦ settle_lease key lease arrival r
    | none ↦ if env.float.less clock lease.deadline then r else expire_lease key r
  ]

  unfoldable pub poll_leases : F → List (Key × Lease F) → Router F M X B → Router F M X B
  poll_leases clock [] r = r
  poll_leases clock (item ∷ open_leases) r =
      poll_leases clock open_leases (poll_lease clock item.0 item.1 r)

  unfoldable pub poll_receipts : F → Router F M X B → Router F M X B
  poll_receipts clock r = poll_leases clock r.leases r

  -- what `resolve` makes of the balancer's answer
  unfoldable pub lease_grant :
      F → Text → ℕ → Router F M X B → Grant F (Balancer F M X B) → Resolved × Router F M X B
  lease_grant clock origin seq r (reserved reservation s) = (
    hop reservation.uid reservation.peer_id,
    record r {
      balancer = s;
      leases =
          set dec_key (record { origin_uid = origin; seq = seq; uid = reservation.uid })
            (record {
              reservation = reservation;
              reserved_at = clock;
              deadline = env.float.add clock lease_ttl;
            })
            r.leases;
      counters = record (r.counters) { resolves = r.counters.resolves + 1 };
    },
  )
  lease_grant clock origin seq r (refused s) = (
    drop,
    record r { balancer = s; counters = record (r.counters) { drops = r.counters.drops + 1 } },
  )
  lease_grant clock origin seq r (waits s) = (
    drop,
    record r { balancer = s; counters = record (r.counters) { drops = r.counters.drops + 1 } },
  )

  unfoldable pub resolve :
      F
      → F
      → Text
      → ℕ
      → F
      → List Text
      → Router F M X B
      → Outcome BalancerError (Resolved × Router F M X B)
  resolve now clock origin seq task_size exclude r =
      let ready = poll_receipts clock (sync_membership now r) in
      reserve_another_expert env config now clock task_size exclude false ready.balancer >>= λ g.
      ok (lease_grant clock origin seq ready g)

  -- The balancer after the failed hop; a failed reservation changes nothing of it.
  unfoldable pub release :
      F → F → Text → Option (Lease F) → Bool → Balancer F M X B → Balancer F M X B
  release now clock uid none busy s = if busy then s else short_ban env config now uid s
  release now clock uid (some lease) busy s =
      let settled = settle_reservation env config clock lease.reservation false s in
      if busy then settled else short_ban env config now uid settled

  unfoldable pub fail : F → F → Key → Bool → Router F M X B → Router F M X B
  fail now clock key busy r = record r {
    leases = remove dec_key key r.leases;
    mailbox = remove dec_key key r.mailbox;
    balancer = release now clock key.uid (lookup dec_key key r.leases) busy r.balancer;
    counters = record (r.counters) { failed = r.counters.failed + 1 };
  }

  -- The counters, with the number of open leases.
  unfoldable pub stats : F → Router F M X B → (Counters × ℕ) × Router F M X B
  stats clock r =
      let polled = poll_receipts clock r in ((polled.counters, length polled.leases), polled)
