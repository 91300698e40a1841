-- ===== src/Server/ExpertBalancer/Eligible.antt =====
-- The experts that a reservation may take, what a grant holds, and that it does not depend on experts that are gone.
use mathlib.Core.Option
use agora_test.Prelude.{
  List, [], ◌∷◌, ◌++◌, true, false, none, some, none-ne-some, ◌≡◌, ◌≢◌, refl, sym, subst, ◌∙◌, inl,
  inr, Text, lookup, IsDict, lookup-remove, Outcome, ok, raise,
}
use agora_test.Server.ExpertBalancer.{Env, Config, Entry, Balancer, BalancerError, Reservation}
use agora_test.Server.ExpertBalancer.Heap.{dec_uid}
use agora_test.Server.ExpertBalancer.HeapOrder.{In}
use agora_test.Server.ExpertBalancer.State.{
  enter, drop_uid, update_last_runtime, is_expert_warming_up,
}
use agora_test.Server.ExpertBalancer.Links.{IsLinked, remove-ne}
use agora_test.Server.ExpertBalancer.Well.{IsWell}
use agora_test.Server.ExpertBalancer.Reserve.{
  Scan, granted, exhausted, excluded, base_expected_time, penalized, expected_time_taken, charge,
}

module _ {F M X B : Type 0} (env : Env F M X B) (config : Config F) where
  pub expected_time_taken-ok :
      (uid : Text) (size : F) (m : M) (s : Balancer F M X B)
      → lookup dec_uid uid s.throughputs ≡ some m
      → (time : F) × (expected_time_taken env config uid size s ≡ ok time)
  unfolding expected_time_taken
  expected_time_taken-ok uid size m s rate =
      (penalized env config uid (base_expected_time env config size m) s, rw rate refl)

  pub charge-ok :
      (uid : Text) (runtime size time : F) (s : Balancer F M X B)
      → expected_time_taken env config uid size s ≡ ok time
      → charge env config uid runtime size s
        ≡ ok (
            update_last_runtime env config uid
              (env.float.add runtime time)
              (enter env config uid (env.float.add runtime time) s))
  unfolding charge
  charge-ok uid runtime size time s expected = rw expected refl

  -- The entry of the uid has the runtime.
  abbrev pub HasRuntime : Text → F → Balancer F M X B → Type 0
  HasRuntime uid runtime s =
      (new : Entry F) × (lookup dec_uid uid s.uid_to_queue ≡ some new) × (new.runtime ≡ runtime)

  expected_time_taken-drop_uid :
      (uid k : Text) (size : F) (s : Balancer F M X B)
      → uid ≢ k
      → expected_time_taken env config uid size (drop_uid env config k s)
        ≡ expected_time_taken env config uid size s
  unfolding expected_time_taken drop_uid penalized is_expert_warming_up
  expected_time_taken-drop_uid uid k size s ne =
      rw (lookup-remove dec_uid uid k s.throughputs ne) refl

module _ {F M X B : Type 0} (env : Env F M X B) (config : Config F) (now size : F)
    (exclude : List Text) where
  -- The expert is present, the entry is its current one, and it is not excluded.
  pub record IsEligible (s : Balancer F M X B) (uid : Text) (e : Entry F) : Type 0 where
    pub current : lookup dec_uid uid s.uid_to_queue ≡ some e
    pub found : Text × F
    pub live : env.storage.get now uid s.experts ≡ some found
    pub allowed : excluded exclude uid ≡ false

  -- The reservation is of an eligible expert than which no eligible one has less to do; that one has the expected
  -- time added.
  pub record IsGrant (s : Balancer F M X B) (r : Reservation F) (s' : Balancer F M X B)
      : Type 0 where
    pub entry : Entry F
    pub eligible : IsEligible s r.uid entry
    pub endpoint : Option.map (λ f. f.0) (env.storage.get now r.uid s.experts) ≡ some r.peer_id
    pub least :
        (uid : Text) (e : Entry F)
        → IsEligible s uid e
        → env.float.less e.runtime entry.runtime ≡ false
    pub time : F
    pub expected : expected_time_taken env config r.uid size s ≡ ok time
    pub charged : HasRuntime env config r.uid (env.float.add entry.runtime time) s'

  abbrev pub ScanHolds :
      Balancer F M X B → Outcome BalancerError (Scan F (Balancer F M X B)) → Type 0
  ScanHolds s (raise e) = ⊥
  ScanHolds s (ok (granted r s')) = IsGrant s r s' × IsWell env config s'
  ScanHolds s (ok (exhausted skipped s')) =
      ((uid : Text) (e : Entry F) → ¬ IsEligible s uid e)
      × IsLinked (λ e. In env.float e skipped) s'.uid_to_queue s'.throughputs
      × (s'.queue ≡ [])

  -- An expert that is gone is not eligible: without it the eligible ones are the same.
  IsEligible-drop_uid :
      (k uid : Text) (e : Entry F) (s : Balancer F M X B)
      → env.storage.get now k s.experts ≡ none
      → IsEligible s uid e
      → (uid ≢ k) × IsEligible (drop_uid env config k s) uid e
  unfolding drop_uid
  IsEligible-drop_uid k uid e s gone h =
      let ne : uid ≢ k = λ same.
        none-ne-some _
          (sym gone ∙ subst (λ x. env.storage.get now x s.experts ≡ some h.found) same h.live) in
      (
        ne,
        record {
          current = lookup-remove dec_uid uid k s.uid_to_queue ne ∙ h.current;
          found = h.found;
          live = h.live;
          allowed = h.allowed;
        },
      )

  drop_uid-IsEligible :
      (k uid : Text) (e : Entry F) (s : Balancer F M X B)
      → IsDict dec_uid s.uid_to_queue
      → IsEligible (drop_uid env config k s) uid e
      → IsEligible s uid e
  unfolding drop_uid
  drop_uid-IsEligible k uid e s u h = record {
    current = (remove-ne k uid e s.uid_to_queue u h.current).1;
    found = h.found;
    live = h.live;
    allowed = h.allowed;
  }

  drop_uid-live :
      (k uid : Text) (e : Entry F) (s : Balancer F M X B)
      → IsDict dec_uid s.uid_to_queue
      → IsEligible (drop_uid env config k s) uid e
      → uid ≢ k
  unfolding drop_uid
  drop_uid-live k uid e s u h = (remove-ne k uid e s.uid_to_queue u h.current).0

  pub drop_uid-ScanHolds :
      (k : Text) (s : Balancer F M X B) (result : Outcome BalancerError (Scan F (Balancer F M X B)))
      → env.storage.get now k s.experts ≡ none
      → IsDict dec_uid s.uid_to_queue
      → ScanHolds (drop_uid env config k s) result
      → ScanHolds s result
  unfolding drop_uid
  drop_uid-ScanHolds k s (raise e) gone u h = h
  drop_uid-ScanHolds k s (ok (granted r s')) gone u (g, w) = (
    record {
      entry = g.entry;
      eligible = drop_uid-IsEligible k r.uid g.entry s u g.eligible;
      endpoint = g.endpoint;
      least = λ uid e h. g.least uid e (IsEligible-drop_uid k uid e s gone h).1;
      time = g.time;
      expected =
          sym (
            expected_time_taken-drop_uid env config r.uid k size s
              (drop_uid-live k r.uid g.entry s u g.eligible))
          ∙ g.expected;
      charged = g.charged;
    },
    w,
  )
  drop_uid-ScanHolds k s (ok (exhausted skipped s')) gone u (none_left, links, empty) =
      (λ uid e h. none_left uid e (IsEligible-drop_uid k uid e s gone h).1, links, empty)

  abbrev pub AllExcluded : List (Entry F) → Type 0
  AllExcluded [] = Unit
  AllExcluded (e ∷ skipped) = (excluded exclude e.uid ≡ true) × AllExcluded skipped

  pub AllExcluded-append :
      (skipped : List (Entry F)) (e : Entry F)
      → AllExcluded skipped
      → excluded exclude e.uid ≡ true
      → AllExcluded (skipped ++ (e ∷ []))
  AllExcluded-append [] e a h = (h, tt)
  AllExcluded-append (x ∷ skipped) e a h = (a.0, AllExcluded-append skipped e a.1 h)

  pub AllExcluded-In :
      (skipped : List (Entry F)) (e : Entry F)
      → AllExcluded skipped
      → In env.float e skipped
      → excluded exclude e.uid ≡ true
  AllExcluded-In [] e a m = elim m [ ]
  AllExcluded-In (x ∷ skipped) e a (inl same) =
      subst (λ (y : Entry F). excluded exclude y.uid ≡ true) same a.0
  AllExcluded-In (x ∷ skipped) e a (inr more) = AllExcluded-In skipped e a.1 more
