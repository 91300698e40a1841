-- ===== src/Server/ExpertBalancer/Peek.antt =====
-- `peek_least_loaded` against what may be reserved.
use agora_test.Prelude.{
  List, [], ◌∷◌, false, Option, none, some, some-injective, none-ne-some, ◌≡◌, refl, sym, subst,
  ◌∙◌, inl, inr, Text, Bool-cases, Option-cases, lookup,
}
use agora_test.Server.ExpertBalancer.{TimedStorage, Env, Config, Entry, Balancer}
use agora_test.Server.ExpertBalancer.Heap.{dec_uid}
use agora_test.Server.ExpertBalancer.HeapOrder.{less_irrefl}
use agora_test.Server.ExpertBalancer.Grants.{IsPresent}
use agora_test.Server.ExpertBalancer.Reserve.{better, least_loaded, peek_least_loaded}

abbrev AllItems : {V : Type 0} → (Text → V → Type 0) → List (Text × V) → Type 0
AllItems P [] = Unit
AllItems P (item ∷ items) = P item.0 item.1 × AllItems P items

AllItems-lookup :
    {V : Type 0} (P : Text → V → Type 0) (k : Text) (v : V) (items : List (Text × V))
    → AllItems P items
    → lookup dec_uid k items ≡ some v
    → P k v
unfolding lookup
AllItems-lookup P k v [] a h = absurd (none-ne-some _ h)
AllItems-lookup P k v (item ∷ items) a h =
    elim (dec_uid item.0 k)
        as (λ d.
          elim d [ yes same ↦ some item.1 | no other ↦ lookup dec_uid k items ] ≡ some v → P k v) [
            | yes same ↦ λ g. subst (λ x. P x v) same (subst (P item.0) (some-injective _ _ g) a.0)
            | no other ↦ λ g. AllItems-lookup P k v items a.1 g
          ]
      h

-- `TimedStorage.items` yields what `get` finds, and all of it.
pub record IsListed {F V S : Type 0} (storage : TimedStorage F V S) (now : F) (s : S) : Type 0 where
  pub shown : AllItems (λ k v. storage.get now k s ≡ some v) (storage.items now s)
  pub listed : (k : Text) → lookup dec_uid k (storage.items now s) ≡ storage.get now k s

module _ {F M X B : Type 0} (env : Env F M X B) (config : Config F) (now : F)
    (s : Balancer F M X B) where
  -- The best item so far is an expert that is present, with its peer and its runtime.
  abbrev IsBest : Option (F × Text × Text) → Type 0
  IsBest none = Unit
  IsBest (some best) =
      (e : Entry F) × (lookup dec_uid best.1 s.uid_to_queue ≡ some e)
      × (e.runtime ≡ best.0)
      × (until : F) × (env.storage.get now best.1 s.experts ≡ some (best.2, until))

  -- No expert under the key has a runtime below that of the best item; nor has an earlier best one.
  abbrev NotBelow : Option (F × Text × Text) → Text → (Text × F) → Type 0
  NotBelow none uid found = (e : Entry F) → ¬ (lookup dec_uid uid s.uid_to_queue ≡ some e)
  NotBelow (some best) uid found =
      (e : Entry F)
      → lookup dec_uid uid s.uid_to_queue ≡ some e
      → env.float.less e.runtime best.0 ≡ false

  abbrev Improves : Option (F × Text × Text) → Option (F × Text × Text) → Type 0
  Improves none best = Unit
  Improves (some before) none = ⊥
  Improves (some before) (some best) = env.float.less before.0 best.0 ≡ false

  better-Improves :
      (best : Option (F × Text × Text)) (runtime : F) (uid peer : Text)
      → Improves best (some (better env config best runtime uid peer))
        × (env.float.less runtime (better env config best runtime uid peer).0 ≡ false)
  unfolding better
  better-Improves none runtime uid peer = (tt, less_irrefl env.float runtime)
  better-Improves (some best) runtime uid peer = elim (Bool-cases (env.float.less runtime best.0)) [
    | inl less ↦ rw less (env.float.less_asym _ _ less, less_irrefl env.float runtime)
    | inr not_less ↦ rw not_less (less_irrefl env.float best.0, not_less)
  ]

  better-IsBest :
      (best : Option (F × Text × Text)) (e : Entry F) (uid peer : Text) (until : F)
      → IsBest best
      → lookup dec_uid uid s.uid_to_queue ≡ some e
      → env.storage.get now uid s.experts ≡ some (peer, until)
      → IsBest (some (better env config best e.runtime uid peer))
  unfolding better
  better-IsBest none e uid peer until b there live = (e, there, refl, until, live)
  better-IsBest (some best) e uid peer until b there live =
      elim (Bool-cases (env.float.less e.runtime best.0)) [
        | inl less ↦ rw less (e, there, refl, until, live)
        | inr not_less ↦ rw not_less b
      ]

  Improves-trans : (a b c : Option (F × Text × Text)) → Improves a b → Improves b c → Improves a c
  Improves-trans none b c h k = tt
  Improves-trans (some x) none c h k = absurd h
  Improves-trans (some x) (some y) none h k = k
  Improves-trans (some x) (some y) (some z) h k = env.float.not_less_trans z.0 y.0 x.0 k h

  NotBelow-Improves :
      (uid : Text) (found : Text × F) (e : Entry F) (runtime : F) (one : Text) (peer : Text)
      (best : Option (F × Text × Text))
      → lookup dec_uid uid s.uid_to_queue ≡ some e
      → env.float.less e.runtime runtime ≡ false
      → Improves (some (runtime, one, peer)) best
      → NotBelow best uid found
  NotBelow-Improves uid found e runtime one peer none there h k = absurd k
  NotBelow-Improves uid found e runtime one peer (some best) there h k = λ f also.
      subst (λ (x : Entry F). env.float.less x.runtime best.0 ≡ false)
        (some-injective _ _ (sym there ∙ also))
        (env.float.not_less_trans best.0 runtime e.runtime k h)

  NotBelow-missing :
      (uid : Text) (found : Text × F) (best : Option (F × Text × Text))
      → lookup dec_uid uid s.uid_to_queue ≡ none
      → NotBelow best uid found
  NotBelow-missing uid found none missing = λ e there. none-ne-some _ (sym missing ∙ there)
  NotBelow-missing uid found (some best) missing =
      λ e there. absurd (none-ne-some _ (sym missing ∙ there))

  -- What the loop over the items makes of the best one so far.
  abbrev LoopHolds :
      Option (F × Text × Text) → List (Text × (Text × F)) → Option (F × Text × Text) → Type 0
  LoopHolds best items result =
      IsBest result × Improves best result × AllItems (NotBelow result) items

  least_loaded-missing :
      (best : Option (F × Text × Text)) (item : Text × (Text × F))
      (items : List (Text × (Text × F)))
      → lookup dec_uid item.0 s.uid_to_queue ≡ none
      → least_loaded env config best (item ∷ items) s ≡ least_loaded env config best items s
  unfolding least_loaded
  least_loaded-missing best item items missing = rw (missing, least_loaded) refl

  least_loaded-there :
      (best : Option (F × Text × Text)) (item : Text × (Text × F))
      (items : List (Text × (Text × F))) (e : Entry F)
      → lookup dec_uid item.0 s.uid_to_queue ≡ some e
      → least_loaded env config best (item ∷ items) s
        ≡ least_loaded env config (some (better env config best e.runtime item.0 item.1.0)) items s
  unfolding least_loaded
  least_loaded-there best item items e there = rw (there, least_loaded) refl

  least_loaded-IsBest :
      (best : Option (F × Text × Text)) (items : List (Text × (Text × F)))
      → AllItems (λ k v. env.storage.get now k s.experts ≡ some v) items
      → IsBest best
      → LoopHolds best items (least_loaded env config best items s)
  unfolding least_loaded
  least_loaded-IsBest none [] a b = (b, tt, tt)
  least_loaded-IsBest (some best) [] a b = (b, less_irrefl env.float best.0, tt)
  least_loaded-IsBest best (item ∷ items) a b =
      elim (Option-cases (lookup dec_uid item.0 s.uid_to_queue)) [
        | inl missing ↦
            let (is_best, improves, below) = least_loaded-IsBest best items a.1 b in
            subst (LoopHolds best (item ∷ items))
              (sym (least_loaded-missing best item items missing))
              (is_best, improves, (NotBelow-missing item.0 item.1 _ missing, below))
        | inr (e, there) ↦
            let here : F × Text × Text = better env config best e.runtime item.0 item.1.0 in
            let next : Option (F × Text × Text) = some here in
            let (is_best, improves, below) =
              least_loaded-IsBest next items a.1
                (better-IsBest best e item.0 item.1.0 item.1.1 b there a.0) in
            let (first, one) = better-Improves best e.runtime item.0 item.1.0 in
            subst (LoopHolds best (item ∷ items)) (sym (least_loaded-there best item items e there))
              (
                is_best,
                Improves-trans best next _ first improves,
                (NotBelow-Improves item.0 item.1 e _ here.1 here.2 _ there one improves, below),
              )
      ]

  abbrev pub PeekHolds : Option (Text × Text) → Type 0
  PeekHolds none = (uid : Text) (e : Entry F) → ¬ IsPresent env config now now s uid e
  PeekHolds (some (uid, peer)) =
      (e : Entry F) × (lookup dec_uid uid s.uid_to_queue ≡ some e)
      × ((until : F) × (env.storage.get now uid s.experts ≡ some (peer, until)))
      × ((other : Text) (f : Entry F)
          → IsPresent env config now now s other f
          → env.float.less f.runtime e.runtime ≡ false)

  -- `peek_least_loaded` finds an expert that is present and queued, with its peer, than which no other such expert has
  -- less to do; it finds none only where there is none.
  pub peek_least_loaded-least :
      IsListed env.storage now s.experts → PeekHolds (peek_least_loaded env config now s)
  unfolding peek_least_loaded
  peek_least_loaded-least laws =
      let (is_best, improves, below) =
        least_loaded-IsBest none (env.storage.items now s.experts) laws.shown tt in
      elim (Option-cases (least_loaded env config none (env.storage.items now s.experts) s)) [
        | inl missing ↦
            rw (missing, peek_least_loaded)
              (λ uid e h.
                AllItems-lookup (NotBelow none) uid h.1 _
                  (subst (λ best. AllItems (NotBelow best) (env.storage.items now s.experts))
                    missing below)
                  (laws.listed uid ∙ h.2) e h.0)
        | inr (best, found) ↦
            let (e, there, runtime, until, live) = subst IsBest found is_best in
            rw (found, peek_least_loaded)
              (
                e,
                there,
                (until, live),
                λ other f h.
                    subst (λ x. env.float.less f.runtime x ≡ false) (sym runtime)
                      (AllItems-lookup (NotBelow (some best)) other h.1 _
                        (subst (λ best. AllItems (NotBelow best) (env.storage.items now s.experts))
                          found below)
                        (laws.listed other ∙ h.2) f h.0),
              )
      ]
