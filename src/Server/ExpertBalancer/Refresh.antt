-- ===== src/Server/ExpertBalancer/Refresh.antt =====
-- `update_experts_in_background` of `ExpertBalancer`: one round, which reads the members of the stage from the
-- metadata store. What the store answers is an argument; a malformed entry is `none`. A round is taken as one step.
use agora_test.Prelude.{
  ℕ, ◌+◌, ◌-◌, ◌*◌, ◌%◌, List, [], ◌∷◌, ◌++◌, Bool, true, false, ◌&&◌, ◌||◌, not, Option, none,
  some, ltb, leb, if◌then◌else◌, length, take, drop, Text, lookup,
}
use agora_test.Server.ExpertBalancer.{Env, Config, Member, Balancer}
use agora_test.Server.ExpertBalancer.Heap.{dec_uid}
use agora_test.Server.ExpertBalancer.State.{
  add_expert, evict_expert, check_and_unban_if_endpoint_changed,
}

pub data GhostPhase : Type 0 where
  off phase1 phase2 : GhostPhase

pub record Info (F : Type 0) : Type 0 where
  pub member : Member F
  pub phase : GhostPhase

-- `expert_verification_arguments`, and the `model_args` that an expert tells, if it answers
pub record Verifier (V : Type 0) : Type 0 where
  pub dec_value : Discrete V
  pub expected : List (Text × V)
  pub model_args : Text → Option (List (Text × V))

module _ {V : Type 0} (verifier : Verifier V) where
  unfoldable pub matches : List (Text × V) → List (Text × V) → Bool
  matches [] args = true
  matches (e ∷ expected) args = elim (lookup dec_uid e.0 args) [
    | none ↦ false
    | some value ↦ elim (verifier.dec_value value e.1) [
      | no other ↦ false
      | yes same ↦ matches expected args
    ]
  ]

  unfoldable pub verify_expert : Text → Bool
  verify_expert uid = elim verifier.expected [
    | [] ↦ true
    | e ∷ expected ↦ elim (verifier.model_args uid) [
      | none ↦ false
      | some args ↦ matches (e ∷ expected) args
    ]
  ]

-- `sorted(all_experts, key=...)`, where `index` is the number at the end of a uid
module _ {F : Type 0} (index : Text → ℕ) where
  unfoldable pub insert_sorted : Member F → List (Member F) → List (Member F)
  insert_sorted m [] = m ∷ []
  insert_sorted m (x ∷ xs) =
      let rest = insert_sorted m xs in
      if ltb (index m.uid) (index x.uid) then m ∷ x ∷ xs else x ∷ rest

  unfoldable pub sorted_onto : List (Member F) → List (Member F) → List (Member F)
  sorted_onto [] sorted = sorted
  sorted_onto (m ∷ members) sorted = sorted_onto members (insert_sorted m sorted)

-- `bool(self.selected_experts)`
abbrev pub has_selected : {F : Type 0} → List (Member F) → Bool
has_selected [] = false
has_selected (m ∷ members) = true

-- The slice of `most` sorted experts from `offset` on, which wraps around.
unfoldable pub window : {A : Type 0} → ℕ → ℕ → List A → List A
window most offset sorted =
    if leb (offset + most) (length sorted)
    then take most (drop offset sorted)
    else drop offset sorted ++ take (most - (length sorted - offset)) sorted

module _ {F M X B V : Type 0} (env : Env F M X B) (config : Config F) (verifier : Verifier V)
    (index : Text → ℕ) where
  -- An expert that fails the verification is banned.
  unfoldable pub verified : F → Member F → Balancer F M X B → Bool × Balancer F M X B
  verified now m s = if verify_expert verifier m.uid then (true, s) else (
    false,
    record s {
      blacklist =
          env.bans.store now m.uid (some m.endpoint) (env.float.add now config.ban_expiration)
            s.blacklist;
    },
  )

  -- The branch on the ban and on the verification: whether the expert is to be added.
  unfoldable pub admit : F → Member F → Balancer F M X B → Bool × Balancer F M X B
  admit now m s =
      let checked = check_and_unban_if_endpoint_changed env config now m.uid m.endpoint s in
      elim checked.0 [
        | none ↦ verified now m checked.1
        | some banned ↦
            if env.float.less banned.1 m.expiration
            then verified now m checked.1
            else (false, checked.1)
      ]

  -- an expert of the subset that the store knows
  unfoldable pub refresh_one : F → Info F → Balancer F M X B → Balancer F M X B
  refresh_one now info s = elim info.phase [
    | phase1 ↦ s
    | _ ↦
        let admitted = admit now info.member s in
        if admitted.0
        then add_expert env config now info.member.uid info.member.endpoint info.member.expiration
            admitted.1
        else admitted.1
  ]

  unfoldable pub subset_refresh :
      F → (Text → Option (Info F)) → List (Member F) → Balancer F M X B → Balancer F M X B
  subset_refresh now infos [] s = s
  subset_refresh now infos (m ∷ members) s = elim (infos m.uid) [
    | none ↦ subset_refresh now infos members (evict_expert env config m.uid s)
    | some info ↦ subset_refresh now infos members (refresh_one now info s)
  ]

  -- the loop that fills `all_experts`
  unfoldable pub collect :
      F
      → List (Option (Info F))
      → List (Member F)
      → Balancer F M X B
      → List (Member F) × Balancer F M X B
  collect now [] found s = (found, s)
  collect now (none ∷ infos) found s = collect now infos found s
  collect now (some info ∷ infos) found s = elim info.phase [
    | phase1 ↦ collect now infos found s
    | _ ↦
        let admitted = admit now info.member s in
        collect now infos (if admitted.0 then found ++ (info.member ∷ []) else found) admitted.1
  ]

  unfoldable pub add_all : F → List (Member F) → Balancer F M X B → Balancer F M X B
  add_all now [] s = s
  add_all now (m ∷ members) s =
      add_all now members (add_expert env config now m.uid m.endpoint m.expiration s)

  -- the selection by the trainer's rank, of which the tables are made anew
  unfoldable pub select_experts : F → ℕ → List (Member F) → Balancer F M X B → Balancer F M X B
  select_experts now most found s =
      let sorted = sorted_onto index found [] in
      let chosen = window most (config.trainer_rank * most % length sorted) sorted in
      add_all now chosen (record s {
        selected_experts = chosen;
        experts = env.storage.new;
        uid_to_queue = [];
        queue = [];
      })

  -- the branch on whether there are too many experts
  unfoldable pub place_experts : F → List (Member F) → Balancer F M X B → Balancer F M X B
  place_experts now found s = elim config.max_experts [
    | none ↦ add_all now found s
    | some most ↦
        if ltb 0 most && ltb most (length found)
        then select_experts now most found s
        else add_all now found s
  ]

  unfoldable pub full_refresh :
      F → Option (List (Option (Info F))) → Balancer F M X B → Balancer F M X B
  full_refresh now response s = elim response [
    | none ↦ s
    | some infos ↦
        let collected = collect now infos [] s in
        record (place_experts now collected.0 collected.1) { last_full_refresh = now }
  ]

  unfoldable pub full_refresh_due : F → Balancer F M X B → Bool
  full_refresh_due now s =
      not (env.float.less (env.float.sub now s.last_full_refresh) config.refresh_experts_period)

  unfoldable pub too_few : F → Balancer F M X B → Bool
  too_few now s = elim config.max_experts [
    | none ↦ true
    | some most ↦ ltb (length (env.storage.items now s.experts)) config.min_experts
  ]

  -- one round of the thread, with what the store answers for a uid and for the stage
  unfoldable pub update_experts :
      F
      → (Text → Option (Info F))
      → Option (List (Option (Info F)))
      → Balancer F M X B
      → Balancer F M X B
  update_experts now infos response s =
      let triggered : Balancer F M X B = record s { update_trigger = false } in
      let due = full_refresh_due now triggered in
      let subset =
        if has_selected triggered.selected_experts && not due
        then subset_refresh now infos triggered.selected_experts triggered
        else triggered in
      let refreshed =
        if due || too_few now subset then full_refresh now response subset else subset in
      record refreshed { update_finished = true }
