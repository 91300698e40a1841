-- ===== src/Server/ExpertBalancer/Rounds.antt =====
-- A round of the update thread keeps the tables of a balancer in agreement.
use agora_test.Prelude.{
  ℕ, List, [], ◌∷◌, ◌++◌, Bool, true, false, ◌&&◌, ◌||◌, not, Option, none, some, none-ne-some, inl,
  inr, ltb, Bool-cases, Option-cases, if◌then◌else◌, length, Text, lookup,
}
use agora_test.Server.ExpertBalancer.{Env, Config, Member, Balancer}
use agora_test.Server.ExpertBalancer.State.{add_expert, check_and_unban_if_endpoint_changed}
use agora_test.Server.ExpertBalancer.Well.{
  IsWell, add_expert-IsWell, evict_expert-IsWell, unban-IsWell,
}
use agora_test.Server.ExpertBalancer.Refresh.{
  GhostPhase, off, phase1, phase2, Info, Verifier, verify_expert, verified, admit, refresh_one,
  subset_refresh, collect, add_all, select_experts, place_experts, full_refresh, full_refresh_due,
  has_selected, too_few, update_experts,
}

module _ {F M X B V : Type 0} (env : Env F M X B) (config : Config F) (verifier : Verifier V)
    (index : Text → ℕ) where
  -- A choice between two states of which each is well.
  if-IsWell :
      (b : Bool) (s s' : Balancer F M X B)
      → IsWell env config s
      → IsWell env config s'
      → IsWell env config (if b then s else s')
  if-IsWell true s s' w w' = w
  if-IsWell false s s' w w' = w'

  verified-IsWell :
      (now : F) (m : Member F) (s : Balancer F M X B)
      → IsWell env config s
      → IsWell env config (verified env config verifier index now m s).1
  unfolding verified
  verified-IsWell now m s w = elim (Bool-cases (verify_expert verifier m.uid)) [
    | inl good ↦ rw (good, verified) w
    | inr bad ↦ rw (bad, verified) (record { linked = w.linked; sorted = w.sorted })
  ]

  admit-IsWell :
      (now : F) (m : Member F) (s : Balancer F M X B)
      → IsWell env config s
      → IsWell env config (admit env config verifier index now m s).1
  unfolding admit
  admit-IsWell now m s w =
      let kept = unban-IsWell env config now m.uid m.endpoint s w in
      elim (Option-cases
        (check_and_unban_if_endpoint_changed env config now m.uid m.endpoint s).0) [
          | inl free ↦ rw (free, admit) (verified-IsWell now m _ kept)
          | inr (banned, there) ↦ elim (Bool-cases (env.float.less banned.1 m.expiration)) [
            | inl renewed ↦ rw (there, admit, renewed) (verified-IsWell now m _ kept)
            | inr still ↦ rw (there, admit, still) kept
          ]
        ]

  visible-IsWell :
      (now : F) (m : Member F) (s : Balancer F M X B)
      → IsWell env config s
      → IsWell env config (
          let admitted = admit env config verifier index now m s in
          if admitted.0
          then add_expert env config now m.uid m.endpoint m.expiration admitted.1
          else admitted.1)
  visible-IsWell now m s w =
      let kept = admit-IsWell now m s w in
      if-IsWell (admit env config verifier index now m s).0 _ _
        (add_expert-IsWell env config now m.uid m.endpoint m.expiration _ kept) kept

  refresh_one-IsWell :
      (now : F) (phase : GhostPhase) (m : Member F) (s : Balancer F M X B)
      → IsWell env config s
      → IsWell env config
          (refresh_one env config verifier index now (record { member = m; phase = phase }) s)
  unfolding refresh_one
  refresh_one-IsWell now off m s w = visible-IsWell now m s w
  refresh_one-IsWell now phase1 m s w = w
  refresh_one-IsWell now phase2 m s w = visible-IsWell now m s w

  subset_refresh-IsWell :
      (now : F) (infos : Text → Option (Info F)) (members : List (Member F)) (s : Balancer F M X B)
      → IsWell env config s
      → IsWell env config (subset_refresh env config verifier index now infos members s)
  unfolding subset_refresh
  subset_refresh-IsWell now infos [] s w = w
  subset_refresh-IsWell now infos (m ∷ members) s w = elim (Option-cases (infos m.uid)) [
    | inl gone ↦
        rw (gone, subset_refresh)
          (subset_refresh-IsWell now infos members _ (evict_expert-IsWell env config m.uid s w))
    | inr (info, there) ↦
        rw (there, subset_refresh)
          (subset_refresh-IsWell now infos members _
            (refresh_one-IsWell now info.phase info.member s w))
  ]

  collect-IsWell :
      (now : F) (infos : List (Option (Info F))) (found : List (Member F)) (s : Balancer F M X B)
      → IsWell env config s
      → IsWell env config (collect env config verifier index now infos found s).1
  unfolding collect
  collect-IsWell now [] found s w = w
  collect-IsWell now (none ∷ infos) found s w = collect-IsWell now infos found s w
  collect-IsWell now (some info ∷ infos) found s w =
      elim info.phase
        as (λ phase.
          IsWell env config
            (elim phase as (λ p. List (Member F) × Balancer F M X B) [
              | phase1 ↦ collect env config verifier index now infos found s
              | _ ↦
                  let admitted = admit env config verifier index now info.member s in
                  collect env config verifier index now infos
                    (if admitted.0 then found ++ (info.member ∷ []) else found) admitted.1
            ]).1) [
              | off ↦ collect-IsWell now infos _ _ (admit-IsWell now info.member s w)
              | phase1 ↦ collect-IsWell now infos found s w
              | phase2 ↦ collect-IsWell now infos _ _ (admit-IsWell now info.member s w)
            ]

  add_all-IsWell :
      (now : F) (members : List (Member F)) (s : Balancer F M X B)
      → IsWell env config s
      → IsWell env config (add_all env config verifier index now members s)
  unfolding add_all
  add_all-IsWell now [] s w = w
  add_all-IsWell now (m ∷ members) s w =
      add_all-IsWell now members _
        (add_expert-IsWell env config now m.uid m.endpoint m.expiration s w)

  cleared-IsWell :
      (s : Balancer F M X B) → IsWell env config (record s { queue = []; uid_to_queue = [] })
  unfolding lookup
  cleared-IsWell s = record {
    linked = record {
      unique = tt;
      timed = λ uid e h. absurd (none-ne-some _ h);
      named = λ uid e h. absurd (none-ne-some _ h);
      present = λ uid e h. absurd (none-ne-some _ h);
    };
    sorted = tt;
  }

  select_experts-IsWell :
      (now : F) (most : ℕ) (found : List (Member F)) (s : Balancer F M X B)
      → IsWell env config (select_experts env config verifier index now most found s)
  unfolding select_experts
  select_experts-IsWell now most found s =
      let c = cleared-IsWell s in
      add_all-IsWell now _ _ (record { linked = c.linked; sorted = c.sorted })

  place_experts-IsWell :
      (now : F) (found : List (Member F)) (s : Balancer F M X B)
      → IsWell env config s
      → IsWell env config (place_experts env config verifier index now found s)
  unfolding place_experts
  place_experts-IsWell now found s w =
      elim config.max_experts
        as (λ o. IsWell env config (elim o as (λ x. Balancer F M X B) [
          | none ↦ add_all env config verifier index now found s
          | some most ↦
              if ltb 0 most && ltb most (length found)
              then select_experts env config verifier index now most found s
              else add_all env config verifier index now found s
        ])) [
          | none ↦ add_all-IsWell now found s w
          | some most ↦
              if-IsWell (ltb 0 most && ltb most (length found)) _ _
                (select_experts-IsWell now most found s) (add_all-IsWell now found s w)
        ]

  full_refresh-IsWell :
      (now : F) (response : Option (List (Option (Info F)))) (s : Balancer F M X B)
      → IsWell env config s
      → IsWell env config (full_refresh env config verifier index now response s)
  unfolding full_refresh
  full_refresh-IsWell now none s w = w
  full_refresh-IsWell now (some infos) s w =
      let placed =
        place_experts-IsWell now (collect env config verifier index now infos [] s).0 _
          (collect-IsWell now infos [] s w) in
      record { linked = placed.linked; sorted = placed.sorted }

  pub update_experts-IsWell :
      (now : F) (infos : Text → Option (Info F)) (response : Option (List (Option (Info F))))
      (s : Balancer F M X B)
      → IsWell env config s
      → IsWell env config (update_experts env config verifier index now infos response s)
  unfolding update_experts
  update_experts-IsWell now infos response s w =
      let triggered : Balancer F M X B = record s { update_trigger = false } in
      let w' : IsWell env config triggered = record { linked = w.linked; sorted = w.sorted } in
      let subset =
        if-IsWell
          (has_selected triggered.selected_experts
            && not (full_refresh_due env config verifier index now triggered))
          _ _ (subset_refresh-IsWell now infos triggered.selected_experts triggered w') w' in
      let refreshed =
        if-IsWell
          (full_refresh_due env config verifier index now triggered
            || too_few env config verifier index now _)
          _ _ (full_refresh-IsWell now response _ subset) subset in
      record { linked = refreshed.linked; sorted = refreshed.sorted }
