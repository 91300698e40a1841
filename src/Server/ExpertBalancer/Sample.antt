-- ===== src/Server/ExpertBalancer/Sample.antt =====
-- A balancer of two experts with times in whole seconds, where a storage is a dict that is searched for what has not
-- expired.
use agora_test.Prelude.{
  ℕ, ◌+◌, ◌-◌, ◌*◌, ◌/◌, List, [], ◌∷◌, true, false, Option, none, some, ◌≡◌, ◌≢◌, refl, ◌∙◌, ltb,
  if◌then◌else◌, Text, codes, lookup, set, lookup-set_self, IsDict, Absent, lookup-head,
  lookup-Absent, subst, ℕ_discrete, arith, inl, inr, Bool-cases,
}
use agora_test.Server.ExpertBalancer.{Float, TimedStorage, Env, Config, Balancer}
use agora_test.Server.ExpertBalancer.Heap.{dec_uid}
use agora_test.Server.ExpertBalancer.State.{started, add_expert}
use agora_test.Server.ExpertBalancer.Well.{IsWell, started-IsWell, add_expert-IsWell}
use agora_test.Server.ExpertBalancer.Bans.{IsKept}

pub ltb_asym : (a b : ℕ) → ltb a b ≡ true → ltb b a ≡ false
ltb_asym a b h = ground arith

pub ltb_trans : (a b c : ℕ) → ltb b a ≡ false → ltb c b ≡ false → ltb c a ≡ false
ltb_trans a b c h k = ground arith

abbrev pub seconds : Float ℕ
seconds = record {
  dec = ℕ_discrete;
  of_int = λ n. n;
  nanosecond = 1;
  add = λ a b. a + b;
  sub = λ a b. a - b;
  mul = λ a b. a * b;
  div = λ a b. a / b;
  less = ltb;
  less_asym = ltb_asym;
  not_less_trans = ltb_trans;
}

-- What has not expired of a value.
abbrev pub kept : {V : Type 0} → ℕ → Option (V × ℕ) → Option (V × ℕ)
kept now none = none
kept now (some v) = if ltb v.1 now then none else some v

abbrev unexpired : {V : Type 0} → ℕ → List (Text × (V × ℕ)) → List (Text × (V × ℕ))
unexpired now [] = []
unexpired now (e ∷ d) = let rest = unexpired now d in if ltb e.1.1 now then rest else e ∷ rest

-- The dict without any item of the key.
abbrev pub discard : {V : Type 0} → Text → List (Text × V) → List (Text × V)
discard k [] = []
discard k (e ∷ d) =
    let rest = discard k d in elim (dec_uid e.0 k) [ yes same ↦ rest | no other ↦ e ∷ rest ]

abbrev pub timed : {V : Type 0} → TimedStorage ℕ V (List (Text × (V × ℕ)))
timed = record {
  new = [];
  get = λ now k s. kept now (lookup dec_uid k s);
  items = unexpired;
  store = λ now k v until s. if ltb until now then s else set dec_uid k (v, until) s;
  delete = discard;
}

abbrev pub env : Env ℕ ℕ (List (Text × (Text × ℕ))) (List (Text × (Option Text × ℕ)))
env = record {
  float = seconds;
  ema = record {
    new = 0;
    num_updates = λ m. m;
    samples_per_second = λ m. 1;
    update = λ size interval m. m + 1;
  };
  storage = timed;
  bans = timed;
  random = λ n. n;
}

abbrev pub config : Config ℕ
config = record {
  update_period = 30;
  initial_throughput = 1;
  ban_expiration = 3600;
  refresh_experts_period = 600;
  max_experts = none;
  min_experts = 1;
  trainer_rank = 0;
  warmup_batches = 0;
  warmup_penalty_multiplier = 1;
}

abbrev pub pair : Balancer ℕ ℕ (List (Text × (Text × ℕ))) (List (Text × (Option Text × ℕ)))
pair =
    add_expert env config 10 (codes "b") (codes "peer b") 100
      (add_expert env config 10 (codes "a") (codes "peer a") 100 (started env config 0))

pub pair-IsWell : IsWell env config pair
pair-IsWell = add_expert-IsWell env config 10 (codes "b") (codes "peer b") 100 _ (
    add_expert-IsWell env config 10 (codes "a") (codes "peer a") 100 _
      (started-IsWell env config 0))

kept-some :
    {V : Type 0} (v : V) (until later : ℕ)
    → ltb until later ≡ false
    → kept later (some (v, until)) ≡ some (v, until)
kept-some v until later h = rw h refl

pub lookup-discard :
    {V : Type 0} (k : Text) (d : List (Text × V)) → lookup dec_uid k (discard k d) ≡ none
unfolding lookup
lookup-discard k [] = refl
lookup-discard k (e ∷ d) =
    elim (dec_uid e.0 k)
      as (λ x.
        lookup dec_uid k (elim x [ yes same ↦ discard k d | no other ↦ e ∷ discard k d ]) ≡ none) [
          | yes same ↦ lookup-discard k d
          | no other ↦
              elim (dec_uid e.0 k)
                as (λ x.
                  elim x [ yes same ↦ some e.1 | no ne ↦ lookup dec_uid k (discard k d) ] ≡ none) [
                    | yes same ↦ absurd (other same)
                    | no ne ↦ lookup-discard k d
                  ]
        ]

pub stored :
    {V : Type 0} (now until later : ℕ) (k : Text) (v : V) (s : List (Text × (V × ℕ)))
    → ltb until now ≡ false
    → ltb until later ≡ false
    → timed.get later k (timed.store now k v until s) ≡ some (v, until)
stored now until later k v s h g =
    rw (h, lookup-set_self dec_uid k (v, until) s) (kept-some v until later g)

pub timed-IsKept : {V : Type 0} → IsKept {V = V} seconds timed
timed-IsKept {V} = record {
  get-store = λ now until later k v s missing h g. stored now until later k v s h g;
  get-store_again =
      λ now until before later k v w s found more h g. stored now until later k v s h g;
  get-delete = λ now k s. rw (lookup-discard k s) refl;
}

lookup-same :
    {V : Type 0} (e : Text × V) (k : Text) (d : List (Text × V))
    → e.0 ≡ k
    → lookup dec_uid k (e ∷ d) ≡ some e.1
lookup-same e k d same =
    subst (λ x. lookup dec_uid x (e ∷ d) ≡ some e.1) same (lookup-head dec_uid e.0 e.1 d)

lookup-other :
    {V : Type 0} (e : Text × V) (k : Text) (d : List (Text × V))
    → e.0 ≢ k
    → lookup dec_uid k (e ∷ d) ≡ lookup dec_uid k d
unfolding lookup
lookup-other e k d ne =
    elim (dec_uid e.0 k)
      as (λ x.
        elim x [ yes same ↦ some e.1 | no other ↦ lookup dec_uid k d ] ≡ lookup dec_uid k d) [
          | yes same ↦ absurd (ne same)
          | no other ↦ refl
        ]

Absent-unexpired :
    {V : Type 0} (now : ℕ) (k : Text) (d : List (Text × (V × ℕ)))
    → Absent dec_uid k d
    → Absent dec_uid k (unexpired now d)
Absent-unexpired now k [] a = tt
Absent-unexpired now k (e ∷ d) a = elim (Bool-cases (ltb e.1.1 now)) [
  | inl over ↦ rw over (Absent-unexpired now k d a.1)
  | inr still ↦ rw still (a.0, Absent-unexpired now k d a.1)
]

-- Where each key stands once, the items are what is found.
pub unexpired-listed :
    {V : Type 0} (now : ℕ) (k : Text) (d : List (Text × (V × ℕ)))
    → IsDict dec_uid d
    → lookup dec_uid k (unexpired now d) ≡ kept now (lookup dec_uid k d)
unexpired-listed now k [] u = unfold lookup in refl
unexpired-listed now k (e ∷ d) u = elim (dec_uid e.0 k) [
  | yes same ↦ elim (Bool-cases (ltb e.1.1 now)) [
    | inl over ↦
        rw (lookup-same e k d same, over)
          (lookup-Absent dec_uid k (unexpired now d)
            (Absent-unexpired now k d (subst (λ x. Absent dec_uid x d) same u.0)))
    | inr still ↦ rw (lookup-same e k d same, still) (lookup-same e k (unexpired now d) same)
  ]
  | no other ↦ elim (Bool-cases (ltb e.1.1 now)) [
    | inl over ↦ rw (lookup-other e k d other, over) (unexpired-listed now k d u.1)
    | inr still ↦
        rw (lookup-other e k d other, still)
          (lookup-other e k (unexpired now d) other ∙ unexpired-listed now k d u.1)
  ]
]
