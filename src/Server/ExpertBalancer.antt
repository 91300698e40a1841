-- ===== src/Server/ExpertBalancer.antt =====
-- `ExpertBalancer` of agora_server/src/agora_server/core/server/expert_balancer.py: the state of a
-- balancer and what it takes from elsewhere. Floats, the storages that forget what has expired and
-- the throughput averages are parameters; an operation takes place at one time `now`.
pub mod Heap
pub mod HeapOrder
pub mod Links
pub mod Well
pub mod Eligible
pub mod Least
pub mod Grants
pub mod Rounds
pub mod Views
pub mod Calls
pub mod Peek
pub mod Bans
pub mod Sample
mod Tests
pub mod State
pub mod Reserve
pub mod Use
pub mod Refresh
use agora_test.Prelude.{ℕ, List, Bool, true, false, Option, Text, ◌≡◌, ℕ_discrete}

-- Python's floats other than nan, with the constants that the code writes.
pub record Float (F : Type 0) : Type 0 where
  pub dec : Discrete F
  pub of_int : ℕ → F
  pub nanosecond : F
  pub add : F → F → F
  pub sub : F → F → F
  pub mul : F → F → F
  pub div : F → F → F
  pub less : F → F → Bool
  pub less_asym : (a b : F) → less a b ≡ true → less b a ≡ false
  pub not_less_trans : (a b c : F) → less b a ≡ false → less c b ≡ false → less c a ≡ false

-- What the code calls of `TimedStorage`, a mapping in which a value is present up to its expiration.
pub record TimedStorage (F V S : Type 0) : Type 0 where
  pub new : S
  pub get : F → Text → S → Option (V × F)
  pub items : F → S → List (Text × (V × F))
  pub store : F → Text → V → F → S → S
  pub delete : Text → S → S

-- What the code calls of `PerformanceEMA`.
pub record PerformanceEma (F M : Type 0) : Type 0 where
  pub new : M
  pub num_updates : M → ℕ
  pub samples_per_second : M → F
  pub update : F → F → M → M

-- `random` yields the numbers of `random.random()`, call by call.
pub record Env (F M X B : Type 0) : Type 0 where
  pub float : Float F
  pub ema : PerformanceEma F M
  pub storage : TimedStorage F Text X
  pub bans : TimedStorage F (Option Text) B
  pub random : ℕ → F

pub record Config (F : Type 0) : Type 0 where
  pub update_period : F
  pub initial_throughput : F
  pub ban_expiration : F
  pub refresh_experts_period : F
  pub max_experts : Option ℕ
  pub min_experts : ℕ
  pub trainer_rank : ℕ
  pub warmup_batches : ℕ
  pub warmup_penalty_multiplier : F

-- `(runtime, random.random(), uid)`
pub record Entry (F : Type 0) : Type 0 where
  pub runtime : F
  pub tie : F
  pub uid : Text

-- A row of `warming_up`; `joined` is `none` for the sentinel -1.
pub record Warmup (F : Type 0) : Type 0 where
  pub endpoint : Text
  pub joined : Option ℕ
  pub last_runtime : F

pub record Member (F : Type 0) : Type 0 where
  pub uid : Text
  pub endpoint : Text
  pub expiration : F

pub record Reservation (F : Type 0) : Type 0 where
  pub uid : Text
  pub peer_id : Text
  pub task_size : F
  pub started_at : F

-- `drawn` counts the calls of `random.random()`.
pub record Balancer (F M X B : Type 0) : Type 0 where
  pub experts : X
  pub blacklist : B
  pub throughputs : List (Text × M)
  pub warming_up : List (Text × Warmup F)
  pub queue : List (Entry F)
  pub uid_to_queue : List (Text × Entry F)
  pub global_batch_counter : ℕ
  pub drawn : ℕ
  pub selected_experts : List (Member F)
  pub last_full_refresh : F
  pub update_trigger : Bool
  pub update_finished : Bool

-- What the operations raise: a missing key of `throughputs`, or that a pinned expert is not there.
pub data BalancerError : Type 0 where
  key_error pinned_unavailable : BalancerError
