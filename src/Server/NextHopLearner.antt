-- ===== src/Server/NextHopLearner.antt =====
-- `NextHopLearner` of agora_server/src/agora_server/core/server/w2w_coordinator.py. What `except`
-- catches (a manager that is shut down) is not modelled; the log is the list of its lines.
pub mod Sampling
mod Tests
use agora_test.Prelude.{
  ℕ, zero, suc, ◌+◌, ◌%◌, List, [], ◌∷◌, ◌++◌, Bool, true, false, ◌&&◌, ◌||◌, Option, none, some,
  ◌==◌, if◌then◌else◌, Text,
}
use agora_test.Server.BatchMetadata.{BatchMetadata}

pub data Line : Type 0 where
  next_learned : Text → Option Text → Option Text → Line
  prev_learned : Text → Option Text → Option Text → Line
  partial_next : Text → Option Text → Option Text → Line
  partial_prev : Text → Option Text → Option Text → Line

pub record Learner : Type 0 where
  pub next_hops_learned : ℕ
  pub prev_hops_learned : ℕ
  pub parse_errors : ℕ
  pub log : List Line

abbrev pub fresh : Learner
fresh = record { next_hops_learned = 0; prev_hops_learned = 0; parse_errors = 0; log = [] }

-- `_LEARN_LOG_EVERY`
abbrev learn_log_every : ℕ
learn_log_every = 50

-- the truth of an optional `str`
abbrev pub truth : Option Text → Bool
truth none = false
truth (some []) = false
truth (some (c ∷ cs)) = true

-- `if n % _LEARN_LOG_EVERY == 0`
abbrev pub sampled : ℕ → Line → List Line → List Line
sampled n line log = if n % learn_log_every == 0 then log ++ (line ∷ []) else log

unfoldable pub on_next_learned : Text → Option Text → Option Text → Learner → Learner
on_next_learned worker uid peer s = record s {
  next_hops_learned = s.next_hops_learned + 1;
  log = sampled (s.next_hops_learned + 1) (next_learned worker uid peer) s.log;
}

unfoldable pub on_prev_learned : Text → Option Text → Option Text → Learner → Learner
on_prev_learned worker uid peer s = record s {
  prev_hops_learned = s.prev_hops_learned + 1;
  log = sampled (s.prev_hops_learned + 1) (prev_learned worker uid peer) s.log;
}

unfoldable pub on_parse_error : Line → Learner → Learner
on_parse_error line s = record s {
  parse_errors = s.parse_errors + 1;
  log = sampled (s.parse_errors + 1) line s.log;
}

unfoldable pub learn_next : Text → BatchMetadata → Learner → Learner
learn_next worker md s =
    if truth md.next_hop_uid && truth md.next_hop_peer_id
    then on_next_learned worker md.next_hop_uid md.next_hop_peer_id s
    else if truth md.next_hop_uid || truth md.next_hop_peer_id
    then on_parse_error (partial_next worker md.next_hop_uid md.next_hop_peer_id) s
    else s

unfoldable pub learn_prev : Text → BatchMetadata → Learner → Learner
learn_prev worker md s =
    if truth md.prev_hop_uid && truth md.prev_hop_peer_id
    then on_prev_learned worker md.prev_hop_uid md.prev_hop_peer_id s
    else if truth md.prev_hop_uid || truth md.prev_hop_peer_id
    then on_parse_error (partial_prev worker md.prev_hop_uid md.prev_hop_peer_id) s
    else s

module _ (parse : List ℕ → Option BatchMetadata) where
  -- `learn`, where `parse` is `BatchMetadata.from_bytes`
  unfoldable pub learn : Text → List ℕ → Learner → Learner
  learn worker [] s = s
  learn worker (b ∷ bs) s = elim (parse (b ∷ bs)) [
    | none ↦ s
    | some md ↦ learn_prev worker md (learn_next worker md s)
  ]

  -- The calls of `learn` in order.
  unfoldable pub learn_all : List (Text × List ℕ) → Learner → Learner
  learn_all [] s = s
  learn_all ((worker, metadata) ∷ calls) s = learn_all calls (learn worker metadata s)
