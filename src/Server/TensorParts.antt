-- ===== src/Server/TensorParts.antt =====
-- `TensorPartContainer` of agora_server/src/agora_server/core/all_reduce/partition.py: how tensors
-- are split into parts for peers, and put together again. A tensor is its flat values with the size
-- of its parts; the pivots (a float computation on the fractions) are a parameter.
pub mod Order
pub mod RoundTrip
pub mod Failed
pub mod Total
pub mod Reducer
mod Tests
use agora_test.Prelude.{
  ℕ, zero, suc, ◌+◌, ◌-◌, ◌*◌, List, [], ◌∷◌, ◌++◌, Bool, true, false, Option, none, some, ltb, leb,
  ◌==◌, if◌then◌else◌, length, min, drop, take, Outcome, ok, raise, ◌>>=◌, map, replicate,
}

pub data PartError : Type 0 where
  index_error wrong_part_index : PartError

pub record Flat (V : Type 0) : Type 0 where
  pub part_size_values : ℕ
  pub values : List V

-- `x.split(n)`, whose last part may be shorter. Fuel `len(x)` is enough for a positive `n`.
unfoldable pub split : {V : Type 0} → ℕ → ℕ → List V → List (List V)
split zero n xs = xs ∷ []
split (suc fuel) n xs = elim (leb (length xs) n) [
  | true ↦ xs ∷ []
  | false ↦ take n xs ∷ split fuel n (drop n xs)
]

abbrev pub tensor_parts : {V : Type 0} → Flat V → List (List V)
tensor_parts t = split (length t.values) t.part_size_values t.values

-- `self._input_parts_by_peer[i].append(part)`
unfoldable pub append_at : {A : Type 0} → ℕ → A → List (List A) → Outcome PartError (List (List A))
append_at i x [] = raise index_error
append_at zero x (b ∷ bs) = ok ((b ++ (x ∷ [])) ∷ bs)
append_at (suc i) x (b ∷ bs) = elim (append_at i x bs) [ ok bs' ↦ ok (b ∷ bs') | raise e ↦ raise e ]

-- The inner loop, from the pivot `before` of a peer and the pivots of the next ones: how many peers
-- it goes on, and what it appends to `peer_intersections`.
unfoldable pub cross : ℕ → ℕ → List ℕ → Outcome PartError (ℕ × List ℕ)
cross part_end before [] = raise index_error
cross part_end before (p ∷ ps) = elim (ltb p part_end) [
  | false ↦ ok (1, (min part_end p - before) ∷ [])
  | true ↦ elim (cross part_end p ps) [
    | raise e ↦ raise e
    | ok (k, is) ↦ ok (suc k, (min part_end p - before) ∷ is)
  ]
]

-- `np.argmax`: the first place of the largest; `best` stands at `at`, the rest from `here` on.
unfoldable pub argmax_from : ℕ → ℕ → ℕ → List ℕ → ℕ
argmax_from best at here [] = at
argmax_from best at here (x ∷ xs) = elim (ltb best x) [
  | true ↦ argmax_from x here (suc here) xs
  | false ↦ argmax_from best at (suc here) xs
]

-- The state of the loop over the parts; `ahead` is `pivots[current_peer_index:]`.
pub record Split (V : Type 0) : Type 0 where
  pub current_length : ℕ
  pub current_peer_index : ℕ
  pub ahead : List ℕ
  pub inputs : List (List (List V))

unfoldable pub place : {V : Type 0} → List V → Split V → Outcome PartError (Split V)
place part s = elim s.ahead [
  | [] ↦ raise index_error
  | p ∷ ps ↦ elim (ltb p (s.current_length + length part)) [
    | false ↦ elim (append_at s.current_peer_index part s.inputs) [
      | raise e ↦ raise e
      | ok inputs ↦
          ok (record s { current_length = s.current_length + length part; inputs = inputs })
    ]
    | true ↦ elim (cross (s.current_length + length part) p ps) [
      | raise e ↦ raise e
      | ok (k, is) ↦
          elim (append_at (s.current_peer_index + argmax_from (p - s.current_length) 0 1 is) part
            s.inputs) [
              | raise e ↦ raise e
              | ok inputs ↦ ok (record {
                current_length = s.current_length + length part;
                current_peer_index = s.current_peer_index + k;
                ahead = drop k s.ahead;
                inputs = inputs;
              })
            ]
    ]
  ]
]

unfoldable pub place_all : {V : Type 0} → List (List V) → Split V → Outcome PartError (Split V)
place_all [] s = ok s
place_all (part ∷ parts) s = elim (place part s) [ ok s' ↦ place_all parts s' | raise e ↦ raise e ]

abbrev pub all_parts : {V : Type 0} → List (Flat V) → List (List V)
all_parts [] = []
all_parts (t ∷ ts) = tensor_parts t ++ all_parts ts

-- `self.total_size`
unfoldable pub total_size : {V : Type 0} → List (Flat V) → ℕ
total_size [] = 0
total_size (t ∷ ts) = length t.values + total_size ts

-- The parts by peer after `__init__`, for the pivots of the peers.
unfoldable pub init : {V : Type 0} → List (Flat V) → List ℕ → Outcome PartError (Split V)
init tensors pivots = place_all (all_parts tensors) (record {
  current_length = 0;
  current_peer_index = 0;
  ahead = pivots;
  inputs = replicate (length pivots) [];
})

-- The next part of `iterate_output_tensors`, where every output part is registered.
unfoldable pub next_part : {A : Type 0} → List (List A) → Outcome PartError (A × List (List A))
next_part [] = raise index_error
next_part ([] ∷ outputs) = next_part outputs
next_part ((part ∷ parts) ∷ outputs) = ok (part, parts ∷ outputs)

-- `n` next parts
unfoldable pub next_parts :
    {A : Type 0} → ℕ → List (List A) → Outcome PartError (List A × List (List A))
next_parts zero outputs = ok ([], outputs)
next_parts (suc n) outputs = elim (next_part outputs) [
  | raise e ↦ raise e
  | ok (part, rest) ↦ elim (next_parts n rest) [
    | raise e ↦ raise e
    | ok (parts, rest') ↦ ok (part ∷ parts, rest')
  ]
]

-- `torch.cat`
abbrev pub cat : {V : Type 0} → List (List V) → List V
cat [] = []
cat (part ∷ parts) = part ++ cat parts

-- `iterate_output_tensors`, for the numbers of parts of the tensors
unfoldable pub output_tensors :
    {V : Type 0} → List ℕ → List (List (List V)) → Outcome PartError (List (List V))
output_tensors [] outputs = ok []
output_tensors (n ∷ ns) outputs = elim (next_parts n outputs) [
  | raise e ↦ raise e
  | ok (parts, rest) ↦ elim (output_tensors ns rest) [
    | raise e ↦ raise e
    | ok tensors ↦ ok (cat parts ∷ tensors)
  ]
]

-- What a container holds of one peer.
pub record Peer (V : Type 0) : Type 0 where
  pub input_parts : List (List V)
  pub output_parts : List (List V)
  pub outputs_registered : ℕ
  pub failures : ℕ
  pub failed_size : ℕ

unfoldable pub register_processed_part :
    {V : Type 0} → ℕ → List V → Peer V → Outcome PartError (Peer V)
register_processed_part part_index part s =
    if part_index == s.outputs_registered
    then ok (record s {
      output_parts = s.output_parts ++ (part ∷ []);
      outputs_registered = s.outputs_registered + 1;
    })
    else raise wrong_part_index

module _ {V : Type 0} (zero_value : V) (return_deltas : Bool) where
  abbrev pub instead : List V → List V
  instead part = if return_deltas then map (λ x. zero_value) part else part

  -- The loop of `register_failed_reducer`, over the input parts from `part_index` on.
  unfoldable pub fail_from : ℕ → List (List V) → Peer V → Outcome PartError (Peer V)
  fail_from part_index [] s = ok s
  fail_from part_index (part ∷ parts) s =
      elim (register_processed_part part_index (instead part) s) [
        | raise e ↦ raise e
        | ok s' ↦ fail_from (suc part_index) parts (record s' {
          failures = s'.failures + 1;
          failed_size = s'.failed_size + length (instead part);
        })
      ]

  unfoldable pub register_failed_reducer : Peer V → Outcome PartError (Peer V)
  register_failed_reducer s =
      fail_from s.outputs_registered (drop s.outputs_registered s.input_parts) s
