-- ===== src/Server/TensorParts/Failed.antt =====
-- What a container does for a peer that failed.
use agora_test.Prelude.{
  ℕ, suc, ◌+◌, ◌≤◌, List, [], ◌∷◌, ◌++◌, Bool, length, drop, ok, ◌≡◌, refl, sym, ◌∙◌, arith,
  append_assoc, append-nil, map, length-drop, length-map, Bool-cases, inl, inr,
}
use agora_test.Server.TensorParts.{
  Peer, register_processed_part, instead, fail_from, register_failed_reducer,
}

-- The values of some parts.
unfoldable pub numel : {V : Type 0} → List (List V) → ℕ
numel [] = 0
numel (part ∷ parts) = length part + numel parts

module _ {V : Type 0} (zero_value : V) (return_deltas : Bool) where
  -- `s'` is `s` after local results for `parts`.
  pub record Filled (parts : List (List V)) (s s' : Peer V) : Type 0 where
    pub outputs : s'.output_parts ≡ s.output_parts ++ map (instead zero_value return_deltas) parts
    pub registered : s'.outputs_registered ≡ s.outputs_registered + length parts
    pub failures : s'.failures ≡ s.failures + length parts
    pub failed_size : s'.failed_size ≡ s.failed_size + numel parts

  length-instead : (part : List V) → length (instead zero_value return_deltas part) ≡ length part
  length-instead part = elim (Bool-cases return_deltas) [
    | inl deltas ↦ rw deltas (length-map part (λ x. zero_value))
    | inr averages ↦ rw averages refl
  ]

  register-step :
      (part_index : ℕ) (part : List V) (s : Peer V)
      → part_index ≡ s.outputs_registered
      → register_processed_part part_index part s
        ≡ ok (record s {
          output_parts = s.output_parts ++ (part ∷ []);
          outputs_registered = s.outputs_registered + 1;
        })
  unfolding register_processed_part
  register-step part_index part s h = ground arith

  fail_from-Filled :
      (part_index : ℕ) (parts : List (List V)) (s : Peer V)
      → part_index ≡ s.outputs_registered
      → (s' : Peer V) × (fail_from zero_value return_deltas part_index parts s ≡ ok s')
        × Filled parts s s'
  unfolding fail_from numel
  fail_from-Filled part_index [] s h = (
    s,
    refl,
    record {
      outputs = sym (append-nil s.output_parts);
      registered = omega arith;
      failures = omega arith;
      failed_size = omega arith;
    },
  )
  fail_from-Filled part_index (part ∷ parts) s h =
      let local = instead zero_value return_deltas part in
      let (s', done, f) =
        fail_from-Filled (suc part_index) parts
          (record s {
            output_parts = s.output_parts ++ (local ∷ []);
            outputs_registered = s.outputs_registered + 1;
            failures = s.failures + 1;
            failed_size = s.failed_size + length local;
          })
          (omega arith) in
      (
        s',
        rw (register-step part_index local s h, fail_from) done,
        record {
          outputs = f.outputs ∙ append_assoc s.output_parts (local ∷ []) _;
          registered = omega (arith, f.registered);
          failures = omega (arith, f.failures);
          failed_size = omega (arith, f.failed_size, length-instead part);
        },
      )

  -- If no more outputs of a peer are registered than it has parts, `register_failed_reducer` does not
  -- raise; it keeps the registered outputs, adds a local result (the part, or zeros) for each part that
  -- is missing, and counts those parts and their values as failed.
  pub register_failed_reducer-Filled :
      (s : Peer V)
      → s.outputs_registered ≤ length s.input_parts
      → (s' : Peer V) × (register_failed_reducer zero_value return_deltas s ≡ ok s')
        × Filled (drop s.outputs_registered s.input_parts) s s'
        × (s'.outputs_registered ≡ length s.input_parts)
  unfolding register_failed_reducer
  register_failed_reducer-Filled s h =
      let (s', done, f) =
        fail_from-Filled s.outputs_registered (drop s.outputs_registered s.input_parts) s refl in
      (s', done, f, omega (arith, f.registered, length-drop {0} s.outputs_registered s.input_parts))
