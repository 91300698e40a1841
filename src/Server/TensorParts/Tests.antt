-- ===== src/Server/TensorParts/Tests.antt =====
-- Two tensors split for three peers, and a peer that fails.
use agora_test.Prelude.{ℕ, suc, List, [], ◌∷◌, ◌≡◌, refl, arith, ok, map, length, true}
use agora_test.Server.TensorParts.{
  Flat, Split, Peer, init, place_all, place, append_at, cross, argmax_from, split, output_tensors,
  tensor_parts, register_failed_reducer,
}
use agora_test.Server.TensorParts.Failed.{Filled, register_failed_reducer-Filled}
use agora_test.Server.TensorParts.RoundTrip.{output_tensors-init, returned}

abbrev tensors : List (Flat ℕ)
tensors =
    record { part_size_values = 2; values = 1 ∷ 2 ∷ 3 ∷ 4 ∷ 5 ∷ [] }
    ∷ record { part_size_values = 2; values = 6 ∷ 7 ∷ [] }
    ∷ []

abbrev pivots : List ℕ
pivots = 3 ∷ 5 ∷ 7 ∷ []

abbrev placed : Split ℕ
placed = record {
  current_length = 7;
  current_peer_index = 2;
  ahead = 7 ∷ [];
  inputs = ((1 ∷ 2 ∷ []) ∷ (3 ∷ 4 ∷ []) ∷ []) ∷ ((5 ∷ []) ∷ []) ∷ ((6 ∷ 7 ∷ []) ∷ []) ∷ [];
}

five_and_two : init tensors pivots ≡ ok placed
unfolding init place_all place append_at cross argmax_from split
five_and_two = refl

output_tensors-init_example :
    output_tensors (map (λ t. length (tensor_parts t)) tensors) (map (map (map suc)) placed.inputs)
    ≡ ok (map (returned (map suc)) tensors)
output_tensors-init_example = output_tensors-init (map suc) tensors pivots placed five_and_two

abbrev peer : Peer ℕ
peer = record {
  input_parts = (1 ∷ 2 ∷ []) ∷ (3 ∷ 4 ∷ []) ∷ (5 ∷ []) ∷ [];
  output_parts = (9 ∷ 9 ∷ []) ∷ [];
  outputs_registered = 1;
  failures = 0;
  failed_size = 0;
}

register_failed_reducer-Filled_example :
    (s : Peer ℕ) × (register_failed_reducer 0 true peer ≡ ok s)
    × Filled 0 true ((3 ∷ 4 ∷ []) ∷ (5 ∷ []) ∷ []) peer s
    × (s.outputs_registered ≡ 3)
register_failed_reducer-Filled_example = register_failed_reducer-Filled 0 true peer (omega arith)
