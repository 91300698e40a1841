-- ===== src/Pithos/Manifest/Tests.antt =====
-- The manifest's theorems at a concrete manifest.
use agora_test.Json.{Json}
use agora_test.Prelude.{◌*◌, ◌≡◌, refl, pos, raise, codes}
use agora_test.Pithos.Errors.{unsafe_chunk_name}
use agora_test.Pithos.Manifest.{validate_chunk_name}
use agora_test.Pithos.Manifest.Example.{
  digest_zero, two_chunks, two_chunks_manifest, two_chunks_layout, two_chunks_accepted,
  two_chunks_at_two,
}
use agora_test.Pithos.Manifest.Layout.{layout}
use agora_test.Pithos.Manifest.Locate.{IsLayout, layout-IsLayout}
use agora_test.Pithos.Manifest.Valid.{IsValid, init-IsValid, layout_result, layout-result}

init-IsValid_example : IsValid two_chunks_manifest
init-IsValid_example = init-IsValid digest_zero two_chunks two_chunks_manifest two_chunks_accepted

layout-result_example :
    layout two_chunks_manifest (Json.int (pos 3)) ≡ layout_result two_chunks_manifest 3
layout-result_example =
    layout-result digest_zero two_chunks two_chunks_manifest 3 two_chunks_accepted

layout-IsLayout_example :
    IsLayout two_chunks_layout
    × (two_chunks_layout.seq ≡ 2)
    × (two_chunks_layout.samples_per_chunk * 2 ≡ two_chunks_manifest.chunk_tokens)
layout-IsLayout_example =
    layout-IsLayout digest_zero two_chunks two_chunks_manifest 2 two_chunks_layout
      two_chunks_accepted two_chunks_at_two

rejects_dots : validate_chunk_name (Json.str (codes "a..b")) ≡ raise unsafe_chunk_name
unfolding validate_chunk_name
rejects_dots = refl
