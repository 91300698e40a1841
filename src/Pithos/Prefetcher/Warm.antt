-- ===== src/Pithos/Prefetcher/Warm.antt =====
-- Prefetching changes nothing that is read, and stays within its depth.
use agora_test.Prelude.{
  ℕ, suc, ◌≤◌, ◌<◌, List, [], ◌∷◌, ◌++◌, true, false, none, some, leb, length, Text, ok, raise,
  lookup, remove, ◌≡◌, ◌≢◌, refl, ap, ap₂, sym, ◌∙◌, arith, subst, Bool-cases, Option-cases, inl,
  inr, IsDict, Absent, Absent-lookup, append-IsDict, remove-IsDict, length-remove, length-append,
  some-injective, none-ne-some, lookup-remove, lookup-append, lookup-append_Absent, lookup-Absent,
}
use agora_test.Pithos.Prefetcher.{
  Prefetcher, RequestError, Call, request_call, get_call, close_call, started, close, request, get,
  after, run,
}

module _ {R : Type 0} (dec : Discrete Text) (fetch : Text → R) where
  -- Each name is in flight once, with what `fetch` yields, and at most `depth` names are.
  pub record IsWarm (s : Prefetcher R) : Type 0 where
    pub unique : IsDict dec s.inflight
    pub fetched : (name : Text) (r : R) → lookup dec name s.inflight ≡ some r → r ≡ fetch name
    pub bounded : length s.inflight ≤ s.depth

  request-new :
      (name : Text) (s : Prefetcher R)
      → s.closed ≡ false
      → lookup dec name s.inflight ≡ none
      → leb s.depth (length s.inflight) ≡ false
      → request dec fetch name s
        ≡ ok (true, record s { inflight = s.inflight ++ ((name, fetch name) ∷ []) })
  unfolding request
  request-new name s h g f = ground arith

  request-full :
      (name : Text) (s : Prefetcher R)
      → s.closed ≡ false
      → lookup dec name s.inflight ≡ none
      → leb s.depth (length s.inflight) ≡ true
      → request dec fetch name s ≡ ok (false, s)
  unfolding request
  request-full name s h g f = ground arith

  request-again :
      (name : Text) (s : Prefetcher R) (r : R)
      → s.closed ≡ false
      → lookup dec name s.inflight ≡ some r
      → request dec fetch name s ≡ ok (true, s)
  unfolding request
  request-again name s r h g = ground arith

  request-closed :
      (name : Text) (s : Prefetcher R)
      → s.closed ≡ true
      → request dec fetch name s ≡ raise RequestError.request_after_close
  unfolding request
  request-closed name s h = ground arith

  append-IsWarm :
      (name : Text) (s : Prefetcher R)
      → lookup dec name s.inflight ≡ none
      → leb s.depth (length s.inflight) ≡ false
      → IsWarm s
      → IsWarm (record s { inflight = s.inflight ++ ((name, fetch name) ∷ []) })
  append-IsWarm name s missing room w =
      let absent = Absent-lookup dec name s.inflight missing in
      let less : suc (length s.inflight) ≤ s.depth = ground arith in
      record {
        unique = append-IsDict dec name (fetch name) s.inflight absent w.unique;
        fetched = λ j r g. elim (dec j name) [
          | yes same ↦
              some-injective _ _ (
                sym g
                ∙ subst
                    (λ x.
                      lookup dec x (s.inflight ++ ((name, fetch name) ∷ [])) ≡ some (fetch name))
                    (sym same) (lookup-append_Absent dec name (fetch name) s.inflight absent))
              ∙ ap fetch (sym same)
          | no other ↦
              w.fetched j r (sym (lookup-append dec j name (fetch name) s.inflight other) ∙ g)
        ];
        bounded = omega (arith, less, length-append {0} s.inflight ((name, fetch name) ∷ []));
      }

  request-IsWarm :
      (name : Text) (s : Prefetcher R)
      → IsWarm s
      → IsWarm (after dec fetch s (request dec fetch name s))
  request-IsWarm name s w = elim (Bool-cases s.closed) [
    | inl shut ↦ rw (request-closed name s shut) w
    | inr live ↦ elim (Option-cases (lookup dec name s.inflight)) [
      | inr (r, there) ↦ rw (request-again name s r live there) w
      | inl missing ↦ elim (Bool-cases (leb s.depth (length s.inflight))) [
        | inl full ↦ rw (request-full name s live missing full) w
        | inr room ↦ rw (request-new name s live missing room) (append-IsWarm name s missing room w)
      ]
    ]
  ]

  get-missing :
      (name : Text) (s : Prefetcher R)
      → lookup dec name s.inflight ≡ none
      → get dec fetch name s ≡ (fetch name, s)
  unfolding get
  get-missing name s h = rw (h, get) refl

  get-found :
      (name : Text) (s : Prefetcher R) (r : R)
      → lookup dec name s.inflight ≡ some r
      → get dec fetch name s ≡ (r, record s { inflight = remove dec name s.inflight })
  unfolding get
  get-found name s r h = ground arith

  remove-IsWarm :
      (name : Text) (s : Prefetcher R) (r : R)
      → lookup dec name s.inflight ≡ some r
      → IsWarm s
      → IsWarm (record s { inflight = remove dec name s.inflight })
  remove-IsWarm name s r found w =
      let (gone, unique) = remove-IsDict dec name s.inflight w.unique in
      record {
        unique = unique;
        fetched = λ j q g. elim (dec j name) [
          | yes same ↦ absurd (
              none-ne-some _ (
                sym (
                  lookup-Absent dec j (remove dec name s.inflight)
                    (subst (λ x. Absent dec x (remove dec name s.inflight)) (sym same) gone))
                ∙ g))
          | no other ↦ w.fetched j q (sym (lookup-remove dec j name s.inflight other) ∙ g)
        ];
        bounded = omega (arith, w.bounded, length-remove dec name s.inflight r found);
      }

  get-IsWarm :
      (name : Text) (s : Prefetcher R)
      → IsWarm s
      → ((get dec fetch name s).0 ≡ fetch name) × IsWarm (get dec fetch name s).1
  get-IsWarm name s w = elim (Option-cases (lookup dec name s.inflight)) [
    | inl missing ↦ rw (get-missing name s missing) (refl, w)
    | inr (r, found) ↦
        rw (get-found name s r found) (w.fetched name r found, remove-IsWarm name s r found w)
  ]

  emptied-IsWarm : (s : Prefetcher R) → IsWarm (record s { inflight = []; closed = true })
  unfolding lookup
  emptied-IsWarm s = record {
    unique = tt;
    fetched = λ j r g. absurd (none-ne-some _ g);
    bounded = omega arith;
  }

  close-shut : (s : Prefetcher R) → s.closed ≡ true → close s ≡ s
  unfolding close
  close-shut s h = ground arith

  close-live :
      (s : Prefetcher R) → s.closed ≡ false → close s ≡ record s { inflight = []; closed = true }
  unfolding close
  close-live s h = ground arith

  close-IsWarm : (s : Prefetcher R) → IsWarm s → IsWarm (close s)
  close-IsWarm s w = elim (Bool-cases s.closed) [
    | inl shut ↦ rw (close-shut s shut) w
    | inr live ↦ rw (close-live s live) (emptied-IsWarm s)
  ]

  started-IsWarm : (depth : ℕ) → IsWarm (started depth)
  unfolding lookup
  started-IsWarm depth = record {
    unique = tt;
    fetched = λ j r g. absurd (none-ne-some _ g);
    bounded = omega arith;
  }

  -- What `fetch` yields for the names that the calls get.
  abbrev fetched_by : List Call → List R
  fetched_by [] = []
  fetched_by (get_call name ∷ calls) = fetch name ∷ fetched_by calls
  fetched_by (request_call name ∷ calls) = fetched_by calls
  fetched_by (close_call ∷ calls) = fetched_by calls

  run-IsWarm :
      (calls : List Call) (s : Prefetcher R)
      → IsWarm s
      → ((run dec fetch calls s).0 ≡ fetched_by calls) × IsWarm (run dec fetch calls s).1
  unfolding run
  run-IsWarm [] s w = (refl, w)
  run-IsWarm (request_call name ∷ calls) s w = run-IsWarm calls _ (request-IsWarm name s w)
  run-IsWarm (get_call name ∷ calls) s w =
      let (here, w') = get-IsWarm name s w in
      let (rest, end) = run-IsWarm calls (get dec fetch name s).1 w' in
      (ap₂ (λ x xs. x ∷ xs) here rest, end)
  run-IsWarm (close_call ∷ calls) s w = run-IsWarm calls (close s) (close-IsWarm s w)

  -- Over any calls of a new prefetcher, each `get` yields what `fetch` yields for its name, before and
  -- after a close; then each name is in flight once, with what `fetch` yields, and no more names than
  -- the depth are.
  pub run-fetched :
      (depth : ℕ) (calls : List Call)
      → ((run dec fetch calls (started depth)).0 ≡ fetched_by calls)
        × IsWarm (run dec fetch calls (started depth)).1
  run-fetched depth calls = run-IsWarm calls (started depth) (started-IsWarm depth)

abbrev pub AllOthers : ℕ → ℕ → List ℕ → Type 0
AllOthers n k [] = Unit
AllOthers n k (x ∷ xs) = (x ≢ k) × (x < n) × AllOthers n k xs
