-- ===== src/Pithos/Corpus/Merge/Members.antt =====
-- Which records a merge yields, and that ascending keys leave one order for them.
use agora_test.Prelude.{
  ℕ, List, [], ◌∷◌, ◌≡◌, refl, ap₂, ◌∙◌, sym, subst, true, false, bytes_lt, bytes_lt_irrefl,
  bytes_lt_trans, Bool-cases, ◌⊎◌, inl, inr, ◌↔◌,
}
use agora_test.Pithos.Corpus.Merge.{Record, merge_two, heapq_merge}
use agora_test.Pithos.Corpus.Merge.Keys.{Ascends, IsAscending}

abbrev pub Member : Record → List Record → Type 0
Member r [] = ⊥
Member r (x ∷ xs) = (r ≡ x) ⊎ Member r xs

-- `r` is in one of the parts.
abbrev pub InParts : Record → List (List Record) → Type 0
InParts r [] = ⊥
InParts r (p ∷ ps) = Member r p ⊎ InParts r ps

-- Two lists hold the same records.
abbrev SameMembers : List Record → List Record → Type 0
SameMembers xs ys = (r : Record) → Member r xs ↔ Member r ys

pub merge_two-right :
    (x y : Record) (xs ys : List Record)
    → bytes_lt y.0 x.0 ≡ true
    → merge_two (x ∷ xs) (y ∷ ys) ≡ y ∷ merge_two (x ∷ xs) ys
unfolding merge_two
merge_two-right x y xs ys h = rw (h, merge_two) refl

pub merge_two-left :
    (x y : Record) (xs ys : List Record)
    → bytes_lt y.0 x.0 ≡ false
    → merge_two (x ∷ xs) (y ∷ ys) ≡ x ∷ merge_two xs (y ∷ ys)
unfolding merge_two
merge_two-left x y xs ys h = rw (h, merge_two) refl

Member-merge_two :
    (r : Record) (xs ys : List Record) → Member r (merge_two xs ys) → Member r xs ⊎ Member r ys
unfolding merge_two
Member-merge_two r [] ys m = inr m
Member-merge_two r (x ∷ xs) [] m = inl m
Member-merge_two r (x ∷ xs) (y ∷ ys) m = elim (Bool-cases (bytes_lt y.0 x.0)) [
  | inl lt ↦ elim (subst (Member r) (merge_two-right x y xs ys lt) m) [
    | inl e ↦ inr (inl e)
    | inr later ↦ elim (Member-merge_two r (x ∷ xs) ys later) [
      | inl left ↦ inl left
      | inr right ↦ inr (inr right)
    ]
  ]
  | inr ge ↦ elim (subst (Member r) (merge_two-left x y xs ys ge) m) [
    | inl e ↦ inl (inl e)
    | inr later ↦ elim (Member-merge_two r xs (y ∷ ys) later) [
      | inl left ↦ inl (inr left)
      | inr right ↦ inr right
    ]
  ]
]

merge_two-Member :
    (r : Record) (xs ys : List Record) → Member r xs ⊎ Member r ys → Member r (merge_two xs ys)
unfolding merge_two
merge_two-Member r [] ys (inl m) = absurd m
merge_two-Member r [] ys (inr m) = m
merge_two-Member r (x ∷ xs) [] (inl m) = m
merge_two-Member r (x ∷ xs) [] (inr m) = absurd m
merge_two-Member r (x ∷ xs) (y ∷ ys) m = elim (Bool-cases (bytes_lt y.0 x.0)) [
  | inl lt ↦ subst (Member r) (sym (merge_two-right x y xs ys lt)) (elim m [
    | inl left ↦ inr (merge_two-Member r (x ∷ xs) ys (inl left))
    | inr right ↦ elim right [
      | inl e ↦ inl e
      | inr later ↦ inr (merge_two-Member r (x ∷ xs) ys (inr later))
    ]
  ])
  | inr ge ↦ subst (Member r) (sym (merge_two-left x y xs ys ge)) (elim m [
    | inl left ↦ elim left [
      | inl e ↦ inl e
      | inr later ↦ inr (merge_two-Member r xs (y ∷ ys) (inl later))
    ]
    | inr right ↦ inr (merge_two-Member r xs (y ∷ ys) (inr right))
  ])
]

pub Member-heapq_merge :
    (r : Record) (parts : List (List Record)) → Member r (heapq_merge parts) ↔ InParts r parts
unfolding heapq_merge
Member-heapq_merge r [] = (λ m. m, λ m. m)
Member-heapq_merge r (p ∷ ps) = (
  λ m. elim (Member-merge_two r p (heapq_merge ps) m) [
    | inl here ↦ inl here
    | inr there ↦ inr ((Member-heapq_merge r ps).0 there)
  ],
  λ m.
      merge_two-Member r p (heapq_merge ps)
        (elim m [ inl here ↦ inl here | inr there ↦ inr ((Member-heapq_merge r ps).1 there) ]),
)

lt_self : (a : List ℕ) → ¬ (bytes_lt a a ≡ true)
lt_self a h = cc (bytes_lt_irrefl a)

lt_asymm : (a b : List ℕ) → bytes_lt a b ≡ true → ¬ (bytes_lt b a ≡ true)
lt_asymm a b h k = lt_self a (bytes_lt_trans a b a h k)

Ascends-IsAscending : (k : List ℕ) (xs : List Record) → Ascends k xs → IsAscending xs
Ascends-IsAscending k [] a = tt
Ascends-IsAscending k (x ∷ xs) a = a.1

-- Every member of a list that ascends from `k` has a key above `k`.
Ascends-Member :
    (k : List ℕ) (r : Record) (xs : List Record)
    → Ascends k xs
    → Member r xs
    → bytes_lt k r.0 ≡ true
Ascends-Member k r [] a m = absurd m
Ascends-Member k r (x ∷ xs) a (inl e) = rw e a.0
Ascends-Member k r (x ∷ xs) a (inr m) = bytes_lt_trans k x.0 r.0 a.0 (Ascends-Member x.0 r xs a.1 m)

-- Two ascending lists with the same records are the same list.
heads_agree :
    (x y : Record) (xs ys : List Record)
    → Ascends x.0 xs
    → Ascends y.0 ys
    → SameMembers (x ∷ xs) (y ∷ ys)
    → x ≡ y
heads_agree x y xs ys ax ay same = elim ((same x).0 (inl refl)) [
  | inl e ↦ e
  | inr x_later ↦ elim ((same y).1 (inl refl)) [
    | inl e ↦ sym e
    | inr y_later ↦
        absurd (
          lt_asymm x.0 y.0 (Ascends-Member x.0 y xs ax y_later)
            (Ascends-Member y.0 x ys ay x_later))
  ]
]

tail-Member :
    (x y r : Record) (xs ys : List Record)
    → Ascends x.0 xs
    → x ≡ y
    → Member r (y ∷ ys)
    → Member r xs
    → Member r ys
tail-Member x y r xs ys a e (inl here) m = absurd (
    lt_self r.0 (subst (λ z. bytes_lt z.0 r.0 ≡ true) (e ∙ sym here) (Ascends-Member x.0 r xs a m)))
tail-Member x y r xs ys a e (inr there) m = there

pub SameMembers-eq :
    (xs ys : List Record) → IsAscending xs → IsAscending ys → SameMembers xs ys → xs ≡ ys
SameMembers-eq [] [] ax ay same = refl
SameMembers-eq [] (y ∷ ys) ax ay same = absurd ((same y).1 (inl refl))
SameMembers-eq (x ∷ xs) [] ax ay same = absurd ((same x).0 (inl refl))
SameMembers-eq (x ∷ xs) (y ∷ ys) ax ay same =
    let e = heads_agree x y xs ys ax ay same in
    ap₂ (λ h t. h ∷ t) e
      (SameMembers-eq xs ys (Ascends-IsAscending x.0 xs ax) (Ascends-IsAscending y.0 ys ay) (λ r. (
        λ m. tail-Member x y r xs ys ax e ((same r).0 (inr m)) m,
        λ m. tail-Member y x r ys xs ay (sym e) ((same r).1 (inr m)) m,
      )))
