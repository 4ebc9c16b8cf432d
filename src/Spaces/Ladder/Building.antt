-- ===== src/Spaces/Ladder/Building.antt =====
-- What NewLadder builds: which roles it ranks, in which order, and what its top is.
use porte.Base.{
  ℕ, zero, suc, ◌+◌, ◌≤◌, ◌<◌, List, [], ◌∷◌, ◌++◌, true, false, not, ◌&&◌, ◌||◌, Option, none,
  some, ◌≡◌, ◌≢◌, refl, sym, ◌∙◌, inl, inr, string_eq, nat_eq, ◌==◌, beq_iff, beq_refl,
  if◌then◌else◌, Bool-cases, Option-cases, length, arith,
}
use mathlib.Core.List.{append-nil, append_assoc}
use porte.Spaces.Model.{Role}
use porte.Spaces.Ladder.{
  contains, index, collect, new_ladder, above, at_least, valid, last_or_empty, top,
}
use porte.Spaces.Ladder.Order.{index-some, at_least-eq-leb}

contains-append :
    (xs : List Role) (y r : Role) → contains (xs ++ y ∷ []) r ≡ (contains xs r || y == r)
unfolding contains
contains-append [] y r = ground arith
contains-append (x ∷ xs) y r = ground (arith, contains-append xs y r)

contains-collect :
    (order rs : List Role) (r : Role)
    → contains (collect order rs) r ≡ (contains order r || (not (r == "") && contains rs r))
unfolding collect
contains-collect order [] r = ground arith
contains-collect order (x ∷ rs) r = ground (
  arith,
  contains-collect (if not (x == "") && not (contains order x) then order ++ x ∷ [] else order) rs
      r,
  contains-append order x r,
  beq_iff x r,
  beq_iff x "",
  beq_iff r "",
)

-- NewLadder ranks exactly the roles that it is given, the empty one left out.
pub valid-new_ladder :
    (roles : List Role) (r : Role)
    → valid (new_ladder roles) r ≡ (not (r == "") && contains roles r)
unfolding valid new_ladder
valid-new_ladder roles r = contains-collect [] roles r

abbrev pub IsDistinct : List Role → Type 0
IsDistinct [] = Unit
IsDistinct (x ∷ xs) = (contains xs x ≡ false) × IsDistinct xs

IsDistinct-append :
    (xs : List Role) (y : Role) → IsDistinct xs → contains xs y ≡ false → IsDistinct (xs ++ y ∷ [])
unfolding contains
IsDistinct-append [] y h k = (refl, tt)
IsDistinct-append (x ∷ xs) y h k = (
  ground (arith, contains-append xs y x, beq_iff x y, beq_iff y x),
  IsDistinct-append xs y h.1 (ground arith),
)

pub collect-IsDistinct : (order rs : List Role) → IsDistinct order → IsDistinct (collect order rs)
unfolding collect
collect-IsDistinct order [] h = h
collect-IsDistinct order (x ∷ rs) h = elim (Bool-cases (not (x == "") && not (contains order x))) [
  | inl e ↦
      rw e (collect-IsDistinct (order ++ x ∷ []) rs (IsDistinct-append order x h (ground arith)))
  | inr e ↦ rw e (collect-IsDistinct order rs h)
]

contains-last : (x : Role) (xs : List Role) → contains (x ∷ xs) (last_or_empty (x ∷ xs)) ≡ true
unfolding contains last_or_empty
contains-last x [] = ground (arith, beq_refl x)
contains-last x (y ∷ ys) = ground (arith, contains-last y ys)

-- In a list of distinct roles nothing stands after the last.
index-le-last :
    (xs : List Role) (r : Role) (n m : ℕ)
    → IsDistinct xs
    → index xs r ≡ some n
    → index xs (last_or_empty xs) ≡ some m
    → n ≤ m
unfolding index last_or_empty
index-le-last [] r n m d h k = absurd (cc)
index-le-last (x ∷ []) r n m d h k = ground arith
index-le-last (x ∷ y ∷ ys) r n m d h k = elim (Option-cases (index (y ∷ ys) r)) [
  | inl e ↦ ground (arith, beq_iff x (last_or_empty (y ∷ ys)), contains-last y ys)
  | inr (n', e) ↦ elim (Option-cases (index (y ∷ ys) (last_or_empty (y ∷ ys)))) [
    | inl e' ↦ ground (arith, beq_iff x (last_or_empty (y ∷ ys)), contains-last y ys)
    | inr (m', e') ↦ ground (
      arith,
      index-le-last (y ∷ ys) r n' m' d.1,
      beq_iff x r,
      beq_iff x (last_or_empty (y ∷ ys)),
      contains-last y ys,
    )
  ]
]

last-contains :
    (xs : List Role) (r : Role) → contains xs r ≡ true → contains xs (last_or_empty xs) ≡ true
unfolding contains last_or_empty
last-contains [] r h = absurd (cc)
last-contains (x ∷ xs) r h = contains-last x xs

-- In a ladder that NewLadder built, the top ranks at least as high as every role that it ranks.
pub top-at_least :
    (roles : List Role) (r : Role)
    → valid (new_ladder roles) r ≡ true
    → at_least (new_ladder roles) (top (new_ladder roles)) r ≡ true
unfolding valid top new_ladder
top-at_least roles r h =
    let xs = collect [] roles in
    let (n, p) = index-some xs r h in
    let (m, q) = index-some xs (last_or_empty xs) (last-contains xs r h) in
    rw (at_least-eq-leb (new_ladder roles) (last_or_empty xs) r m n q p)
      (ground (arith, index-le-last xs r n m (collect-IsDistinct [] roles tt) p q))

-- The position of a role behind a prefix that does not hold it.
shift : ℕ → Option ℕ → Option ℕ
shift k none = none
shift k (some n) = some (k + n)

index-append :
    (xs ys : List Role) (a : Role)
    → index (xs ++ ys) a ≡ (if contains xs a then index xs a else shift (length xs) (index ys a))
unfolding index contains shift
index-append [] ys a = elim (Option-cases (index ys a)) [
  | inl e ↦ ground arith
  | inr (n, e) ↦ ground arith
]
index-append (x ∷ xs) ys a = elim (Option-cases (index ys a)) [
  | inl e ↦ ground (arith, index-append xs ys a)
  | inr (n, e) ↦ ground (arith, index-append xs ys a)
]

index-below : (xs : List Role) (a : Role) (n : ℕ) → index xs a ≡ some n → n < length xs
unfolding index
index-below [] a n h = absurd (cc)
index-below (x ∷ xs) a zero h = omega arith
index-below (x ∷ xs) a (suc n) h = ground (arith, index-below xs a n)

index-skip :
    (xs ys : List Role) (x a : Role)
    → (not (x == "") && not (contains xs x)) ≡ false
    → (a == "") ≡ false
    → index (xs ++ x ∷ ys) a
      ≡ (if contains xs a then index xs a else shift (suc (length xs)) (index ys a))
unfolding index shift
index-skip xs ys x a h ha = elim (Option-cases (index ys a)) [
  | inl e ↦ ground (arith, index-append xs (x ∷ ys) a, beq_iff x a, beq_iff x "")
  | inr (n, e) ↦ ground (arith, index-append xs (x ∷ ys) a, beq_iff x a, beq_iff x "")
]

-- Where the roles behind a prefix move by one, no comparison changes.
above-widen :
    (xs : List Role) (p q : Option ℕ) (a b : Role)
    → above
        (if contains xs a then index xs a else shift (suc (length xs)) p)
        (if contains xs b then index xs b else shift (suc (length xs)) q)
      ≡ above
          (if contains xs a then index xs a else shift (length xs) p)
          (if contains xs b then index xs b else shift (length xs) q)
unfolding above shift
above-widen xs p q a b = elim (Option-cases (index xs a)) [
  | inl e ↦ elim (Option-cases (index xs b)) [
    | inl d ↦ ground (arith, index-some xs a, index-some xs b)
    | inr (m, d) ↦ ground (arith, index-some xs a, index-below xs b m)
  ]
  | inr (n, e) ↦ elim (Option-cases (index xs b)) [
    | inl d ↦ ground (arith, index-some xs b, index-below xs a n)
    | inr (m, d) ↦ ground (arith, index-below xs a n, index-below xs b m)
  ]
]

-- An entry that is already there, or empty, is skipped without a change to the order of the rest.
above-skip :
    (xs ys : List Role) (x a b : Role)
    → (not (x == "") && not (contains xs x)) ≡ false
    → (a == "") ≡ false
    → (b == "") ≡ false
    → above (index (xs ++ x ∷ ys) a) (index (xs ++ x ∷ ys) b)
      ≡ above (index (xs ++ ys) a) (index (xs ++ ys) b)
above-skip xs ys x a b h ha hb =
    rw
      (
        index-skip xs ys x a h ha,
        index-skip xs ys x b h hb,
        index-append xs ys a,
        index-append xs ys b,
      )
      (above-widen xs (index ys a) (index ys b) a b)

above-collect :
    (order rs : List Role) (a b : Role)
    → (a == "") ≡ false
    → (b == "") ≡ false
    → above (index (collect order rs) a) (index (collect order rs) b)
      ≡ above (index (order ++ rs) a) (index (order ++ rs) b)
unfolding collect
above-collect order [] a b ha hb = simp append-nil
above-collect order (x ∷ rs) a b ha hb =
    elim (Bool-cases (not (x == "") && not (contains order x))) [
      | inl e ↦ rw e (simp append_assoc at (above-collect (order ++ x ∷ []) rs a b ha hb))
      | inr e ↦ rw e (above-collect order rs a b ha hb ∙ sym (above-skip order rs x a b e ha hb))
    ]

-- NewLadder keeps the order: of two non-empty roles one ranks at least as high as the other
-- exactly when both are given and its first occurrence does not stand before the other's.
pub at_least-new_ladder :
    (roles : List Role) (a b : Role)
    → a ≢ ""
    → b ≢ ""
    → at_least (new_ladder roles) a b ≡ above (index roles a) (index roles b)
unfolding at_least new_ladder
at_least-new_ladder roles a b ha hb =
    above-collect [] roles a b (ground (arith, beq_iff a "")) (ground (arith, beq_iff b ""))
