-- ===== src/Spaces/Ladder/Order.antt =====
-- AtLeast as an order on the roles that a ladder ranks.
use porte.Base.{
  ℕ, zero, suc, ◌≤◌, List, [], ◌∷◌, true, some, ◌≡◌, ◌⊎◌, inl, inr, string_eq, ◌==◌, beq_iff, arith,
  Bool-cases, Option-cases, leb,
}
use porte.Spaces.Model.{Role}
use porte.Spaces.Ladder.{Ladder, contains, index, at_least, valid}

-- A role has an index exactly when the list holds it.
pub index-some :
    (xs : List Role) (r : Role) → contains xs r ≡ true → (n : ℕ) × (index xs r ≡ some n)
unfolding contains index
index-some [] r h = absurd (cc)
index-some (x ∷ xs) r h = elim (Bool-cases (x == r)) [
  | inl e ↦ (0, rw e)
  | inr e ↦ let (n, p) = index-some xs r (ground arith) in (suc n, rw (e, p))
]

pub contains_of_index :
    (xs : List Role) (r : Role) (n : ℕ) → index xs r ≡ some n → contains xs r ≡ true
unfolding contains index
contains_of_index [] r n h = cc
contains_of_index (x ∷ xs) r n h = elim (Option-cases (index xs r)) [
  | inl e ↦ ground arith
  | inr (m, e) ↦ ground (arith, contains_of_index xs r m e)
]

-- One position holds one role.
pub index-injective :
    (xs : List Role) (a b : Role) (n : ℕ) → index xs a ≡ some n → index xs b ≡ some n → a ≡ b
unfolding index
index-injective [] a b n h k = cc
index-injective (x ∷ xs) a b zero h k = ground (arith, beq_iff x a, beq_iff x b)
index-injective (x ∷ xs) a b (suc n) h k =
    ground (arith, beq_iff x a, beq_iff x b, index-injective xs a b n)

-- `at_least` at two ranked roles compares their positions.
pub at_least-eq-leb :
    (l : Ladder) (a b : Role) (n m : ℕ)
    → index l.ascending a ≡ some n
    → index l.ascending b ≡ some m
    → at_least l a b ≡ leb m n
unfolding at_least
at_least-eq-leb l a b n m h k = rw (h, k)

pub at_least-ranks :
    (l : Ladder) (a b : Role)
    → at_least l a b ≡ true
    → (n : ℕ) × (m : ℕ) × (index l.ascending a ≡ some n) × (index l.ascending b ≡ some m) × (m ≤ n)
unfolding at_least
at_least-ranks l a b h = elim (Option-cases (index l.ascending a)) [
  | inl e ↦ absurd (ground arith)
  | inr (n, e) ↦ elim (Option-cases (index l.ascending b)) [
    | inl d ↦ absurd (ground arith)
    | inr (m, d) ↦ (n, m, e, d, ground arith)
  ]
]

pub at_least-valid :
    (l : Ladder) (a b : Role) → at_least l a b ≡ true → (valid l a ≡ true) × (valid l b ≡ true)
unfolding valid
at_least-valid l a b h =
    let (n, m, p, q, _) = at_least-ranks l a b h in
    (contains_of_index l.ascending a n p, contains_of_index l.ascending b m q)

pub at_least_trans :
    (l : Ladder) (a b c : Role)
    → at_least l a b ≡ true
    → at_least l b c ≡ true
    → at_least l a c ≡ true
at_least_trans l a b c h k =
    let (n, m, p, q, le) = at_least-ranks l a b h in
    let (m', o, q', r, le') = at_least-ranks l b c k in
    rw (at_least-eq-leb l a c n o p r) (ground arith)

pub at_least_antisym :
    (l : Ladder) (a b : Role) → at_least l a b ≡ true → at_least l b a ≡ true → a ≡ b
at_least_antisym l a b h k =
    let (n, m, p, q, le) = at_least-ranks l a b h in
    let (m', n', q', p', le') = at_least-ranks l b a k in
    index-injective l.ascending a b n p (rw q (ground arith))

pub at_least_total :
    (l : Ladder) (a b : Role)
    → valid l a ≡ true
    → valid l b ≡ true
    → (at_least l a b ≡ true) ⊎ (at_least l b a ≡ true)
unfolding valid
at_least_total l a b h k =
    let (n, p) = index-some l.ascending a h in
    let (m, q) = index-some l.ascending b k in
    rw (at_least-eq-leb l a b n m p q, at_least-eq-leb l b a m n q p) (ground arith)

-- AtLeast is a linear order on the roles that the ladder ranks: both of its arguments are ranked
-- when it holds, it is transitive, two roles that rank at least as high as each other are one
-- role, and of two ranked roles one ranks at least as high as the other.
pub at_least_linear :
    (l : Ladder) (a b c : Role)
    → (at_least l a b ≡ true → (valid l a ≡ true) × (valid l b ≡ true))
      × (at_least l a b ≡ true → at_least l b c ≡ true → at_least l a c ≡ true)
      × (at_least l a b ≡ true → at_least l b a ≡ true → a ≡ b)
      × (valid l a ≡ true → valid l b ≡ true → (at_least l a b ≡ true) ⊎ (at_least l b a ≡ true))
at_least_linear l a b c =
    (at_least-valid l a b, at_least_trans l a b c, at_least_antisym l a b, at_least_total l a b)
