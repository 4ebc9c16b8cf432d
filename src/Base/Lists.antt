-- ===== src/Base/Lists.antt =====
-- Lists measured, searched and filtered as the program does, over the native numbers.
use Prim.Native.Nat.{ℕ, suc, ◌+◌}
use mathlib.Core.Path.{◌≡◌, refl, ap, sym, ◌∙◌}
use mathlib.Core.Logic.{inl, inr}
use mathlib.Core.Bool.{Bool, true, false, ◌||◌, ◌&&◌}
use mathlib.Core.Option.{Option, none, some}
use mathlib.Core.List.{List, [], ◌∷◌, ◌++◌, Memᴰ}
use native.Mathlib.Omega.{arith}
use porte.Base.Tests.{if◌then◌else◌, Bool-cases}

module _ {ℓ} {A : Type ℓ} where
  abbrev pub length : List A → ℕ
  length [] = 0
  length (x ∷ xs) = suc (length xs)

  pub length-append : (xs ys : List A) → length (xs ++ ys) ≡ length xs + length ys
  length-append [] ys = omega arith
  length-append (x ∷ xs) ys = omega (arith, length-append xs ys)

  -- The entries that pass the test, in order: a Go loop that appends under a condition.
  abbrev pub keep : (A → Bool) → List A → List A
  keep p [] = []
  keep p (x ∷ xs) = if p x then x ∷ keep p xs else keep p xs

  -- How many entries pass the test.
  abbrev pub tally : (A → Bool) → List A → ℕ
  tally p [] = 0
  tally p (x ∷ xs) = if p x then suc (tally p xs) else tally p xs

  abbrev pub All {κ} : (A → Type κ) → List A → Type κ
  All P [] = Unit
  All P (x ∷ xs) = P x × All P xs

  pub All-Memᴰ {κ} : (P : A → Type κ) (xs : List A) {x : A} → All P xs → Memᴰ x xs → P x
  All-Memᴰ P [] h m = elim m [ ]
  All-Memᴰ P (x ∷ xs) h (Memᴰ.head e) = rw e h.0
  All-Memᴰ P (x ∷ xs) h (Memᴰ.tail m) = All-Memᴰ P xs h.1 m

  keep-Memᴰ_cons :
      (p : A → Bool) (y : A) (ys : List A) {x : A}
      → p y ≡ true
      → (Memᴰ x (keep p ys) → Memᴰ x ys × (p x ≡ true))
      → Memᴰ x (y ∷ keep p ys)
      → Memᴰ x (y ∷ ys) × (p x ≡ true)
  keep-Memᴰ_cons p y ys e rest (Memᴰ.head d) = (Memᴰ.head d, ap p d ∙ e)
  keep-Memᴰ_cons p y ys e rest (Memᴰ.tail m) = let (n, q) = rest m in (Memᴰ.tail n, q)

  pub keep-Memᴰ :
      (p : A → Bool) (xs : List A) {x : A} → Memᴰ x (keep p xs) → Memᴰ x xs × (p x ≡ true)
  keep-Memᴰ p [] m = elim m [ ]
  keep-Memᴰ p (y ∷ ys) m = elim (Bool-cases (p y)) [
    | inl e ↦ keep-Memᴰ_cons p y ys e (keep-Memᴰ p ys) (rw e at m)
    | inr e ↦ let (n, q) = keep-Memᴰ p ys (rw e at m) in (Memᴰ.tail n, q)
  ]

  pub Memᴰ-keep : (p : A → Bool) (xs : List A) {x : A} → Memᴰ x xs → p x ≡ true → Memᴰ x (keep p xs)
  Memᴰ-keep p [] m h = elim m [ ]
  Memᴰ-keep p (y ∷ ys) (Memᴰ.head e) h = rw (ap p (sym e) ∙ h) (Memᴰ.head e)
  Memᴰ-keep p (y ∷ ys) (Memᴰ.tail m) h = elim (Bool-cases (p y)) [
    | inl e ↦ rw e (Memᴰ.tail (Memᴰ-keep p ys m h))
    | inr e ↦ rw e (Memᴰ-keep p ys m h)
  ]

module _ {ℓ} {A : Type ℓ} where
  -- The first entry that passes the test: a query for one row.
  abbrev pub first : (A → Bool) → List A → Option A
  first p [] = none
  first p (x ∷ xs) = if p x then some x else first p xs

  abbrev pub any : (A → Bool) → List A → Bool
  any p [] = false
  any p (x ∷ xs) = p x || any p xs

  -- `UPDATE … WHERE`: every entry that passes the test is rewritten.
  abbrev pub amend : (A → Bool) → (A → A) → List A → List A
  amend p f [] = []
  amend p f (x ∷ xs) = (if p x then f x else x) ∷ amend p f xs

  pub first-holds : (p : A → Bool) (xs : List A) (x : A) → first p xs ≡ some x → p x ≡ true
  first-holds p [] x h = absurd (cc)
  first-holds p (y ∷ ys) x h = ground (arith, first-holds p ys x)

  pub first-append :
      (p : A → Bool) (xs ys : List A)
      → first p (xs ++ ys) ≡ elim (first p xs) [ some x ↦ some x | none ↦ first p ys ]
  first-append p [] ys = refl
  first-append p (x ∷ xs) ys = ground (arith, first-append p xs ys)

  pub any-first : (p : A → Bool) (xs : List A) → any p xs ≡ false → first p xs ≡ none
  any-first p [] h = refl
  any-first p (x ∷ xs) h = ground (arith, any-first p xs)

  pub first-any : (p : A → Bool) (xs : List A) → first p xs ≡ none → any p xs ≡ false
  first-any p [] h = refl
  first-any p (x ∷ xs) h = ground (arith, first-any p xs)

  -- What one test drops, a narrower one does not find.
  pub any-keep_not :
      (p q : A → Bool) (xs : List A)
      → ((x : A) → p x ≡ true → q x ≡ false)
      → any p (keep q xs) ≡ false
  any-keep_not p q [] h = refl
  any-keep_not p q (x ∷ xs) h = ground (arith, any-keep_not p q xs h, h x)

  -- Where the test that drops passes all that another finds, nothing changes for the other.
  pub keep-keep_of :
      (p q : A → Bool) (xs : List A)
      → ((x : A) → p x ≡ true → q x ≡ true)
      → keep p (keep q xs) ≡ keep p xs
  keep-keep_of p q [] h = refl
  keep-keep_of p q (x ∷ xs) h = ground (arith, keep-keep_of p q xs h, h x)

  -- A rewrite that keeps the test true rewrites what a query for one row finds.
  pub first-amend :
      (p : A → Bool) (f : A → A) (xs : List A) (x : A)
      → ((y : A) → p y ≡ true → p (f y) ≡ true)
      → first p xs ≡ some x
      → first p (amend p f xs) ≡ some (f x)
  first-amend p f [] x h e = absurd (cc)
  first-amend p f (y ∷ ys) x h e = ground (arith, first-amend p f ys x h, h y)

  -- A rewrite of rows that another test does not find, into such rows, changes nothing for it.
  pub keep-amend :
      (p q : A → Bool) (f : A → A) (xs : List A)
      → ((y : A) → q y ≡ true → (p y ≡ false) × (p (f y) ≡ false))
      → keep p (amend q f xs) ≡ keep p xs
  keep-amend p q f [] h = refl
  keep-amend p q f (y ∷ ys) h = ground (arith, keep-amend p q f ys h, h y)

  pub any-append : (p : A → Bool) (xs ys : List A) → any p (xs ++ ys) ≡ (any p xs || any p ys)
  any-append p [] ys = refl
  any-append p (x ∷ xs) ys = ground (arith, any-append p xs ys)

  pub keep-append : (p : A → Bool) (xs ys : List A) → keep p (xs ++ ys) ≡ keep p xs ++ keep p ys
  keep-append p [] ys = refl
  keep-append p (x ∷ xs) ys = ground (arith, keep-append p xs ys)

  pub keep-eq-nil : (p : A → Bool) (xs : List A) → any p xs ≡ false → keep p xs ≡ []
  keep-eq-nil p [] h = refl
  keep-eq-nil p (x ∷ xs) h = ground (arith, keep-eq-nil p xs)

  pub first-some : (p : A → Bool) (xs : List A) → any p xs ≡ true → (x : A) × (first p xs ≡ some x)
  first-some p [] h = absurd (cc)
  first-some p (x ∷ xs) h = elim (Bool-cases (p x)) [
    | inl e ↦ (x, rw e)
    | inr e ↦ rw e (first-some p xs (ground arith))
  ]

  pub any-keep_none :
      (p r q : A → Bool) (xs : List A)
      → any p xs ≡ false
      → any (λ x. p x && r x) (keep q xs) ≡ false
  any-keep_none p r q [] h = refl
  any-keep_none p r q (x ∷ xs) h = ground (arith, any-keep_none p r q xs)

  pub any-first-some : (p : A → Bool) (xs : List A) (x : A) → first p xs ≡ some x → any p xs ≡ true
  any-first-some p [] x h = absurd (cc)
  any-first-some p (y ∷ ys) x h = ground (arith, any-first-some p ys x)

pub tally-append {ℓ} :
    {A : Type ℓ} (p : A → Bool) (xs ys : List A) → tally p (xs ++ ys) ≡ tally p xs + tally p ys
tally-append p [] ys = omega arith
tally-append p (x ∷ xs) ys = ground (arith, tally-append p xs ys)

-- What no entry passes, a member does not.
pub any-Memᴰ {ℓ} :
    {A : Type ℓ} (p : A → Bool) (xs : List A) {x : A} → any p xs ≡ false → Memᴰ x xs → p x ≡ false
any-Memᴰ p [] h m = elim m [ ]
any-Memᴰ p (y ∷ ys) h (Memᴰ.head e) = rw e (ground arith)
any-Memᴰ p (y ∷ ys) h (Memᴰ.tail m) = any-Memᴰ p ys (ground arith) m
