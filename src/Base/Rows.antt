-- ===== src/Base/Rows.antt =====
-- The rows of a table: membership, rewriting and what every row keeps.
use mathlib.Core.Path.{◌≡◌, refl, ap, sym, ◌∙◌}
use mathlib.Core.Logic.{◌⊎◌, inl, inr}
use mathlib.Core.Bool.{Bool, true}
use mathlib.Core.Option.{some}
use mathlib.Core.List.{List, [], ◌∷◌, ◌++◌, Memᴰ}
use native.Mathlib.Omega.{arith}
use porte.Base.Tests.{if◌then◌else◌, Bool-cases}
use porte.Base.Lists.{All, first, any, amend}

module _ {ℓ} {A : Type ℓ} where
  pub any-some : (p : A → Bool) (xs : List A) → any p xs ≡ true → (x : A) × Memᴰ x xs × (p x ≡ true)
  any-some p [] h = absurd (cc)
  any-some p (x ∷ xs) h = elim (Bool-cases (p x)) [
    | inl e ↦ (x, Memᴰ.head refl, e)
    | inr e ↦ let (y, m, q) = any-some p xs (ground arith) in (y, Memᴰ.tail m, q)
  ]

  pub first-Memᴰ : (p : A → Bool) (xs : List A) (x : A) → first p xs ≡ some x → Memᴰ x xs
  first-Memᴰ p [] x h = absurd (cc)
  first-Memᴰ p (y ∷ ys) x h = elim (Bool-cases (p y)) [
    | inl e ↦ Memᴰ.head (ground arith)
    | inr e ↦ Memᴰ.tail (first-Memᴰ p ys x (ground arith))
  ]

  pub List-cases : (xs : List A) → (xs ≡ []) ⊎ ((y : A) × (ys : List A) × (xs ≡ y ∷ ys))
  List-cases [] = inl refl
  List-cases (y ∷ ys) = inr (y, ys, refl)

  pub any-of-Memᴰ : (p : A → Bool) (xs : List A) {x : A} → Memᴰ x xs → p x ≡ true → any p xs ≡ true
  any-of-Memᴰ p [] m h = elim m [ ]
  any-of-Memᴰ p (y ∷ ys) (Memᴰ.head e) h = let holds = ap p (sym e) ∙ h in ground arith
  any-of-Memᴰ p (y ∷ ys) (Memᴰ.tail m) h = ground (arith, any-of-Memᴰ p ys m h)

  pub first-amend_each :
      (p q : A → Bool) (f : A → A) (xs : List A) (x : A)
      → ((y : A) → p (f y) ≡ p y)
      → first p xs ≡ some x
      → first p (amend q f xs) ≡ some (if q x then f x else x)
  first-amend_each p q f [] x h e = absurd (cc)
  first-amend_each p q f (y ∷ ys) x h e = ground (arith, first-amend_each p q f ys x h, h y)

  pub All-mono {κ} : (P Q : A → Type κ) (xs : List A) → ((x : A) → P x → Q x) → All P xs → All Q xs
  All-mono P Q [] f h = tt
  All-mono P Q (x ∷ xs) f (p, h) = (f x p, All-mono P Q xs f h)

  pub All-append {κ} :
      (P : A → Type κ) (xs : List A) (y : A) → All P xs → P y → All P (xs ++ y ∷ [])
  All-append P [] y h p = (p, tt)
  All-append P (x ∷ xs) y (q, h) p = (q, All-append P xs y h p)

  pub All-amend {κ} :
      (P : A → Type κ) (q : A → Bool) (f : A → A) (xs : List A)
      → ((x : A) → P x → P (f x))
      → All P xs
      → All P (amend q f xs)
  All-amend P q f [] g h = tt
  All-amend P q f (x ∷ xs) g (p, h) = elim (Bool-cases (q x)) [
    | inl e ↦ rw e (g x p, All-amend P q f xs g h)
    | inr e ↦ rw e (p, All-amend P q f xs g h)
  ]

  pub any-amend :
      (p q : A → Bool) (f : A → A) (xs : List A)
      → ((x : A) → p (f x) ≡ p x)
      → any p (amend q f xs) ≡ any p xs
  any-amend p q f [] h = refl
  any-amend p q f (x ∷ xs) h = ground (arith, any-amend p q f xs h, h x)
