-- ===== src/Pg/Resealing/Distinct.antt =====
-- Identities with distinct keys, as the primary key keeps them, and the rows read from them.
use porte.Base.{
  String, List, [], ◌∷◌, Bool, true, false, ◌≢◌, refl, sym, ap, inl, inr, Memᴰ, string_eq, nat_eq,
  Bool-cases, All, keep, map, arith,
}
use porte.Base.{All-mono}
use porte.Pg.Tables.{StoredIdentity}
use porte.Pg.Resealing.{TokenRow, key_of, row_of}
use porte.Pg.Resealing.Sorting.{IsKeyed}
use porte.Pg.Resealing.Batches.{identity_key, IsFresh, All-both}
use porte.Pg.Resealing.Paging.{keys_of, All-keep}

abbrev pub AreDistinct : List (String × String) → Type 0
AreDistinct [] = Unit
AreDistinct (k ∷ ks) = All (λ j. j ≢ k) ks × AreDistinct ks

pub All-map :
    {A B : Type 0} (P : B → Type 0) (f : A → B) (xs : List A)
    → All (λ x. P (f x)) xs
    → All P (map f xs)
All-map P f [] h = tt
All-map P f (x ∷ xs) (p, h) = (p, All-map P f xs h)

pub All-unmap :
    {A B : Type 0} (P : B → Type 0) (f : A → B) (xs : List A)
    → All P (map f xs)
    → All (λ x. P (f x)) xs
All-unmap P f [] h = tt
All-unmap P f (x ∷ xs) (p, h) = (p, All-unmap P f xs h)

pub All-of-Memᴰ :
    {A : Type 0} (P : A → Type 0) (xs : List A) → ((x : A) → Memᴰ x xs → P x) → All P xs
All-of-Memᴰ P [] f = tt
All-of-Memᴰ P (x ∷ xs) f = (f x (Memᴰ.head refl), All-of-Memᴰ P xs (λ y m. f y (Memᴰ.tail m)))

pub Memᴰ-map : {A B : Type 0} (f : A → B) (xs : List A) {x : A} → Memᴰ x xs → Memᴰ (f x) (map f xs)
Memᴰ-map f [] m = elim m [ ]
Memᴰ-map f (y ∷ ys) (Memᴰ.head e) = Memᴰ.head (ap f e)
Memᴰ-map f (y ∷ ys) (Memᴰ.tail m) = Memᴰ.tail (Memᴰ-map f ys m)

pub apart : true ≢ false
apart e = ground arith

-- With distinct keys, the row of an identity is what every identity of its key holds.
pub rows-IsFresh :
    (ids : List StoredIdentity) → AreDistinct (keys_of ids) → All (λ j. IsFresh ids (row_of j)) ids
rows-IsFresh [] h = tt
rows-IsFresh (i ∷ ids) (apart, h) = (
  (
    λ e. refl,
    All-mono _ _ ids (λ j n e. absurd (n e))
        (All-unmap (λ k. k ≢ identity_key i) identity_key ids apart),
  ),
  All-both _ _ _ ids (λ j n f. (λ e. absurd (n (sym e)), f))
      (All-unmap (λ k. k ≢ identity_key i) identity_key ids apart) (rows-IsFresh ids h),
)

pub keep-IsKeyed :
    (p : TokenRow → Bool) (ids : List StoredIdentity)
    → AreDistinct (keys_of ids)
    → IsKeyed (keep p (map row_of ids))
keep-IsKeyed p [] h = tt
keep-IsKeyed p (i ∷ ids) (apart, h) = elim (Bool-cases (p (row_of i))) [
  | inl e ↦ rw e (
    All-keep _ (λ r. key_of r ≢ identity_key i) p (map row_of ids) (λ r n t. n)
        (All-map _ row_of ids (All-unmap (λ k. k ≢ identity_key i) identity_key ids apart)),
    keep-IsKeyed p ids h,
  )
  | inr e ↦ rw e (keep-IsKeyed p ids h)
]
