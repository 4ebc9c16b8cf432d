-- ===== src/Pg/Resealing/Sorting.antt =====
-- The pages of a reseal: a batch is the start of the rows that are left, in order.
use porte.Base.{
  ℕ, zero, suc, ◌<◌, String, List, [], ◌∷◌, Bool, true, false, ◌≡◌, ◌≢◌, refl, ap, subst, ◌⊎◌, inl,
  inr, Memᴰ, string_eq, nat_eq, Bool-cases, length, All, arith, first,
}
use porte.Base.{All-Memᴰ, All-mono}
use porte.Pg.Resealing.{TokenRow, key_of, last_of, take, place, in_order}

-- A strict order of the keys in which any two that differ compare.
abbrev pub IsOrder : (String × String → String × String → Bool) → Type 0
IsOrder below =
    ((k : String × String) → below k k ≡ false)
    × ((j k l : String × String) → below j k ≡ true → below k l ≡ true → below j l ≡ true)
    × ((j k : String × String) → j ≢ k → (below j k ≡ true) ⊎ (below k j ≡ true))

-- No two rows share a key.
abbrev pub IsKeyed : List TokenRow → Type 0
IsKeyed [] = Unit
IsKeyed (row ∷ rows) = All (λ r. key_of r ≢ key_of row) rows × IsKeyed rows

pub All-take :
    (P : TokenRow → Type 0) (n : ℕ) (rows : List TokenRow) → All P rows → All P (take n rows)
unfolding take
All-take P zero rows h = tt
All-take P (suc n) [] h = tt
All-take P (suc n) (row ∷ rows) (p, h) = (p, All-take P n rows h)

pub take_all : (n : ℕ) (rows : List TokenRow) → length (take n rows) < n → take n rows ≡ rows
unfolding take
take_all zero rows h = absurd (omega arith)
take_all (suc n) [] h = refl
take_all (suc n) (row ∷ rows) h = ap (◌∷◌ row) (take_all n rows (omega arith))

module _ (below : String × String → String × String → Bool) (order : IsOrder below) where
  abbrev pub IsSorted : List TokenRow → Type 0
  IsSorted [] = Unit
  IsSorted (row ∷ rows) = All (λ r. below (key_of row) (key_of r) ≡ true) rows × IsSorted rows

  -- Inserting keeps what every row has, and loses no row.
  All-place :
      (P : TokenRow → Type 0) (row : TokenRow) (rows : List TokenRow)
      → P row
      → All P rows
      → All P (place below row rows)
  unfolding place
  All-place P row [] p h = (p, tt)
  All-place P row (r ∷ rows) p (q, h) = elim (Bool-cases (below (key_of r) (key_of row))) [
    | inl e ↦ rw e (q, All-place P row rows p h)
    | inr e ↦ rw e (p, (q, h))
  ]

  pub All-in_order :
      (P : TokenRow → Type 0) (rows : List TokenRow) → All P rows → All P (in_order below rows)
  unfolding in_order
  All-in_order P [] h = tt
  All-in_order P (row ∷ rows) (p, h) =
      All-place P row (in_order below rows) p (All-in_order P rows h)

  Memᴰ-place :
      (row : TokenRow) (rows : List TokenRow) {x : TokenRow}
      → (x ≡ row) ⊎ Memᴰ x rows
      → Memᴰ x (place below row rows)
  unfolding place
  Memᴰ-place row [] (inl e) = Memᴰ.head e
  Memᴰ-place row [] (inr m) = elim m [ ]
  Memᴰ-place row (r ∷ rows) m = elim (Bool-cases (below (key_of r) (key_of row))) [
    | inl e ↦ rw e (elim m [
      | inl same ↦ Memᴰ.tail (Memᴰ-place row rows (inl same))
      | inr (Memᴰ.head same) ↦ Memᴰ.head same
      | inr (Memᴰ.tail n) ↦ Memᴰ.tail (Memᴰ-place row rows (inr n))
    ])
    | inr e ↦ rw e (elim m [ inl same ↦ Memᴰ.head same | inr n ↦ Memᴰ.tail n ])
  ]

  pub Memᴰ-in_order :
      (rows : List TokenRow) {x : TokenRow} → Memᴰ x rows → Memᴰ x (in_order below rows)
  unfolding in_order
  Memᴰ-in_order [] m = elim m [ ]
  Memᴰ-in_order (row ∷ rows) (Memᴰ.head e) = Memᴰ-place row (in_order below rows) (inl e)
  Memᴰ-in_order (row ∷ rows) (Memᴰ.tail m) =
      Memᴰ-place row (in_order below rows) (inr (Memᴰ-in_order rows m))

  place-IsSorted :
      (row : TokenRow) (rows : List TokenRow)
      → All (λ r. key_of r ≢ key_of row) rows
      → IsSorted rows
      → IsSorted (place below row rows)
  unfolding place
  place-IsSorted row [] fresh h = (tt, tt)
  place-IsSorted row (r ∷ rows) (apart, fresh) (first, h) =
      elim (Bool-cases (below (key_of r) (key_of row))) [
        | inl e ↦ rw e (
          All-place (λ x. below (key_of r) (key_of x) ≡ true) row rows e first,
          place-IsSorted row rows fresh h,
        )
        | inr e ↦
            let less : below (key_of row) (key_of r) ≡ true =
              elim (order.2 (key_of r) (key_of row) apart) [
                | inl wrong ↦ absurd (ground arith)
                | inr right ↦ right
              ] in
            rw e (
              (
                less,
                All-mono _ (λ x. below (key_of row) (key_of x) ≡ true) rows
                    (λ x b. order.1 (key_of row) (key_of r) (key_of x) less b) first,
              ),
              (first, h),
            )
      ]

  pub in_order-IsSorted : (rows : List TokenRow) → IsKeyed rows → IsSorted (in_order below rows)
  unfolding in_order
  in_order-IsSorted [] h = tt
  in_order-IsSorted (row ∷ rows) (fresh, h) =
      place-IsSorted row (in_order below rows)
        (All-in_order (λ r. key_of r ≢ key_of row) rows fresh) (in_order-IsSorted rows h)

  -- A row in order is among the first n, or comes after the last of these.
  pub take_or_below :
      (n : ℕ) (rows : List TokenRow) (start : TokenRow) {x : TokenRow}
      → IsSorted rows
      → Memᴰ x rows
      → Memᴰ x (take (suc n) rows)
        ⊎ (below (key_of (last_of start (take (suc n) rows))) (key_of x) ≡ true)
  unfolding take
  take_or_below n [] start h m = elim m [ ]
  take_or_below n (row ∷ rows) start h (Memᴰ.head e) = inl (Memᴰ.head e)
  take_or_below zero (row ∷ rows) start (first, h) (Memᴰ.tail m) =
      inr (All-Memᴰ (λ r. below (key_of row) (key_of r) ≡ true) rows first m)
  take_or_below (suc n) (row ∷ rows) start (first, h) (Memᴰ.tail m) =
      elim (take_or_below n rows row h m) [ inl t ↦ inl (Memᴰ.tail t) | inr b ↦ inr b ]

  -- Rows in order have different keys.
  pub IsSorted-IsKeyed : (rows : List TokenRow) → IsSorted rows → IsKeyed rows
  IsSorted-IsKeyed [] h = tt
  IsSorted-IsKeyed (row ∷ rows) (first, h) = (
    All-mono _ (λ r. key_of r ≢ key_of row) rows
        (λ r b e.
          let same = order.0 (key_of row) in
          let again = subst (λ k. below (key_of row) k ≡ true) e b in absurd (ground arith))
        first,
    IsSorted-IsKeyed rows h,
  )

  pub take-IsSorted : (n : ℕ) (rows : List TokenRow) → IsSorted rows → IsSorted (take n rows)
  unfolding take
  take-IsSorted zero rows h = tt
  take-IsSorted (suc n) [] h = tt
  take-IsSorted (suc n) (row ∷ rows) (first, h) =
      (All-take (λ r. below (key_of row) (key_of r) ≡ true) n rows first, take-IsSorted n rows h)
