-- ===== src/Pg/Resealing/Paging.antt =====
-- The walk of a reseal over the pages ends.
use porte.Base.{
  ℕ, zero, suc, ◌+◌, ◌≤◌, ◌<◌, String, List, [], ◌∷◌, Bool, true, false, not, ◌&&◌, Option, some,
  ◌≡◌, refl, sym, ap, ◌∙◌, ◌⊎◌, inl, inr, Memᴰ, string_eq, nat_eq, ltb, Bool-cases, length, All,
  keep, tally, map, arith, amend,
}
use porte.Base.{All-mono}
use porte.Pg.Tables.{StoredIdentity, Tables}
use porte.Pg.Sealing.{Aead, Codecs, TokenSealer, ok}
use porte.Pg.Resealing.{
  TokenRow, Draws, key_of, row_of, last_of, first_row, reseal_batch, token_batch, reseal_rows,
  reseal_from, reseal_identities, reseal_row, is_unchanged, with_tokens, reseal_value,
}
use porte.Pg.Resealing.Reading.{map-amend}
use porte.Pg.Resealing.Sorting.{IsOrder, All-in_order, All-take}
use porte.Pg.Resealing.Batches.{identity_key}

abbrev pub keys_of : List StoredIdentity → List (String × String)
keys_of = map {A = StoredIdentity} identity_key

tally_mono :
    {A : Type 0} (p q : A → Bool) (xs : List A)
    → ((x : A) → q x ≡ true → p x ≡ true)
    → tally q xs ≤ tally p xs
tally_mono p q [] h = omega arith
tally_mono p q (x ∷ xs) h = ground (arith, tally_mono p q xs h, h x)

tally_less :
    {A : Type 0} (p q : A → Bool) (xs : List A) {x : A}
    → ((y : A) → q y ≡ true → p y ≡ true)
    → Memᴰ x xs
    → p x ≡ true
    → q x ≡ false
    → tally q xs < tally p xs
tally_less p q [] h m t f = elim m [ ]
tally_less p q (y ∷ ys) h (Memᴰ.head e) t f =
    let holds = ap p (sym e) ∙ t in
    let fails = ap q (sym e) ∙ f in ground (arith, tally_mono p q ys h)
tally_less p q (y ∷ ys) h (Memᴰ.tail m) t f = ground (arith, tally_less p q ys h m t f, h y)

pub tally-length : {A : Type 0} (p : A → Bool) (xs : List A) → tally p xs ≤ length xs
tally-length p [] = omega arith
tally-length p (x ∷ xs) = ground (arith, tally-length p xs)

pub last_of-All :
    (P : TokenRow → Type 0) (start : TokenRow) (rows : List TokenRow)
    → (P start ⊎ (0 < length rows))
    → All P rows
    → P (last_of start rows)
last_of-All P start [] (inl p) h = p
last_of-All P start [] (inr n) h = absurd (omega arith)
last_of-All P start (row ∷ rows) s (p, h) = last_of-All P row rows (inl p) h

pub All-keep :
    (P Q : TokenRow → Type 0) (p : TokenRow → Bool) (rows : List TokenRow)
    → ((r : TokenRow) → P r → p r ≡ true → Q r)
    → All P rows
    → All Q (keep p rows)
All-keep P Q p [] f h = tt
All-keep P Q p (r ∷ rows) f (a, h) = elim (Bool-cases (p r)) [
  | inl e ↦ rw e (f r a e, All-keep P Q p rows f h)
  | inr e ↦ rw e (All-keep P Q p rows f h)
]

pub rows-keyed :
    (identities : List StoredIdentity)
    → All (λ r. Memᴰ (key_of r) (keys_of identities)) (map row_of identities)
rows-keyed [] = tt
rows-keyed (i ∷ identities) = (
  Memᴰ.head refl,
  All-mono _ _ (map row_of identities) (λ r m. Memᴰ.tail m) (rows-keyed identities),
)

module _ (below : String × String → String × String → Bool) (order : IsOrder below) where
  -- A batch is of rows that are there, after the last of the batch before.
  pub token_batch-after :
      (db : Tables) (after : TokenRow)
      → All
          (λ r. (below (key_of after) (key_of r) ≡ true) × Memᴰ (key_of r) (keys_of db.identities))
          (token_batch below db after)
  unfolding token_batch
  token_batch-after db after = All-take _ reseal_batch _ (
      All-in_order below order _ _ (
        All-keep _ _ _ (map row_of db.identities) (λ r m e. (ground arith, m))
          (rows-keyed db.identities)))

  module _ (io : Codecs) (sealer : Option TokenSealer) (draws : Draws) where
    reseal_row-keys :
        (db : Tables) (row : TokenRow)
        → keys_of (reseal_row io sealer draws db row).0.identities ≡ keys_of db.identities
    unfolding reseal_row
    reseal_row-keys db row =
        let access = reseal_value io sealer row.access (draws.for_access row) in
        let refresh = reseal_value io sealer row.refresh (draws.for_refresh row) in
        let left = (reseal_row io sealer draws db row).0.identities in
        elim (Bool-cases (not access.1 && not refresh.1)) [
          | inl same ↦ let kept : left ≡ db.identities = ground arith in ap keys_of kept
          | inr due ↦
              let written : left
                  ≡ amend (is_unchanged row) (with_tokens access.0 refresh.0) db.identities =
                ground arith in
              ap keys_of written
              ∙ map-amend identity_key (is_unchanged row) _ db.identities (λ i e. refl)
        ]

    pub reseal_rows-keys_of :
        (db : Tables) (rows : List TokenRow)
        → keys_of (reseal_rows io sealer draws db rows).0.identities ≡ keys_of db.identities
    unfolding reseal_rows
    reseal_rows-keys_of db [] = refl
    reseal_rows-keys_of db (row ∷ rows) =
        reseal_rows-keys_of (reseal_row io sealer draws db row).0 rows ∙ reseal_row-keys db row

    pub reseal_from_ends :
        (fuel : ℕ) (db : Tables) (last : TokenRow) (total : ℕ)
        → tally (below (key_of last)) (keys_of db.identities) < fuel
        → (r : Tables × ℕ) × (reseal_from io sealer draws below fuel db last total ≡ some r)
    unfolding reseal_from
    reseal_from_ends zero db last total h = absurd (omega arith)
    reseal_from_ends (suc fuel) db last total h =
        let rows = token_batch below db last in
        let (db', changed) = reseal_rows io sealer draws db rows in
        elim (Bool-cases (ltb (length rows) reseal_batch)) [
          | inl short ↦ ((db', total + changed), ground arith)
          | inr full ↦
              let (later, there) =
                last_of-All
                  (λ r.
                    (below (key_of last) (key_of r) ≡ true)
                    × Memᴰ (key_of r) (keys_of db.identities))
                  last rows (inr (ground arith)) (token_batch-after db last) in
              let end = key_of (last_of last rows) in
              let fewer : tally (below end) (keys_of db.identities)
                  < tally (below (key_of last)) (keys_of db.identities) =
                tally_less (below (key_of last)) (below end) (keys_of db.identities)
                  (λ k e. order.1 (key_of last) end k later e) there later (order.0 end) in
              let (r, e) =
                reseal_from_ends fuel db' (last_of last rows) (total + changed)
                  (rw (reseal_rows-keys_of db rows) (omega arith)) in
              (r, ground arith)
        ]

length-keys_of : (ids : List StoredIdentity) → length (keys_of ids) ≡ length ids
length-keys_of [] = refl
length-keys_of (i ∷ ids) = ap suc (length-keys_of ids)

-- With a sealer, a reseal ends: one more round than there are identities is fuel enough, since a full
-- batch ends on a later key than the batch before it.
pub reseal_identities_ends :
    (below : String × String → String × String → Bool) (io : Codecs) (aeads : List Aead)
    (draws : Draws) (fuel : ℕ) (db : Tables)
    → IsOrder below
    → length db.identities < fuel
    → (r : Tables × ℕ) × (reseal_identities io (some aeads) draws below fuel db ≡ some (ok r))
unfolding reseal_identities
reseal_identities_ends below io aeads draws fuel db order h =
    let few = tally-length (below (key_of first_row)) (keys_of db.identities) in
    let same = length-keys_of db.identities in
    let (r, e) =
      reseal_from_ends below order io (some aeads) draws fuel db first_row 0 (omega arith) in
    (r, ground arith)
