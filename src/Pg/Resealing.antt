-- ===== src/Pg/Resealing.antt =====
-- pg/reseal.go: every stored token is sealed under the current key, in batches of keyset pages. The
-- order of the database's texts, and the random bytes drawn for the two tokens of a row, are parameters.
pub mod Reading
pub mod Sorting
pub mod Paging
pub mod Settling
pub mod Batches
pub mod Distinct
pub mod Covering
pub mod Idempotence
mod Tests
use porte.Base.{
  ℕ, zero, suc, ◌+◌, ◌-◌, ◌/◌, ◌≤◌, ◌<◌, String, List, [], ◌∷◌, ◌++◌, Bool, true, false, not, ◌&&◌,
  ◌||◌, Option, none, some, ◌≡◌, ◌≢◌, refl, sym, ap, ◌∙◌, subst, ◌↔◌, ◌⊎◌, inl, inr, Memᴰ,
  string_eq, nat_eq, ◌==◌, beq_iff, beq_refl, ltb, leb, if◌then◌else◌, Bool-cases, Option-cases,
  length, All, keep, tally, map, arith, tests, first, any, amend,
}
use porte.Pg.Tables.{StoredIdentity, TokenSet, Tables, of_provider}
use porte.Pg.Sealing.{Aead, Codecs, TokenSealer, Sealed, ok, err, no_sealer, seal, open_stored}

pub record TokenRow : Type 0 where
  pub provider : String
  pub subject : String
  pub access : String
  pub refresh : String

pub record Draws : Type 0 where
  pub for_access : TokenRow → Option String
  pub for_refresh : TokenRow → Option String

abbrev pub reseal_batch : ℕ
reseal_batch = 200

abbrev pub first_row : TokenRow
first_row = record { provider = ""; subject = ""; access = ""; refresh = "" }

abbrev pub row_of : StoredIdentity → TokenRow
row_of i = record {
  provider = i.provider;
  subject = i.subject;
  access = i.tokens.access_token;
  refresh = i.tokens.refresh_token;
}

abbrev pub last_of : TokenRow → List TokenRow → TokenRow
last_of row [] = row
last_of row (r ∷ rows) = last_of r rows

unfoldable pub take : ℕ → List TokenRow → List TokenRow
take zero rows = []
take (suc n) [] = []
take (suc n) (row ∷ rows) = row ∷ take n rows

-- The stored row that an update matches: the key, and the two values that were read.
abbrev pub is_unchanged : TokenRow → StoredIdentity → Bool
is_unchanged row i =
    of_provider row.provider row.subject i
    && (i.tokens.access_token == row.access && i.tokens.refresh_token == row.refresh)

abbrev pub with_tokens : String → String → StoredIdentity → StoredIdentity
with_tokens access refresh i = record i {
  tokens = record (i.tokens) { access_token = access; refresh_token = refresh };
}

abbrev pub key_of : TokenRow → String × String
key_of row = (row.provider, row.subject)

abbrev pub has_token : TokenRow → Bool
has_token row = not (row.access == "") || not (row.refresh == "")

-- `below` is the database's order of (provider, subject), strict.
module _ (below : String × String → String × String → Bool) where
  -- ORDER BY provider, subject
  unfoldable pub place : TokenRow → List TokenRow → List TokenRow
  place row [] = row ∷ []
  place row (r ∷ rows) =
      let rest = place row rows in
      if below (key_of r) (key_of row) then r ∷ rest else row ∷ r ∷ rows

  unfoldable pub in_order : List TokenRow → List TokenRow
  unfolding place
  in_order [] = []
  in_order (row ∷ rows) = place row (in_order rows)

  unfoldable pub token_batch : Tables → TokenRow → List TokenRow
  unfolding in_order take
  token_batch db after = take reseal_batch (
      in_order (
        keep (λ row. below (key_of after) (key_of row) && has_token row)
          (map {A = StoredIdentity} row_of db.identities)))

module _ (io : Codecs) (sealer : Option TokenSealer) where
  unfoldable pub reseal_value : String → Option String → String × Bool
  unfolding open_stored seal
  reseal_value stored random = elim (open_stored io sealer stored) [
    | err e ↦ (stored, false)
    | ok (plain, current) ↦
        if current || stored == "" then (stored, false) else elim (seal io sealer random plain) [
          | err e ↦ (stored, false)
          | ok sealed ↦ (sealed, true)
        ]
  ]

module _ (io : Codecs) (sealer : Option TokenSealer) (draws : Draws) where
  -- The tables and the number of rows that the update wrote.
  unfoldable pub reseal_row : Tables → TokenRow → Tables × ℕ
  unfolding reseal_value
  reseal_row db row =
      let (access, access_changed) = reseal_value io sealer row.access (draws.for_access row) in
      let (refresh, refresh_changed) = reseal_value io sealer row.refresh (draws.for_refresh row) in
      if not access_changed && not refresh_changed then (db, 0) else (
        record db {
          identities = amend (is_unchanged row) (with_tokens access refresh) db.identities;
        },
        tally (is_unchanged row) db.identities,
      )

  unfoldable pub reseal_rows : Tables → List TokenRow → Tables × ℕ
  unfolding reseal_row
  reseal_rows db [] = (db, 0)
  reseal_rows db (row ∷ rows) =
      let (db', changed) = reseal_row db row in
      let (db'', more) = reseal_rows db' rows in (db'', changed + more)

  abbrev is_on : Option TokenSealer → Bool
  is_on none = false
  is_on (some aeads) = true

  module _ (below : String × String → String × String → Bool) where
    -- The walk over the batches; none is out of fuel.
    unfoldable pub reseal_from : ℕ → Tables → TokenRow → ℕ → Option (Tables × ℕ)
    unfolding token_batch reseal_rows
    reseal_from zero db last total = none
    reseal_from (suc fuel) db last total =
        let rows = token_batch below db last in
        let (db', changed) = reseal_rows db rows in
        let rest = reseal_from fuel db' (last_of last rows) (total + changed) in
        if ltb (length rows) reseal_batch then some (db', total + changed) else rest

    -- Without a sealer it is an error, which writes nothing.
    unfoldable pub reseal_identities : ℕ → Tables → Option (Sealed (Tables × ℕ))
    unfolding reseal_from
    reseal_identities fuel db =
        if not (is_on sealer)
        then some (err no_sealer)
        else elim (reseal_from fuel db first_row 0) [ none ↦ none | some r ↦ some (ok r) ]
