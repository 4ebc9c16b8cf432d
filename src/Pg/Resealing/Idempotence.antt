-- ===== src/Pg/Resealing/Idempotence.antt =====
-- A second reseal rewrites nothing.
use porte.Base.{
  ℕ, zero, suc, ◌+◌, String, List, [], ◌∷◌, Bool, true, false, Option, some, ◌≡◌, refl, sym, ap,
  ◌∙◌, subst, inl, inr, string_eq, nat_eq, ltb, Bool-cases, Option-cases, length, All, map, arith,
}
use porte.Base.{All-mono}
use porte.Pg.Tables.{StoredIdentity, Tables}
use porte.Pg.Sealing.{Aead, Codecs, TokenSealer, ok}
use porte.Pg.Sealing.Opening.{IsCodec, IsCipher}
use porte.Pg.Resealing.{
  TokenRow, Draws, key_of, row_of, last_of, first_row, reseal_batch, token_batch, reseal_rows,
  reseal_from, reseal_identities, reseal_row,
}
use porte.Pg.Resealing.Sorting.{IsOrder, All-in_order, All-take}
use porte.Pg.Resealing.Settling.{IsSettled, IsDone}
use porte.Pg.Resealing.Batches.{identity_key, AreNonces}
use porte.Pg.Resealing.Paging.{
  keys_of, last_of-All, All-keep, token_batch-after, reseal_rows-keys_of, reseal_identities_ends,
}
use porte.Pg.Resealing.Covering.{batch-IsDone}
use porte.Pg.Resealing.Distinct.{AreDistinct, All-map}

module _ (below : String × String → String × String → Bool) (order : IsOrder below) (io : Codecs)
    (codec : IsCodec io) (key : Aead) (cipher : IsCipher key) (older : List Aead) where
  abbrev ring : Option TokenSealer
  ring = some (key ∷ older)

  abbrev IsResealed : String × String → List StoredIdentity → Type 0
  IsResealed start =
      All (λ i. below start (identity_key i) ≡ true → IsDone io codec key cipher older i)

  reseal_from-IsResealed :
      (draws : Draws) (nonces : AreNonces key draws) (start : String × String) (fuel : ℕ)
      (db db' : Tables) (last : TokenRow) (total n : ℕ)
      → AreDistinct (keys_of db.identities)
      → All
          (λ i.
            (below start (identity_key i) ≡ true) × (below (key_of last) (identity_key i) ≡ false)
            → IsDone io codec key cipher older i)
          db.identities
      → reseal_from io ring draws below fuel db last total ≡ some (db', n)
      → IsResealed start db'.identities
  unfolding reseal_from
  reseal_from-IsResealed draws nonces start zero db db' last total n distinct done e = absurd (cc)
  reseal_from-IsResealed draws nonces start (suc fuel) db db' last total n distinct done e =
      let rows = token_batch below db last in
      let (mid, changed) = reseal_rows io ring draws db rows in
      let batch =
        batch-IsDone below order io codec key cipher older draws nonces start db last distinct
          done in
      elim (Bool-cases (ltb (length rows) reseal_batch)) [
        | inl short ↦
            let same : mid ≡ db' = ground arith in
            subst (λ t. IsResealed start t.identities) same
              (All-mono _ _ mid.identities (λ i d s. d (s, inl short)) batch)
        | inr full ↦
            reseal_from-IsResealed draws nonces start fuel mid db' (last_of last rows)
              (total + changed) n
              (subst AreDistinct (sym (reseal_rows-keys_of below order io ring draws db rows))
                distinct)
              (All-mono _ _ mid.identities (λ i d (s, b). d (s, inr b)) batch) (ground arith)
      ]

  -- Rows that are settled are left as they are.
  reseal_rows_settled :
      (draws : Draws) (db : Tables) (rows : List TokenRow)
      → All
          (λ r.
            IsSettled io codec key cipher older r.access
            × IsSettled io codec key cipher older r.refresh)
          rows
      → reseal_rows io ring draws db rows ≡ (db, 0)
  unfolding reseal_rows reseal_row
  reseal_rows_settled draws db [] h = refl
  reseal_rows_settled draws db (row ∷ rows) ((access, refresh), h) = ground (
    arith,
    access (draws.for_access row),
    refresh (draws.for_refresh row),
    reseal_rows_settled draws db rows h,
  )

  token_batch-IsSettled :
      (start : String × String) (db : Tables) (last : TokenRow)
      → IsResealed start db.identities
      → ((k : String × String) → below (key_of last) k ≡ true → below start k ≡ true)
      → All
          (λ r.
            IsSettled io codec key cipher older r.access
            × IsSettled io codec key cipher older r.refresh)
          (token_batch below db last)
  unfolding token_batch
  token_batch-IsSettled start db last done reach = All-take _ reseal_batch _ (
      All-in_order below order _ _ (
        All-keep
          (λ r.
            below start (key_of r) ≡ true
            → IsSettled io codec key cipher older r.access
              × IsSettled io codec key cipher older r.refresh)
          _ _ (map row_of db.identities) (λ r d e. d (reach (key_of r) (ground arith)))
          (All-map _ row_of db.identities done)))

  reseal_from_settled :
      (draws : Draws) (start : String × String) (fuel : ℕ) (db : Tables) (last : TokenRow)
      (total : ℕ) (r : Tables × ℕ)
      → IsResealed start db.identities
      → ((k : String × String) → below (key_of last) k ≡ true → below start k ≡ true)
      → reseal_from io ring draws below fuel db last total ≡ some r
      → r ≡ (db, total)
  unfolding reseal_from
  reseal_from_settled draws start zero db last total r done reach e = absurd (cc)
  reseal_from_settled draws start (suc fuel) db last total r done reach e =
      let rows = token_batch below db last in
      let quiet =
        reseal_rows_settled draws db rows (token_batch-IsSettled start db last done reach) in
      elim (Bool-cases (ltb (length rows) reseal_batch)) [
        | inl short ↦
            let ended : r ≡ (db, total + 0) = ground arith in
            ended ∙ ap (λ t. (db, t)) (omega arith)
        | inr full ↦
            let rest : reseal_from io ring draws below fuel db (last_of last rows) (total + 0)
                ≡ some r =
              ground arith in
            reseal_from_settled draws start fuel db (last_of last rows) (total + 0) r done
              (last_of-All
                (λ row. (k : String × String) → below (key_of row) k ≡ true → below start k ≡ true)
                last rows (inl reach)
                (All-mono _ _ rows
                  (λ row (b, m) k a. reach k (order.1 (key_of last) (key_of row) k b a))
                  (token_batch-after below order db last)))
              rest
            ∙ ap (λ t. (db, t)) (omega arith)
      ]

  identities-from :
      (draws : Draws) (fuel : ℕ) (db : Tables) (r : Tables × ℕ)
      → reseal_identities io ring draws below fuel db ≡ some (ok r)
      → reseal_from io ring draws below fuel db first_row 0 ≡ some r
  unfolding reseal_identities
  identities-from draws fuel db r e =
      elim (Option-cases (reseal_from io ring draws below fuel db first_row 0)) [
        | inl out ↦ absurd (ground arith)
        | inr (x, found) ↦ let same : x ≡ r = ground arith in found ∙ ap some same
      ]

  All-map_none :
      (start : String × String) (ids : List StoredIdentity)
      → All
          (λ i.
            (below start (identity_key i) ≡ true) × (below start (identity_key i) ≡ false)
            → IsDone io codec key cipher older i)
          ids
  All-map_none start [] = tt
  All-map_none start (i ∷ ids) = ((λ (t, f). absurd (ground arith)), All-map_none start ids)

  -- A reseal is idempotent: once it has run over identities with distinct keys, in a strict order that
  -- compares any two keys, with a first key that opens what it seals and random bytes that are a nonce
  -- of it, another run, whatever it draws, ends, leaves every row as it is and rewrites none.
  pub reseal_again :
      (draws again : Draws) (nonces : AreNonces key draws) (fuel : ℕ) (db db' : Tables) (n : ℕ)
      → AreDistinct (keys_of db.identities)
      → reseal_identities io ring draws below fuel db ≡ some (ok (db', n))
      → reseal_identities io ring again below (suc (length db'.identities)) db' ≡ some (ok (db', 0))
  reseal_again draws again nonces fuel db db' n distinct e =
      let start = key_of first_row in
      let ran : reseal_from io ring draws below fuel db first_row 0 ≡ some (db', n) =
        identities-from draws fuel db (db', n) e in
      let done : IsResealed start db'.identities =
        reseal_from-IsResealed draws nonces start fuel db db' first_row 0 n distinct
          (All-map_none start db.identities) ran in
      let (r, ended) =
        reseal_identities_ends below io (key ∷ older) again (suc (length db'.identities)) db' order
          (omega arith) in
      let walked = identities-from again (suc (length db'.identities)) db' r ended in
      let same : r ≡ (db', 0) =
        reseal_from_settled again start (suc (length db'.identities)) db' first_row 0 r done
          (λ k b. b) walked in
      ended ∙ ap (λ x. some (ok x)) same
