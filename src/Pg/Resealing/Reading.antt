-- ===== src/Pg/Resealing/Reading.antt =====
-- What the tokens read back as is the same before and after a reseal.
use porte.Base.{
  String, List, [], ◌∷◌, Bool, true, not, ◌&&◌, ◌||◌, Option, none, some, ◌≡◌, ◌≢◌, refl, sym, ap,
  ◌∙◌, ◌⊎◌, inl, inr, string_eq, nat_eq, ◌==◌, beq_iff, Bool-cases, map, arith, amend,
}
use porte.Base.{text_ne}
use porte.Base.Strings.{cut_prefix}
use porte.Pg.Tables.{StoredIdentity, Tables}
use porte.Pg.Sealing.{
  Aead, Codecs, SealError, Sealed, ok, err, seal, open_stored, opened, open_tokens,
}
use porte.Pg.Sealing.Opening.{IsCodec, IsCipher, IsNonce, open_stored-seal}
use porte.Pg.Resealing.{
  TokenRow, Draws, is_unchanged, with_tokens, reseal_value, reseal_row, reseal_rows,
}

-- The first key opens what it seals, and the random bytes are a nonce of it.
abbrev pub IsReady : List Aead → Option String → Type 0
IsReady [] random = Unit
IsReady (key ∷ older) random =
    IsCipher key × ((bytes : String) → random ≡ some bytes → IsNonce key bytes)

abbrev pub AreReady : List Aead → Draws → Type 0
AreReady aeads draws =
    (row : TokenRow) → IsReady aeads (draws.for_access row) × IsReady aeads (draws.for_refresh row)

pub Sealed-cases :
    {A : Type 0} (r : Sealed A) → ((a : A) × (r ≡ ok a)) ⊎ ((e : SealError) × (r ≡ err e))
Sealed-cases (ok a) = inl (a, refl)
Sealed-cases (err e) = inr (e, refl)

pub map-amend :
    {A B : Type 0} (v : A → B) (q : A → Bool) (f : A → A) (xs : List A)
    → ((x : A) → q x ≡ true → v (f x) ≡ v x)
    → map v (amend q f xs) ≡ map v xs
map-amend v q f [] h = refl
map-amend v q f (x ∷ xs) h = elim (Bool-cases (q x)) [
  | inl e ↦
      rw e (ap (λ y. y ∷ map v (amend q f xs)) (h x e) ∙ ap (◌∷◌ (v x)) (map-amend v q f xs h))
  | inr e ↦ rw e (ap (◌∷◌ (v x)) (map-amend v q f xs h))
]

seal_unkeyed :
    (io : Codecs) (random : Option String) (plain sealed : String)
    → plain ≢ ""
    → seal io (some []) random plain ≢ ok sealed
unfolding seal
seal_unkeyed io random plain sealed text e = ground (arith, beq_iff plain "")

seal_unrandom :
    (io : Codecs) (key : Aead) (older : List Aead) (plain sealed : String)
    → plain ≢ ""
    → seal io (some (key ∷ older)) none plain ≢ ok sealed
unfolding seal
seal_unrandom io key older plain sealed text e = ground (arith, beq_iff plain "")

-- What a non-empty text is sealed as reads back as it.
opened-seal :
    (io : Codecs) (aeads : List Aead) (random : Option String) (plain sealed : String)
    → IsCodec io
    → IsReady aeads random
    → plain ≢ ""
    → seal io (some aeads) random plain ≡ ok sealed
    → opened io (some aeads) sealed ≡ plain
unfolding opened
opened-seal io [] random plain sealed codec ready text e =
    absurd (seal_unkeyed io random plain sealed text e)
opened-seal io (key ∷ older) none plain sealed codec ready text e =
    absurd (seal_unrandom io key older plain sealed text e)
opened-seal io (key ∷ older) (some bytes) plain sealed codec (cipher, fit) text e = ground (
  arith,
  open_stored-seal io [] older older key bytes plain sealed codec cipher (fit bytes refl) text tt e,
)

-- What a caller reads of an identity.
abbrev pub as_read : Codecs → List Aead → StoredIdentity → StoredIdentity
as_read io aeads i = record i { tokens = open_tokens io (some aeads) i.tokens }

module _ (io : Codecs) (codec : IsCodec io) (aeads : List Aead) where
  opened_empty : opened io (some aeads) "" ≡ ""
  unfolding opened open_stored cut_prefix
  opened_empty = refl

  seal_empty :
      (random : Option String) (plain sealed : String)
      → plain ≡ ""
      → seal io (some aeads) random plain ≡ ok sealed
      → sealed ≡ ""
  unfolding seal
  seal_empty random plain sealed blank e = ground (arith, beq_iff plain "")

  opened-sealed :
      (random : Option String) (plain sealed : String)
      → IsReady aeads random
      → seal io (some aeads) random plain ≡ ok sealed
      → opened io (some aeads) sealed ≡ plain
  opened-sealed random plain sealed ready done = elim (Bool-cases (plain == "")) [
    | inl blank ↦
        let is_empty = (beq_iff plain "").0 blank in
        ap (opened io (some aeads)) (seal_empty random plain sealed is_empty done)
        ∙ opened_empty
        ∙ sym is_empty
    | inr text ↦ opened-seal io aeads random plain sealed codec ready (text_ne plain "" text) done
  ]

  opened-open_stored :
      (stored plain : String) (current : Bool)
      → open_stored io (some aeads) stored ≡ ok (plain, current)
      → opened io (some aeads) stored ≡ plain
  unfolding opened
  opened-open_stored stored plain current e = ground arith

  opened-reseal_value :
      (stored : String) (random : Option String)
      → IsReady aeads random
      → opened io (some aeads) (reseal_value io (some aeads) stored random).0
        ≡ opened io (some aeads) stored
  unfolding reseal_value
  opened-reseal_value stored random ready =
      elim (Sealed-cases (open_stored io (some aeads) stored)) [
        | inr (e, unreadable) ↦ ground arith
        | inl ((plain, current), readable) ↦ elim (Bool-cases (current || stored == "")) [
          | inl skipped ↦ ground arith
          | inr due ↦ elim (Sealed-cases (seal io (some aeads) random plain)) [
            | inr (e, failed) ↦ ground arith
            | inl (sealed, done) ↦
                let rewritten : (reseal_value io (some aeads) stored random).0 ≡ sealed =
                  ground arith in
                ap (opened io (some aeads)) rewritten
                ∙ opened-sealed random plain sealed ready done
                ∙ sym (opened-open_stored stored plain current readable)
          ]
        ]
      ]

  module _ (draws : Draws) (ready : AreReady aeads draws) where
    as_read-with_tokens :
        (row : TokenRow) (i : StoredIdentity)
        → is_unchanged row i ≡ true
        → (as_read io aeads) (
            with_tokens
              (reseal_value io (some aeads) row.access (draws.for_access row)).0
              (reseal_value io (some aeads) row.refresh (draws.for_refresh row)).0
              i)
          ≡ (as_read io aeads) i
    unfolding open_tokens
    as_read-with_tokens row i e =
        let access : i.tokens.access_token ≡ row.access =
          (beq_iff i.tokens.access_token row.access).0 (ground arith) in
        let refresh : i.tokens.refresh_token ≡ row.refresh =
          (beq_iff i.tokens.refresh_token row.refresh).0 (ground arith) in
        let (drawn, redrawn) = ready row in
        ap
          (λ t.
            with_tokens t
              (opened io (some aeads)
                (reseal_value io (some aeads) row.refresh (draws.for_refresh row)).0)
              i)
          (opened-reseal_value row.access (draws.for_access row) drawn
            ∙ ap (opened io (some aeads)) (sym access))
        ∙ ap (λ t. with_tokens (opened io (some aeads) i.tokens.access_token) t i)
            (opened-reseal_value row.refresh (draws.for_refresh row) redrawn
              ∙ ap (opened io (some aeads)) (sym refresh))

    as_read-reseal_row :
        (db : Tables) (row : TokenRow)
        → map (as_read io aeads) (reseal_row io (some aeads) draws db row).0.identities
          ≡ map (as_read io aeads) db.identities
    unfolding reseal_row
    as_read-reseal_row db row =
        let access = reseal_value io (some aeads) row.access (draws.for_access row) in
        let refresh = reseal_value io (some aeads) row.refresh (draws.for_refresh row) in
        let left = (reseal_row io (some aeads) draws db row).0.identities in
        elim (Bool-cases (not access.1 && not refresh.1)) [
          | inl same ↦
              let kept : left ≡ db.identities = ground arith in ap (map (as_read io aeads)) kept
          | inr due ↦
              let written : left
                  ≡ amend (is_unchanged row) (with_tokens access.0 refresh.0) db.identities =
                ground arith in
              ap (map (as_read io aeads)) written
              ∙ map-amend (as_read io aeads) (is_unchanged row) _ db.identities
                  (as_read-with_tokens row)
        ]

    -- A reseal is not seen by who reads tokens: with a first key that opens what it seals and random
    -- bytes that are a nonce of it, whatever rows it was given, also ones that others have rewritten
    -- since they were read, every identity reads as it did before, its tokens opened.
    pub as_read-reseal_rows :
        (db : Tables) (rows : List TokenRow)
        → map (as_read io aeads) (reseal_rows io (some aeads) draws db rows).0.identities
          ≡ map (as_read io aeads) db.identities
    unfolding reseal_rows
    as_read-reseal_rows db [] = refl
    as_read-reseal_rows db (row ∷ rows) =
        as_read-reseal_rows (reseal_row io (some aeads) draws db row).0 rows
        ∙ as_read-reseal_row db row
