-- ===== src/Pg/Resealing/Settling.antt =====
-- What a reseal settles: a value that another reseal would leave alone.
use porte.Base.{
  String, List, [], ◌∷◌, Bool, true, false, ◌||◌, Option, some, ◌≡◌, refl, sym, subst, inl, inr,
  string_eq, nat_eq, ◌==◌, beq_iff, Bool-cases, arith,
}
use porte.Base.{text_ne}
use porte.Base.Strings.{cut_prefix}
use porte.Pg.Tables.{StoredIdentity}
use porte.Pg.Sealing.{Aead, Codecs, TokenSealer, SealError, ok, err, seal, open_stored}
use porte.Pg.Sealing.Opening.{IsCodec, IsCipher, IsNonce, open_stored-seal}
use porte.Pg.Resealing.{reseal_value}
use porte.Pg.Resealing.Reading.{Sealed-cases}

module _ (io : Codecs) (codec : IsCodec io) (key : Aead) (cipher : IsCipher key)
    (older : List Aead) where
  -- Whatever is drawn, a reseal leaves the value.
  abbrev pub IsSettled : String → Type 0
  IsSettled stored =
      (random : Option String)
      → reseal_value io (some (key ∷ older)) stored random ≡ (stored, false)

  skipped-IsSettled :
      (stored plain : String) (current : Bool)
      → open_stored io (some (key ∷ older)) stored ≡ ok (plain, current)
      → (current || stored == "") ≡ true
      → IsSettled stored
  unfolding reseal_value
  skipped-IsSettled stored plain current e s random = ground arith

  unreadable-IsSettled :
      (stored : String) (e : SealError)
      → open_stored io (some (key ∷ older)) stored ≡ err e
      → IsSettled stored
  unfolding reseal_value
  unreadable-IsSettled stored e h random = ground arith

  open_empty : open_stored io (some (key ∷ older)) "" ≡ ok ("", false)
  unfolding open_stored cut_prefix
  open_empty = refl

  pub empty-IsSettled : IsSettled ""
  empty-IsSettled = skipped-IsSettled "" "" false open_empty refl

  seal-some :
      (bytes plain : String)
      → (sealed : String) × (seal io (some (key ∷ older)) (some bytes) plain ≡ ok sealed)
        × ((plain ≡ "") → sealed ≡ "")
  unfolding seal
  seal-some bytes plain = elim (Bool-cases (plain == "")) [
    | inl blank ↦ (plain, ground arith, λ e. e)
    | inr text ↦ elim (Sealed-cases (seal io (some (key ∷ older)) (some bytes) plain)) [
      | inl (sealed, e) ↦ (sealed, e, λ blank. absurd (text_ne plain "" text blank))
      | inr (f, e) ↦ absurd (ground arith)
    ]
  ]

  pub reseal_value-IsSettled :
      (stored bytes : String)
      → IsNonce key bytes
      → IsSettled (reseal_value io (some (key ∷ older)) stored (some bytes)).0
  unfolding reseal_value
  reseal_value-IsSettled stored bytes fit =
      let ring = some (key ∷ older) in
      let after = (reseal_value io ring stored (some bytes)).0 in
      elim (Sealed-cases (open_stored io ring stored)) [
        | inr (e, h) ↦
            let same : after ≡ stored = ground arith in
            subst IsSettled (sym same) (unreadable-IsSettled stored e h)
        | inl ((plain, current), h) ↦ elim (Bool-cases (current || stored == "")) [
          | inl skipped ↦
              let same : after ≡ stored = ground arith in
              subst IsSettled (sym same) (skipped-IsSettled stored plain current h skipped)
          | inr due ↦
              let (sealed, done, blank) = seal-some bytes plain in
              let written : after ≡ sealed = ground arith in
              subst IsSettled (sym written) (elim (Bool-cases (plain == "")) [
                | inl e ↦ subst IsSettled (sym (blank ((beq_iff plain "").0 e))) empty-IsSettled
                | inr text ↦
                    skipped-IsSettled sealed plain true
                      (open_stored-seal io [] older older key bytes plain sealed codec cipher fit
                        (text_ne plain "" text) tt done)
                      refl
              ])
        ]
      ]

  abbrev pub IsDone : StoredIdentity → Type 0
  IsDone i = IsSettled i.tokens.access_token × IsSettled i.tokens.refresh_token

pub reseal_value-unchanged :
    (io : Codecs) (sealer : Option TokenSealer) (stored : String) (random : Option String)
    → (reseal_value io sealer stored random).1 ≡ false
    → (reseal_value io sealer stored random).0 ≡ stored
unfolding reseal_value
reseal_value-unchanged io sealer stored random e = ground arith
