-- ===== src/Pg/Resealing/Batches.antt =====
-- What a batch of a reseal leaves of the identities.
use porte.Base.{
  String, List, [], ◌∷◌, Bool, true, false, not, ◌&&◌, Option, some, ◌≡◌, ◌≢◌, refl, sym, ap, ◌∙◌,
  subst, ◌⊎◌, inl, inr, Memᴰ, string_eq, nat_eq, beq_iff, beq_refl, Bool-cases, All, arith, first,
  amend,
}
use porte.Base.{All-mono}
use porte.Pg.Tables.{StoredIdentity, Tables}
use porte.Pg.Sealing.{Aead, Codecs, TokenSealer}
use porte.Pg.Sealing.Opening.{IsCodec, IsCipher, IsNonce}
use porte.Pg.Resealing.{
  TokenRow, Draws, key_of, row_of, is_unchanged, with_tokens, reseal_value, reseal_row, reseal_rows,
}
use porte.Pg.Resealing.Sorting.{IsKeyed}
use porte.Pg.Resealing.Settling.{IsSettled, IsDone, reseal_value-IsSettled, reseal_value-unchanged}

abbrev pub identity_key : StoredIdentity → String × String
identity_key i = (i.provider, i.subject)

-- The row holds what every identity of its key holds.
abbrev pub IsFresh : List StoredIdentity → TokenRow → Type 0
IsFresh identities row = All (λ i. identity_key i ≡ key_of row → row_of i ≡ row) identities

module _ {A : Type 0} where
  amend_id :
      (q : A → Bool) (f : A → A) (xs : List A)
      → ((x : A) → q x ≡ true → f x ≡ x)
      → amend q f xs ≡ xs
  amend_id q f [] h = refl
  amend_id q f (x ∷ xs) h = elim (Bool-cases (q x)) [
    | inl e ↦ rw e (ap (λ y. y ∷ amend q f xs) (h x e) ∙ ap (◌∷◌ x) (amend_id q f xs h))
    | inr e ↦ rw e (ap (◌∷◌ x) (amend_id q f xs h))
  ]

  pub All-both :
      (P Q R : A → Type 0) (xs : List A)
      → ((x : A) → P x → Q x → R x)
      → All P xs
      → All Q xs
      → All R xs
  All-both P Q R [] f h k = tt
  All-both P Q R (x ∷ xs) f (p, h) (q, k) = (f x p q, All-both P Q R xs f h k)

  All-amend_into :
      (P Q : A → Type 0) (q : A → Bool) (f : A → A) (xs : List A)
      → ((x : A) → P x → q x ≡ true → Q (f x))
      → ((x : A) → P x → q x ≡ false → Q x)
      → All P xs
      → All Q (amend q f xs)
  All-amend_into P Q q f [] g h a = tt
  All-amend_into P Q q f (x ∷ xs) g h (p, a) = elim (Bool-cases (q x)) [
    | inl e ↦ rw e (g x p e, All-amend_into P Q q f xs g h a)
    | inr e ↦ rw e (h x p e, All-amend_into P Q q f xs g h a)
  ]

is_unchanged-key :
    (row : TokenRow) (i : StoredIdentity)
    → is_unchanged row i ≡ true
    → (identity_key i ≡ key_of row)
      × (i.tokens.access_token ≡ row.access)
      × (i.tokens.refresh_token ≡ row.refresh)
is_unchanged-key row i e =
    let provider : i.provider ≡ row.provider = (beq_iff i.provider row.provider).0 (ground arith) in
    let subject : i.subject ≡ row.subject = (beq_iff i.subject row.subject).0 (ground arith) in
    (
      ap (λ p. (p, i.subject)) provider ∙ ap (λ s. (row.provider, s)) subject,
      (beq_iff i.tokens.access_token row.access).0 (ground arith),
      (beq_iff i.tokens.refresh_token row.refresh).0 (ground arith),
    )

is_unchanged-row_of : (i : StoredIdentity) → is_unchanged (row_of i) i ≡ true
is_unchanged-row_of i = ground (
  arith,
  beq_refl i.provider,
  beq_refl i.subject,
  beq_refl i.tokens.access_token,
  beq_refl i.tokens.refresh_token,
)

-- Every row gets random bytes that are a nonce of the key.
abbrev pub AreNonces : Aead → Draws → Type 0
AreNonces key draws =
    (row : TokenRow)
    → ((bytes : String) × (draws.for_access row ≡ some bytes) × IsNonce key bytes)
      × ((bytes : String) × (draws.for_refresh row ≡ some bytes) × IsNonce key bytes)

module _ (io : Codecs) (codec : IsCodec io) (key : Aead) (cipher : IsCipher key) (older : List Aead)
    (draws : Draws) where
  abbrev ring : Option TokenSealer
  ring = some (key ∷ older)

  abbrev rewritten : TokenRow → StoredIdentity → StoredIdentity
  rewritten row =
      with_tokens (reseal_value io ring row.access (draws.for_access row)).0
        (reseal_value io ring row.refresh (draws.for_refresh row)).0

  reseal_row-amend :
      (db : Tables) (row : TokenRow)
      → (reseal_row io ring draws db row).0.identities
        ≡ amend (is_unchanged row) (rewritten row) db.identities
  unfolding reseal_row
  reseal_row-amend db row =
      let access = reseal_value io ring row.access (draws.for_access row) in
      let refresh = reseal_value io ring row.refresh (draws.for_refresh row) in
      let left = (reseal_row io ring draws db row).0.identities in
      elim (Bool-cases (not access.1 && not refresh.1)) [
        | inr due ↦ ground arith
        | inl same ↦
            let kept : left ≡ db.identities = ground arith in
            let opened =
              reseal_value-unchanged io ring row.access (draws.for_access row) (ground arith) in
            let refreshed =
              reseal_value-unchanged io ring row.refresh (draws.for_refresh row) (ground arith) in
            kept
            ∙ sym (
                amend_id (is_unchanged row) (rewritten row) db.identities (λ i e.
                  let (_, first, second) = is_unchanged-key row i e in
                  ap (λ t. with_tokens t refresh.0 i) (opened ∙ sym first)
                  ∙ ap (λ t. with_tokens i.tokens.access_token t i) (refreshed ∙ sym second)))
      ]

  module _ (nonces : AreNonces key draws) where
    rewritten-IsDone :
        (row : TokenRow) (i : StoredIdentity) → IsDone io codec key cipher older (rewritten row i)
    rewritten-IsDone row i =
        let ((first, drawn, fits), (second, redrawn, suits)) = nonces row in
        (
          subst (λ r. IsSettled io codec key cipher older (reseal_value io ring row.access r).0)
              (sym drawn) (reseal_value-IsSettled io codec key cipher older row.access first fits),
          subst (λ r. IsSettled io codec key cipher older (reseal_value io ring row.refresh r).0)
              (sym redrawn)
              (reseal_value-IsSettled io codec key cipher older row.refresh second suits),
        )

    reseal_row-IsDone :
        (X : String × String → Type 0) (db : Tables) (row : TokenRow)
        → IsFresh db.identities row
        → All (λ i. X (identity_key i) → IsDone io codec key cipher older i) db.identities
        → All
            (λ i.
              X (identity_key i) ⊎ (identity_key i ≡ key_of row)
              → IsDone io codec key cipher older i)
            (reseal_row io ring draws db row).0.identities
    reseal_row-IsDone X db row fresh done =
        subst
          (All (λ i.
            X (identity_key i) ⊎ (identity_key i ≡ key_of row)
            → IsDone io codec key cipher older i))
          (sym (reseal_row-amend db row))
          (All-amend_into
            (λ i.
              (identity_key i ≡ key_of row → row_of i ≡ row)
              × (X (identity_key i) → IsDone io codec key cipher older i))
            _ (is_unchanged row) (rewritten row) db.identities (λ i h e x. rewritten-IsDone row i)
            (λ i (h, d) e x. elim x [
              | inl there ↦ d there
              | inr same ↦
                  let changed = subst (λ r. is_unchanged r i ≡ false) (sym (h same)) e in
                  let unchanged = is_unchanged-row_of i in absurd (ground arith)
            ])
            (All-both _ _ _ db.identities (λ i f d. (f, d)) fresh done))

    reseal_row-IsFresh :
        (db : Tables) (row other : TokenRow)
        → key_of other ≢ key_of row
        → IsFresh db.identities other
        → IsFresh (reseal_row io ring draws db row).0.identities other
    reseal_row-IsFresh db row other apart fresh =
        subst (λ ids. IsFresh ids other) (sym (reseal_row-amend db row))
          (All-amend_into (λ i. identity_key i ≡ key_of other → row_of i ≡ other) _
            (is_unchanged row) (rewritten row) db.identities
            (λ i h e same. absurd (apart (sym same ∙ (is_unchanged-key row i e).0))) (λ i h e. h)
            fresh)

    pub reseal_rows-IsDone :
        (X : String × String → Type 0) (db : Tables) (rows : List TokenRow)
        → IsKeyed rows
        → All (IsFresh db.identities) rows
        → All (λ i. X (identity_key i) → IsDone io codec key cipher older i) db.identities
        → All
            (λ i.
              X (identity_key i)
                ⊎ ((row : TokenRow) × Memᴰ row rows × (identity_key i ≡ key_of row))
              → IsDone io codec key cipher older i)
            (reseal_rows io ring draws db rows).0.identities
    unfolding reseal_rows
    reseal_rows-IsDone X db [] keyed fresh done =
        All-mono _ _ db.identities
          (λ i d x. elim x [ inl there ↦ d there | inr (row, m, e) ↦ absurd (elim m [ ]) ]) done
    reseal_rows-IsDone X db (row ∷ rows) (apart, keyed) (fresh, rest) done =
        let db' = (reseal_row io ring draws db row).0 in
        All-mono _ _ (reseal_rows io ring draws db' rows).0.identities
          (λ i d x. d (elim x [
            | inl there ↦ inl (inl there)
            | inr (r, Memᴰ.head e, same) ↦ inl (inr (same ∙ ap key_of e))
            | inr (r, Memᴰ.tail m, same) ↦ inr (r, m, same)
          ]))
          (reseal_rows-IsDone (λ k. X k ⊎ (k ≡ key_of row)) db' rows keyed
            (All-both _ _ _ rows (λ r a f. reseal_row-IsFresh db row r a f) apart rest)
            (reseal_row-IsDone X db row fresh done))
