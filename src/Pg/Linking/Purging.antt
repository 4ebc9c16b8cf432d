-- ===== src/Pg/Linking/Purging.antt =====
-- What a purge and the link of an identity leave in the tables.
use porte.Base.{
  ℕ, String, List, [], ◌∷◌, Bool, true, false, not, ◌&&◌, some, ◌≡◌, ◌≢◌, refl, inl, inr, string_eq,
  nat_eq, ◌==◌, beq_refl, if◌then◌else◌, Bool-cases, keep, arith, first, any, amend,
}
use mathlib.Core.List.{append-nil}
use porte.Base.{
  any-keep_not, any-keep_none, keep-keep_of, first-append, any-first, any-append, first-amend,
  first-some, keep-append,
}
use porte.Pg.Tables.{StoredIdentity, Tables, of_provider}
use porte.Pg.Linking.{purge, link_identity, new_identity}

-- Nothing in the tables lets anybody act as the user, but the identities that pass the test.
pub record IsStripped (db : Tables) (id : ℕ) (spared : StoredIdentity → Bool) : Type 0 where
  pub sole : any (λ i. i.user_id == id && not (spared i)) db.identities ≡ false
  pub no_session : any (λ s. s.user_id == id) db.sessions ≡ false
  pub no_code : db.has_codes ≡ true → any (λ r. r.code.user_id == id) db.codes ≡ false
  pub no_link : db.has_links ≡ true → any (λ r. r.link.user_id == id) db.links ≡ false

-- Whatever another account holds is what it held.
pub record IsUntouched (db db' : Tables) (other : ℕ) : Type 0 where
  pub same_identities :
      keep (λ i. i.user_id == other) db'.identities ≡ keep (λ i. i.user_id == other) db.identities
  pub same_sessions :
      keep (λ s. s.user_id == other) db'.sessions ≡ keep (λ s. s.user_id == other) db.sessions
  pub same_codes :
      keep (λ r. r.code.user_id == other) db'.codes ≡ keep (λ r. r.code.user_id == other) db.codes
  pub same_links :
      keep (λ r. r.link.user_id == other) db'.links ≡ keep (λ r. r.link.user_id == other) db.links

pub purge-IsStripped : (db : Tables) (id : ℕ) → IsStripped (purge db id) id (λ i. false)
unfolding purge
purge-IsStripped db id = record {
  sole = any-keep_not _ _ db.identities (λ i h. ground arith);
  no_session = any-keep_not _ _ db.sessions (λ s h. ground arith);
  no_code = λ h. rw h (any-keep_not _ _ db.codes (λ r k. ground arith));
  no_link = λ h. rw h (any-keep_not _ _ db.links (λ r k. ground arith));
}

pub purge-no_identity :
    (db : Tables) (id : ℕ) → any (λ i. i.user_id == id) (purge db id).identities ≡ false
unfolding purge
purge-no_identity db id = any-keep_not _ _ db.identities (λ i h. ground arith)

-- What no row passes, none passes after a purge.
pub purge-narrow :
    (db : Tables) (id : ℕ) (p : StoredIdentity → Bool)
    → any p db.identities ≡ false
    → any (λ i. p i && not (i.user_id == id)) (purge db id).identities ≡ false
unfolding purge
purge-narrow db id p h = any-keep_none p _ _ db.identities h

keep_if :
    {A : Type 0} (b : Bool) (p q : A → Bool) (xs : List A)
    → ((x : A) → p x ≡ true → q x ≡ true)
    → keep p (if b then keep q xs else xs) ≡ keep p xs
keep_if true p q xs h = keep-keep_of p q xs h
keep_if false p q xs h = refl

pub purge-IsUntouched :
    (db : Tables) (id other : ℕ) → other ≢ id → IsUntouched db (purge db id) other
unfolding purge
purge-IsUntouched db id other ne = record {
  same_identities = keep-keep_of _ _ db.identities (λ i h. ground arith);
  same_sessions = keep-keep_of _ _ db.sessions (λ s h. ground arith);
  same_codes = keep_if db.has_codes _ _ db.codes (λ r h. ground arith);
  same_links = keep_if db.has_links _ _ db.links (λ r h. ground arith);
}

sole_any :
    (rows : List StoredIdentity) (id : ℕ) (provider subject : String)
    → any (λ i. i.user_id == id) rows ≡ false
    → any (λ i. i.user_id == id && not (of_provider provider subject i)) rows ≡ false
sole_any [] id provider subject h = refl
sole_any (i ∷ rows) id provider subject h = ground (arith, sole_any rows id provider subject)

sole_amend :
    (rows : List StoredIdentity) (id : ℕ) (provider subject : String)
    → any (λ i. i.user_id == id) rows ≡ false
    → any
        (λ i. i.user_id == id && not (of_provider provider subject i))
        (amend (of_provider provider subject) (λ i. record i { user_id = id }) rows)
      ≡ false
sole_amend [] id provider subject h = refl
sole_amend (i ∷ rows) id provider subject h = ground (arith, sole_amend rows id provider subject)

-- Of a user without identities, the linked one is the only one afterwards.
pub link_identity-sole :
    (rows : List StoredIdentity) (id : ℕ) (provider subject : String)
    → any (λ i. i.user_id == id) rows ≡ false
    → any
        (λ i. i.user_id == id && not (of_provider provider subject i))
        (link_identity rows id provider subject)
      ≡ false
unfolding link_identity
link_identity-sole rows id provider subject h =
    elim (Bool-cases (any (of_provider provider subject) rows)) [
      | inl e ↦ rw e (sole_amend rows id provider subject h)
      | inr e ↦ rw e (
          rw any-append (
            ground
              (arith, sole_any rows id provider subject h, beq_refl provider, beq_refl subject)))
    ]

-- The linked identity is found afterwards, on that user.
pub link_identity-owner :
    (rows : List StoredIdentity) (id : ℕ) (provider subject : String)
    → (i : StoredIdentity) × (first
          (of_provider provider subject)
          (link_identity rows id provider subject)
        ≡ some i)
      × (i.user_id ≡ id)
unfolding link_identity
link_identity-owner rows id provider subject =
    elim (Bool-cases (any (of_provider provider subject) rows)) [
      | inl e ↦
          let (i, found) = first-some (of_provider provider subject) rows e in
          rw e (
            record i { user_id = id },
            first-amend (of_provider provider subject) (λ r. record r { user_id = id }) rows i
                (λ r h. h) found,
            refl,
          )
      | inr e ↦ rw e (
        new_identity id provider subject,
        rw (first-append, any-first (of_provider provider subject) rows e)
            (ground (arith, beq_refl provider, beq_refl subject)),
        refl,
      )
    ]

others_amend :
    (rows : List StoredIdentity) (id other : ℕ) (provider subject : String)
    → other ≢ id
    → any (λ i. of_provider provider subject i && not (i.user_id == id)) rows ≡ false
    → keep
        (λ i. i.user_id == other)
        (amend (of_provider provider subject) (λ i. record i { user_id = id }) rows)
      ≡ keep (λ i. i.user_id == other) rows
others_amend [] id other provider subject ne h = refl
others_amend (i ∷ rows) id other provider subject ne h =
    ground (arith, others_amend rows id other provider subject ne)

-- Linking an identity that nobody held, or that the user held, leaves other accounts' alone.
pub link_identity_others :
    (rows : List StoredIdentity) (id other : ℕ) (provider subject : String)
    → other ≢ id
    → any (λ i. of_provider provider subject i && not (i.user_id == id)) rows ≡ false
    → keep (λ i. i.user_id == other) (link_identity rows id provider subject)
      ≡ keep (λ i. i.user_id == other) rows
unfolding link_identity
link_identity_others rows id other provider subject ne h =
    elim (Bool-cases (any (of_provider provider subject) rows)) [
      | inl e ↦ rw e (others_amend rows id other provider subject ne h)
      | inr e ↦
          rw e (rw keep-append (ground (arith, append-nil (keep (λ i. i.user_id == other) rows))))
    ]
