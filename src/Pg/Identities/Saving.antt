-- ===== src/Pg/Identities/Saving.antt =====
-- Whose identity a Save may write.
use porte.Base.{
  String, List, [], ◌∷◌, ◌++◌, Bool, true, false, not, ◌&&◌, none, some, ◌≡◌, ◌≢◌, refl, sym, ◌∙◌,
  subst, inl, inr, string_eq, nat_eq, ◌==◌, beq_iff, beq_refl, Bool-cases, keep, arith, first, any,
  amend,
}
use porte.Base.{any-keep_not, any-first, first-append}
use porte.Pg.Tables.{StoredIdentity, Tables, not_found, ok, err, of_provider, identity_of}
use porte.Base.{first-holds}
use porte.Base.Strings.{GoStrings}
use porte.Pg.Linking.{Claims, upsert_from_oidc}
use porte.Pg.Linking.Purging.{IsStripped, link_identity-owner}
use porte.Pg.Linking.Matching.{upsert-resolve}
use porte.Pg.Sessions.Revoking.{erased, erase_identity-eq, any-narrow}
use porte.Pg.Erase.{erase_identity}
use porte.Pg.Identities.{is_mine, save, provider_local}

-- Overwriting an account's own row leaves every row its owner.
owner-amend :
    (rows : List StoredIdentity) (i r : StoredIdentity) (provider subject : String)
    → first (of_provider provider subject) rows ≡ some r
    → (r' : StoredIdentity) × (first
          (of_provider provider subject)
          (amend (is_mine i) (λ x. i) rows)
        ≡ some r')
      × (r'.user_id ≡ r.user_id)
owner-amend [] i r provider subject e = absurd (cc)
owner-amend (x ∷ rows) i r provider subject e = elim (Bool-cases (is_mine i x)) [
  | inl mine ↦ elim (Bool-cases (of_provider provider subject x)) [
    | inl here ↦ (
      i,
      ground (arith, beq_iff x.provider i.provider, beq_iff x.subject i.subject),
      ground arith,
    )
    | inr there ↦
        let (r', f, same) = owner-amend rows i r provider subject (ground arith) in
        (r', ground (arith, beq_iff x.provider i.provider, beq_iff x.subject i.subject), same)
  ]
  | inr other ↦ elim (Bool-cases (of_provider provider subject x)) [
    | inl here ↦ (x, ground arith, ground arith)
    | inr there ↦
        let (r', f, same) = owner-amend rows i r provider subject (ground arith) in
        (r', ground arith, same)
  ]
]

-- A federated Save never moves an identity: whatever is saved, every identity that was linked is
-- linked to the same account afterwards.
pub save-identity_of :
    (db db' : Tables) (i r : StoredIdentity) (provider subject : String)
    → i.provider ≢ provider_local
    → save db i ≡ ok db'
    → identity_of db provider subject ≡ some r
    → (r' : StoredIdentity) × (identity_of db' provider subject ≡ some r')
      × (r'.user_id ≡ r.user_id)
unfolding save identity_of
save-identity_of db db' i r provider subject federated saved e =
    elim (Bool-cases (any (is_mine i) db.identities)) [
      | inl mine ↦
          let (r', f, same) = owner-amend db.identities i r provider subject e in
          let written : db'.identities ≡ amend (is_mine i) (λ x. i) db.identities =
            ground (arith, beq_iff i.provider provider_local) in
          (r', rw written f, same)
      | inr other ↦
          let written : db'.identities ≡ db.identities ++ i ∷ [] =
            ground (arith, beq_iff i.provider provider_local) in
          (r, rw (written, first-append) (ground arith), refl)
    ]

save_refused :
    (db : Tables) (i : StoredIdentity)
    → i.provider ≢ provider_local
    → any (is_mine i) db.identities ≡ false
    → any (λ r. r.provider == i.provider && r.user_id == i.user_id) db.identities ≡ true
    → save db i ≡ err not_found
unfolding save
save_refused db i federated absent held = ground (arith, beq_iff i.provider provider_local)

-- A row that a test finds passes every wider test.
held_wider :
    (p q : StoredIdentity → Bool) (rows : List StoredIdentity) (r : StoredIdentity)
    → first p rows ≡ some r
    → q r ≡ true
    → any q rows ≡ true
held_wider p q [] r e h = absurd (cc)
held_wider p q (x ∷ rows) r e h = elim (Bool-cases (p x)) [
  | inl here ↦ let same : x ≡ r = ground arith in rw same (ground arith)
  | inr there ↦ let later = held_wider p q rows r (ground arith) h in ground arith
]

mine_spared :
    (rows : List StoredIdentity) (i : StoredIdentity) (subject : String)
    → i.subject ≢ subject
    → any (λ r. r.user_id == i.user_id && not (of_provider i.provider subject r)) rows ≡ false
    → any (is_mine i) rows ≡ false
mine_spared [] i subject ne h = refl
mine_spared (r ∷ rows) i subject ne h =
    ground
      (arith, mine_spared rows i subject ne, beq_iff r.subject i.subject, beq_iff r.subject subject)

-- A Save that comes after a takeover cannot bring a squatter's identity back: once a federated login
-- has left an account with its own identity only, a Save for that account of another subject of the
-- same provider is refused, and nothing is written.
pub save-upsert_squatted :
    (go : GoStrings) (db db' : Tables) (raw : Claims) (i : StoredIdentity)
    → upsert_from_oidc go db raw ≡ ok (db', i.user_id)
    → IsStripped db' i.user_id (of_provider raw.provider raw.subject)
    → raw.provider ≢ provider_local
    → i.provider ≡ raw.provider
    → i.subject ≢ raw.subject
    → save db' i ≡ err not_found
save-upsert_squatted go db db' raw i login stripped federated same ne =
    let (mid, _, linked) = upsert-resolve go db db' raw i.user_id login in
    let (row, found, owner) =
      link_identity-owner mid.identities i.user_id raw.provider raw.subject in
    let there : first (of_provider raw.provider raw.subject) db'.identities ≡ some row =
      rw linked found in
    let passes = first-holds (of_provider raw.provider raw.subject) db'.identities row there in
    save_refused db' i (λ e. federated (sym same ∙ e))
      (mine_spared db'.identities i raw.subject ne (
        subst
          (λ p.
            any (λ r. r.user_id == i.user_id && not (of_provider p raw.subject r)) db'.identities
            ≡ false)
          (sym same) stripped.sole))
      (held_wider (of_provider raw.provider raw.subject)
        (λ r. r.provider == i.provider && r.user_id == i.user_id) db'.identities row there
        (ground arith))

other_erased :
    (rows : List StoredIdentity) (i : StoredIdentity)
    → any
        (λ r. r.provider == i.provider && (r.user_id == i.user_id && not (r.subject == i.subject)))
        rows
      ≡ false
    → any
        (λ r. r.provider == i.provider && r.user_id == i.user_id)
        (keep (λ r. not (of_provider i.provider i.subject r)) rows)
      ≡ false
other_erased [] i h = refl
other_erased (r ∷ rows) i h = ground (arith, other_erased rows i)

-- A Save that comes after an erasure does bring the identity back: of an account that holds no other
-- subject of the provider, an erasure of the federated identity succeeds, and a Save of the row as it
-- was read before, tokens included, is accepted and found again.
pub save-erase_identity :
    (db : Tables) (i : StoredIdentity)
    → identity_of db i.provider i.subject ≡ some i
    → i.provider ≢ provider_local
    → any
        (λ r. r.provider == i.provider && (r.user_id == i.user_id && not (r.subject == i.subject)))
        db.identities
      ≡ false
    → (db' : Tables) × (erase_identity db i.provider i.subject ≡ ok db')
      × (identity_of db' i.provider i.subject ≡ none)
      × ((db'' : Tables) × (save db' i ≡ ok db'')
          × (identity_of db'' i.provider i.subject ≡ some i))
unfolding identity_of save
save-erase_identity db i e federated sole =
    let left = erased db i i.provider i.subject in
    let gone : any (of_provider i.provider i.subject) left.identities ≡ false =
      any-keep_not (of_provider i.provider i.subject)
        (λ r. not (of_provider i.provider i.subject r)) db.identities (λ r h. ground arith) in
    let free : any (λ r. r.provider == i.provider && r.user_id == i.user_id) left.identities
        ≡ false =
      other_erased db.identities i sole in
    let unheld : any (is_mine i) left.identities ≡ false =
      any-narrow (is_mine i) (of_provider i.provider i.subject) left.identities
        (λ r h. ground arith) gone in
    let missing = any-first (of_provider i.provider i.subject) left.identities gone in
    (
      left,
      erase_identity-eq db i.provider i.subject i e,
      missing,
      (
        record left { identities = left.identities ++ i ∷ [] },
        ground (arith, beq_iff i.provider provider_local),
        rw (first-append, missing) (ground (arith, beq_refl i.provider, beq_refl i.subject)),
      ),
    )
