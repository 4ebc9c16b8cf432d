-- ===== src/Oidc/Roles/Throttled.antt =====
-- How often the roles of a signed-in caller are asked for.
use porte.Base.{
  ℕ, ◌+◌, ◌≤◌, ◌<◌, List, [], ◌∷◌, Bool, true, false, ◌&&◌, none, some, ◌≡◌, ◌≢◌, refl, sym, ap,
  ◌∙◌, inl, inr, string_eq, nat_eq, ◌==◌, beq_refl, Bool-cases, Option-cases, arith, first, any,
  amend,
}
use porte.Base.{first-holds}
use porte.Pg.Tables.{StoredIdentity, Tables, Outcome, of_provider}
use porte.Pg.Linking.Matching.{Outcome-cases}
use porte.Pg.Identities
use porte.Pg.Identities.{is_mine}
use porte.Session.Manager.{Identity}
use porte.Oidc.Claims.{claims_enabled}
use porte.Oidc.Kit.{Kit}
use porte.Oidc.Roles.{
  roles_stale, identity_for, fresh_roles, refresh_roles, or_same, refreshed, attach,
}

first-amend_row :
    (p q : StoredIdentity → Bool) (row x : StoredIdentity) (rows : List StoredIdentity)
    → p row ≡ true
    → q x ≡ true
    → first p rows ≡ some x
    → first p (amend q (λ r. row) rows) ≡ some row
first-amend_row p q row x [] pr qx e = absurd (cc)
first-amend_row p q row x (y ∷ rows) pr qx e = elim (Bool-cases (q y)) [
  | inl rewritten ↦ ground arith
  | inr left_alone ↦ elim (Bool-cases (p y)) [
    | inl found ↦ let same : y ≡ x = ground arith in absurd (ground (arith, ap q same))
    | inr other ↦ ground (arith, first-amend_row p q row x rows pr qx)
  ]
]

first-amend_stamp :
    (p q : StoredIdentity → Bool) (f : StoredIdentity → StoredIdentity) (x : StoredIdentity)
    (rows : List StoredIdentity)
    → ((y : StoredIdentity) → p (f y) ≡ p y)
    → q x ≡ true
    → first p rows ≡ some x
    → first p (amend q f rows) ≡ some (f x)
first-amend_stamp p q f x [] same qx e = absurd (cc)
first-amend_stamp p q f x (y ∷ rows) same qx e = elim (Bool-cases (p y)) [
  | inl found ↦
      let here : y ≡ x = ground arith in
      let hit : q y ≡ true = ap q here ∙ qx in ground (arith, same y, ap f here)
  | inr other ↦ ground (arith, same y, first-amend_stamp p q f x rows same qx)
]

first-any :
    (p q : StoredIdentity → Bool) (x : StoredIdentity) (rows : List StoredIdentity)
    → first p rows ≡ some x
    → q x ≡ true
    → any q rows ≡ true
first-any p q x [] e qx = absurd (cc)
first-any p q x (y ∷ rows) e qx = elim (Bool-cases (p y)) [
  | inl found ↦ let here : y ≡ x = ground arith in ground (arith, ap q here)
  | inr other ↦ ground (arith, first-any p q x rows)
]

itself : (i : StoredIdentity) → (of_provider i.provider i.subject i ≡ true) × (is_mine i i ≡ true)
itself i = (
  ground (arith, beq_refl i.provider, beq_refl i.subject),
  ground (arith, beq_refl i.provider, beq_refl i.subject, beq_refl i.user_id),
)

module _ (k : Kit) where
  abbrev of_user : ℕ → StoredIdentity → Bool
  of_user user i = i.user_id == user && i.provider == k.cfg.base.issuer

  owned :
      (db : Tables) (user : ℕ) (i : StoredIdentity)
      → identity_for k db user ≡ some i
      → of_user user i ≡ true
  owned db user i e = first-holds (of_user user) db.identities i e

  save-identity_for :
      (db db' : Tables) (user : ℕ) (i row : StoredIdentity)
      → identity_for k db user ≡ some i
      → (row.user_id ≡ i.user_id) × (row.provider ≡ i.provider) × (row.subject ≡ i.subject)
      → Identities.save db row ≡ Outcome.ok db'
      → identity_for k db' user ≡ some row
  unfolding Identities.save Identities.save_federated
  save-identity_for db db' user i row there (same_user, same_provider, same_subject) saved =
      let mine = owned db user i there in
      let row_mine : of_user user row ≡ true = rw (same_user, same_provider) mine in
      let (by_subject, by_owner) = itself i in
      let q_owner : is_mine row i ≡ true = rw (same_user, same_provider, same_subject) by_owner in
      let q_subject : of_provider row.provider row.subject i ≡ true =
        rw (same_provider, same_subject) by_subject in
      let some_owner = first-any (of_user user) (is_mine row) i db.identities there q_owner in
      let some_subject =
        first-any (of_user user) (of_provider row.provider row.subject) i db.identities there
          q_subject in
      let amended_owner =
        first-amend_row (of_user user) (is_mine row) row i db.identities row_mine q_owner there in
      let amended_subject =
        first-amend_row (of_user user) (of_provider row.provider row.subject) row i db.identities
          row_mine q_subject there in
      elim (Bool-cases (row.provider == Identities.provider_local)) [
        | inl local ↦
            let shape : db'.identities
                ≡ amend (of_provider row.provider row.subject) (λ r. row) db.identities =
              ground arith in
            ap (first (of_user user)) shape ∙ amended_subject
        | inr federated ↦
            let shape : db'.identities ≡ amend (is_mine row) (λ r. row) db.identities =
              ground arith in
            ap (first (of_user user)) shape ∙ amended_owner
      ]

  mark-identity_for :
      (db : Tables) (user now : ℕ) (i : StoredIdentity)
      → identity_for k db user ≡ some i
      → identity_for k (or_same db (Identities.mark_roles_synced db i.provider i.subject now)) user
        ≡ some (record i { roles_synced_at = now })
  unfolding Identities.mark_roles_synced
  mark-identity_for db user now i there =
      let (by_subject, by_owner) = itself i in
      let hit =
        first-any (of_user user) (of_provider i.provider i.subject) i db.identities there
          by_subject in
      let stamped =
        first-amend_stamp (of_user user) (of_provider i.provider i.subject)
          (λ r. record r { roles_synced_at = now }) i db.identities (λ y. refl) by_subject there in
      ground arith

  -- Whatever the refresh did, the row is stamped, with the roles that were answered.
  attached :
      (identity : Identity) (now : ℕ) (db : Tables) (stored : StoredIdentity)
      → claims_enabled k.cfg.trust ≡ true
      → identity_for k db identity.user_id ≡ some stored
      → roles_stale stored now k.cfg.claims_ttl ≡ true
      → let out = attach k identity now db in
        (row : StoredIdentity) × (identity_for k out.0 identity.user_id ≡ some row)
        × (row.roles_synced_at ≡ now)
        × (out.1 ≡ record identity { roles = row.roles })
  unfolding attach refresh_roles
  attached identity now db stored on there stale = elim (Option-cases (fresh_roles k stored)) [
    | inl failed ↦
        let same : attach k identity now db ≡ refreshed k stored now identity (db, none) =
          ground arith in
        (
          record stored { roles_synced_at = now },
          ap (λ o. identity_for k o.0 identity.user_id) same
              ∙ mark-identity_for db identity.user_id now stored there,
          refl,
          ap (λ o. o.1) same,
        )
    | inr ((tokens, roles), given) ↦
        let row = record stored { tokens = tokens; roles = roles; roles_synced_at = now } in
        elim (Outcome-cases (Identities.save db row)) [
          | inr (e, refused) ↦
              let same : attach k identity now db ≡ refreshed k stored now identity (db, none) =
                ground arith in
              (
                record stored { roles_synced_at = now },
                ap (λ o. identity_for k o.0 identity.user_id) same
                    ∙ mark-identity_for db identity.user_id now stored there,
                refl,
                ap (λ o. o.1) same,
              )
          | inl (db', saved) ↦
              let same : attach k identity now db
                  ≡ refreshed k stored now identity (db', some row) =
                ground arith in
              (
                row,
                ap (λ o. identity_for k o.0 identity.user_id) same
                    ∙ save-identity_for db db' identity.user_id stored row there (refl, refl, refl)
                        saved,
                refl,
                ap (λ o. o.1) same,
              )
        ]
  ]

  -- The provider is asked for roles once per lifetime of the claims: after an Attach that found them
  -- stale, whether the refresh worked or not, every Attach before the lifetime is over answers the same
  -- roles and changes nothing. The clock does not run backwards
  -- and does not read Go's zero time.
  pub attach_throttled :
      (identity : Identity) (now later : ℕ) (db : Tables) (stored : StoredIdentity)
      → claims_enabled k.cfg.trust ≡ true
      → identity_for k db identity.user_id ≡ some stored
      → roles_stale stored now k.cfg.claims_ttl ≡ true
      → now ≢ 0
      → now ≤ later
      → later < now + k.cfg.claims_ttl
      → let out = attach k identity now db in attach k identity later out.0 ≡ out
  unfolding attach
  attach_throttled identity now later db stored on there stale clock after_it early =
      let (row, kept, stamp, answer) = attached identity now db stored on there stale in
      let out = attach k identity now db in
      let fresh : roles_stale row later k.cfg.claims_ttl ≡ false = ground arith in
      let same : attach k identity later out.0 ≡ (out.0, record identity { roles = row.roles }) =
        ground arith in
      same ∙ ap (λ i. (out.0, i)) (sym answer)
