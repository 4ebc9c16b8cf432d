-- ===== src/Pg/Linking/Matching.antt =====
-- Which account a federated login lands on, and what becomes of what that account held.
use porte.Base.{
  ℕ, true, false, not, ◌&&◌, none, some, ◌≡◌, ◌≢◌, refl, sym, ◌∙◌, ◌⊎◌, inl, inr, string_eq, nat_eq,
  ◌==◌, beq_iff, Option-cases, arith, any, amend,
}
use porte.Base.{first-any, any-first-some}
use porte.Base.Strings.{GoStrings}
use porte.Pg.Tables.{
  User, StoredIdentity, Tables, Failure, Outcome, ok, err, of_provider, identity_of, user_by_email,
}
use porte.Pg.Linking.{
  Claims, folded, resolve_or_create, refreshed, refusal, update_user, purge, refresh, link_identity,
  upsert_from_oidc,
}
use porte.Pg.Linking.Purging.{
  IsStripped, IsUntouched, purge-IsStripped, purge-no_identity, purge-narrow, purge-IsUntouched,
  link_identity-sole, link_identity-owner, link_identity_others,
}

pub Outcome-cases {ℓ} :
    {A : Type ℓ} (r : Outcome A) → ((a : A) × (r ≡ ok a)) ⊎ ((e : Failure) × (r ≡ err e))
Outcome-cases (ok a) = inl (a, refl)
Outcome-cases (err e) = inr (e, refl)

module _ (go : GoStrings) where
  resolve-of_email :
      (db : Tables) (c : Claims) (u : User)
      → identity_of db c.provider c.subject ≡ none
      → c.email_verified ≡ true
      → user_by_email db c.email ≡ some u
      → u.email_verified ≡ false
      → u.id ≢ 0
      → resolve_or_create go db c ≡ refreshed go (purge db u.id) u.id c
  unfolding resolve_or_create
  resolve-of_email db c u e v f n ne = ground arith

  -- The tables after a takeover of the account `u`.
  abbrev taken_over : Tables → Claims → User → Tables
  taken_over db c u =
      let p = purge db u.id in
      record p {
        users = amend (λ w. w.id == u.id) (refresh go c) p.users;
        identities = link_identity p.identities u.id c.provider c.subject;
      }

  taken_over-IsStripped :
      (db : Tables) (c : Claims) (u : User)
      → IsStripped (taken_over db c u) u.id (of_provider c.provider c.subject)
  taken_over-IsStripped db c u = record {
    sole =
        link_identity-sole (purge db u.id).identities u.id c.provider c.subject
          (purge-no_identity db u.id);
    no_session = (purge-IsStripped db u.id).no_session;
    no_code = (purge-IsStripped db u.id).no_code;
    no_link = (purge-IsStripped db u.id).no_link;
  }

  taken_over-identity :
      (db : Tables) (c : Claims) (u : User)
      → (i : StoredIdentity) × (identity_of (taken_over db c u) c.provider c.subject ≡ some i)
        × (i.user_id ≡ u.id)
  unfolding identity_of
  taken_over-identity db c u =
      link_identity-owner (purge db u.id).identities u.id c.provider c.subject

  taken_over-IsUntouched :
      (db : Tables) (c : Claims) (u : User) (other : ℕ)
      → identity_of db c.provider c.subject ≡ none
      → other ≢ u.id
      → IsUntouched db (taken_over db c u) other
  unfolding identity_of
  taken_over-IsUntouched db c u other e ne =
      let same = purge-IsUntouched db u.id other ne in
      record {
        same_identities =
            link_identity_others (purge db u.id).identities u.id other c.provider c.subject ne (
              purge-narrow db u.id (of_provider c.provider c.subject)
                (first-any (of_provider c.provider c.subject) db.identities e))
            ∙ same.same_identities;
        same_sessions = same.same_sessions;
        same_codes = same.same_codes;
        same_links = same.same_links;
      }

  -- A verified login of a subject that no identity holds, with an address that an account holds
  -- unproven, takes the account over: it signs in as that account, which is left with the login's own
  -- identity and no other, no session, no login code and no magic link, and what any other account
  -- holds does not change. The address is not empty once trimmed, ids are not 0, and no second
  -- account holds the address.
  pub upsert_squatted :
      (db : Tables) (raw : Claims) (u : User)
      → let c = folded go raw in
        c.email ≢ ""
        → identity_of db c.provider c.subject ≡ none
        → c.email_verified ≡ true
        → user_by_email db c.email ≡ some u
        → u.email_verified ≡ false
        → u.id ≢ 0
        → any (λ v. v.email == c.email && not (v.id == u.id)) db.users ≡ false
        → (db' : Tables) × (upsert_from_oidc go db raw ≡ ok (db', u.id))
          × ((i : StoredIdentity) × (identity_of db' c.provider c.subject ≡ some i)
              × (i.user_id ≡ u.id))
          × IsStripped db' u.id (of_provider c.provider c.subject)
          × ((other : ℕ) → other ≢ u.id → IsUntouched db db' other)
  unfolding upsert_from_oidc purge update_user
  upsert_squatted db raw u ne e v f n ze d =
      let c = folded go raw in
      (
        taken_over db c u,
        rw (resolve-of_email db c u e v f n ze) (ground (arith, beq_iff c.email "")),
        taken_over-identity db c u,
        taken_over-IsStripped db c u,
        λ other. taken_over-IsUntouched db c u other e,
      )

  -- An address is never enough: claims whose subject is unknown, and whose address an account
  -- holds, are refused when the provider did not verify the address, and when the account's own
  -- address is verified and it already holds an identity of the provider. Nothing is written then.
  pub upsert_refused :
      (db : Tables) (raw : Claims) (u : User)
      → let c = folded go raw in
        c.email ≢ ""
        → identity_of db c.provider c.subject ≡ none
        → user_by_email db c.email ≡ some u
        → (c.email_verified ≡ false)
          ⊎ ((u.email_verified ≡ true)
              × (any (λ i. i.user_id == u.id && i.provider == c.provider) db.identities ≡ true))
        → upsert_from_oidc go db raw ≡ err (refusal c)
  unfolding upsert_from_oidc user_by_email
  upsert_refused db raw u ne e f h =
      let c = folded go raw in
      ground (arith, beq_iff c.email "", any-first-some (λ w. w.email == c.email) db.users u f)

  abbrev ByEmail : Tables → Claims → ℕ → Type 0
  ByEmail db c id =
      (c.email_verified ≡ true)
      × ((u : User) × (user_by_email db c.email ≡ some u)
          × (u.id ≡ id)
          × ((u.email_verified ≡ false)
              ⊎ (any (λ i. i.user_id == id && i.provider == c.provider) db.identities ≡ false)))

  resolve-of_identity :
      (db db' : Tables) (c : Claims) (i : StoredIdentity) (id : ℕ)
      → identity_of db c.provider c.subject ≡ some i
      → resolve_or_create go db c ≡ ok (db', id)
      → i.user_id ≡ id
  unfolding resolve_or_create update_user
  resolve-of_identity db db' c i id e h = ground arith

  resolve_new :
      (db db' : Tables) (c : Claims) (id : ℕ)
      → db.next_user ≢ 0
      → resolve_or_create go db c ≡ ok (db', id)
      → identity_of db c.provider c.subject ≡ none
      → user_by_email db c.email ≡ none
      → (id ≡ db.next_user) × (any (λ u. u.email == c.email) db.users ≡ false)
  unfolding resolve_or_create user_by_email
  resolve_new db db' c id pos h e f =
      let free : any (λ u. u.email == c.email) db.users ≡ false =
        first-any (λ u. u.email == c.email) db.users f in
      (ground arith, free)

  resolve_address :
      (db db' : Tables) (c : Claims) (id : ℕ) (u : User)
      → resolve_or_create go db c ≡ ok (db', id)
      → identity_of db c.provider c.subject ≡ none
      → user_by_email db c.email ≡ some u
      → ByEmail db c id
  unfolding resolve_or_create update_user user_by_email
  resolve_address db db' c id u h e f =
      let held : any (λ w. w.email == c.email) db.users ≡ true =
        any-first-some (λ w. w.email == c.email) db.users u f in
      let same : u.id ≡ id = ground arith in
      (ground arith, (u, f, same, rw (← same) (ground arith)))

  resolve_landing :
      (db db' : Tables) (c : Claims) (id : ℕ)
      → db.next_user ≢ 0
      → resolve_or_create go db c ≡ ok (db', id)
      → ((i : StoredIdentity) × (identity_of db c.provider c.subject ≡ some i) × (i.user_id ≡ id))
        ⊎ ((identity_of db c.provider c.subject ≡ none)
            × (ByEmail db c id
                ⊎ ((id ≡ db.next_user) × (any (λ u. u.email == c.email) db.users ≡ false))))
  unfolding resolve_or_create update_user
  resolve_landing db db' c id pos h = elim (Option-cases (identity_of db c.provider c.subject)) [
    | inl e ↦ inr (
      e,
      elim (Option-cases (user_by_email db c.email)) [
        | inl f ↦ inr (resolve_new db db' c id pos h e f)
        | inr (u, f) ↦ inl (resolve_address db db' c id u h e f)
      ],
    )
    | inr (i, e) ↦ inl (i, e, ground arith)
  ]

  pub upsert-resolve :
      (db db' : Tables) (raw : Claims) (id : ℕ)
      → upsert_from_oidc go db raw ≡ ok (db', id)
      → (mid : Tables) × (resolve_or_create go db (folded go raw) ≡ ok (mid, id))
        × (db'.identities ≡ link_identity mid.identities id raw.provider raw.subject)
  unfolding upsert_from_oidc
  upsert-resolve db db' raw id h = elim (Outcome-cases (resolve_or_create go db (folded go raw))) [
    | inl ((mid, found), e) ↦
        let same : found ≡ id = ground arith in (mid, ground arith, ground arith)
    | inr (x, e) ↦ absurd (ground arith)
  ]

  -- Where a login may land: on the account that already holds its subject; else, with a verified
  -- address only, on the account that holds the address, if that account's own address is unproven
  -- or it holds no identity of the provider; else on an account that did not exist, under an
  -- address that no account holds. Ids are not 0.
  pub upsert_landing :
      (db db' : Tables) (raw : Claims) (id : ℕ)
      → db.next_user ≢ 0
      → upsert_from_oidc go db raw ≡ ok (db', id)
      → let c = folded go raw in
        ((i : StoredIdentity) × (identity_of db c.provider c.subject ≡ some i) × (i.user_id ≡ id))
        ⊎ ((identity_of db c.provider c.subject ≡ none)
            × (((c.email_verified ≡ true)
                  × ((u : User) × (user_by_email db c.email ≡ some u)
                      × (u.id ≡ id)
                      × ((u.email_verified ≡ false)
                          ⊎ (any (λ i. i.user_id == id && i.provider == c.provider) db.identities
                              ≡ false))))
                ⊎ ((id ≡ db.next_user) × (any (λ u. u.email == c.email) db.users ≡ false))))
  upsert_landing db db' raw id pos h =
      let (mid, e, _) = upsert-resolve db db' raw id h in
      resolve_landing db mid (folded go raw) id pos e

  -- A login is stable: after a login, every later one with the same provider and subject that
  -- succeeds signs in as the same account, whatever its address says by then.
  pub upsert_again :
      (db db' db'' : Tables) (raw later : Claims) (id id' : ℕ)
      → upsert_from_oidc go db raw ≡ ok (db', id)
      → later.provider ≡ raw.provider
      → later.subject ≡ raw.subject
      → upsert_from_oidc go db' later ≡ ok (db'', id')
      → id' ≡ id
  unfolding identity_of
  upsert_again db db' db'' raw later id id' h p s k =
      let (mid, _, linked) = upsert-resolve db db' raw id h in
      let (i, found, owner) = link_identity-owner mid.identities id raw.provider raw.subject in
      let held : identity_of db' later.provider later.subject ≡ some i = rw (p, s, linked) found in
      let (mid', e', _) = upsert-resolve db' db'' later id' k in
      sym (resolve-of_identity db' mid' (folded go later) i id' held e') ∙ owner
