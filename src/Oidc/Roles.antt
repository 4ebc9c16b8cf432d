-- ===== src/Oidc/Roles.antt =====
-- oidc/middleware.go, and handleSyncProfile with identityFor of oidc/handlers.go. When the roles were
-- read is not part of an Identity here.
pub mod Throttled
mod Tests
use porte.Base.{
  ℕ, zero, suc, ◌+◌, ◌-◌, ◌/◌, ◌≤◌, ◌<◌, String, List, [], ◌∷◌, ◌++◌, Bool, true, false, not, ◌&&◌,
  ◌||◌, Option, none, some, ◌≡◌, ◌≢◌, refl, sym, ap, ◌∙◌, subst, ◌↔◌, ◌⊎◌, inl, inr, Memᴰ,
  string_eq, nat_eq, ◌==◌, beq_iff, beq_refl, ltb, leb, if◌then◌else◌, Bool-cases, Option-cases,
  length, All, keep, tally, map, arith, tests, first, any, amend,
}
use porte.Pg.Tables.{TokenSet, StoredIdentity, Tables, Outcome}
use porte.Pg.Linking.{Claims, upsert_from_oidc}
use porte.Pg.Identities
use porte.Session.Manager.{Identity}
use porte.Oidc.Claims.{
  RawClaims, IdToken, Asserted, claims_from_id_token, claims_enabled, extra_claims, asserted_by,
}
use porte.Oidc.Kit.{Kit, Token, UserInfo}
use porte.Oidc.Callback.{sync_avatar}

-- What a request of a signed-in caller leaves: the tables and whether the profile was synced.
pub data ProfileReply : Type 0 where
  synced : Bool → ProfileReply
  unauthorized internal failed : ProfileReply

abbrev pub profile_sync_interval : ℕ
profile_sync_interval = 300000000000

abbrev pub roles_stale : StoredIdentity → ℕ → ℕ → Bool
roles_stale i now ttl = i.roles_synced_at == 0 || leb ttl (now - i.roles_synced_at)

abbrev no_tokens : TokenSet
no_tokens = record { access_token = ""; refresh_token = ""; expiry = 0 }

-- The tables after a statement whose failure is only logged.
abbrev pub or_same : Tables → Outcome Tables → Tables
or_same db (Outcome.ok db') = db'
or_same db (Outcome.err e) = db

module _ (k : Kit) where
  -- The user's row of this provider.
  abbrev pub identity_for : Tables → ℕ → Option StoredIdentity
  identity_for db user =
      first (λ i. i.user_id == user && i.provider == k.cfg.base.issuer) db.identities

  -- The roles of a fresh id_token, none when the refresh fails on the way to it.
  unfoldable pub fresh_roles : StoredIdentity → Option (TokenSet × List String)
  fresh_roles stored =
      if stored.tokens.refresh_token == "" then none else elim (k.provider.renew stored.tokens) [
        | none ↦ none
        | some token ↦ elim token.id_token [
          | none ↦ none
          | some raw ↦ elim (k.provider.verify raw) [
            | none ↦ none
            | some id ↦
                elim (claims_from_id_token k.sessions.strings k.cfg.base.issuer k.cfg.trust id) [
                  | none ↦ none
                  | some a ↦ some (token.tokens, a.roles)
                ]
          ]
        ]
      ]

  unfoldable pub refresh_roles : StoredIdentity → ℕ → Tables → Tables × Option StoredIdentity
  unfolding fresh_roles
  refresh_roles stored now db = elim (fresh_roles stored) [
    | none ↦ (db, none)
    | some (tokens, roles) ↦
        let row = record stored { tokens = tokens; roles = roles; roles_synced_at = now } in
        elim (Identities.save db row) [
          | Outcome.err e ↦ (db, none)
          | Outcome.ok db' ↦ (db', some row)
        ]
  ]

  -- A refresh that fails keeps the cached roles, and counts as one all the same.
  abbrev pub refreshed :
      StoredIdentity → ℕ → Identity → Tables × Option StoredIdentity → Tables × Identity
  refreshed stored now identity (db, none) = (
    or_same db (Identities.mark_roles_synced db stored.provider stored.subject now),
    record identity { roles = stored.roles },
  )
  refreshed stored now identity (db, some row) = (db, record identity { roles = row.roles })

  unfoldable pub attach : Identity → ℕ → Tables → Tables × Identity
  unfolding refresh_roles
  attach identity now db =
      if not (claims_enabled k.cfg.trust)
      then (db, identity)
      else elim (identity_for db identity.user_id) [
        | none ↦ (db, identity)
        | some stored ↦
            if not (roles_stale stored now k.cfg.claims_ttl)
            then (db, record identity { roles = stored.roles })
            else refreshed stored now identity (refresh_roles stored now db)
      ]

  abbrev pub saved : Tables → StoredIdentity → Tables
  saved db row = or_same db (Identities.save db row)

  -- The claims of a userinfo response; an empty address is the caller's own.
  abbrev pub profile_of : StoredIdentity → String → RawClaims → List (String × String) → Asserted
  profile_of stored email raw extra =
      let id : IdToken = record {
        subject = stored.subject;
        nonce = "";
        claims = some raw;
        roles = none;
        all_claims = none;
        events = none;
      } in
      let a =
        asserted_by k.sessions.strings stored.provider k.cfg.trust id raw stored.roles extra in
      record a {
        claims = record (a.claims) {
          email = if a.claims.email == "" then email else a.claims.email;
        };
      }

  -- The tokens that the source holds after the call, renewed where it can.
  abbrev pub renewed : TokenSet → TokenSet
  renewed tokens = elim (k.provider.renew tokens) [ none ↦ tokens | some token ↦ token.tokens ]

  unfoldable pub write_profile : StoredIdentity → Asserted → ℕ → Tables → Tables × ProfileReply
  unfolding sync_avatar
  write_profile stored a now db =
      elim (upsert_from_oidc k.sessions.strings db
        (record (a.claims) { avatar_url = sync_avatar k a })) [
          | Outcome.err e ↦ (db, failed)
          | Outcome.ok (db', user) ↦
              elim (Identities.save db'
                (record stored { tokens = renewed stored.tokens; synced_at = now })) [
                  | Outcome.err e ↦ (db', internal)
                  | Outcome.ok db'' ↦ (db'', synced true)
                ]
        ]

  unfoldable pub sync_with : StoredIdentity → String → UserInfo → ℕ → Tables → Tables × ProfileReply
  unfolding write_profile asserted_by extra_claims
  sync_with stored email info now db =
      if not (info.subject == stored.subject) then (db, unauthorized) else elim info.claims [
        | none ↦ (db, internal)
        | some raw ↦ elim (extra_claims k.cfg.trust.extra_claims info.all_claims) [
          | none ↦ (db, internal)
          | some extra ↦ write_profile stored (profile_of stored email raw extra) now db
        ]
      ]

  -- `email` is the caller's, who is none when nobody is signed in.
  unfoldable pub handle_sync_profile : Option Identity → String → ℕ → Tables → Tables × ProfileReply
  unfolding sync_with
  handle_sync_profile none email now db = (db, unauthorized)
  handle_sync_profile (some identity) email now db = elim (identity_for db identity.user_id) [
    | none ↦ (db, synced false)
    | some stored ↦
        if stored.tokens.access_token == ""
        then (db, synced false)
        else if not (stored.synced_at == 0) && ltb (now - stored.synced_at) profile_sync_interval
        then (db, synced false)
        else elim (k.provider.user_info stored.tokens) [
          | none ↦ (saved db (record stored { tokens = no_tokens; synced_at = now }), synced false)
          | some info ↦ sync_with stored email info now db
        ]
  ]
