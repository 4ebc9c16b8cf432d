-- ===== src/Pg/Linking.antt =====
-- pg/linking.go, pg/takeover.go and the purge of pg/optional.go: from a callback's claims to a user.
pub mod Purging
pub mod Matching
pub mod Sparing
use porte.Base.{
  ℕ, zero, suc, ◌+◌, ◌-◌, ◌≤◌, ◌<◌, String, List, [], ◌∷◌, ◌++◌, Bool, true, false, not, ◌&&◌, ◌||◌,
  Option, none, some, ◌≡◌, ◌≢◌, refl, sym, ap, ◌∙◌, subst, ◌↔◌, ◌⊎◌, inl, inr, Memᴰ, string_eq,
  nat_eq, ◌==◌, beq_iff, beq_refl, ltb, leb, if◌then◌else◌, Bool-cases, Option-cases, length, All,
  keep, tally, map, arith, tests, first, any, amend,
}
use porte.Base.Strings.{GoStrings}
use porte.Base.Locale.{normalize_locale}
use porte.Pg.Tables.{
  User, TokenSet, StoredIdentity, Session, CodeRow, LinkRow, Tables, Failure, no_email, duplicate,
  refused_unverified, refused_linked, Outcome, ok, err, ◌>>=◌, of_provider, identity_of,
  user_by_email,
}

-- porte.Claims, the fields that the store reads.
pub record Claims : Type 0 where
  pub provider : String
  pub subject : String
  pub email : String
  pub email_verified : Bool
  pub name : String
  pub preferred_username : String
  pub given_name : String
  pub family_name : String
  pub locale : String
  pub avatar_url : String

pub record Match : Type 0 where
  pub user_id : ℕ
  pub by_email : Bool
  pub unverified : Bool
  pub inserted : Bool

abbrev pub no_match : Match
no_match = record { user_id = 0; by_email = false; unverified = false; inserted = false }

-- COALESCE(NULLIF(new, ''), old)
abbrev pub coalesce : String → String → String
coalesce new old = if new == "" then old else new

abbrev pub refusal : Claims → Failure
refusal c = if not c.email_verified then refused_unverified else refused_linked

-- DELETE FROM each table that holds rows of the user; an optional one only if it exists.
unfoldable pub purge : Tables → ℕ → Tables
purge db id = record db {
  identities = keep (λ i. not (i.user_id == id)) db.identities;
  sessions = keep (λ s. not (s.user_id == id)) db.sessions;
  codes = if db.has_codes then keep (λ r. not (r.code.user_id == id)) db.codes else db.codes;
  links = if db.has_links then keep (λ r. not (r.link.user_id == id)) db.links else db.links;
}

-- The row that links an identity, its other columns at their defaults.
abbrev pub new_identity : ℕ → String → String → StoredIdentity
new_identity id provider subject = record {
  user_id = id;
  provider = provider;
  subject = subject;
  password_hash = "";
  tokens = record { access_token = ""; refresh_token = ""; expiry = 0 };
  roles = [];
  roles_synced_at = 0;
  synced_at = 0;
}

-- INSERT … ON CONFLICT (provider, subject) DO UPDATE SET user_id
unfoldable pub link_identity : List StoredIdentity → ℕ → String → String → List StoredIdentity
link_identity rows id provider subject =
    if any (of_provider provider subject) rows
    then amend (of_provider provider subject) (λ i. record i { user_id = id }) rows
    else rows ++ new_identity id provider subject ∷ []

module _ (go : GoStrings) where
  unfoldable pub display_name : Claims → String
  display_name c =
      if not (c.name == "")
      then c.name
      else if not (c.preferred_username == "")
      then c.preferred_username
      else go.trim_space (go.append (go.append c.given_name " ") c.family_name)

  unfoldable pub kept_locale : String → String
  kept_locale claimed = if claimed == "" then "" else normalize_locale go claimed

  unfoldable pub by_verified_email : Tables → Claims → Option Match
  by_verified_email db c = elim (user_by_email db c.email) [
    | none ↦ none
    | some u ↦
        let linked = any (λ i. i.user_id == u.id && i.provider == c.provider) db.identities in
        if not u.email_verified || not linked
        then some (record {
          user_id = u.id;
          by_email = true;
          unverified = not u.email_verified;
          inserted = false;
        })
        else none
  ]

  unfoldable pub existing_user : Tables → Claims → Option Match
  unfolding by_verified_email
  existing_user db c = elim (identity_of db c.provider c.subject) [
    | some i ↦ some (record no_match { user_id = i.user_id })
    | none ↦ if not c.email_verified then none else by_verified_email db c
  ]

  -- The new user's id, 0 when the email is taken.
  unfoldable pub insert_user : Tables → Claims → Tables × ℕ
  unfolding display_name
  insert_user db c =
      if any (λ u. u.email == c.email) db.users
      then (db, 0)
      else (record db { users = db.users ++ row ∷ []; next_user = suc db.next_user }, db.next_user)
    where
      row : User
      row = record {
        id = db.next_user;
        email = c.email;
        email_verified = c.email_verified;
        name = display_name c;
        avatar_url = c.avatar_url;
        avatar_source = if c.avatar_url == "" then "" else "oidc";
        locale = normalize_locale go c.locale;
      }

  abbrev pub or_no_match : Option Match → Match
  or_no_match none = no_match
  or_no_match (some m) = m

  unfoldable pub find_or_insert : Tables → Claims → Tables × Match
  unfolding insert_user existing_user
  find_or_insert db c = elim (existing_user db c) [
    | some found ↦ (db, found)
    | none ↦
        let (db', id) = insert_user db c in
        if not (id == 0)
        then (db', record { user_id = id; by_email = false; unverified = false; inserted = true })
        else (db', or_no_match (existing_user db' c))
  ]

  unfoldable pub refresh : Claims → User → User
  unfolding display_name kept_locale
  refresh c u = record u {
    email = if c.email_verified then c.email else u.email;
    email_verified = u.email_verified || c.email_verified;
    name = coalesce (display_name c) u.name;
    avatar_url = coalesce c.avatar_url u.avatar_url;
    avatar_source = if c.avatar_url == "" then u.avatar_source else "oidc";
    locale = coalesce (kept_locale c.locale) u.locale;
  }

  -- The UPDATE of a matched user's profile; the unique email column may refuse it.
  unfoldable pub update_user : Tables → ℕ → Claims → Outcome Tables
  update_user db id c =
      if c.email_verified && any (λ u. u.email == c.email && not (u.id == id)) db.users
      then err duplicate
      else ok (record db { users = amend (λ u. u.id == id) (refresh c) db.users })

  abbrev pub refreshed : Tables → ℕ → Claims → Outcome (Tables × ℕ)
  refreshed db id c = update_user db id c >>= λ db'. ok (db', id)

  unfoldable pub resolve_or_create : Tables → Claims → Outcome (Tables × ℕ)
  unfolding find_or_insert
  resolve_or_create db c =
      let (db', found) = find_or_insert db c in
      if found.inserted
      then ok (db', found.user_id)
      else if found.user_id == 0
      then err (refusal c)
      else if found.by_email && found.unverified
      then refreshed (purge db' found.user_id) found.user_id c
      else refreshed db' found.user_id c

  -- The claims with the address trimmed and lowercased.
  abbrev pub folded : Claims → Claims
  folded raw = record raw { email = go.to_lower (go.trim_space raw.email) }

  unfoldable pub upsert_from_oidc : Tables → Claims → Outcome (Tables × ℕ)
  unfolding resolve_or_create
  upsert_from_oidc db raw =
      let c = folded raw in
      if c.email == ""
      then err no_email
      else resolve_or_create db c >>= λ r. ok (
        record (r.0) { identities = link_identity (r.0).identities r.1 c.provider c.subject },
        r.1,
      )
