-- ===== src/Pg/Identities.antt =====
-- The accounts and identity rows of pg/pg.go: local accounts, Save and MarkRolesSynced. The sealing
-- of tokens and the encoding of roles, which a read undoes, are not modelled.
pub mod Saving
pub mod Accounts
mod Tests
use porte.Base.{
  ℕ, zero, suc, ◌+◌, ◌-◌, ◌/◌, ◌≤◌, ◌<◌, String, List, [], ◌∷◌, ◌++◌, Bool, true, false, not, ◌&&◌,
  ◌||◌, Option, none, some, ◌≡◌, ◌≢◌, refl, sym, ap, ◌∙◌, subst, ◌↔◌, ◌⊎◌, inl, inr, Memᴰ,
  string_eq, nat_eq, ◌==◌, beq_iff, beq_refl, ltb, leb, if◌then◌else◌, Bool-cases, Option-cases,
  length, All, keep, tally, map, arith, tests, first, any, amend,
}
use porte.Pg.Tables.{
  User, StoredIdentity, Tables, not_found, duplicate, Outcome, ok, err, of_provider, identity_of,
  user_by_email,
}

abbrev pub provider_local : String
provider_local = "local"

-- INSERT INTO porte_users, the columns that it does not name at their defaults.
unfoldable pub create_from_password : Tables → String → String → Outcome (Tables × ℕ)
create_from_password db email name =
    if any (λ u. u.email == email) db.users
    then err duplicate
    else ok (record db { users = db.users ++ row ∷ []; next_user = suc db.next_user }, db.next_user)
  where
    row : User
    row = record {
      id = db.next_user;
      email = email;
      email_verified = false;
      name = name;
      avatar_url = "";
      avatar_source = "";
      locale = "en";
    }

unfoldable pub find_by_email : Tables → String → Outcome ℕ
find_by_email db email = elim (user_by_email db email) [ none ↦ err not_found | some u ↦ ok u.id ]

unfoldable pub find : Tables → String → String → Outcome StoredIdentity
find db provider subject = elim (identity_of db provider subject) [
  | none ↦ err not_found
  | some i ↦ ok i
]

abbrev pub is_mine : StoredIdentity → StoredIdentity → Bool
is_mine i r = of_provider i.provider i.subject r && r.user_id == i.user_id

-- The insert that runs while the account holds this very identity, or none of its provider; on a
-- conflict the row is overwritten if it is the account's own. No row written is a refusal.
unfoldable pub save_federated : Tables → StoredIdentity → Outcome Tables
save_federated db i =
    if any (is_mine i) db.identities
    then ok (record db { identities = amend (is_mine i) (λ r. i) db.identities })
    else if any (λ r. r.provider == i.provider && r.user_id == i.user_id) db.identities
    then err not_found
    else if any (of_provider i.provider i.subject) db.identities
    then err not_found
    else ok (record db { identities = db.identities ++ i ∷ [] })

-- INSERT … ON CONFLICT (provider, subject) DO UPDATE of every other column.
unfoldable pub save : Tables → StoredIdentity → Outcome Tables
unfolding save_federated
save db i =
    if not (i.provider == provider_local)
    then save_federated db i
    else if any (of_provider i.provider i.subject) db.identities
    then ok
        (record db { identities = amend (of_provider i.provider i.subject) (λ r. i) db.identities })
    else ok (record db { identities = db.identities ++ i ∷ [] })

unfoldable pub mark_roles_synced : Tables → String → String → ℕ → Outcome Tables
mark_roles_synced db provider subject at =
    if any (of_provider provider subject) db.identities
    then ok (record db {
      identities =
          amend (of_provider provider subject) (λ r. record r { roles_synced_at = at })
            db.identities;
    })
    else err not_found
