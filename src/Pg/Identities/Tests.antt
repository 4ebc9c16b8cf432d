-- ===== src/Pg/Identities/Tests.antt =====
-- Runs of the identity rows at concrete inputs.
use porte.Base.{[], ◌∷◌, true, not, none, some, ◌≡◌, refl, string_eq, nat_eq, ◌==◌, keep}
use porte.Base.{text_ne}
use porte.Pg.Tables.{
  StoredIdentity, Tables, not_found, ok, err, of_provider, identity_of, user_by_email,
}
use porte.Pg.Linking.{
  upsert_from_oidc, new_identity, resolve_or_create, find_or_insert, existing_user,
  by_verified_email, display_name, link_identity, update_user, refresh, kept_locale, purge,
}
use porte.Pg.Linking.Purging.{IsStripped}
use porte.Pg.Erase.{erase_identity}
use porte.Pg.Identities.{
  save, save_federated, create_from_password, find_by_email, find, mark_roles_synced,
}
use porte.Pg.Identities.Saving.{save-identity_of, save-upsert_squatted, save-erase_identity}
use porte.Pg.Tests.{go, db, claims, account}

abbrev bobs_identity : StoredIdentity
bobs_identity = new_identity 2 "https://sso" "bob"

abbrev refreshed : StoredIdentity
refreshed = record bobs_identity { roles = "admin" ∷ []; roles_synced_at = 7 }

abbrev db_refreshed : Tables
db_refreshed = record db { identities = new_identity 1 "local" "ada" ∷ refreshed ∷ [] }

save-identity_of_run :
    (r' : StoredIdentity) × (identity_of db_refreshed "local" "ada" ≡ some r') × (r'.user_id ≡ 1)
unfolding identity_of save save_federated
save-identity_of_run =
    save-identity_of db db_refreshed refreshed (new_identity 1 "local" "ada") "local" "ada"
      (text_ne "https://sso" "local" refl) refl refl

-- Ada's squatted account after the owner of the address signed in.
abbrev taken : Tables
taken = record db {
  users = record (account 1 "ada@a" true) { name = "Ada" } ∷ account 2 "bob@b" true ∷ [];
  identities = bobs_identity ∷ new_identity 1 "https://sso" "ada" ∷ [];
  sessions = keep (λ s. not (s.user_id == 1)) db.sessions;
}

upsert_taken : upsert_from_oidc go db (claims "ada" "ada@a" true) ≡ ok (taken, 1)
unfolding upsert_from_oidc resolve_or_create find_or_insert existing_user by_verified_email
    display_name link_identity identity_of user_by_email update_user refresh kept_locale purge
upsert_taken = refl

taken-IsStripped : IsStripped taken 1 (of_provider "https://sso" "ada")
taken-IsStripped = record {
  sole = refl;
  no_session = refl;
  no_code = λ _. refl;
  no_link = λ _. refl;
}

save-upsert_squatted_run : save taken (new_identity 1 "https://sso" "squatter") ≡ err not_found
save-upsert_squatted_run =
    save-upsert_squatted go db taken (claims "ada" "ada@a" true)
      (new_identity 1 "https://sso" "squatter") upsert_taken taken-IsStripped
      (text_ne "https://sso" "local" refl) refl (text_ne "squatter" "ada" refl)

save-erase_identity_example :
    (db' : Tables) × (erase_identity db "https://sso" "bob" ≡ ok db')
    × (identity_of db' "https://sso" "bob" ≡ none)
    × ((db'' : Tables) × (save db' bobs_identity ≡ ok db'')
        × (identity_of db'' "https://sso" "bob" ≡ some bobs_identity))
unfolding identity_of
save-erase_identity_example =
    save-erase_identity db bobs_identity refl (text_ne "https://sso" "local" refl) refl

-- A registration, and the stamp of a role refresh.
registered :
    elim (create_from_password db "eve@e" "Eve") [
      | ok (db', id) ↦ find_by_email db' "eve@e"
      | err e ↦ err e
    ]
    ≡ ok 3
unfolding create_from_password find_by_email user_by_email
registered = refl

stamped_roles :
    elim (mark_roles_synced db "https://sso" "bob" 9) [
      | ok db' ↦ find db' "https://sso" "bob"
      | err e ↦ err e
    ]
    ≡ ok (record bobs_identity { roles_synced_at = 9 })
unfolding mark_roles_synced find identity_of
stamped_roles = refl
