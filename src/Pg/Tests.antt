-- ===== src/Pg/Tests.antt =====
-- Runs of the porte/pg stores at concrete inputs.
use porte.Base.{
  ℕ, ◌<◌, String, List, [], ◌∷◌, ◌++◌, Bool, true, false, ◌&&◌, none, some, ◌≡◌, ◌≢◌, refl, ◌↔◌,
  ◌⊎◌, inl, inr, Memᴰ, string_eq, nat_eq, ◌==◌, All, tally, arith, any, text_ne,
}
use porte.Base.Strings.{GoStrings}
use porte.Pg.Tables.{
  User, StoredIdentity, Session, LoginCode, MagicLink, Tables, not_found, duplicate, code_consumed,
  ok, err, of_provider, identity_of, user_by_email,
}
use porte.Pg.Linking.{
  Claims, upsert_from_oidc, refusal, new_identity, resolve_or_create, find_or_insert, existing_user,
  by_verified_email, insert_user, display_name, link_identity, update_user, refresh, kept_locale,
}
use porte.Base.Locale.{normalize_locale, cut_before}
use porte.Pg.Linking.Purging.{IsStripped, IsUntouched}
use porte.Pg.Linking.Matching.{upsert_squatted, upsert_refused, upsert_landing, upsert_again}
use porte.Pg.Sessions
use porte.Pg.Sessions.Revoking.{
  IsBoundTo, creates, erase_identity-creates, find-create, delete_logins_spares, find-delete,
}
use porte.Pg.Erase.{erase_identity}
use porte.Pg.Links
use porte.Pg.Links.Spending
use porte.Pg.Links.Spending.{consumes, sweeps, run, IsOther, consume_once, create_supersedes}
use porte.Pg.Codes
use porte.Pg.Codes.Exchange.{consume_replayed}

-- Strings that are lower case and trimmed already.
abbrev pub go : GoStrings
go = record {
  to_lower = λ s. s;
  trim_space = λ s. s;
  append = λ s t. s;
  equal_fold = λ s t. s == t;
}

abbrev bob_id : ℕ
bob_id = 2

abbrev carol_id : ℕ
carol_id = 3

abbrev nobody : ℕ
nobody = 0

abbrev pub account : ℕ → String → Bool → User
account id email verified = record {
  id = id;
  email = email;
  email_verified = verified;
  name = "";
  avatar_url = "";
  avatar_source = "";
  locale = "en";
}

abbrev session : ℕ → String → ℕ → String → Session
session id hash user label = record {
  id = id;
  token_hash = hash;
  user_id = user;
  label = label;
  created_at = 0;
  last_used_at = 0;
  expires_at = 0;
  provider = "";
  subject = "";
  issued_by = 0;
}

abbrev link : String → MagicLink
link hash = record { token_hash = hash; user_id = 2; created_at = 5; expires_at = 9; ip = "" }

abbrev sso_code : LoginCode
sso_code = record { code_hash = "c1"; user_id = 2; expires_at = 9; provider = ""; subject = "" }

-- Ada squats on an address with a password; Bob's account is federated.
abbrev pub db : Tables
db = record {
  users = account 1 "ada@a" false ∷ account 2 "bob@b" true ∷ [];
  identities = new_identity 1 "local" "ada" ∷ new_identity 2 "https://sso" "bob" ∷ [];
  sessions = session 1 "h1" 1 "" ∷ session 2 "h2" 2 "" ∷ session 3 "h3" 2 "cli" ∷ [];
  codes = record { code = sso_code; consumed_at = none } ∷ [];
  links = record { link = link "l1"; consumed_at = none } ∷ [];
  next_user = 3;
  next_session = 4;
  has_codes = true;
  has_links = true;
}

abbrev pub claims : String → String → Bool → Claims
claims subject email verified = record {
  provider = "https://sso";
  subject = subject;
  email = email;
  email_verified = verified;
  name = "Ada";
  preferred_username = "";
  given_name = "";
  family_name = "";
  locale = "";
  avatar_url = "";
}

upsert_squatted_example :
    (db' : Tables) × (upsert_from_oidc go db (claims "ada" "ada@a" true) ≡ ok (db', 1))
    × ((i : StoredIdentity) × (identity_of db' "https://sso" "ada" ≡ some i) × (i.user_id ≡ 1))
    × IsStripped db' 1 (of_provider "https://sso" "ada")
    × ((other : ℕ) → other ≢ 1 → IsUntouched db db' other)
unfolding identity_of user_by_email
upsert_squatted_example =
    upsert_squatted go db (claims "ada" "ada@a" true) (account 1 "ada@a" false)
      (text_ne "ada@a" "" refl) refl refl refl refl (ground arith) refl

-- Bob's provider verifies for him the address that the unproven account squats on: no takeover.
squat_locks_out : upsert_from_oidc go db (claims "bob" "ada@a" true) ≡ err duplicate
unfolding upsert_from_oidc resolve_or_create find_or_insert existing_user update_user identity_of
    user_by_email
squat_locks_out = refl

-- Another subject of the same provider claims Bob's address.
upsert_refused_example :
    upsert_from_oidc go db (claims "eve" "bob@b" true) ≡ err (refusal (claims "eve" "bob@b" true))
unfolding identity_of user_by_email
upsert_refused_example =
    upsert_refused go db (claims "eve" "bob@b" true) (account 2 "bob@b" true)
      (text_ne "bob@b" "" refl) refl refl (inr (refl, refl))

abbrev carol : Claims
carol = claims "carol" "carol@c" false

abbrev with_carol : Tables
with_carol = record db {
  users = db.users ++ record (account 3 "carol@c" false) { name = "Ada" } ∷ [];
  identities = db.identities ++ new_identity 3 "https://sso" "carol" ∷ [];
  next_user = 4;
}

upsert_carol : upsert_from_oidc go db carol ≡ ok (with_carol, 3)
unfolding upsert_from_oidc resolve_or_create find_or_insert existing_user by_verified_email
    insert_user display_name link_identity identity_of user_by_email normalize_locale cut_before
upsert_carol = refl

-- Carol comes back with Ada's address, verified by now: still Carol's account, if it succeeds.
abbrev carol_again : Claims
carol_again = claims "carol" "carol@d" true

abbrev carol_moved : Tables
carol_moved = record with_carol {
  users = db.users ++ record (account 3 "carol@d" true) { name = "Ada" } ∷ [];
}

upsert_carol_again : upsert_from_oidc go with_carol carol_again ≡ ok (carol_moved, 3)
unfolding upsert_from_oidc resolve_or_create find_or_insert existing_user by_verified_email
    insert_user display_name link_identity identity_of user_by_email normalize_locale cut_before
    update_user refresh kept_locale
upsert_carol_again = refl

upsert_landing_example :
    ((i : StoredIdentity) × (identity_of db "https://sso" "carol" ≡ some i) × (i.user_id ≡ 3))
    ⊎ ((identity_of db "https://sso" "carol" ≡ none)
        × (((false ≡ true)
              × ((u : User) × (user_by_email db "carol@c" ≡ some u)
                  × (u.id ≡ 3)
                  × ((u.email_verified ≡ false)
                      ⊎ (any
                            (λ i. i.user_id == carol_id && i.provider == "https://sso")
                            db.identities
                          ≡ false))))
            ⊎ ((carol_id ≡ carol_id) × (any (λ u. u.email == "carol@c") db.users ≡ false))))
upsert_landing_example = upsert_landing go db with_carol carol 3 (ground arith) upsert_carol

upsert_again_run : carol_id ≡ carol_id
upsert_again_run =
    upsert_again go db with_carol carol_moved carol carol_again 3 3 upsert_carol refl refl
      upsert_carol_again

abbrev late : List Session
late =
    record (session 0 "h9" 2 "") { provider = "https://sso"; subject = "bob" }
    ∷ record (session 0 "h8" 2 "cli") { issued_by = 2 }
    ∷ []

late-IsBoundTo : All (IsBoundTo "https://sso" "bob" 2) late
late-IsBoundTo = (
  (refl, inl (refl, refl, text_ne "https://sso" "" refl)),
  ((refl, inr (refl, ground arith)), tt),
)

erase_identity-creates_example :
    (db' : Tables) × (erase_identity db "https://sso" "bob" ≡ ok db')
    × (any (λ s. s.user_id == 2) db'.sessions ≡ false)
    × (identity_of db' "https://sso" "bob" ≡ none)
    × (creates db' late ≡ db')
unfolding identity_of
erase_identity-creates_example =
    erase_identity-creates db "https://sso" "bob" (new_identity 2 "https://sso" "bob") late refl
      late-IsBoundTo

find-create_run :
    (db' : Tables) × (Sessions.create db (session 0 "h4" 1 "") ≡ ok (db', session 4 "h4" 1 ""))
    × (Sessions.find db' "h4" ≡ ok (session 4 "h4" 1 ""))
find-create_run = find-create db (session 0 "h4" 1 "") "h4" (inl (refl, refl)) refl

delete_logins_spares_run :
    Memᴰ (session 3 "h3" 2 "cli") (Sessions.delete_logins db 2 0).sessions ↔ (
      Memᴰ (session 3 "h3" 2 "cli") db.sessions
      × ((bob_id ≢ bob_id)
          ⊎ ((session 3 "h3" 2 "cli").label ≢ "")
          ⊎ ((nobody ≢ 0) × (carol_id ≡ nobody))))
delete_logins_spares_run = delete_logins_spares db 2 0 (session 3 "h3" 2 "cli")

find-delete_run :
    (db' : Tables) × (Sessions.delete db "h2" ≡ ok db') × (Sessions.find db' "h2" ≡ err not_found)
unfolding Sessions.find
find-delete_run = find-delete db "h2" (session 2 "h2" 2 "") refl

abbrev used : Tables
used = record db { links = record { link = link "l1"; consumed_at = some 6 } ∷ [] }

abbrev traffic : List Spending.Op
traffic = Spending.creates (link "l2") ∷ consumes "l1" 6 ∷ sweeps 3 ∷ []

consume_once_run : Links.consume (run used traffic) "l1" 7 ≡ err not_found
unfolding Links.consume
consume_once_run =
    consume_once db used "l1" 2 6 7 traffic refl ((text_ne "l2" "l1" refl), (tt, (tt, tt)))
      (omega arith)

create_supersedes_run :
    (db' : Tables) × (Links.create db (link "l2") ≡ ok db')
    × (tally (Links.live_of 2) db'.links ≡ 1)
    × (7 < 9 → (db'' : Tables) × (Links.consume db' "l2" 7 ≡ ok (db'', 2)))
create_supersedes_run = create_supersedes db (link "l2") 7 refl

abbrev exchanged : Tables
exchanged = record db { codes = record { code = sso_code; consumed_at = some 6 } ∷ [] }

consume_replayed_run :
    (sso_code.code_hash ≡ "c1") × (Codes.consume exchanged "c1" 8 ≡ err code_consumed)
unfolding Codes.consume
consume_replayed_run = consume_replayed db exchanged "c1" sso_code 6 8 refl
