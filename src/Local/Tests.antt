-- ===== src/Local/Tests.antt =====
-- Runs of the password kit at concrete inputs.
use porte.Base.{
  ℕ, zero, suc, String, List, [], ◌∷◌, true, false, not, none, some, ◌≡◌, ◌≢◌, refl, ◌⊎◌, Memᴰ,
  string_eq, nat_eq, ◌==◌, if◌then◌else◌, length, any,
}
use porte.Base.Int.{pos}
use porte.Base.Strings.{GoStrings, split_at, append}
use porte.Pg.Tables.{Session, Tables}
use porte.Pg.Linking.{new_identity}
use porte.Session.Http.{Request}
use porte.Session.Manager.{Manager}
use porte.Pg.Tables.{user_by_email, identity_of}
use porte.Pg.Identities.{find_by_email, create_from_password, save, find}
use porte.Pg.Sessions.{create, while_bound, vouched, delete_logins}
use porte.Session.Manager.{issue_cookie_for, issue_for, stamped, bind_to_caller}
use porte.Local.Kit.{normalize_email, closed, create_account, sign_in, end_logins}
use porte.Local.Password.{Crypto, costs, key_length, hash_password, verify_password}
use porte.Local.Hashing.{IsScanned, IsReadable, verify_password-hash_password}
use porte.Local.Kit.{Kit, ok, Done, new, register, login, change_password}
use porte.Local.Signing.{login-register}
use porte.Local.Changing.{change_password_ends}

abbrev go : GoStrings
go = record { to_lower = λ s. s; trim_space = λ s. s; append = append; equal_fold = λ s t. s == t }

abbrev bytes : ℕ → ℕ → List ℕ
bytes zero b = []
bytes (suc n) b = b ∷ bytes n b

-- A key of ones for one password and of twos for every other.
abbrev crypto : Crypto
crypto = record {
  id_key = λ password salt settings n. bytes n (if password == "correct horse" then 1 else 2);
  encode = λ b. if any (λ x. x == 7) b then "s" else if any (λ x. x == 1) b then "k" else "o";
  decode = λ s.
      if s == "s"
      then some (7 ∷ [])
      else if s == "k"
      then some (bytes 32 1)
      else if s == "o"
      then some (bytes 32 2)
      else none;
  scan_version = λ s. if s == "v=19" then some 19 else none;
  scan_costs = λ s. if s == "m=65536,t=3,p=2" then some costs else none;
}

abbrev horse : String
horse = "correct horse"

abbrev hash : String
hash = "$argon2id$v=19$m=65536,t=3,p=2$s$k"

hashed : hash_password crypto "correct horse" (some (7 ∷ [])) ≡ some hash
unfolding hash_password append
hashed = refl

-- Another password has another key.
wrong : verify_password crypto "incorrect" hash ≡ false
unfolding verify_password split_at
wrong = refl

-- An account without a password has an empty hash.
sso_only : verify_password crypto "" "" ≡ false
unfolding verify_password split_at
sso_only = refl

scanned : IsScanned crypto
scanned = record { version = refl; settings = refl }

salt_IsReadable : IsReadable crypto (7 ∷ [])
salt_IsReadable = record { back = refl; plain = refl }

key_IsReadable : IsReadable crypto (crypto.id_key "correct horse" (7 ∷ []) costs key_length)
key_IsReadable = record { back = refl; plain = refl }

verify_password-hash_password_run :
    (h : String) × (hash_password crypto "correct horse" (some (7 ∷ [])) ≡ some h)
    × (verify_password crypto "correct horse" h ≡ true)
verify_password-hash_password_run =
    verify_password-hash_password crypto "correct horse" (7 ∷ []) scanned salt_IsReadable
      key_IsReadable refl

abbrev manager : Manager
manager = record {
  strings = go;
  cfg = record {
    issuer = "";
    redirect_url = "";
    success_url = "";
    session_ttl = 1000000000;
    session_idle_ttl = pos 100;
    accept_legacy_cookie = false;
    scope_prefix = "";
  };
  hash_token = λ s. s;
  jwt = none;
  claims = none;
}

abbrev kit : Kit
kit = record {
  cfg = record {
    allow_registration = false;
    min_password_length = 12;
    allow_protocol_passwords = false;
    customer_accounts = false;
  };
  deps = record {
    sessions = manager;
    count = λ db. some (length db.users);
    is_address = λ s. not (s == "");
    format_int = λ n. if n == 1 then "1" else "2";
    crypto = crypto;
  };
  federated = false;
}

new-kit :
    new
      (record {
        allow_registration = false;
        min_password_length = 0;
        allow_protocol_passwords = false;
        customer_accounts = false;
      })
      kit.deps
    ≡ kit
unfolding new
new-kit = refl

abbrev empty : Tables
empty = record {
  users = [];
  identities = [];
  sessions = [];
  codes = [];
  links = [];
  next_user = 1;
  next_session = 1;
  has_codes = false;
  has_links = false;
}

abbrev post : Request
post = record {
  method = "POST";
  has_tls = true;
  forwarded_proto = "";
  csrf = "1";
  authorization = "";
  cookies = [];
}

-- The first account of an instance.
abbrev first_account : Done (ℕ × String)
first_account =
    register kit post none "ada@a" "Ada" "correct horse" (some (7 ∷ [])) (some "t1") 5 empty

registered : first_account.answer ≡ ok (1, "t1")
unfolding register normalize_email closed create_account sign_in find_by_email create_from_password
    save hash_password append issue_cookie_for issue_for stamped bind_to_caller create while_bound
    vouched user_by_email
registered = refl

login-register_example :
    (login kit post none "ada@a" "correct horse" (some "t2") 9 first_account.db).answer
    ≡ ok (1, "t2")
unfolding register normalize_email closed create_account sign_in find_by_email create_from_password
    save hash_password append issue_cookie_for issue_for stamped bind_to_caller create while_bound
    vouched user_by_email
login-register_example =
    login-register kit post post none none "ada@a" "Ada" "correct horse" "t1" "t2" (7 ∷ [])
      (some "t1") 5 9 empty 1 scanned salt_IsReadable key_IsReadable refl registered refl

abbrev session : ℕ → String → String → Session
session id token label = record {
  id = id;
  token_hash = token;
  user_id = 1;
  label = label;
  created_at = 0;
  last_used_at = 0;
  expires_at = 0;
  provider = "";
  subject = "";
  issued_by = 0;
}

abbrev busy : Tables
busy = record empty {
  identities = record (new_identity 1 "local" "1") { password_hash = hash } ∷ [];
  sessions = session 1 "t1" "" ∷ session 2 "t2" "phone" ∷ [];
  next_session = 3;
}

abbrev changed : Done String
changed =
    change_password kit post none 1 "correct horse" "battery staple" (some (7 ∷ [])) (some "t3") 9
      busy

changed_ok : changed.answer ≡ ok "t3"
unfolding change_password end_logins sign_in find identity_of verify_password split_at hash_password
    append save issue_cookie_for issue_for stamped bind_to_caller create while_bound vouched
    delete_logins
changed_ok = refl

change_password_ends_example :
    ((session 2 "t2" "phone").token_hash ≡ "t3")
    ⊎ (Memᴰ (session 2 "t2" "phone") busy.sessions
        × (((session 2 "t2" "phone").user_id ≢ 1) ⊎ ((session 2 "t2" "phone").label ≢ "")))
unfolding change_password end_logins sign_in find identity_of verify_password split_at hash_password
    append save issue_cookie_for issue_for stamped bind_to_caller create while_bound vouched
    delete_logins
change_password_ends_example =
    change_password_ends kit post none 1 "correct horse" "battery staple" "t3" (some (7 ∷ []))
      (some "t3") 9 busy (session 2 "t2" "phone") changed_ok (Memᴰ.head refl)
