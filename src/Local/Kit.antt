-- ===== src/Local/Kit.antt =====
-- local/local.go. The app's account count and net/mail's check of an address are parameters, the
-- salt, the fresh token and the clock reading arguments. The statements of one call run one after the
-- other; what EqualizeTiming burns and the count of revoked sessions are left out.
use porte.Base.{
  ℕ, String, List, [], Bool, not, ◌&&◌, Option, none, some, string_eq, nat_eq, ◌==◌, ltb,
  if◌then◌else◌,
}
use Prim.Native.String.{count}
use porte.Pg.Tables.{StoredIdentity, Session, Tables, Failure, Outcome}
use porte.Pg.Linking.{new_identity}
use porte.Pg.Identities
use porte.Pg.Identities.{provider_local}
use porte.Pg.Sessions
use porte.Session.Http.{Request, SetCookie, enabled}
use porte.Session.Manager.{Identity, Manager, Denial, Answer, issue_cookie_for}
use porte.Local.Password.{Crypto, hash_password, verify_password}

pub record Config : Type 0 where
  pub allow_registration : Bool
  pub min_password_length : ℕ
  pub allow_protocol_passwords : Bool
  pub customer_accounts : Bool

-- `count` answers none when it fails, `is_address` is net/mail's and `format_int` strconv's.
pub record Deps : Type 0 where
  pub sessions : Manager
  pub count : Tables → Option ℕ
  pub is_address : String → Bool
  pub format_int : ℕ → String
  pub crypto : Crypto

pub record Kit : Type 0 where
  pub cfg : Config
  pub deps : Deps
  pub federated : Bool

pub data Fault : Type 0 where
  disabled invalid_email weak_password registration_closed email_taken wrong_password : Fault
  no_password password_set internal : Fault
  failed : Failure → Fault
  denied : Denial → Fault

pub data Verdict {ℓ} (A : Type ℓ) : Type ℓ where
  ok : A → Verdict A
  err : Fault → Verdict A

-- What a call leaves: the tables, the cookies of the response, and the answer.
pub record Done (A : Type 0) : Type 0 where
  pub db : Tables
  pub cookies : List SetCookie
  pub answer : Verdict A

abbrev pub stop : {A : Type 0} → Tables → Fault → Done A
stop db e = record { db = db; cookies = []; answer = err e }

abbrev pub default_min_length : ℕ
default_min_length = 12

-- A length that is not positive is 0 here.
unfoldable pub new : Config → Deps → Kit
new c deps = record {
  cfg =
      if c.min_password_length == 0
      then record c { min_password_length = default_min_length }
      else c;
  deps = deps;
  federated = enabled deps.sessions.cfg && not c.customer_accounts;
}

abbrev pub caller_session : Option Identity → ℕ
caller_session none = 0
caller_session (some identity) = identity.session_id

-- A delete whose missing row is no error.
abbrev pub if_there : Tables → Outcome Tables → Tables
if_there db (Outcome.ok db') = db'
if_there db (Outcome.err e) = db

-- RevokeLogins but for the caller's session, then Revoke of that one, which may be gone already.
unfoldable pub end_logins : ℕ → Option Identity → Tables → Tables
end_logins id caller db =
    let others = Sessions.delete_logins db id (caller_session caller) in
    if caller_session caller == 0
    then others
    else if_there others (Sessions.delete_by_id others id (caller_session caller))

module _ (k : Kit) where
  unfoldable pub normalize_email : String → Option String
  normalize_email email =
      let go = k.deps.sessions.strings in
      let normalized = go.to_lower (go.trim_space email) in
      if k.deps.is_address normalized then some normalized else none

  abbrev pub local_subject : ℕ → String
  local_subject id = k.deps.format_int id

  abbrev pub local_session : ℕ → Session
  local_session id = record {
    id = 0;
    token_hash = "";
    user_id = id;
    label = "";
    created_at = 0;
    last_used_at = 0;
    expires_at = 0;
    provider = provider_local;
    subject = local_subject id;
    issued_by = 0;
  }

  abbrev pub password_identity : ℕ → String → StoredIdentity
  password_identity id hash = record (new_identity id provider_local (local_subject id)) {
    password_hash = hash;
  }

  abbrev pub weak : String → Bool
  weak password = ltb (count password) k.cfg.min_password_length

  -- IssueCookieFor for a password login, and the answer made of its token.
  unfoldable pub sign_in :
      {A : Type 0}
      → Request
      → Option Identity
      → Option String
      → ℕ
      → (String → A)
      → ℕ
      → Tables
      → Done A
  sign_in r caller random id answer now db =
      let served = issue_cookie_for k.deps.sessions r caller random (local_session id) now db in
      record {
        db = served.db;
        cookies = served.cookies;
        answer = elim served.answer [
          | Answer.err e ↦ err (denied e)
          | Answer.ok (token, s) ↦ ok (answer token)
        ];
      }

  -- The registration gate: none lets the caller on.
  unfoldable pub closed : Tables → Option Fault
  closed db = if k.cfg.allow_registration then none else elim (k.deps.count db) [
    | none ↦ some internal
    | some n ↦ if ltb 0 n then some registration_closed else none
  ]

  unfoldable pub create_account :
      Request
      → Option Identity
      → String
      → String
      → String
      → Option (List ℕ)
      → Option String
      → ℕ
      → Tables
      → Done (ℕ × String)
  unfolding sign_in
  create_account r caller email name password salt random now db =
      elim (Identities.create_from_password db email (k.deps.sessions.strings.trim_space name)) [
        | Outcome.err e ↦ stop db (failed e)
        | Outcome.ok (db', id) ↦ elim (hash_password k.deps.crypto password salt) [
          | none ↦ stop db' internal
          | some hash ↦ elim (Identities.save db' (password_identity id hash)) [
            | Outcome.err e ↦ stop db' internal
            | Outcome.ok db'' ↦ sign_in r caller random id (λ token. (id, token)) now db''
          ]
        ]
      ]

  unfoldable pub register :
      Request
      → Option Identity
      → String
      → String
      → String
      → Option (List ℕ)
      → Option String
      → ℕ
      → Tables
      → Done (ℕ × String)
  unfolding normalize_email closed create_account
  register r caller raw name password salt random now db =
      if k.federated then stop db disabled else elim (normalize_email raw) [
        | none ↦ stop db invalid_email
        | some email ↦ if weak password then stop db weak_password else elim (closed db) [
          | some e ↦ stop db e
          | none ↦ elim (Identities.find_by_email db email) [
            | Outcome.ok id ↦ stop db email_taken
            | Outcome.err e ↦ create_account r caller email name password salt random now db
          ]
        ]
      ]

  unfoldable pub verify : Tables → String → String → Verdict ℕ
  unfolding normalize_email
  verify db raw password =
      if k.federated && not k.cfg.allow_protocol_passwords
      then err disabled
      else elim (normalize_email raw) [
        | none ↦ err wrong_password
        | some email ↦ elim (Identities.find_by_email db email) [
          | Outcome.err e ↦ err wrong_password
          | Outcome.ok id ↦ elim (Identities.find db provider_local (local_subject id)) [
            | Outcome.err e ↦ err wrong_password
            | Outcome.ok stored ↦
                if verify_password k.deps.crypto password stored.password_hash
                then ok stored.user_id
                else err wrong_password
          ]
        ]
      ]

  unfoldable pub login :
      Request → Option Identity → String → String → Option String → ℕ → Tables → Done (ℕ × String)
  unfolding verify sign_in
  login r caller email password random now db =
      if k.federated then stop db disabled else elim (verify db email password) [
        | err e ↦ stop db e
        | ok id ↦ sign_in r caller random id (λ token. (id, token)) now db
      ]

  unfoldable pub set_password : ℕ → String → Option (List ℕ) → Tables → Done (Unit {0})
  set_password id password salt db =
      if weak password
      then stop db weak_password
      else elim (Identities.find db provider_local (local_subject id)) [
        | Outcome.ok stored ↦ stop db password_set
        | Outcome.err e ↦ elim (hash_password k.deps.crypto password salt) [
          | none ↦ stop db internal
          | some hash ↦ elim (Identities.save db (password_identity id hash)) [
            | Outcome.err e' ↦ stop db (failed e')
            | Outcome.ok db' ↦ record { db = db'; cookies = []; answer = ok tt }
          ]
        ]
      ]

  unfoldable pub change_password :
      Request
      → Option Identity
      → ℕ
      → String
      → String
      → Option (List ℕ)
      → Option String
      → ℕ
      → Tables
      → Done String
  unfolding end_logins sign_in
  change_password r caller id current next salt random now db =
      elim (Identities.find db provider_local (local_subject id)) [
        | Outcome.err e ↦ stop db no_password
        | Outcome.ok stored ↦
            if not (verify_password k.deps.crypto current stored.password_hash)
            then stop db wrong_password
            else if weak next
            then stop db weak_password
            else elim (hash_password k.deps.crypto next salt) [
              | none ↦ stop db internal
              | some hash ↦ elim (Identities.save db (record stored { password_hash = hash })) [
                | Outcome.err e ↦ stop db internal
                | Outcome.ok db' ↦
                    sign_in r caller random id (λ token. token) now (end_logins id caller db')
              ]
            ]
      ]
