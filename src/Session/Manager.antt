-- ===== src/Session/Manager.antt =====
-- session/session.go and session/bind.go over the sessions of porte/pg. A clock reading and the
-- fresh token of NewToken are arguments; no random bytes is `none`. A store error that is not one
-- of porte/pg's refusals is not modelled.
use porte.Base.{
  ℕ, ◌+◌, ◌-◌, String, List, [], ◌∷◌, ◌++◌, Bool, true, false, not, ◌&&◌, ◌||◌, Option, none, some,
  string_eq, nat_eq, ◌==◌, ltb, leb, if◌then◌else◌,
}
use porte.Base.Strings.{GoStrings, split_at}
use porte.Pg.Tables.{Session, Tables, Failure, not_found, Outcome}
use porte.Pg.Sessions
use porte.Session.Http.{
  Request, SetCookie, Config, idle_timeout, read_cookie, clear_cookie, set_session_cookie, mutating,
  credential,
}

-- porte.Identity, the fields that the manager fills or reads.
pub record Identity : Type 0 where
  pub user_id : ℕ
  pub session_id : ℕ
  pub subject : String
  pub roles : List String
  pub scopes : List String
  pub actor : String

pub data Denial : Type 0 where
  unauthorized forbidden internal : Denial

pub data Answer {ℓ} (A : Type ℓ) : Type ℓ where
  ok : A → Answer A
  err : Denial → Answer A

-- `hash_token` is SHA-256, `jwt` the verifier that porte/oidc attaches and `claims` its source of
-- roles, each none until it is attached.
pub record Manager : Type 0 where
  pub strings : GoStrings
  pub cfg : Config
  pub hash_token : String → String
  pub jwt : Option (String → Answer Identity)
  pub claims : Option (Identity → Identity)

-- What one request leaves: the tables, the cookies of the response, and the answer.
pub record Served (A : Type 0) : Type 0 where
  pub db : Tables
  pub cookies : List SetCookie
  pub answer : Answer A

-- Three non-empty segments.
abbrev three_parts : String → List String → Bool
three_parts a (b ∷ c ∷ []) = not (a == "") && (not (b == "") && not (c == ""))
three_parts a _ = false

unfoldable pub jwt_shaped : String → Bool
unfolding split_at
jwt_shaped token = let (part, parts) = split_at b'.' token in three_parts part parts

abbrev is_attached {ℓ} : {A : Type ℓ} → Option A → Bool
is_attached none = false
is_attached (some f) = true

unfoldable pub jwt_applies : Manager → Bool → String → Bool
jwt_applies m from_cookie token = not from_cookie && (is_attached m.jwt && jwt_shaped token)

unfoldable pub expired : Session → ℕ → Bool
expired s now = not (s.expires_at == 0) && ltb s.expires_at now

unfoldable pub idled_out : Config → Session → Bool → ℕ → Bool
idled_out c s from_cookie now =
    if not from_cookie || (idle_timeout c == 0 || s.last_used_at == 0)
    then false
    else leb (idle_timeout c) (now - s.last_used_at)

module _ (m : Manager) where
  -- The loop of scopeAllows; `append` joins the prefix and the suffix.
  unfoldable pub scope_allows : Request → List String → Bool
  scope_allows r [] = m.cfg.scope_prefix == ""
  scope_allows r (scope ∷ scopes) =
      if m.cfg.scope_prefix == ""
      then true
      else if scope == m.strings.append m.cfg.scope_prefix ".write"
          || (not (mutating r) && scope == m.strings.append m.cfg.scope_prefix ".read")
      then true
      else scope_allows r scopes

  unfoldable pub verify_bearer_jwt : Request → String → Answer Identity
  verify_bearer_jwt r token = elim m.jwt [
    | none ↦ err unauthorized
    | some verify ↦ elim (verify token) [
      | err e ↦ err unauthorized
      | ok identity ↦ if not (scope_allows r identity.scopes) then err forbidden else ok identity
    ]
  ]

  abbrev attach : Identity → Identity
  attach identity = elim m.claims [ none ↦ identity | some f ↦ f identity ]

  abbrev pub session_identity : Session → Identity
  session_identity s = attach (record {
    user_id = s.user_id;
    session_id = s.id;
    subject = "";
    roles = [];
    scopes = [];
    actor = "";
  })

  abbrev cleared : Bool → Request → List SetCookie
  cleared from_cookie r = if from_cookie then clear_cookie m.strings m.cfg r else []

  abbrev dropped : Tables → String → Tables
  dropped db hash = elim (Sessions.delete db hash) [ Outcome.ok db' ↦ db' | Outcome.err e ↦ db ]

  -- A stored session: refused when it is expired or idled out, else touched and answered.
  unfoldable pub admit : Request → Bool → String → Session → ℕ → Tables → Served Identity
  unfolding expired idled_out
  admit r from_cookie hash s now db =
      if expired s now || idled_out m.cfg s from_cookie now
      then record {
        db = dropped db hash;
        cookies = cleared from_cookie r;
        answer = err unauthorized;
      }
      else record {
        db = if leb Sessions.minute (now - s.last_used_at) then Sessions.touch db hash now else db;
        cookies = [];
        answer = ok (session_identity s);
      }

  unfoldable pub look_up : Request → Bool → String → ℕ → Tables → Served Identity
  look_up r from_cookie token now db = elim (Sessions.find db (m.hash_token token)) [
    | Outcome.err e ↦ record { db = db; cookies = cleared from_cookie r; answer = err unauthorized }
    | Outcome.ok s ↦ admit r from_cookie (m.hash_token token) s now db
  ]

  abbrev pub refused : Tables → Denial → Served Identity
  refused db e = record { db = db; cookies = []; answer = err e }

  unfoldable pub authenticate_as : Request → String → Bool → ℕ → Tables → Served Identity
  authenticate_as r token from_cookie now db =
      if token == ""
      then refused db unauthorized
      else if from_cookie && (mutating r && r.csrf == "")
      then refused db forbidden
      else if jwt_applies m from_cookie token
      then record { db = db; cookies = []; answer = verify_bearer_jwt r token }
      else look_up r from_cookie token now db

  unfoldable pub authenticate : Request → ℕ → Tables → Served Identity
  unfolding authenticate_as
  authenticate r now db =
      let (token, from_cookie) = credential m.strings m.cfg r in
      authenticate_as r token from_cookie now db

  -- A named token without another binding is bound to the caller.
  unfoldable pub bind_to_caller : Option Identity → Session → Session
  bind_to_caller none t = t
  bind_to_caller (some caller) t =
      if t.label == ""
        || (not (t.provider == "") || (not (t.issued_by == 0) || not (caller.user_id == t.user_id)))
      then t
      else if not (caller.session_id == 0)
      then record t { issued_by = caller.session_id }
      else if not (caller.subject == "")
      then record t { provider = m.cfg.issuer; subject = caller.subject }
      else t

  -- The row that IssueFor asks the store to create.
  unfoldable pub stamped : Option Identity → Session → String → ℕ → Session
  unfolding bind_to_caller
  stamped caller template token now =
      let t = bind_to_caller caller template in
      record t {
        token_hash = m.hash_token token;
        created_at = now;
        last_used_at = now;
        expires_at = if t.label == "" then now + m.cfg.session_ttl else 0;
      }

  abbrev store_failure : Failure → Denial
  store_failure not_found = unauthorized
  store_failure _ = internal

  unfoldable pub issue_for :
      Option Identity → Option String → Session → ℕ → Tables → Tables × Answer (String × Session)
  unfolding stamped
  issue_for caller none template now db = (db, err internal)
  issue_for caller (some token) template now db =
      elim (Sessions.create db (stamped caller template token now)) [
        | Outcome.ok (db', s) ↦ (db', ok (token, s))
        | Outcome.err e ↦ (db, err (store_failure e))
      ]

  unfoldable pub issue_cookie_for :
      Request → Option Identity → Option String → Session → ℕ → Tables → Served (String × Session)
  issue_cookie_for r caller random template now db =
      let (db', issued) = issue_for caller random template now db in
      elim issued [
        | err e ↦ record { db = db'; cookies = []; answer = err e }
        | ok (token, s) ↦ record {
          db = db';
          cookies = set_session_cookie m.strings m.cfg r token ∷ [];
          answer = ok (token, s);
        }
      ]

  -- Clear, for a caller who is signed in.
  unfoldable pub clear : Request → Identity → Tables → Tables × List SetCookie
  clear r identity db = (
    elim (Sessions.delete_by_id db identity.user_id identity.session_id) [
      | Outcome.ok db' ↦ db'
      | Outcome.err e ↦ db
    ],
    clear_cookie m.strings m.cfg r,
  )

  -- POST /auth/logout behind Optional, whose cookies come first.
  unfoldable pub handle_logout : Request → ℕ → Tables → Served (Unit {0})
  unfolding clear
  handle_logout r now db =
      let seen = authenticate r now db in
      if is_attached (read_cookie m.strings m.cfg r) && r.csrf == ""
      then record { db = seen.db; cookies = seen.cookies; answer = err forbidden }
      else elim seen.answer [
        | ok identity ↦
            let (db', gone) = clear r identity seen.db in
            record { db = db'; cookies = seen.cookies ++ gone; answer = ok tt }
        | err e ↦ record {
          db = seen.db;
          cookies = seen.cookies ++ clear_cookie m.strings m.cfg r;
          answer = ok tt;
        }
      ]
