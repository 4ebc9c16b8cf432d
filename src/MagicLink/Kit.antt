-- ===== src/MagicLink/Kit.antt =====
-- magiclink/magiclink.go, request.go and consume.go. The app's callbacks are parameters, a clock
-- reading and the fresh token are arguments, and a mail that Request sends is in what it returns:
-- its delivery happens afterwards and answers to nobody. Request counts twice and then stores the link,
-- in three transactions: the tables at each are arguments. A store error that is not one of porte/pg's
-- refusals is not modelled.
use porte.Base.{
  ℕ, ◌+◌, ◌-◌, String, List, [], ◌∷◌, Bool, true, false, not, ◌&&◌, Option, none, some, string_eq,
  nat_eq, ◌==◌, ltb, if◌then◌else◌,
}
use porte.Base.Int.{ℤ, pos, negsuc}
use porte.Pg.Tables.{Session, MagicLink, Tables, Outcome}
use porte.Pg.Links
use porte.Session.Http.{Request, SetCookie, enabled}
use porte.Session.Manager.{Identity, Manager, Denial, forbidden, Answer, issue_cookie_for}

pub record Config : Type 0 where
  pub ttl : ℤ
  pub max_per_email : ℤ
  pub max_per_ip : ℤ

-- The answers of FindUser.
pub data Lookup : Type 0 where
  user : ℕ → Lookup
  stranger : Lookup
  broken : Lookup

-- `allow` answers none when it fails. `parse_address` is net/mail's, with the address alone.
pub record Deps : Type 0 where
  pub sessions : Manager
  pub find_user : String → Lookup
  pub build_link : String → String
  pub allow : ℕ → Option Bool
  pub parse_address : String → Option String

-- The settings with their defaults filled in.
pub record Kit : Type 0 where
  pub deps : Deps
  pub ttl : ℕ
  pub max_per_email : ℕ
  pub max_per_ip : ℕ
  pub federated : Bool

pub data Refusal : Type 0 where
  disabled invalid_link internal : Refusal
  denied : Denial → Refusal

pub data Reply {ℓ} (A : Type ℓ) : Type ℓ where
  done : A → Reply A
  failed : Refusal → Reply A

-- Fifteen minutes and one hour, in nanoseconds.
abbrev pub default_ttl : ℕ
default_ttl = 900000000000

abbrev pub rate_window : ℕ
rate_window = 3600000000000

-- A setting, or its default when it is not positive.
unfoldable pub positive_or : ℤ → ℕ → ℕ
positive_or (pos n) default = if n == 0 then default else n
positive_or (negsuc n) default = default

unfoldable pub new : Config → Deps → Kit
unfolding positive_or
new c deps = record {
  deps = deps;
  ttl = positive_or c.ttl default_ttl;
  max_per_email = positive_or c.max_per_email 5;
  max_per_ip = positive_or c.max_per_ip 20;
  federated = enabled deps.sessions.cfg;
}

pub record Target : Type 0 where
  pub email : String
  pub user_id : ℕ
  pub found : Bool

abbrev pub nobody : Target
nobody = record { email = ""; user_id = 0; found = false }

-- What a request leaves: the tables, the mails to send as address and link, and the answer.
pub record Requested : Type 0 where
  pub db : Tables
  pub mails : List (String × String)
  pub answer : Reply (Unit {0})

-- What a consume leaves: the tables, the cookies, and the user with the session's token.
pub record Consumed : Type 0 where
  pub db : Tables
  pub cookies : List SetCookie
  pub answer : Reply (ℕ × String)

-- The template of Sessions.IssueCookie.
abbrev pub template : ℕ → Session
template id = record {
  id = 0;
  token_hash = "";
  user_id = id;
  label = "";
  created_at = 0;
  last_used_at = 0;
  expires_at = 0;
  provider = "";
  subject = "";
  issued_by = 0;
}

module _ (k : Kit) where
  unfoldable pub normalize_email : String → Option String
  normalize_email email =
      let go = k.deps.sessions.strings in
      elim (k.deps.parse_address (go.trim_space email)) [
        | none ↦ none
        | some address ↦ some (go.to_lower address)
      ]

  unfoldable pub lookup : String → Reply Target
  unfolding normalize_email
  lookup email = if k.federated then failed disabled else elim (normalize_email email) [
    | none ↦ done nobody
    | some address ↦ elim (k.deps.find_user address) [
      | user id ↦ done (record { email = address; user_id = id; found = true })
      | stranger ↦ done nobody
      | broken ↦ failed internal
    ]
  ]

  -- The links of the account are counted in one transaction, those of the source in the next.
  unfoldable pub within_limits : Target → String → ℕ → Tables → Tables → Bool
  within_limits who ip now by_user by_ip =
      let since = now - rate_window in
      ltb (Links.count_since by_user (record { user_id = who.user_id; ip = "" }) since)
        k.max_per_email
      && ltb (Links.count_since by_ip (record { user_id = 0; ip = ip }) since) k.max_per_ip

  unfoldable pub issue : Target → MagicLink → String → Tables → Requested
  issue who link token db = elim (Links.create db link) [
    | Outcome.err e ↦ record { db = db; mails = []; answer = failed internal }
    | Outcome.ok db' ↦ record {
      db = db';
      mails = (who.email, k.deps.build_link token) ∷ [];
      answer = done tt;
    }
  ]

  abbrev pub quiet : Tables → Reply (Unit {0}) → Requested
  quiet db answer = record { db = db; mails = []; answer = answer }

  abbrev pub link_for : Target → String → String → ℕ → MagicLink
  link_for who ip token now = record {
    token_hash = k.deps.sessions.hash_token token;
    user_id = who.user_id;
    created_at = now;
    expires_at = now + k.ttl;
    ip = ip;
  }

  -- A request of a target that was looked up, with a token.
  unfoldable pub answer_target : Target → String → String → ℕ → Tables → Tables → Tables → Requested
  unfolding within_limits issue
  answer_target who ip token now by_user by_ip db =
      if not who.found
      then quiet db (done tt)
      else if not (within_limits who ip now by_user by_ip)
      then quiet db (done tt)
      else issue who (link_for who ip token now) token db

  -- The tables of the two counts, and those that the link is stored in.
  unfoldable pub request :
      String → String → Option String → ℕ → Tables → Tables → Tables → Requested
  unfolding lookup answer_target
  request email ip random now by_user by_ip db = elim (lookup email) [
    | failed e ↦ quiet db (failed e)
    | done who ↦ elim random [
      | none ↦ quiet db (failed internal)
      | some token ↦ answer_target who ip token now by_user by_ip db
    ]
  ]

  unfoldable pub allowed : ℕ → Reply (Unit {0})
  allowed id = elim (k.deps.allow id) [
    | none ↦ failed internal
    | some ok ↦ if ok then done tt else failed invalid_link
  ]

  unfoldable pub sign_in : Request → Option Identity → Option String → ℕ → ℕ → Tables → Consumed
  sign_in r caller random id now db =
      let served = issue_cookie_for k.deps.sessions r caller random (template id) now db in
      record {
        db = served.db;
        cookies = served.cookies;
        answer = elim served.answer [
          | Answer.err e ↦ failed (denied e)
          | Answer.ok (token, s) ↦ done (id, token)
        ];
      }

  -- `now` is the kit's clock, `signed_at` the manager's.
  unfoldable pub consume :
      Request → Option Identity → String → Option String → ℕ → ℕ → Tables → Consumed
  unfolding allowed sign_in
  consume r caller token random now signed_at db =
      if k.federated
      then record { db = db; cookies = []; answer = failed disabled }
      else elim (Links.consume db (k.deps.sessions.hash_token token) now) [
        | Outcome.err e ↦ record { db = db; cookies = []; answer = failed invalid_link }
        | Outcome.ok (db', id) ↦ elim (allowed id) [
          | failed e ↦ record { db = db'; cookies = []; answer = failed e }
          | done _ ↦ sign_in r caller random id signed_at db'
        ]
      ]

  -- POST /auth/magic-link/consume, with the token of its body.
  unfoldable pub handle_consume :
      Request → Option Identity → String → Option String → ℕ → ℕ → Tables → Consumed
  handle_consume r caller token random now signed_at db =
      if r.csrf == ""
      then record { db = db; cookies = []; answer = failed (denied forbidden) }
      else consume r caller token random now signed_at db
