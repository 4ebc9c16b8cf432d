-- ===== src/Oidc/Callback.antt =====
-- The browser's half of oidc/handlers.go: handleLogin and handleCallback with what they call. The
-- fresh tokens and the clock reading are arguments. The URL that a redirect leads to is the case of
-- Reply that names its parts.
pub mod Answering
pub mod Soundness
use porte.Base.{
  ℕ, zero, suc, ◌+◌, ◌-◌, ◌/◌, ◌≤◌, ◌<◌, String, List, [], ◌∷◌, ◌++◌, Bool, true, false, not, ◌&&◌,
  ◌||◌, Option, none, some, ◌≡◌, ◌≢◌, refl, sym, ap, ◌∙◌, subst, ◌↔◌, ◌⊎◌, inl, inr, Memᴰ,
  string_eq, nat_eq, ◌==◌, beq_iff, beq_refl, ltb, leb, if◌then◌else◌, Bool-cases, Option-cases,
  length, All, keep, tally, map, arith, tests, first, any, amend,
}
use porte.Base.Int.{pos}
use porte.Base.Strings.{append}
use porte.Pg.Tables.{TokenSet, StoredIdentity, Session, LoginCode, Tables, Outcome, of_provider}
use porte.Pg.Linking.{Claims, new_identity, upsert_from_oidc}
use porte.Pg.Identities
use porte.Pg.Codes
use porte.Session.Http.{Request, SetCookie}
use porte.Session.Manager.{Identity, Manager, Denial, Answer, Served, issue_cookie_for}
use porte.Oidc.Flow.{
  Flow, flow_ttl, decode_flow, read_flow, set_flow, clear_flow, cli_state, valid_challenge,
  loopback_port, ui_locales,
}
use porte.Oidc.Claims.{IdToken, Asserted, claims_from_id_token, claims_enabled}
use porte.Oidc.Kit.{Kit, Provider, Token}

-- What a failed login tells its browser.
pub data Reason : Type 0 where
  not_started expired unverified missing_code invalid_id_token nonce_mismatch no_email : Reason
  not_signed_in not_completed : Reason

-- `absent` is a route that is not mounted, and `denied` the refusal of the session manager; a redirect
-- is named after where it leads.
pub data Reply : Type 0 where
  back : Reason → Reply
  to_provider : String → String → String → Option String → Reply
  home : Reply
  to_loopback : String → String → String → Reply
  to_page : String → Reply
  to_mobile : String → String → Reply
  issued : ℕ → String → Reply
  absent invalid unauthorized internal logged_out : Reply
  denied : Denial → Reply

pub record Done : Type 0 where
  pub db : Tables
  pub cookies : List SetCookie
  pub reply : Reply

-- The query parameters of the login route.
pub record LoginQuery : Type 0 where
  pub flow : String
  pub port : String
  pub state : String
  pub challenge : String
  pub ui_locales : String

-- What keeps a flow from completing.
pub data Trouble : Type 0 where
  no_code exchange_failed no_id_token rejected_id_token other_nonce unreadable_claims : Trouble
  empty_email : Trouble

unfoldable pub failure_reason : Trouble → Reason
failure_reason no_code = missing_code
failure_reason rejected_id_token = invalid_id_token
failure_reason other_nonce = nonce_mismatch
failure_reason empty_email = no_email
failure_reason _ = not_signed_in

pub data Flowed : Type 0 where
  completed : Asserted → TokenSet → Flowed
  stopped : Trouble → Flowed

-- The session template bound to an identity.
abbrev pub template : ℕ → String → String → Session
template user provider subject = record {
  id = 0;
  token_hash = "";
  user_id = user;
  label = "";
  created_at = 0;
  last_used_at = 0;
  expires_at = 0;
  provider = provider;
  subject = subject;
  issued_by = 0;
}

-- What the code of the mobile flow is hashed as: the code and the challenge together.
abbrev pub bound_code : String → String → String
bound_code code challenge = append code (append ":" challenge)

module _ (k : Kit) where
  -- The pending flow of a login, none when it cannot start.
  unfoldable pub pending : LoginQuery → String → String → String → Option Flow
  pending q state nonce verifier =
      let plain : Flow = record {
        state = state;
        nonce = nonce;
        verifier = verifier;
        is_cli = false;
        port = "";
        cli_state = "";
        is_mobile = false;
        challenge = "";
      } in
      if q.flow == "cli"
      then some (record plain {
        is_cli = true;
        port = loopback_port k.web q.port;
        cli_state = cli_state q.state;
      })
      else if q.flow == "mobile"
      then if k.cfg.mobile_redirect == "" || not (valid_challenge k.web q.challenge)
        then none
        else some (record plain {
          is_mobile = true;
          challenge = q.challenge;
          cli_state = cli_state q.state;
        })
      else some plain

  abbrev go_back : Tables → List SetCookie → Reason → Done
  go_back db cookies reason = record { db = db; cookies = cookies; reply = back reason }

  unfoldable pub handle_login :
      Request → LoginQuery → Option String → Option String → String → Tables → Done
  unfolding pending
  handle_login r q none _ verifier db = go_back db [] not_started
  handle_login r q (some state) none verifier db = go_back db [] not_started
  handle_login r q (some state) (some nonce) verifier db = elim (pending q state nonce verifier) [
    | none ↦ go_back db [] not_started
    | some flow ↦ elim (k.web.encode flow) [
      | none ↦ go_back db [] not_started
      | some encoded ↦ record {
        db = db;
        cookies = set_flow k.sessions.strings k.sessions.cfg r encoded (pos flow_ttl) ∷ [];
        reply =
            to_provider state (k.web.s256 verifier) nonce
              (ui_locales k.sessions.strings q.ui_locales);
      }
    ]
  ]

  abbrev read_claims : IdToken → TokenSet → Flowed
  read_claims id tokens =
      elim (claims_from_id_token k.sessions.strings k.cfg.base.issuer k.cfg.trust id) [
        | none ↦ stopped unreadable_claims
        | some a ↦ if a.claims.email == "" then stopped empty_email else completed a tokens
      ]

  unfoldable pub complete_flow : String → Flow → Flowed
  complete_flow code flow =
      if code == "" then stopped no_code else elim (k.provider.exchange code flow.verifier) [
        | none ↦ stopped exchange_failed
        | some token ↦ elim token.id_token [
          | none ↦ stopped no_id_token
          | some raw ↦ elim (k.provider.verify raw) [
            | none ↦ stopped rejected_id_token
            | some id ↦
                if not (id.nonce == flow.nonce)
                then stopped other_nonce
                else read_claims id token.tokens
          ]
        ]
      ]

  -- Best effort: no picture is no avatar.
  unfoldable pub sync_avatar : Asserted → String
  sync_avatar a = elim k.avatars [
    | none ↦ ""
    | some put ↦ if a.picture == "" then "" else elim (put a) [ none ↦ "" | some url ↦ url ]
  ]

  abbrev pub recorded : Asserted → TokenSet → ℕ → ℕ → StoredIdentity
  recorded a tokens user now = record (new_identity user a.claims.provider a.claims.subject) {
    tokens = tokens;
    roles = a.roles;
    synced_at = now;
    roles_synced_at = if claims_enabled k.cfg.trust then now else 0;
  }

  -- The upsert commits whether or not the identity row is saved after it.
  unfoldable pub persist : Asserted → TokenSet → ℕ → Tables → Tables × Option Session
  unfolding sync_avatar
  persist a tokens now db =
      let claims = record (a.claims) { avatar_url = sync_avatar a } in
      elim (upsert_from_oidc k.sessions.strings db claims) [
        | Outcome.err e ↦ (db, none)
        | Outcome.ok (db', user) ↦ elim (Identities.save db' (recorded a tokens user now)) [
          | Outcome.err e ↦ (db', none)
          | Outcome.ok db'' ↦ (db'', some (template user a.claims.provider a.claims.subject))
        ]
      ]

  abbrev pub login_code : String → Session → ℕ → LoginCode
  login_code hash bound now = record {
    code_hash = hash;
    user_id = bound.user_id;
    expires_at = now + k.cfg.login_code_ttl;
    provider = bound.provider;
    subject = bound.subject;
  }

  unfoldable pub issue_login_code :
      List SetCookie → Session → Flow → Option String → ℕ → Tables → Done
  issue_login_code cookies bound flow none now db = go_back db cookies not_completed
  issue_login_code cookies bound flow (some code) now db =
      elim (Codes.create db (login_code (k.sessions.hash_token code) bound now)) [
        | Outcome.err e ↦ go_back db cookies not_completed
        | Outcome.ok db' ↦ record {
          db = db';
          cookies = cookies;
          reply =
              if not (flow.port == "")
              then to_loopback code flow.port flow.cli_state
              else to_page code;
        }
      ]

  unfoldable pub issue_mobile_code :
      List SetCookie → Session → Flow → Option String → ℕ → Tables → Done
  issue_mobile_code cookies bound flow none now db = go_back db cookies not_completed
  issue_mobile_code cookies bound flow (some code) now db =
      elim (Codes.create db
        (login_code (k.sessions.hash_token (bound_code code flow.challenge)) bound now)) [
          | Outcome.err e ↦ go_back db cookies not_completed
          | Outcome.ok db' ↦
              if not (k.web.is_url k.cfg.mobile_redirect)
              then go_back db' cookies not_completed
              else record { db = db'; cookies = cookies; reply = to_mobile code flow.cli_state }
        ]

  -- The end of a browser's flow: the session cookie.
  unfoldable pub land :
      Request → List SetCookie → Option Identity → Session → Option String → ℕ → Tables → Done
  land r cookies caller bound random now db =
      let served = issue_cookie_for k.sessions r caller random bound now db in
      record {
        db = served.db;
        cookies = cookies ++ served.cookies;
        reply = elim served.answer [ Answer.ok issue ↦ home | Answer.err e ↦ back not_signed_in ];
      }

  -- The three ways a callback ends once the identity is recorded.
  unfoldable pub conclude :
      Request
      → List SetCookie
      → Option Identity
      → Flow
      → Session
      → Option String
      → ℕ
      → Tables
      → Done
  unfolding issue_login_code issue_mobile_code land
  conclude r cookies caller flow bound random now db =
      if flow.is_cli
      then issue_login_code cookies bound flow random now db
      else if flow.is_mobile
      then issue_mobile_code cookies bound flow random now db
      else land r cookies caller bound random now db

  -- What follows a completed flow: the identity is recorded, or it is not.
  abbrev pub finish :
      Request
      → List SetCookie
      → Option Identity
      → Flow
      → Option String
      → ℕ
      → Tables × Option Session
      → Done
  finish r cookies caller flow random now (db, none) = go_back db cookies not_signed_in
  finish r cookies caller flow random now (db, some bound) =
      conclude r cookies caller flow bound random now db

  unfoldable pub handle_callback :
      Request → String → String → Option Identity → Option String → ℕ → Tables → Done
  unfolding complete_flow persist conclude
  handle_callback r state code caller random now db =
      elim (read_flow k.sessions.strings k.sessions.cfg r) [
        | none ↦ go_back db [] expired
        | some encoded ↦
            let cleared = clear_flow k.sessions.strings k.sessions.cfg r in
            elim (decode_flow k.web encoded) [
              | none ↦ go_back db cleared unverified
              | some flow ↦
                  if not (flow.state == state)
                  then go_back db cleared unverified
                  else elim (complete_flow code flow) [
                    | stopped why ↦ go_back db cleared (failure_reason why)
                    | completed a tokens ↦
                        finish r cleared caller flow random now (persist a tokens now db)
                  ]
            ]
      ]
