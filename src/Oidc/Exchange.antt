-- ===== src/Oidc/Exchange.antt =====
-- The callers without a browser: handleExchange and handleDeviceExchange of oidc/handlers.go, and the
-- verifier of oidc/bearer.go.
pub mod Once
mod Texts
pub mod Mobile
pub mod Device
use porte.Base.{
  ℕ, zero, suc, ◌+◌, ◌-◌, ◌/◌, ◌≤◌, ◌<◌, String, List, [], ◌∷◌, ◌++◌, Bool, true, false, not, ◌&&◌,
  ◌||◌, Option, none, some, ◌≡◌, ◌≢◌, refl, sym, ap, ◌∙◌, subst, ◌↔◌, ◌⊎◌, inl, inr, Memᴰ,
  string_eq, nat_eq, ◌==◌, beq_iff, beq_refl, ltb, leb, if◌then◌else◌, Bool-cases, Option-cases,
  length, All, keep, tally, map, arith, tests, first, any, amend,
}
use porte.Pg.Tables.{Session, LoginCode, Tables, Outcome}
use porte.Pg.Identities
use porte.Pg.Codes
use porte.Session.Manager.{Identity, Answer, issue_for}
use porte.Oidc.Flow.{valid_verifier}
use porte.Oidc.Kit.{Kit, TokenClaims}
use porte.Oidc.Callback.{Reply, absent, invalid, unauthorized, denied, issued, template, bound_code}

-- The body of a request that is none of a browser's leaves tables and a reply.
pub record Answered : Type 0 where
  pub db : Tables
  pub reply : Reply

abbrev pub no_change : Tables → Reply → Answered
no_change db reply = record { db = db; reply = reply }

unfoldable pub code_expired : LoginCode → ℕ → Bool
code_expired c now = ltb c.expires_at now

-- VerifyJWT: the identity that a verified access token names here, never a new one.
unfoldable pub verify_jwt :
    (String → Option TokenClaims) → String → Tables → String → Option Identity
verify_jwt tokens issuer db raw = elim (tokens raw) [
  | none ↦ none
  | some claims ↦
      if claims.subject == "" then none else elim (Identities.find db issuer claims.subject) [
        | Outcome.err e ↦ none
        | Outcome.ok stored ↦
            if stored.user_id == 0
            then none
            else some (record {
              user_id = stored.user_id;
              session_id = 0;
              subject = claims.subject;
              roles = claims.roles;
              scopes = claims.scopes;
              actor = claims.actor;
            })
      ]
]

module _ (k : Kit) where
  -- IssueFor of a template, as a JSON answer.
  unfoldable pub answer_session : Option Identity → Option String → Session → ℕ → Tables → Answered
  answer_session caller random bound now db =
      let (db', answer) = issue_for k.sessions caller random bound now db in
      record {
        db = db';
        reply = elim answer [
          | Answer.ok (token, s) ↦ issued bound.user_id token
          | Answer.err e ↦ denied e
        ];
      }

  -- The text whose hash the code of a request is stored under.
  unfoldable pub lookup_of : String → String → Option String
  lookup_of code verifier =
      if verifier == ""
      then some code
      else if not (valid_verifier verifier)
      then none
      else some (bound_code code (k.web.s256 verifier))

  unfoldable pub handle_exchange :
      String → String → Option Identity → Option String → ℕ → Tables → Answered
  unfolding lookup_of code_expired answer_session
  handle_exchange code verifier caller random now db =
      if code == "" then no_change db invalid else elim (lookup_of code verifier) [
        | none ↦ no_change db unauthorized
        | some lookup ↦ elim (Codes.consume db (k.sessions.hash_token lookup) now) [
          | Outcome.err e ↦ no_change db unauthorized
          | Outcome.ok (db', c) ↦
              if code_expired c now
              then no_change db' unauthorized
              else answer_session caller random (template c.user_id c.provider c.subject) now db'
        ]
      ]

  unfoldable pub handle_device_exchange :
      String → Option Identity → Option String → ℕ → Tables → Answered
  unfolding verify_jwt answer_session
  handle_device_exchange raw caller random now db = elim k.cli_tokens [
    | none ↦ no_change db absent
    | some tokens ↦
        if raw == ""
        then no_change db invalid
        else elim (verify_jwt tokens k.cfg.base.issuer db raw) [
          | none ↦ no_change db unauthorized
          | some identity ↦
              answer_session caller random
                (template identity.user_id k.cfg.base.issuer identity.subject) now db
        ]
  ]
