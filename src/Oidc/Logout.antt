-- ===== src/Oidc/Logout.antt =====
-- handleBackchannelLogout of oidc/handlers.go and the check of its token.
pub mod Ending
use porte.Base.{
  ℕ, zero, suc, ◌+◌, ◌-◌, ◌/◌, ◌≤◌, ◌<◌, String, List, [], ◌∷◌, ◌++◌, Bool, true, false, not, ◌&&◌,
  ◌||◌, Option, none, some, ◌≡◌, ◌≢◌, refl, sym, ap, ◌∙◌, subst, ◌↔◌, ◌⊎◌, inl, inr, Memᴰ,
  string_eq, nat_eq, ◌==◌, beq_iff, beq_refl, ltb, leb, if◌then◌else◌, Bool-cases, Option-cases,
  length, All, keep, tally, map, arith, tests, first, any, amend,
}
use porte.Pg.Tables.{Tables, Outcome}
use porte.Pg.Identities
use porte.Pg.Sessions
use porte.Oidc.Claims.{IdToken}
use porte.Oidc.Kit.{Kit}
use porte.Oidc.Callback.{Reply, invalid, unauthorized, logged_out}
use porte.Oidc.Exchange.{Answered, no_change}

abbrev pub backchannel_logout_event : String
backchannel_logout_event = "http://schemas.openid.net/event/backchannel-logout"

-- The subject of a logout token: one without a nonce, with the event, and with a subject.
unfoldable pub logout_subject : IdToken → Option String
logout_subject id = if not (id.nonce == "") then none else elim id.events [
  | none ↦ none
  | some events ↦
      if not (any (λ e. e == backchannel_logout_event) events)
      then none
      else if id.subject == ""
      then none
      else some id.subject
]

module _ (k : Kit) where
  unfoldable pub verify_logout_token : String → Option String
  unfolding logout_subject
  verify_logout_token raw = elim (k.provider.verify raw) [
    | none ↦ none
    | some id ↦ logout_subject id
  ]

  unfoldable pub handle_backchannel_logout : String → Tables → Answered
  unfolding verify_logout_token
  handle_backchannel_logout raw db =
      if raw == "" then no_change db invalid else elim (verify_logout_token raw) [
        | none ↦ no_change db unauthorized
        | some subject ↦ elim (Identities.find db k.cfg.base.issuer subject) [
          | Outcome.err e ↦ no_change db logged_out
          | Outcome.ok stored ↦ no_change (Sessions.delete_by_user db stored.user_id) logged_out
        ]
      ]
