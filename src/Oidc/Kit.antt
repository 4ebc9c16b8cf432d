-- ===== src/Oidc/Kit.antt =====
-- oidc/oidc.go: the settings, the dependencies and the boot of the kit. The provider, which go-oidc
-- and oauth2 speak to, is a parameter. Config.Validate and the discovery itself are
-- parameters too; the checks for a missing store are left out.
use porte.Base.{
  ℕ, String, List, [], ◌∷◌, Bool, true, false, not, ◌&&◌, Option, none, some, string_eq, nat_eq,
  ◌==◌, if◌then◌else◌, any,
}
use porte.Pg.Tables.{TokenSet}
use porte.Session.Http.{Config, idle_timeout, resolved_config}
use porte.Session.Manager.{Manager}
use porte.Oidc.Flow.{Web}
use porte.Oidc.Claims.{RawClaims, IdToken, Trust, Asserted, claims_enabled}

-- porte.Config, the settings that porte/oidc reads. A claims or code lifetime is in nanoseconds.
pub record Settings : Type 0 where
  pub base : Config
  pub trust : Trust
  pub claims_ttl : ℕ
  pub login_code_ttl : ℕ
  pub mobile_redirect : String
  pub cli_audience : String
  pub machine_audience : String

-- A token response of the provider.
pub record Token : Type 0 where
  pub tokens : TokenSet
  pub id_token : Option String

-- The userinfo response; none is an error of its decoding.
pub record UserInfo : Type 0 where
  pub subject : String
  pub claims : Option RawClaims
  pub all_claims : Option (List (String × String))

-- `exchange` is oauth2's by code and verifier, `renew` its token source over stored tokens,
-- `verify` go-oidc's verifier and `user_info` its userinfo call; none is an error.
pub record Provider : Type 0 where
  pub exchange : String → String → Option Token
  pub renew : TokenSet → Option Token
  pub verify : String → Option IdToken
  pub user_info : TokenSet → Option UserInfo

-- The claims of an access token that oidc/jwt verified.
pub record TokenClaims : Type 0 where
  pub subject : String
  pub roles : List String
  pub scopes : List String
  pub actor : String

-- `avatars` fetches a picture and puts it into the app's store. `cli_tokens` is the verifier of the
-- command line's access tokens, attached when Config.CLIAudience is set.
pub record Kit : Type 0 where
  pub cfg : Settings
  pub sessions : Manager
  pub provider : Provider
  pub web : Web
  pub avatars : Option (Asserted → Option String)
  pub cli_tokens : Option (String → Option TokenClaims)

abbrev pub default_claims_ttl : ℕ
default_claims_ttl = 300000000000

abbrev pub default_login_code_ttl : ℕ
default_login_code_ttl = 60000000000

unfoldable pub resolved : Settings → Settings
resolved c = record c {
  base = resolved_config c.base;
  claims_ttl = if c.claims_ttl == 0 then default_claims_ttl else c.claims_ttl;
  login_code_ttl = if c.login_code_ttl == 0 then default_login_code_ttl else c.login_code_ttl;
}

-- A kit and a manager of different settings are refused.
unfoldable pub agrees_with : Settings → Config → Bool
agrees_with c manager =
    let kit = resolved_config c.base in
    kit.redirect_url == manager.redirect_url
    && (kit.success_url == manager.success_url
        && (kit.session_ttl == manager.session_ttl && idle_timeout kit == idle_timeout manager))

-- `advertised` is scopes_supported of the discovery document, none when it cannot be read.
unfoldable pub guard_claims_scope : Trust → Option (List String) → Bool
guard_claims_scope t advertised = if not (claims_enabled t) then true else elim advertised [
  | none ↦ false
  | some [] ↦ true
  | some (scope ∷ scopes) ↦ any (λ s. s == t.claims_scope) (scope ∷ scopes)
]

-- `ready` is the kit, the verifier that it attached to the session manager for machine tokens, and
-- whether it attached itself as the source of claims.
pub data Boot : Type 0 where
  invalid disagrees undiscovered scope_missing : Boot
  disabled : Settings → Boot
  ready : Kit → Option (String → Option TokenClaims) → Bool → Boot

-- The verifier of an audience, if one is set; none when it cannot be configured.
abbrev pub verifier_of {ℓ} : {A : Type ℓ} → (String → Option A) → String → Option (Option A)
verifier_of build audience =
    if audience == ""
    then some none
    else elim (build audience) [ none ↦ none | some v ↦ some (some v) ]

-- `valid` is Config.Validate's verdict, `discovered` the provider with its advertised scopes, none
-- when the discovery fails, and `tokens` builds the verifier of an audience.
unfoldable pub new :
    Bool
    → Settings
    → Manager
    → Web
    → Option (Asserted → Option String)
    → Option (Provider × Option (List String))
    → (String → Option (String → Option TokenClaims))
    → Boot
unfolding agrees_with guard_claims_scope
new valid c manager web avatars discovered tokens =
    if not valid
    then invalid
    else if not (agrees_with c manager.cfg)
    then disagrees
    else if c.base.issuer == ""
    then disabled (resolved c)
    else elim discovered [
      | none ↦ undiscovered
      | some (provider, advertised) ↦
          if not (guard_claims_scope c.trust advertised)
          then scope_missing
          else elim (verifier_of tokens c.machine_audience) [
            | none ↦ undiscovered
            | some machine ↦ elim (verifier_of tokens c.cli_audience) [
              | none ↦ undiscovered
              | some cli ↦
                  ready
                    (record {
                      cfg = resolved c;
                      sessions = manager;
                      provider = provider;
                      web = web;
                      avatars = avatars;
                      cli_tokens = cli;
                    })
                    machine (claims_enabled c.trust)
            ]
          ]
    ]
