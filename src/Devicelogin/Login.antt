-- ===== src/Devicelogin/Login.antt =====
-- devicelogin/devicelogin.go and devicelogin/exchange.go. The network and the clock are a parameter;
-- what is printed and the browser that is opened are left out, and so is how a URL is joined.
use porte.Base.{
  ℕ, String, Bool, true, false, not, Option, none, some, string_eq, nat_eq, ◌==◌, if◌then◌else◌,
}
use porte.Devicelogin.Transport.{
  Doc, text, is_ok, exchange_not_mounted, account_not_linked, insecure, unreachable, refused,
  no_token, Result, ok, err, Url, require_secure_url,
}
use porte.Devicelogin.Discover.{Endpoints, Authorization, discover, authorize}
use porte.Devicelogin.Poll.{Round, poll}

pub record Options : Type 0 where
  pub app_origin : String
  pub mount : String
  pub issuer : String
  pub client_id : String
  pub scope : String

pub record Session : Type 0 where
  pub token : String
  pub user_id : String

-- `configuration` answers for an issuer, `device` for an endpoint with client and scope, `rounds` for
-- the rounds of the poll at an endpoint with client and code, and `exchange` for an app's origin and
-- mount with a body, none for the empty one. `parse` is net/url's.
pub record World : Type 0 where
  pub parse : String → Option Url
  pub configuration : String → Option (ℕ × Option Doc)
  pub device : String → String → String → Option (ℕ × Doc)
  pub rounds : String → String → String → ℕ → Round
  pub exchange : String → String → Option String → Option (ℕ × Doc)

abbrev pub or_default : String → String → String
or_default value fallback = if value == "" then fallback else value

unfoldable pub with_defaults : Options → Options
with_defaults o = record o {
  issuer = or_default o.issuer "https://sso.facile.studio";
  client_id = or_default o.client_id "facile-cli";
  scope = or_default o.scope "openid email profile";
}

module _ (w : World) where
  unfoldable pub post_exchange : String → String → Option String → Result (ℕ × Doc)
  post_exchange origin mount body =
      if not (require_secure_url w.parse origin)
      then err insecure
      else elim (w.exchange origin mount body) [ none ↦ err unreachable | some answer ↦ ok answer ]

  abbrev pub session_of : ℕ → Doc → Result Session
  session_of status doc =
      if status == 404
      then err exchange_not_mounted
      else if status == 401
      then err account_not_linked
      else if not (is_ok status)
      then err refused
      else if text doc "token" == ""
      then err no_token
      else ok (record { token = text doc "token"; user_id = text doc "user_id" })

  unfoldable pub exchange : String → String → String → Result Session
  unfolding post_exchange text
  exchange origin mount access_token = elim (post_exchange origin mount (some access_token)) [
    | err e ↦ err e
    | ok (status, doc) ↦ session_of status doc
  ]

  -- An unmounted exchange is a 404 to the empty body.
  unfoldable pub mounted : String → String → Result Bool
  unfolding post_exchange
  mounted origin mount = elim (post_exchange origin mount none) [
    | err e ↦ err e
    | ok (status, doc) ↦ ok (not (status == 404))
  ]

  -- What follows a token of the provider.
  abbrev pub redeem : Options → Option (Result String) → Option (Result Session)
  redeem o none = none
  redeem o (some (err e)) = some (err e)
  redeem o (some (ok access_token)) = some (exchange o.app_origin o.mount access_token)

  abbrev pub approve : ℕ → ℕ → Options → Endpoints → Result Authorization → Option (Result Session)
  approve fuel now o endpoints (err e) = some (err e)
  approve fuel now o endpoints (ok auth) = redeem o (
      poll fuel (w.rounds endpoints.token o.client_id auth.device_code) now auth.interval
        auth.expires_in)

  abbrev pub sign_in : ℕ → ℕ → Options → Result Endpoints → Option (Result Session)
  sign_in fuel now o (err e) = some (err e)
  sign_in fuel now o (ok endpoints) =
      approve fuel now o endpoints
        (authorize w.parse (w.device endpoints.device_authorization o.client_id o.scope))

  abbrev pub begin : ℕ → ℕ → Options → Result Bool → Option (Result Session)
  begin fuel now o (err e) = some (err e)
  begin fuel now o (ok false) = some (err exchange_not_mounted)
  begin fuel now o (ok true) = sign_in fuel now o (discover w.parse w.configuration o.issuer)

  -- The fuel bounds the rounds of the poll; none is out of it.
  unfoldable pub login : ℕ → ℕ → Options → Option (Result Session)
  unfolding mounted with_defaults exchange
  login fuel now options =
      let o = with_defaults options in begin fuel now o (mounted o.app_origin o.mount)
