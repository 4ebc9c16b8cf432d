-- ===== src/Devicelogin/Discover.antt =====
-- devicelogin/discover.go and devicelogin/authorize.go, over the answers of the provider.
use porte.Base.{
  ℕ, String, Bool, true, false, not, ◌&&◌, ◌||◌, Option, none, some, string_eq, nat_eq, ◌==◌,
  if◌then◌else◌, any,
}
use porte.Base.Int.{ℤ, pos}
use porte.Devicelogin.Transport.{
  items, Doc, field, text, seconds, is_ok, Fault, no_device_grant, insecure, unreachable, refused,
  missing_field, Result, ok, err, Url, require_secure_url,
}

pub record Endpoints : Type 0 where
  pub device_authorization : String
  pub token : String

-- Durations are in nanoseconds.
pub record Authorization : Type 0 where
  pub device_code : String
  pub user_code : String
  pub verification_uri : String
  pub verification_uri_complete : String
  pub interval : ℤ
  pub expires_in : ℤ

abbrev pub grant_type : String
grant_type = "urn:ietf:params:oauth:grant-type:device_code"

abbrev pub default_interval : ℤ
default_interval = pos 5000000000

abbrev pub default_expiry : ℤ
default_expiry = pos 600000000000

abbrev names_grant : Option String → Bool
names_grant none = false
names_grant (some s) = s == grant_type

-- A list that is absent, or no list, is no refusal.
abbrev pub lists_device_grant : Doc → Bool
lists_device_grant doc = elim (field doc "grant_types_supported") [
  | some (items grants) ↦ any names_grant grants
  | _ ↦ true
]

-- Authorization.Link: the page that the user is sent to.
unfoldable pub link : Authorization → String
link auth =
    if not (auth.verification_uri_complete == "")
    then auth.verification_uri_complete
    else auth.verification_uri

module _ (parse : String → Option Url) where
  unfoldable pub endpoints_from : Doc → Result Endpoints
  endpoints_from doc =
      let found : Endpoints = record {
        device_authorization = text doc "device_authorization_endpoint";
        token = text doc "token_endpoint";
      } in
      if found.device_authorization == "" || (found.token == "" || not (lists_device_grant doc))
      then err no_device_grant
      else if not (
          require_secure_url parse found.device_authorization
          && require_secure_url parse found.token)
      then err insecure
      else ok found

  -- `get` fetches the configuration of an issuer: none when nothing answers, and a body that is no
  -- JSON object is no document.
  unfoldable pub discover : (String → Option (ℕ × Option Doc)) → String → Result Endpoints
  unfolding endpoints_from
  discover get issuer =
      if not (require_secure_url parse issuer) then err insecure else elim (get issuer) [
        | none ↦ err unreachable
        | some (status, none) ↦ err refused
        | some (status, some doc) ↦ if not (is_ok status) then err refused else endpoints_from doc
      ]

  abbrev pub usable : Authorization → Option Fault
  usable auth =
      if auth.device_code == "" || (auth.user_code == "" || auth.verification_uri == "")
      then some missing_field
      else if not (require_secure_url parse auth.verification_uri)
          || (not (auth.verification_uri_complete == "")
              && not (require_secure_url parse auth.verification_uri_complete))
      then some insecure
      else none

  abbrev pub authorization_of : Doc → Authorization
  authorization_of doc = record {
    device_code = text doc "device_code";
    user_code = text doc "user_code";
    verification_uri = text doc "verification_uri";
    verification_uri_complete = text doc "verification_uri_complete";
    interval = seconds doc "interval" default_interval;
    expires_in = seconds doc "expires_in" default_expiry;
  }

  -- `post` is the answer of the device authorization endpoint.
  unfoldable pub authorize : Option (ℕ × Doc) → Result Authorization
  unfolding text seconds
  authorize none = err unreachable
  authorize (some (status, doc)) =
      if not (is_ok status) then err refused else elim (usable (authorization_of doc)) [
        | some e ↦ err e
        | none ↦ ok (authorization_of doc)
      ]
