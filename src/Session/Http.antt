-- ===== src/Session/Http.antt =====
-- session/cookie.go and the parts of a request and a response that porte/session reads and writes.
-- A cookie that porte writes always has Path=/, HttpOnly and SameSite=Lax, which are left out.
use porte.Base.{
  ℕ, ◌/◌, String, List, [], ◌∷◌, Bool, true, false, not, ◌&&◌, ◌||◌, Option, none, some, string_eq,
  nat_eq, ◌==◌, ltb, if◌then◌else◌,
}
use Prim.Native.String.{slice, len}
use text.Mathlib.Text.{starts_with}
use porte.Base.Int.{ℤ, pos, negsuc}
use porte.Base.Strings.{GoStrings}

-- `header` fields are empty when the header is absent; `cookies` are in the order of the request.
pub record Request : Type 0 where
  pub method : String
  pub has_tls : Bool
  pub forwarded_proto : String
  pub csrf : String
  pub authorization : String
  pub cookies : List (String × String)

pub record SetCookie : Type 0 where
  pub name : String
  pub value : String
  pub max_age : ℤ
  pub is_secure : Bool

-- The settings of porte.Config that porte/session reads. Durations are in nanoseconds, and a
-- negative idle window disables it.
pub record Config : Type 0 where
  pub issuer : String
  pub redirect_url : String
  pub success_url : String
  pub session_ttl : ℕ
  pub session_idle_ttl : ℤ
  pub accept_legacy_cookie : Bool
  pub scope_prefix : String

abbrev pub session_cookie_name : String
session_cookie_name = "session"

abbrev pub default_session_ttl : ℕ
default_session_ttl = 2592000000000000

abbrev pub default_session_idle_ttl : ℕ
default_session_idle_ttl = 604800000000000

unfoldable pub resolved_config : Config → Config
resolved_config c = if c.session_ttl == 0 then record c { session_ttl = default_session_ttl } else c

-- The idle window, 0 when it is disabled.
unfoldable pub idle_timeout : Config → ℕ
idle_timeout c = elim c.session_idle_ttl [
  | negsuc n ↦ 0
  | pos n ↦ if n == 0 then default_session_idle_ttl else n
]

abbrev pub enabled : Config → Bool
enabled c = not (c.issuer == "")

unfoldable pub https : GoStrings → Config → Bool
https go c =
    starts_with (go.to_lower c.redirect_url) "https://"
    || starts_with (go.to_lower c.success_url) "https://"

unfoldable pub is_secure : GoStrings → Request → Bool
is_secure go r = if r.has_tls then true else go.equal_fold r.forwarded_proto "https"

unfoldable pub secure : GoStrings → Config → Request → Bool
unfolding https is_secure
secure go c r = https go c || is_secure go r

abbrev pub host_session : String
host_session = "__Host-session"

-- The name of the session cookie, with the __Host- prefix over https.
unfoldable pub cookie_name : GoStrings → Config → Request → String
cookie_name go c r = if secure go c r then host_session else session_cookie_name

-- http.Request.Cookie: the first cookie of that name.
unfoldable pub cookie : List (String × String) → String → Option String
cookie [] name = none
cookie ((key, value) ∷ rest) name = if key == name then some value else cookie rest name

unfoldable pub first_cookie : List (String × String) → List String → Option String
first_cookie cs [] = none
first_cookie cs (name ∷ names) = elim (cookie cs name) [
  | none ↦ first_cookie cs names
  | some value ↦ if value == "" then first_cookie cs names else some value
]

unfoldable pub read_cookie : GoStrings → Config → Request → Option String
unfolding first_cookie
read_cookie go c r = first_cookie r.cookies (
    if secure go c r
    then host_session ∷ (if c.accept_legacy_cookie then session_cookie_name ∷ [] else [])
    else session_cookie_name ∷ [])

unfoldable pub set_cookie : GoStrings → Config → Request → String → ℤ → SetCookie
set_cookie go c r value max_age = record {
  name = cookie_name go c r;
  value = value;
  max_age = max_age;
  is_secure = secure go c r;
}

-- Both spellings are expired over https.
unfoldable pub clear_cookie : GoStrings → Config → Request → List SetCookie
unfolding set_cookie
clear_cookie go c r =
    set_cookie go c r "" (negsuc 0)
    ∷ (if secure go c r
        then record { name = session_cookie_name; value = ""; max_age = negsuc 0; is_secure = true }
          ∷ []
        else [])

unfoldable pub set_session_cookie : GoStrings → Config → Request → String → SetCookie
unfolding set_cookie
set_session_cookie go c r token = set_cookie go c r token (pos (c.session_ttl / 1000000000))

unfoldable pub mutating : Request → Bool
mutating r = not (r.method == "GET" || r.method == "HEAD" || r.method == "OPTIONS")

-- The token of a request, and whether the cookie carried it; the empty token is none at all.
unfoldable pub credential : GoStrings → Config → Request → String × Bool
unfolding read_cookie
credential go c r = elim (read_cookie go c r) [
  | some value ↦ (value, true)
  | none ↦
      let a = r.authorization in
      if ltb 7 (len a) && go.equal_fold (slice a 0 7) "bearer "
      then (go.trim_space (slice a 7 (len a)), false)
      else ("", false)
]
