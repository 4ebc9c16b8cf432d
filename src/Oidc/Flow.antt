-- ===== src/Oidc/Flow.antt =====
-- oidc/cookie.go, the checks of oidc/handlers.go on what a caller sends, and session/cookie.go at the
-- cookie of the flow. JSON, base64, SHA-256 and strconv are a parameter.
use porte.Base.{
  ℕ, String, List, [], ◌∷◌, Bool, true, false, not, ◌&&◌, ◌||◌, Option, none, some, string_eq,
  nat_eq, ◌==◌, ltb, leb, if◌then◌else◌, length,
}
use Prim.Native.Char.{code}
use Prim.Native.String.{len}
use porte.Base.Int.{ℤ, pos, negsuc, ltb_ℤ}
use porte.Base.Strings.{GoStrings}
use porte.Base.Locale.{normalize_locale}
use porte.Session.Http.{Request, SetCookie, Config, secure, first_cookie}

-- What the callback needs and the provider must not see.
pub record Flow : Type 0 where
  pub state : String
  pub nonce : String
  pub verifier : String
  pub is_cli : Bool
  pub port : String
  pub cli_state : String
  pub is_mobile : Bool
  pub challenge : String

-- `encode` and `decode` are JSON within base64url, `decode_base64` is base64url alone, `s256` the PKCE
-- transform, `atoi` strconv's and `is_url` tells whether net/url parses a text.
pub record Web : Type 0 where
  pub encode : Flow → Option String
  pub decode : String → Option Flow
  pub decode_base64 : String → Option (List ℕ)
  pub s256 : String → String
  pub atoi : String → Option ℤ
  pub is_url : String → Bool

abbrev pub flow_cookie : String
flow_cookie = "oidc_state"

abbrev pub host_flow : String
host_flow = "__Host-oidc_state"

-- In seconds.
abbrev pub flow_ttl : ℕ
flow_ttl = 600

unfoldable pub decode_flow : Web → String → Option Flow
decode_flow web value = elim (web.decode value) [
  | none ↦ none
  | some f ↦ if f.state == "" || (f.verifier == "" || f.nonce == "") then none else some f
]

unfoldable pub read_flow : GoStrings → Config → Request → Option String
unfolding first_cookie
read_flow go c r = first_cookie r.cookies (
    if secure go c r
    then host_flow ∷ (if c.accept_legacy_cookie then flow_cookie ∷ [] else [])
    else flow_cookie ∷ [])

unfoldable pub set_flow : GoStrings → Config → Request → String → ℤ → SetCookie
set_flow go c r value max_age = record {
  name = if secure go c r then host_flow else flow_cookie;
  value = value;
  max_age = max_age;
  is_secure = secure go c r;
}

unfoldable pub clear_flow : GoStrings → Config → Request → List SetCookie
unfolding set_flow
clear_flow go c r =
    set_flow go c r "" (negsuc 0)
    ∷ (if secure go c r
        then record { name = flow_cookie; value = ""; max_age = negsuc 0; is_secure = true } ∷ []
        else [])

unfoldable pub all_chars : (ℕ → Bool) → String → Bool
all_chars p String.[] = true
all_chars p (String.◌∷◌ x s) = p (code x) && all_chars p s

abbrev pub within : ℕ → ℕ → ℕ → Bool
within low high c = leb low c && leb c high

-- Letters, digits, `-` and `_`.
abbrev pub is_opaque : ℕ → Bool
is_opaque c =
    within b'a' b'z' c || (within b'A' b'Z' c || (within b'0' b'9' c || (c == b'-' || c == b'_')))

-- The unreserved characters: also `.` and `~`.
abbrev pub is_unreserved : ℕ → Bool
is_unreserved c = is_opaque c || (c == b'.' || c == b'~')

abbrev pub max_cli_state : ℕ
max_cli_state = 128

unfoldable pub cli_state : String → String
unfolding all_chars
cli_state value =
    if value == "" || ltb max_cli_state (len value)
    then ""
    else if all_chars is_opaque value
    then value
    else ""

unfoldable pub valid_challenge : Web → String → Bool
valid_challenge web value =
    if not (len value == 43)
    then false
    else elim (web.decode_base64 value) [ none ↦ false | some bytes ↦ length bytes == 32 ]

unfoldable pub valid_verifier : String → Bool
unfolding all_chars
valid_verifier value =
    if ltb (len value) 43 || ltb 128 (len value) then false else all_chars is_unreserved value

unfoldable pub loopback_port : Web → String → String
loopback_port web value = elim (web.atoi value) [
  | none ↦ ""
  | some port ↦ if ltb_ℤ port (pos 1024) || ltb_ℤ (pos 65535) port then "" else value
]

unfoldable pub ui_locales : GoStrings → String → Option String
ui_locales go raw =
    let tag = go.to_lower (go.trim_space raw) in
    if tag == "" || not (normalize_locale go tag == tag) then none else some tag
