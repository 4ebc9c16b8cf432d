-- ===== src/Devicelogin/Transport.antt =====
-- devicelogin/transport.go but for the requests, devicelogin/errors.go, and the parsed URL of
-- devicelogin/discover.go. A JSON number is its integer part, rounded down, and whether it has a
-- fraction; one beyond Go's int64 is left out. The items of
-- a list are their texts, none for another value.
use porte.Base.{
  ℕ, String, List, [], ◌∷◌, Bool, false, not, ◌&&◌, ◌||◌, Option, none, some, string_eq, nat_eq,
  ◌==◌, leb, if◌then◌else◌,
}
use porte.Base.{◌*◌}
use porte.Base.Int.{ℤ, pos, negsuc, wrap64}

pub data Value : Type 0 where
  text_value : String → Value
  number : ℤ → Bool → Value
  items : List (Option String) → Value
  other : Value

abbrev pub Doc : Type 0
Doc = List (String × Value)

abbrev pub field : Doc → String → Option Value
field [] key = none
field ((name, value) ∷ doc) key = if name == key then some value else field doc key

unfoldable pub text : Doc → String → String
text doc key = elim (field doc key) [ some (text_value s) ↦ s | _ ↦ "" ]

-- One second, in nanoseconds.
abbrev pub second : ℕ
second = 1000000000

-- The duration of a number: fractions are cut off before the multiplication, which wraps.
abbrev pub whole_seconds : ℤ → Bool → ℤ → ℤ
whole_seconds (negsuc n) fraction fallback = fallback
whole_seconds (pos n) fraction fallback =
    if n == 0 && not fraction then fallback else wrap64 (pos (n * second))

unfoldable pub seconds : Doc → String → ℤ → ℤ
seconds doc key fallback = elim (field doc key) [
  | some (number whole fraction) ↦ whole_seconds whole fraction fallback
  | _ ↦ fallback
]

abbrev pub is_ok : ℕ → Bool
is_ok status = leb 200 status && leb status 299

pub data Fault : Type 0 where
  exchange_not_mounted account_not_linked no_device_grant denied expired cancelled : Fault
  insecure unreachable refused missing_field no_token : Fault

pub data Result {ℓ} (A : Type ℓ) : Type ℓ where
  ok : A → Result A
  err : Fault → Result A

-- net/url's answer, none when it does not parse.
pub record Url : Type 0 where
  pub scheme : String
  pub host : String
  pub hostname : String

abbrev pub is_loopback : String → Bool
is_loopback host = host == "localhost" || (host == "127.0.0.1" || host == "::1")

-- An absolute URL over https, or over http to this machine.
unfoldable pub require_secure_url : (String → Option Url) → String → Bool
require_secure_url parse raw = elim (parse raw) [
  | none ↦ false
  | some url ↦
      if url.host == ""
      then false
      else url.scheme == "https" || (url.scheme == "http" && is_loopback url.hostname)
]
