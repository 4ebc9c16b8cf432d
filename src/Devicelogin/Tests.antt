-- ===== src/Devicelogin/Tests.antt =====
-- Runs of the device login at concrete inputs.
use porte.Base.{
  ℕ, zero, suc, String, List, [], ◌∷◌, true, false, Option, none, some, ◌≡◌, refl, string_eq,
  nat_eq, ◌==◌, if◌then◌else◌, arith,
}
use porte.Base.Int.{pos, wrap64}
use porte.Devicelogin.Transport.{
  Value, text_value, number, text, seconds, Result, ok, Url, require_secure_url,
}
use porte.Devicelogin.Discover.{endpoints_from, discover, authorize}
use porte.Devicelogin.Poll.{Round, slower, read, step, poll_from, poll}
use porte.Devicelogin.Login.{
  Options, Session, World, with_defaults, post_exchange, exchange, mounted, login,
}
use porte.Devicelogin.Ending.{poll_ends}
use porte.Devicelogin.Origins.{Trail, login_sound}

abbrev answers : List (String × Value) → Round
answers doc = record { is_cancelled = false; lag = 1; answer = some (400, doc) }

-- Two slow_downs, then the token.
abbrev rounds : ℕ → Round
rounds zero = answers (("error", text_value "slow_down") ∷ [])
rounds (suc zero) = answers (("error", text_value "authorization_pending") ∷ [])
rounds n = record (answers []) { answer = some (200, ("access_token", text_value "at") ∷ []) }

polled : poll 4 rounds 100 (pos 5000000000) (pos 600000000000) ≡ some (ok "at")
unfolding poll poll_from step read slower text
polled = refl

-- The provider never answers.
abbrev silence : ℕ → Round
silence n = record { is_cancelled = false; lag = 0; answer = none }

poll_ends_example : (r : Result String) × (poll 4 silence 100 (pos 10) (pos 30) ≡ some r)
poll_ends_example = poll_ends 3 silence 100 10 30 (ground arith)

-- A fraction of a second is an interval of 0.
busy : seconds (("interval", number (pos 0) true) ∷ []) "interval" (pos 5000000000) ≡ pos 0
unfolding seconds wrap64
busy = refl

abbrev parse : String → Option Url
parse raw =
    if raw == "plain"
    then some (record { scheme = "http"; host = "h"; hostname = "h" })
    else some (record { scheme = "https"; host = "h"; hostname = "h" })

plaintext : require_secure_url parse "plain" ≡ false
unfolding require_secure_url
plaintext = refl

abbrev world : World
world = record {
  parse = parse;
  configuration = λ issuer. some (
    200,
    some (
        ("device_authorization_endpoint", text_value "https://id/device")
        ∷ ("token_endpoint", text_value "https://id/token")
        ∷ []),
  );
  device = λ endpoint client scope. some (
    200,
    ("device_code", text_value "dc")
        ∷ ("user_code", text_value "uc")
        ∷ ("verification_uri", text_value "https://id/go")
        ∷ [],
  );
  rounds = λ endpoint client code. rounds;
  exchange = λ origin mount body. some (200, ("token", text_value "session") ∷ []);
}

abbrev options : Options
options = record { app_origin = "https://app"; mount = ""; issuer = ""; client_id = ""; scope = "" }

abbrev session : Session
session = record { token = "session"; user_id = "" }

login_sound_example : Trail world 4 100 (with_defaults options) session
unfolding login mounted post_exchange require_secure_url discover endpoints_from authorize seconds
    poll poll_from step read slower text exchange with_defaults wrap64
login_sound_example = login_sound world 4 100 options session refl
