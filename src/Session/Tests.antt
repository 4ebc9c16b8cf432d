-- ===== src/Session/Tests.antt =====
-- Runs of the session manager at concrete inputs.
use porte.Base.{
  [], ◌∷◌, ◌++◌, true, false, ◌&&◌, none, some, ◌≡◌, ◌≢◌, refl, inr, string_eq, nat_eq, ◌==◌, arith,
  any, text_ne,
}
use porte.Base.Int.{pos}
use porte.Base.Strings.{GoStrings}
use porte.Pg.Tables.{Session, Tables, not_found, Outcome}
use porte.Pg.Sessions.{find}
use porte.Session.Http.{
  Request, credential, mutating, clear_cookie, read_cookie, first_cookie, cookie, secure, https,
  is_secure, idle_timeout, set_cookie, cookie_name,
}
use porte.Session.Manager.{
  Identity, Manager, ok, err, unauthorized, authenticate, authenticate_as, look_up, admit, expired,
  idled_out, session_identity, jwt_applies,
}
use porte.Session.Manager.{issue_for, handle_logout}
use porte.Session.Http.{set_session_cookie}
use porte.Session.Lifecycle.{
  credential_planted, credential-set_session_cookie, authenticate-issue_for, issue_for_revoked,
  handle_logout_ends,
}
use porte.Session.Serving.{IsLive, IsAdmitted, authenticate_sound, authenticate_dead}

-- Strings that are lower case and trimmed already.
abbrev go : GoStrings
go = record {
  to_lower = λ s. s;
  trim_space = λ s. s;
  append = λ s t. s;
  equal_fold = λ s t. s == t;
}

abbrev manager : Manager
manager = record {
  strings = go;
  cfg = record {
    issuer = "";
    redirect_url = "";
    success_url = "";
    session_ttl = 1000000000;
    session_idle_ttl = pos 100;
    accept_legacy_cookie = false;
    scope_prefix = "";
  };
  hash_token = λ s. s;
  jwt = none;
  claims = none;
}

abbrev bobs : Session
bobs = record {
  id = 2;
  token_hash = "tok";
  user_id = 7;
  label = "";
  created_at = 10;
  last_used_at = 10;
  expires_at = 50;
  provider = "";
  subject = "";
  issued_by = 0;
}

abbrev db : Tables
db = record {
  users = [];
  identities = [];
  sessions = bobs ∷ [];
  codes = [];
  links = [];
  next_user = 8;
  next_session = 3;
  has_codes = false;
  has_links = false;
}

abbrev post : Request
post = record {
  method = "POST";
  has_tls = true;
  forwarded_proto = "";
  csrf = "1";
  authorization = "";
  cookies = ("__Host-session", "tok") ∷ [];
}

let_in : (authenticate manager post 20 db).answer ≡ ok (session_identity manager bobs)
unfolding authenticate authenticate_as look_up admit expired idled_out find credential read_cookie
    first_cookie cookie secure https is_secure mutating idle_timeout jwt_applies
let_in = refl

authenticate_sound_example :
    (true ≡ true → mutating post ≡ true → post.csrf ≢ "")
    × IsAdmitted manager post "tok" true 20 db (session_identity manager bobs)
unfolding credential read_cookie first_cookie cookie secure https is_secure
authenticate_sound_example =
    authenticate_sound manager post 20 db (session_identity manager bobs) let_in

presented : credential go manager.cfg post ≡ ("tok", true)
unfolding credential read_cookie first_cookie cookie secure https is_secure
presented = refl

found : find db "tok" ≡ Outcome.ok bobs
unfolding find
found = refl

opaque : jwt_applies manager true "tok" ≡ false
unfolding jwt_applies
opaque = refl

late_use : ¬ IsLive manager.cfg true bobs 60
late_use = λ (e, _). ground arith

authenticate_dead_run :
    ((authenticate manager post 60 db).answer ≡ err unauthorized)
    × (find (authenticate manager post 60 db).db "tok" ≡ Outcome.err not_found)
    × ((authenticate manager post 60 db).cookies ≡ clear_cookie go manager.cfg post)
authenticate_dead_run =
    authenticate_dead manager post "tok" true 60 db bobs presented (text_ne "tok" "" refl)
      (inr (inr (text_ne "1" "" refl))) opaque found late_use

-- A sibling plants the unprefixed name in front of the real cookie.
credential_planted_example :
    credential go manager.cfg
      (record post { cookies = ("session", "evil") ∷ ("__Host-session", "tok") ∷ [] })
    ≡ credential go manager.cfg post
unfolding secure https is_secure
credential_planted_example =
    credential_planted go manager.cfg post [] (("__Host-session", "tok") ∷ []) "session" "evil" refl
      refl (text_ne "session" "__Host-session" refl)

abbrev next_request : Request
next_request = record post { cookies = ("theme", "dark") ∷ ("__Host-session", "new") ∷ [] }

credential-set_session_cookie_run : credential go manager.cfg next_request ≡ ("new", true)
unfolding set_session_cookie set_cookie cookie_name secure https is_secure
credential-set_session_cookie_run =
    credential-set_session_cookie go manager.cfg post next_request "new" (("theme", "dark") ∷ []) []
      (text_ne "new" "" refl) refl refl refl

abbrev login : Session
login = record bobs { id = 0; token_hash = ""; expires_at = 0; created_at = 0; last_used_at = 0 }

sends_new : credential go manager.cfg next_request ≡ ("new", true)
unfolding credential read_cookie first_cookie cookie secure https is_secure
sends_new = refl

new_opaque : jwt_applies manager true "new" ≡ false
unfolding jwt_applies
new_opaque = refl

authenticate-issue_for_example :
    (db' : Tables) × (s : Session) × (issue_for manager none (some "new") login 30 db
      ≡ (db', ok ("new", s)))
    × (s.user_id ≡ 7)
    × ((authenticate manager next_request 40 db').answer ≡ ok (session_identity manager s))
unfolding idle_timeout
authenticate-issue_for_example =
    authenticate-issue_for manager next_request none login "new" true 30 40 db refl refl refl refl
      (text_ne "new" "" refl) sends_new (inr (inr (text_ne "1" "" refl))) new_opaque (omega arith)
      (inr (inr (inr (omega arith))))

abbrev bob_signed_out : Identity
bob_signed_out = record {
  user_id = 7;
  session_id = 1;
  subject = "";
  roles = [];
  scopes = [];
  actor = "";
}

issue_for_revoked_example :
    issue_for manager
      (some bob_signed_out)
      (some "cli-token")
      (record login { label = "cli" })
      30
      db
    ≡ (db, err unauthorized)
issue_for_revoked_example =
    issue_for_revoked manager bob_signed_out (record login { label = "cli" }) "cli-token" 30 db
      (text_ne "cli" "" refl) refl refl refl (ground arith) refl

handle_logout_ends_run :
    ((handle_logout manager post 20 db).answer ≡ ok tt)
    × (any (λ s. s.id == 2 && s.user_id == 7) (handle_logout manager post 20 db).db.sessions
        ≡ false)
    × ((handle_logout manager post 20 db).cookies
        ≡ (authenticate manager post 20 db).cookies ++ clear_cookie go manager.cfg post)
handle_logout_ends_run =
    handle_logout_ends manager post 20 db (session_identity manager bobs) let_in
      (inr (text_ne "1" "" refl))
