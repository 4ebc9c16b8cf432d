-- ===== src/Oidc/Tests.antt =====
-- Runs of the kit at concrete inputs.
use porte.Base.{
  String, List, [], ◌∷◌, true, false, ◌&&◌, Option, none, some, ◌≡◌, ◌≢◌, refl, ◌⊎◌, Memᴰ,
  string_eq, nat_eq, ◌==◌, if◌then◌else◌, arith,
}
use porte.Base.{text_ne}
use porte.Base.Int.{pos}
use porte.Base.Strings.{GoStrings, append}
use porte.Pg.Tables.{User, TokenSet, StoredIdentity, Session, Tables, Outcome, identity_of}
use porte.Pg.Linking
use porte.Pg.Linking.{new_identity}
use porte.Pg.Identities
use porte.Pg.Sessions
use porte.Pg.Codes
use porte.Session.Http
use porte.Session.Http.{Request, Config, resolved_config, idle_timeout}
use porte.Session.Manager.{
  Identity, Manager, authenticate, authenticate_as, look_up, admit, expired, idled_out, jwt_applies,
  issue_cookie_for, issue_for, stamped, bind_to_caller,
}
use porte.Oidc.Flow.{Flow, valid_verifier, all_chars, read_flow, decode_flow}
use porte.Oidc.Claims.{
  flag, other, RawClaims, IdToken, Trust, email_claim_asserted, email_trusted, extra_claims,
  claims_from_id_token, roles_claim, asserted_by,
}
use porte.Oidc.Kit.{Settings, TokenClaims, Kit, resolved, agrees_with}
use porte.Oidc.Boot.{agrees_with-secure}
use porte.Oidc.Callback
use porte.Oidc.Callback.{
  Done, Reply, issued, unauthorized, logged_out, home, handle_callback, issue_mobile_code, template,
  bound_code,
}
use porte.Oidc.Callback.Answering.{IsAnswered}
use porte.Oidc.Callback.Soundness.{IsPending, IsLanded, callback_sound}
use porte.Oidc.Exchange
use porte.Oidc.Exchange.{no_change, handle_exchange, handle_device_exchange, lookup_of}
use porte.Oidc.Exchange.Once.{exchange_replayed}
use porte.Oidc.Exchange.Device.{IsNamed, device_exchange_sound}
use porte.Oidc.Exchange.Mobile.{Unlocks, exchange-issue_mobile_code, exchange_intercepted}
use porte.Oidc.Logout.{
  backchannel_logout_event, handle_backchannel_logout, verify_logout_token, logout_subject,
}
use porte.Oidc.Logout.Ending.{IsOrdered, backchannel_logout_sound, backchannel_logout_ends}

abbrev go : GoStrings
go = record { to_lower = λ s. s; trim_space = λ s. s; append = append; equal_fold = λ s t. s == t }

abbrev base : Config
base = record {
  issuer = "https://id";
  redirect_url = "http://app/callback";
  success_url = "http://app/";
  session_ttl = 1000;
  session_idle_ttl = pos 100;
  accept_legacy_cookie = false;
  scope_prefix = "";
}

abbrev manager : Manager
manager = record { strings = go; cfg = base; hash_token = λ s. s; jwt = none; claims = none }

abbrev trust : Trust
trust = record { claims_scope = ""; without_verified_claim = false; extra_claims = [] }

abbrev settings : Settings
settings = record {
  base = base;
  trust = trust;
  claims_ttl = 0;
  login_code_ttl = 60;
  mobile_redirect = "app://login";
  cli_audience = "cli";
  machine_audience = "";
}

abbrev verifier : String
verifier = "aaaaaaaaaaaaaaaaaaaaaaaaaaaaaaaaaaaaaaaaaaa"

abbrev flow : Flow
flow = record {
  state = "st";
  nonce = "no";
  verifier = verifier;
  is_cli = false;
  port = "";
  cli_state = "";
  is_mobile = false;
  challenge = "";
}

abbrev mobile_flow : Flow
mobile_flow = record flow { is_mobile = true; challenge = verifier }

abbrev ada : RawClaims
ada = record {
  email = "ada@app";
  email_verified = flag true;
  name = "Ada";
  preferred_username = "";
  given_name = "";
  family_name = "";
  picture = "";
  locale = other;
}

abbrev login_token : IdToken
login_token = record {
  subject = "sub";
  nonce = "no";
  claims = some ada;
  roles = none;
  all_claims = none;
  events = none;
}

abbrev logout_token : IdToken
logout_token = record login_token { nonce = ""; events = some (backchannel_logout_event ∷ []) }

abbrev no_tokens : TokenSet
no_tokens = record { access_token = ""; refresh_token = ""; expiry = 0 }

abbrev kit : Kit
kit = record {
  cfg = settings;
  sessions = manager;
  provider = record {
    exchange = λ code v.
        if code == "good" && v == verifier
        then some (record { tokens = no_tokens; id_token = some "login" })
        else none;
    renew = λ t. none;
    user_info = λ t. none;
    verify = λ raw.
        if raw == "login"
        then some login_token
        else if raw == "logout"
        then some logout_token
        else none;
  };
  web = record {
    encode = λ f. some "flow";
    decode = λ s. if s == "flow" then some flow else none;
    decode_base64 = λ s. none;
    s256 = λ v. v;
    atoi = λ s. none;
    is_url = λ s. true;
  };
  avatars = none;
  cli_tokens = some (λ raw.
      if raw == "access"
      then some (record { subject = "sub"; roles = []; scopes = []; actor = "" })
      else none);
}

abbrev ada_user : User
ada_user = record {
  id = 1;
  email = "ada@app";
  email_verified = true;
  name = "Ada";
  avatar_url = "";
  avatar_source = "";
  locale = "en";
}

abbrev old_session : Session
old_session = record (template 1 "" "") { id = 1; token_hash = "old"; last_used_at = 5 }

abbrev other_session : Session
other_session = record old_session { id = 2; token_hash = "other"; user_id = 2 }

abbrev linked : StoredIdentity
linked = new_identity 1 "https://id" "sub"

abbrev db : Tables
db = record {
  users = ada_user ∷ [];
  identities = linked ∷ [];
  sessions = old_session ∷ other_session ∷ [];
  codes = [];
  links = [];
  next_user = 2;
  next_session = 3;
  has_codes = true;
  has_links = true;
}

abbrev visit : List (String × String) → Request
visit cookies = record {
  method = "GET";
  has_tls = false;
  forwarded_proto = "";
  csrf = "";
  authorization = "";
  cookies = cookies;
}

abbrev returned : Request
returned = visit (("oidc_state", "flow") ∷ [])

-- A callback signs the account of the token's subject in.
landed : (handle_callback kit returned "st" "good" none (some "new") 10 db).reply ≡ home
unfolding handle_callback read_flow decode_flow Callback.complete_flow Callback.persist
    Callback.sync_avatar Callback.conclude Callback.land Linking.upsert_from_oidc
    Linking.resolve_or_create Linking.find_or_insert Linking.existing_user Linking.update_user
    Linking.link_identity Linking.refresh identity_of Identities.save Identities.save_federated
    issue_cookie_for issue_for stamped bind_to_caller Sessions.create Sessions.while_bound
    Sessions.vouched claims_from_id_token roles_claim extra_claims asserted_by email_trusted
    email_claim_asserted Http.secure Http.https Http.is_secure Http.first_cookie Http.cookie append
landed = refl

-- Another browser's state is refused.
forged : (handle_callback kit returned "xx" "good" none (some "new") 10 db).db ≡ db
unfolding handle_callback read_flow decode_flow Http.secure Http.https Http.is_secure
    Http.first_cookie Http.cookie
forged = refl

agrees_with-secure_run :
    (Http.secure go (resolved settings).base returned ≡ Http.secure go base returned)
    × ((resolved settings).base.session_ttl ≡ 1000)
    × (idle_timeout (resolved settings).base ≡ idle_timeout base)
unfolding agrees_with resolved_config idle_timeout
agrees_with-secure_run = agrees_with-secure go settings base returned refl

abbrev new_session : Session
new_session = record old_session {
  id = 3;
  token_hash = "new";
  created_at = 10;
  last_used_at = 10;
  expires_at = 1010;
}

callback_sound_example :
    Memᴰ new_session db.sessions
    ⊎ ((f : Flow) × IsPending kit returned "st" f
        × ((id : IdToken) × IsAnswered kit "good" f id × IsLanded kit db id 1))
unfolding handle_callback read_flow decode_flow Callback.complete_flow Callback.persist
    Callback.sync_avatar Callback.conclude Callback.land Linking.upsert_from_oidc
    Linking.resolve_or_create Linking.find_or_insert Linking.existing_user Linking.update_user
    Linking.link_identity Linking.refresh identity_of Identities.save Identities.save_federated
    issue_cookie_for issue_for stamped bind_to_caller Sessions.create Sessions.while_bound
    Sessions.vouched claims_from_id_token roles_claim extra_claims asserted_by email_trusted
    email_claim_asserted Http.secure Http.https Http.is_secure Http.first_cookie Http.cookie append
callback_sound_example =
    callback_sound kit returned "st" "good" none (some "new") 10 db new_session
      (Memᴰ.tail (Memᴰ.tail (Memᴰ.head refl)))

abbrev coded : Tables
coded = record db {
  codes =
      record {
        code = record {
          code_hash = "c";
          user_id = 1;
          expires_at = 50;
          provider = "https://id";
          subject = "sub";
        };
        consumed_at = none;
      }
      ∷ [];
}

exchange_replayed_example :
    let out = handle_exchange kit "c" "" none (some "new") 10 coded in
    handle_exchange kit "c" "" none (some "again") 11 out.db ≡ no_change out.db unauthorized
unfolding handle_exchange lookup_of Exchange.code_expired Exchange.answer_session Codes.consume
    issue_for stamped bind_to_caller Sessions.create Sessions.while_bound Sessions.vouched
exchange_replayed_example =
    exchange_replayed kit "c" "" none none (some "new") (some "again") 10 11 coded 1 "new" refl

device_exchange_sound_example :
    let out = (handle_device_exchange kit "access" none (some "new") 10 db).db in
    (out.users ≡ db.users)
    × (out.identities ≡ db.identities)
    × (Memᴰ new_session db.sessions
        ⊎ ((tokens : String → Option TokenClaims) × (kit.cli_tokens ≡ some tokens)
            × IsNamed tokens "https://id" db "access" 1))
unfolding handle_device_exchange Exchange.verify_jwt Exchange.answer_session Identities.find
    identity_of issue_for stamped bind_to_caller Sessions.create Sessions.while_bound
    Sessions.vouched
device_exchange_sound_example =
    device_exchange_sound kit "access" none (some "new") 10 db new_session
      (Memᴰ.tail (Memᴰ.tail (Memᴰ.head refl)))

abbrev bound : Session
bound = template 1 "https://id" "sub"

exchange-issue_mobile_code_run :
    let out = issue_mobile_code kit [] bound mobile_flow (some "code") 10 db in
    (handle_exchange kit "code" verifier none (some "new") 40 out.db).reply ≡ issued 1 "new"
unfolding issue_mobile_code lookup_of valid_verifier all_chars append Codes.create
    Sessions.while_bound Sessions.vouched
exchange-issue_mobile_code_run =
    exchange-issue_mobile_code kit [] bound mobile_flow "code" verifier "new" none 10 40 db
      (text_ne "code" "" refl) (text_ne verifier "" refl) refl (text_ne "https://id" "" refl)
      (ground arith) refl refl

exchange_intercepted_example :
    let out = issue_mobile_code kit [] bound mobile_flow (some "code") 10 db in
    Unlocks kit "code" mobile_flow.challenge "code" ""
    ⊎ (handle_exchange kit "code" "" none (some "new") 40 out.db ≡ no_change out.db unauthorized)
unfolding issue_mobile_code lookup_of append Codes.create Sessions.while_bound Sessions.vouched
exchange_intercepted_example =
    exchange_intercepted kit [] bound mobile_flow "code" "code" "" none (some "new") 10 40 db
      (text_ne "code" "" refl) (λ sent. absurd (sent refl)) (λ lookup fit. (λ e. e, refl)) refl

-- Without a verifier, the code and the public challenge in one text are enough.
challenge_redeems :
    let out = issue_mobile_code kit [] bound mobile_flow (some "code") 10 db in
    (handle_exchange kit
      (bound_code "code" mobile_flow.challenge)
      ""
      none
      (some "new")
      40
      out.db).reply
    ≡ issued 1 "new"
unfolding issue_mobile_code handle_exchange Exchange.code_expired Exchange.answer_session lookup_of
    append Codes.create Codes.consume Sessions.while_bound Sessions.vouched issue_for stamped
    bind_to_caller Sessions.create
challenge_redeems = refl

backchannel_logout_sound_run :
    Memᴰ old_session (handle_backchannel_logout kit "logout" db).db.sessions
    ⊎ IsOrdered kit "logout" db 1
backchannel_logout_sound_run = backchannel_logout_sound kit "logout" db old_session (Memᴰ.head refl)

-- The other account's session, as a bearer token.
abbrev other_visit : Request
other_visit = record (visit []) { authorization = "bearer other" }

abbrev somebody : Identity
somebody = record { user_id = 2; session_id = 2; subject = ""; roles = []; scopes = []; actor = "" }

backchannel_logout_ends_example :
    let out = handle_backchannel_logout kit "logout" db in
    let token = (Http.credential go base other_visit).0 in
    (out.reply ≡ logged_out)
    × ((jwt_applies manager (Http.credential go base other_visit).1 token ≡ true)
        ⊎ ((s : Session) × (Sessions.find out.db token ≡ Outcome.ok s) × (s.user_id ≢ 1)))
unfolding handle_backchannel_logout verify_logout_token logout_subject Identities.find identity_of
    Sessions.delete_by_user Sessions.find authenticate authenticate_as look_up admit expired
    idled_out jwt_applies Http.idle_timeout Http.credential Http.read_cookie Http.first_cookie
    Http.cookie Http.secure Http.https Http.is_secure
backchannel_logout_ends_example =
    backchannel_logout_ends kit "logout" "sub" db linked other_visit 20 somebody
      (text_ne "logout" "" refl) refl refl refl
