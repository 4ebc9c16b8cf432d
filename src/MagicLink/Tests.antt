-- ===== src/MagicLink/Tests.antt =====
-- Runs of the magic link kit at concrete inputs.
use porte.Base.{suc, ◌+◌, Option, String}
use porte.Base.{
  ◌-◌, ◌≤◌, [], ◌∷◌, true, false, none, some, ◌≡◌, refl, string_eq, nat_eq, ◌==◌, if◌then◌else◌,
  arith,
}
use porte.Base.{text_ne}
use porte.Base.Int.{pos, negsuc}
use porte.Base.Strings.{GoStrings}
use porte.Pg.Tables.{MagicLink, Tables}
use porte.Pg.Links
use porte.Pg.Links.{count_since}
use porte.Pg.Links.Spending.{run, sweeps}
use porte.Session.Http.{Request}
use porte.Session.Manager.{Manager}
use porte.MagicLink.Kit.{
  Kit, Target, Deps, user, stranger, done, failed, invalid_link, lookup, normalize_email,
  answer_target, issue, within_limits, request, consume, new, positive_or, rate_window,
}
use porte.MagicLink.Overlap.{Pending, Running, Steps, here, next, begins, counts, ends}
use porte.MagicLink.Limits.{requests_capped}
use porte.MagicLink.Consuming.{consume_spent, request_uniform, consume-request}

abbrev go : GoStrings
go = record {
  to_lower = λ s. s;
  trim_space = λ s. s;
  append = λ s t. s;
  equal_fold = λ s t. s == t;
}

abbrev manager : Manager
manager = record {
  strings = go;
  cfg = record {
    issuer = "";
    redirect_url = "";
    success_url = "";
    session_ttl = 1000000000;
    session_idle_ttl = pos 100;
    accept_legacy_cookie = false;
    scope_prefix = "";
  };
  hash_token = λ s. s;
  jwt = none;
  claims = none;
}

abbrev deps : Deps
deps = record {
  sessions = manager;
  find_user = λ email. if email == "ada@a" then user 1 else stranger;
  build_link = λ token. token;
  allow = λ id. some (id == 1);
  parse_address = λ s. if s == "" then none else some s;
}

abbrev kit : Kit
kit = record { deps = deps; ttl = 50; max_per_email = 1; max_per_ip = 20; federated = false }

-- A kit with no settings has the defaults.
new_kit : new (record { ttl = negsuc 0; max_per_email = pos 0; max_per_ip = pos 0 }) deps ≡ record {
  deps = deps;
  ttl = 900000000000;
  max_per_email = 5;
  max_per_ip = 20;
  federated = false;
}
unfolding new positive_or
new_kit = refl

abbrev empty : Tables
empty = record {
  users = [];
  identities = [];
  sessions = [];
  codes = [];
  links = [];
  next_user = 2;
  next_session = 1;
  has_codes = false;
  has_links = true;
}

abbrev l1 : MagicLink
l1 = record { token_hash = "t1"; user_id = 1; created_at = 10; expires_at = 60; ip = "127.0.0.1" }

abbrev mailed : Tables
mailed = record empty { links = record { link = l1; consumed_at = none } ∷ [] }

abbrev spent : Tables
spent = record empty { links = record { link = l1; consumed_at = some 20 } ∷ [] }

abbrev visit : Request
visit = record {
  method = "POST";
  has_tls = true;
  forwarded_proto = "";
  csrf = "1";
  authorization = "";
  cookies = [];
}

abbrev ada : Target
ada = record { email = "ada@a"; user_id = 1; found = true }

ada_found : lookup kit "ada@a" ≡ done ada
unfolding lookup normalize_email
ada_found = refl

consume_spent_example :
    consume kit visit none "t1"
      (some "s2")
      30
      30
      (run (consume kit visit none "t1" (some "s1") 20 20 mailed).db (sweeps 5 ∷ []))
    ≡ record {
      db = run (consume kit visit none "t1" (some "s1") 20 20 mailed).db (sweeps 5 ∷ []);
      cookies = [];
      answer = failed invalid_link;
    }
unfolding Links.consume
consume_spent_example =
    consume_spent kit visit visit none none "t1" (some "s1") (some "s2") 20 20 30 30 1
      (sweeps 5 ∷ []) mailed spent refl refl (tt, tt) (omega arith)

request_uniform_run :
    ((request kit "ada@a" "127.0.0.1" (some "t1") 10 empty empty empty).answer ≡ done tt)
    × (true ≡ false
        → ((request kit "ada@a" "127.0.0.1" (some "t1") 10 empty empty empty).db ≡ empty)
          × ((request kit "ada@a" "127.0.0.1" (some "t1") 10 empty empty empty).mails ≡ []))
request_uniform_run =
    request_uniform kit "ada@a" "127.0.0.1" "t1" 10 empty empty empty ada ada_found refl

ada_within : within_limits kit ada "127.0.0.1" 10 empty empty ≡ true
unfolding within_limits count_since
ada_within = refl

consume-request_run :
    ((request kit "ada@a" "127.0.0.1" (some "t1") 10 empty empty empty).mails
      ≡ ("ada@a", "t1") ∷ [])
    × ((consume kit visit none "t1"
          (some "s1")
          20
          21
          (request kit "ada@a" "127.0.0.1" (some "t1") 10 empty empty empty).db).answer
        ≡ done (1, "s1"))
consume-request_run =
    consume-request kit "ada@a" "127.0.0.1" "t1" "s1" ada 10 20 21 empty empty empty visit none refl
      ada_found refl ada_within refl refl refl (omega arith)

abbrev asked : String → Option Tables → Pending
asked token by_ip = record {
  email = "ada@a";
  ip = "127.0.0.1";
  random = some token;
  at = 10;
  by_user = empty;
  by_ip = by_ip;
}

abbrev once : Tables
once = (request kit "ada@a" "127.0.0.1" (some "t1") 10 empty empty empty).db

abbrev twice : Tables
twice = (request kit "ada@a" "127.0.0.1" (some "t2") 10 empty empty once).db

abbrev at_start : Running
at_start = record { db = empty; clock = 10; pending = [] }

abbrev at_end : Running
at_end = record { db = twice; clock = 10; pending = [] }

-- Two requests for one account overlap: both count before either has stored its link.
overlap_run : Steps kit 2 at_start at_end
overlap_run =
    next
      (next
        (next
          (next
            (next (next here (begins "ada@a" "127.0.0.1" (some "t1") (omega arith)))
              (begins "ada@a" "127.0.0.1" (some "t2") (omega arith)))
            (counts [] (asked "t1" none ∷ []) (asked "t2" none) refl refl))
          (counts (asked "t2" (some empty) ∷ []) [] (asked "t1" none) refl refl))
        (ends (asked "t2" (some empty) ∷ []) [] (asked "t1" (some empty)) empty refl refl))
      (ends [] [] (asked "t2" (some empty)) empty refl refl)

-- The account then has two links in the hour, under a limit of one.
flooded :
    (kit.max_per_email ≡ 1)
    × (count_since twice (record { user_id = 1; ip = "" }) (10 - rate_window) ≡ 2)
unfolding request lookup normalize_email answer_target within_limits issue Links.create count_since
flooded = (refl, refl)

requests_capped_example :
    (suc (count_since twice (record { user_id = 1; ip = "" }) (10 - rate_window)) ≤ 1 + 2)
    × (suc (count_since twice (record { user_id = 0; ip = "127.0.0.1" }) (10 - rate_window))
        ≤ 20 + 2)
unfolding count_since
requests_capped_example =
    requests_capped kit 2 1 "127.0.0.1" at_start at_end (ground arith) (text_ne "127.0.0.1" "" refl)
      overlap_run refl (omega arith) (omega arith) (omega arith)
