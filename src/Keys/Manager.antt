-- ===== src/Keys/Manager.antt =====
-- keys/manager.go, and GenerateToken of keys/keys.go. The random bytes in hex (none when there are
-- none to be had), the decoded body, the id of the path and the clock readings are arguments; SHA-256
-- and url.Parse are parameters. Strings are Go's byte strings.
use Prim.Native.String.{slice, len}
use porte.Base.{
  ℕ, String, List, [], ◌∷◌, Bool, true, false, not, ◌||◌, Option, none, some, string_eq, nat_eq,
  ◌==◌, ltb, if◌then◌else◌, any, map,
}
use porte.Base.Int.{ℤ, pos, leb_ℤ}
use porte.Base.Strings.{GoStrings, append, cut_prefix}
use porte.Keys.Store.{
  Key, kind_secret, kind_public, KeyTables, Failure, ok, err, is_null, create, find_by_hash,
  list_keys, revoke_key, record_usage, usage_today, count_of,
}

pub record CreateRequest : Type 0 where
  pub app : String
  pub kind : String
  pub allowed_origins : List String
  pub daily_quota : ℤ

-- What porte/keys reads of a request: a header or a parameter that is absent is empty.
pub record Request : Type 0 where
  pub authorization : String
  pub key_param : String
  pub origin : String
  pub referer : String

-- `parse_url` gives the scheme and the host.
pub record Manager : Type 0 where
  pub strings : GoStrings
  pub hash_token : String → String
  pub parse_url : String → Option (String × String)
  pub service_prefix : String

pub data Reply : Type 0 where
  listed : List Key → Reply
  created : Key → String → Reply
  revoked : Reply
  served : Key → Reply
  malformed app_required no_entropy bad_id missing_key invalid_key bad_origin over_quota : Reply
  store_failed : Failure → Reply

unfoldable pub new_manager :
    GoStrings → (String → String) → (String → Option (String × String)) → String → Manager
new_manager go hash parse prefix = record {
  strings = go;
  hash_token = hash;
  parse_url = parse;
  service_prefix = if prefix == "" then "porte" else prefix;
}

pub record Token : Type 0 where
  pub raw : String
  pub prefix : String
  pub hash : String

unfoldable pub raw_token : String → String → String → String → String
unfolding append
raw_token service app kind random =
    let rest = append app (append "_" random) in
    append service (append (if kind == kind_public then "_pub_" else "_") rest)

unfoldable pub token_prefix : String → String
token_prefix raw = slice raw 0 (if ltb (len raw) 16 then len raw else 16)

unfoldable pub extract_token : Request → String
unfolding cut_prefix
extract_token r = elim (cut_prefix "Bearer " r.authorization) [
  | some token ↦ token
  | none ↦ r.key_param
]

module _ (m : Manager) where
  unfoldable pub generate_token : String → String → Option String → Option Token
  unfolding raw_token token_prefix
  generate_token app kind none = none
  generate_token app kind (some random) =
      let raw = raw_token m.service_prefix app kind random in
      some (record { raw = raw; prefix = token_prefix raw; hash = m.hash_token raw })

  unfoldable pub handle_list : KeyTables → String → ℕ → Reply
  unfolding list_keys usage_today count_of
  handle_list db app day =
      let usage = usage_today db day in
      listed (map {A = Key} (λ k. record k { used_today = count_of usage k.id }) (list_keys db app))

  abbrev pub kind_of : String → String
  kind_of kind = if kind == kind_public then kind_public else kind_secret

  abbrev pub key_of : CreateRequest → Token → ℕ → Key
  key_of req token now = record {
    id = 0;
    app = req.app;
    kind = kind_of req.kind;
    prefix = token.prefix;
    token_hash = token.hash;
    allowed_origins = req.allowed_origins;
    daily_quota = req.daily_quota;
    used_today = 0;
    created_at = now;
    revoked_at = none;
  }

  unfoldable pub handle_create :
      KeyTables → Option CreateRequest → Option String → ℕ → KeyTables × Reply
  unfolding generate_token create
  handle_create db none random now = (db, malformed)
  handle_create db (some req) random now =
      if m.strings.trim_space req.app == ""
      then (db, app_required)
      else elim (generate_token req.app (kind_of req.kind) random) [
        | none ↦ (db, no_entropy)
        | some token ↦ elim (create db (key_of req token now)) [
          | err e ↦ (db, store_failed e)
          | ok (db', key) ↦ (db', created key token.raw)
        ]
      ]

  unfoldable pub handle_revoke : KeyTables → Option ℤ → ℕ → KeyTables × Reply
  unfolding revoke_key
  handle_revoke db none now = (db, bad_id)
  handle_revoke db (some id) now = elim (revoke_key db id now) [
    | err e ↦ (db, store_failed e)
    | ok db' ↦ (db', revoked)
  ]

  -- The Origin header, else the origin of the Referer where that one parses.
  unfoldable pub origin_of : Request → String
  unfolding append
  origin_of r =
      if not (r.origin == "")
      then r.origin
      else if r.referer == ""
      then ""
      else elim (m.parse_url r.referer) [
        | none ↦ ""
        | some (scheme, host) ↦ append scheme (append "://" host)
      ]

  unfoldable pub validate_origin : Request → Key → Bool
  unfolding origin_of
  validate_origin r key =
      if not (key.kind == kind_public) || is_empty key.allowed_origins
      then true
      else any (λ allowed. m.strings.equal_fold allowed (origin_of r)) key.allowed_origins
    where
      is_empty : List String → Bool
      is_empty [] = true
      is_empty (o ∷ os) = false

  unfoldable pub check_quota : KeyTables → Key → ℕ → Bool
  unfolding usage_today count_of
  check_quota db key day =
      if leb_ℤ key.daily_quota (pos 0)
      then true
      else not (leb_ℤ key.daily_quota (pos (count_of (usage_today db day) key.id)))

  -- The checks of Authenticate, in the order of the code: the key, or the reply of the one that failed.
  -- The key and the day's count are read by two statements, from the tables `db` and `checked`.
  unfoldable pub screen : KeyTables → KeyTables → Request → ℕ → Reply
  unfolding extract_token find_by_hash validate_origin check_quota
  screen db checked r day =
      let token = extract_token r in
      if token == "" then missing_key else elim (find_by_hash db (m.hash_token token)) [
        | err e ↦ invalid_key
        | ok key ↦
            if not (is_null key.revoked_at)
            then invalid_key
            else if not (validate_origin r key)
            then bad_origin
            else if not (check_quota checked key day)
            then over_quota
            else served key
      ]

  -- `_ = m.store.RecordUsage(…)`: a failure to count is ignored.
  unfoldable pub count_request : KeyTables → ℕ → ℕ → KeyTables
  unfolding record_usage
  count_request db id day = elim (record_usage db id day 1) [ ok db' ↦ db' | err e ↦ db ]

  -- What is left of the tables `db` at the last statement; `served` is the call of the next handler,
  -- with the key in its context.
  abbrev pub answer : KeyTables → ℕ → Reply → KeyTables × Reply
  answer db day (served key) = (count_request db key.id day, served key)
  answer db day reply = (db, reply)

  -- Three statements: the key is found in the tables `found`, the day's count is read from `checked`,
  -- and the request is counted in `db`. What other calls do in between makes the difference.
  unfoldable pub authenticate : KeyTables → KeyTables → KeyTables → Request → ℕ → KeyTables × Reply
  unfolding screen count_request
  authenticate found checked db r day = answer db day (screen found checked r day)
