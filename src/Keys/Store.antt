-- ===== src/Keys/Store.antt =====
-- The records of keys/keys.go and the statements of pg/keys.go over the two tables. The origins of a
-- key read back from their JSON as they were written, with Go's nil and the empty list as one. A
-- count that leaves bigint, and a statement that the database refuses for a reason that `Failure`
-- does not name, are not modelled.
use porte.Base.{
  ℕ, suc, ◌+◌, String, List, [], ◌∷◌, ◌++◌, Bool, true, false, not, ◌&&◌, Option, none, some,
  string_eq, nat_eq, ◌==◌, ltb, if◌then◌else◌, keep, first, any, amend,
}
use porte.Base.Int.{ℤ, pos, negsuc, leb_ℤ}

abbrev pub kind_secret : String
kind_secret = "secret"

abbrev pub kind_public : String
kind_public = "public"

pub record Key : Type 0 where
  pub id : ℕ
  pub app : String
  pub kind : String
  pub prefix : String
  pub token_hash : String
  pub allowed_origins : List String
  pub daily_quota : ℤ
  pub used_today : ℕ
  pub created_at : ℕ
  pub revoked_at : Option ℕ

-- One row of porte_api_key_usage.
pub record Usage : Type 0 where
  pub api_key_id : ℕ
  pub day : ℕ
  pub count : ℕ

-- `next_key` is the sequence of the serial column.
pub record KeyTables : Type 0 where
  pub api_keys : List Key
  pub usage : List Usage
  pub next_key : ℕ

-- A missing row, a hash that is taken, a quota beyond `integer`, and usage of a key that is not there.
pub data Failure : Type 0 where
  not_found duplicate out_of_range no_key : Failure

pub data Outcome {ℓ} (A : Type ℓ) : Type ℓ where
  ok : A → Outcome A
  err : Failure → Outcome A

abbrev pub is_null : Option ℕ → Bool
is_null none = true
is_null (some t) = false

-- The range of the column `daily_quota`.
abbrev fits_integer : ℤ → Bool
fits_integer quota = leb_ℤ quota (pos 2147483647) && leb_ℤ (negsuc 2147483647) quota

-- The row of a new key: its columns, with the id of the sequence and no revocation.
abbrev pub row_of : KeyTables → Key → Key
row_of db key = record key { id = db.next_key; used_today = 0; revoked_at = none }

-- INSERT INTO porte_api_keys … RETURNING id
unfoldable pub create : KeyTables → Key → Outcome (KeyTables × Key)
create db key =
    if not (fits_integer key.daily_quota)
    then err out_of_range
    else if any (λ k. k.token_hash == key.token_hash) db.api_keys
    then err duplicate
    else ok (
      record db { api_keys = db.api_keys ++ row_of db key ∷ []; next_key = suc db.next_key },
      record key { id = db.next_key },
    )

unfoldable pub find_by_hash : KeyTables → String → Outcome Key
find_by_hash db hash = elim (first (λ k. k.token_hash == hash) db.api_keys) [
  | none ↦ err not_found
  | some key ↦ ok key
]

-- ORDER BY created_at DESC
unfoldable pub place : Key → List Key → List Key
place key [] = key ∷ []
place key (k ∷ ks) =
    let rest = place key ks in if ltb k.created_at key.created_at then key ∷ k ∷ ks else k ∷ rest

unfoldable pub by_newest : List Key → List Key
unfolding place
by_newest [] = []
by_newest (k ∷ ks) = place k (by_newest ks)

unfoldable pub list_keys : KeyTables → String → List Key
unfolding by_newest
list_keys db app =
    by_newest (if app == "" then db.api_keys else keep (λ k. k.app == app) db.api_keys)

-- The id of a path is any integer.
abbrev has_id : ℤ → Key → Bool
has_id (pos id) k = k.id == id
has_id (negsuc n) k = false

abbrev pub is_live : ℤ → Key → Bool
is_live id k = has_id id k && is_null k.revoked_at

abbrev pub stamp : ℕ → Key → Key
stamp now k = record k { revoked_at = some now }

-- UPDATE … WHERE id = $1 AND revoked_at IS NULL, and requireOne
unfoldable pub revoke_key : KeyTables → ℤ → ℕ → Outcome KeyTables
revoke_key db id now =
    if any (is_live id) db.api_keys
    then ok (record db { api_keys = amend (is_live id) (stamp now) db.api_keys })
    else err not_found

abbrev pub counts_for : ℕ → ℕ → Usage → Bool
counts_for id day u = u.api_key_id == id && u.day == day

abbrev pub add_count : ℕ → Usage → Usage
add_count count u = record u { count = u.count + count }

abbrev usage_row : ℕ → ℕ → ℕ → Usage
usage_row id day count = record { api_key_id = id; day = day; count = count }

-- INSERT INTO porte_api_key_usage … ON CONFLICT (api_key_id, day) DO UPDATE
unfoldable pub record_usage : KeyTables → ℕ → ℕ → ℕ → Outcome KeyTables
record_usage db id day count =
    if not (any (λ k. k.id == id) db.api_keys)
    then err no_key
    else ok (record db {
      usage =
          if any (counts_for id day) db.usage
          then amend (counts_for id day) (add_count count) db.usage
          else db.usage ++ usage_row id day count ∷ [];
    })

-- The map of UsageToday: the rows of the day, and what the map reads for an id.
unfoldable pub usage_today : KeyTables → ℕ → List Usage
usage_today db day = keep (λ u. u.day == day) db.usage

unfoldable pub count_of : List Usage → ℕ → ℕ
count_of usage id = elim (first (λ u. u.api_key_id == id) usage) [ none ↦ 0 | some u ↦ u.count ]
