-- ===== src/Keys/Quota.antt =====
-- The daily quota under requests that overlap: Authenticate reads the day's count before it adds to it,
-- so a request is two steps, and those of other requests and of the administrators fall between them.
pub mod Bounding
use porte.Base.{
  ℕ, suc, ◌+◌, ◌≤◌, ◌<◌, String, List, [], ◌∷◌, ◌++◌, true, false, Option, ◌≡◌, refl, ap, ◌∙◌,
  subst, inl, inr, string_eq, nat_eq, ◌==◌, beq_iff, if◌then◌else◌, Bool-cases, length, All, tally,
  arith,
}
use porte.Base.{All-Memᴰ, any-append, tally-append}
use porte.Base.Int.{ℤ, pos}
use porte.Base.{All-append, All-amend, any-amend}
use porte.Keys.Store.{Key, KeyTables, ok, create, row_of, is_live, stamp, record_usage, usage_today}
use porte.Keys.Manager.{
  CreateRequest, Request, Manager, served, screen, count_request, handle_create, handle_revoke,
  key_of, check_quota, extract_token,
}
use porte.Keys.Serving.{
  has_key, used, used-count_request, count_request-keys, screen-served, find_by_hash-found,
}
use porte.Keys.Revoking.{handle_create-row, handle_revoke-rows}

-- The ids of the keys of the requests that were let through on the day, and of those among them that
-- are not counted yet.
pub record Running : Type 0 where
  pub db : KeyTables
  pub pending : List ℕ
  pub let_in : List ℕ

-- At most `slots` requests are between their two steps at a time.
module _ (m : Manager) (day slots : ℕ) where
  pub data Step (s : Running) : Running → Type 0 where
    begins :
        (r : Request) (key : Key)
        → screen m s.db s.db r day ≡ served key
        → suc (length s.pending) ≤ slots
        → Step s (record s { pending = key.id ∷ s.pending; let_in = key.id ∷ s.let_in })
    counts :
        (before after : List ℕ) (id : ℕ)
        → s.pending ≡ before ++ id ∷ after
        → Step s (record s { db = count_request m s.db id day; pending = before ++ after })
    creates :
        (req : Option CreateRequest) (random : Option String) (now : ℕ)
        → Step s (record s { db = (handle_create m s.db req random now).0 })
    revokes : (id : Option ℤ) (now : ℕ) → Step s (record s { db = (handle_revoke m s.db id now).0 })

  pub data Steps (s : Running) : Running → Type 0 where
    here : Steps s s
    next : {t u : Running} → Steps s t → Step t u → Steps s u

-- The key of the id is there, and every row of the id has that quota.
abbrev pub HasQuota : ℕ → ℕ → KeyTables → Type 0
HasQuota id quota db =
    (has_key db id ≡ true)
    × (id < db.next_key)
    × All (λ k. k.id ≡ id → k.daily_quota ≡ pos quota) db.api_keys

abbrev pub count_in : ℕ → List ℕ → ℕ
count_in id = tally (λ x. x == id)

pub count_in-length : (id : ℕ) (ids : List ℕ) → count_in id ids ≤ length ids
count_in-length id [] = omega arith
count_in-length id (x ∷ ids) = ground (arith, count_in-length id ids)

pub create-usage :
    (db db' : KeyTables) (key made : Key) → create db key ≡ ok (db', made) → db'.usage ≡ db.usage
unfolding create
create-usage db db' key made e = ground arith

module _ (id quota : ℕ) where
  pub create-HasQuota :
      (db db' : KeyTables) (key made : Key)
      → create db key ≡ ok (db', made)
      → HasQuota id quota db
      → HasQuota id quota db'
  unfolding create
  create-HasQuota db db' key made e (there, below, all) =
      let left : KeyTables = record db {
        api_keys = db.api_keys ++ row_of db key ∷ [];
        next_key = suc db.next_key;
      } in
      let same : left ≡ db' = ground arith in
      subst (HasQuota id quota) same (
        any-append (λ k. k.id == id) db.api_keys (row_of db key ∷ []) ∙ ground arith,
        omega arith,
        All-append (λ k. k.id ≡ id → k.daily_quota ≡ pos quota) db.api_keys (row_of db key) all
            (λ e. absurd (omega arith)),
      )

  pub handle_create-HasQuota :
      (m : Manager) (db : KeyTables) (req : Option CreateRequest) (random : Option String) (now : ℕ)
      → HasQuota id quota db
      → HasQuota id quota (handle_create m db req random now).0
  handle_create-HasQuota m db req random now h = elim (handle_create-row m db req random now) [
    | inl e ↦ rw e h
    | inr (wanted, token, e) ↦ create-HasQuota db _ (key_of m wanted token now) _ e h
  ]

  pub handle_revoke-HasQuota :
      (m : Manager) (db : KeyTables) (i : Option ℤ) (now : ℕ)
      → HasQuota id quota db
      → HasQuota id quota (handle_revoke m db i now).0
  handle_revoke-HasQuota m db i now (there, below, all) = elim (handle_revoke-rows m db i now) [
    | inl e ↦ rw e (there, below, all)
    | inr (j, e) ↦ rw e (
      any-amend (λ k. k.id == id) (is_live j) (stamp now) db.api_keys (λ k. refl) ∙ there,
      below,
      All-amend (λ k. k.id ≡ id → k.daily_quota ≡ pos quota) (is_live j) (stamp now) db.api_keys
          (λ k h. h) all,
    )
  ]

  pub count_request-HasQuota :
      (m : Manager) (db : KeyTables) (other day : ℕ)
      → HasQuota id quota db
      → HasQuota id quota (count_request m db other day)
  count_request-HasQuota m db other day (there, below, all) =
      let (keys, seq) = count_request-keys m db other day in rw (keys, seq) (there, below, all)

  -- Under a quota, a key that passes the check has not used it up.
  pub check_quota-below :
      (m : Manager) (db : KeyTables) (key : Key) (day : ℕ)
      → key.daily_quota ≡ pos quota
      → 0 < quota
      → check_quota m db key day ≡ true
      → used db key.id day < quota
  unfolding check_quota
  check_quota-below m db key day e p h = ground arith
