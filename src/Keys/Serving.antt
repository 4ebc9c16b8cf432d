-- ===== src/Keys/Serving.antt =====
-- What Authenticate requires of the requests that it lets through, and what it counts for them.
use porte.Base.{
  ℕ, suc, ◌+◌, String, List, [], ◌∷◌, ◌++◌, Bool, true, false, ◌&&◌, Option, none, some, ◌≡◌, ◌≢◌,
  refl, sym, ap, ◌∙◌, ◌⊎◌, inl, inr, Memᴰ, string_eq, nat_eq, ◌==◌, beq_iff, beq_refl,
  if◌then◌else◌, Bool-cases, keep, arith, first, any, amend,
}
use porte.Base.{first-holds, text_ne}
use porte.Base.Int.{pos, ◌≤ℤ◌, leb_ℤ}
use porte.Base.{any-some, first-Memᴰ, List-cases}
use porte.Keys.Store.{
  Key, kind_public, Usage, KeyTables, Failure, Outcome, ok, err, is_null, find_by_hash, counts_for,
  add_count, record_usage, usage_today, count_of,
}
use porte.Keys.Manager.{
  Request, Manager, Reply, served, extract_token, origin_of, validate_origin, check_quota, screen,
  answer, count_request, authenticate,
}

-- What the day's map reads for a key.
abbrev pub used : KeyTables → ℕ → ℕ → ℕ
used db id day = count_of (usage_today db day) id

count_of-amend :
    (usage : List Usage) (id day other : ℕ) (count : ℕ)
    → count_of (keep (λ u. u.day == day) (amend (counts_for id day) (add_count count) usage)) other
      ≡ count_of (keep (λ u. u.day == day) usage) other
        + (if any (counts_for id day) usage && other == id then count else 0)
unfolding count_of
count_of-amend [] id day other count = omega arith
count_of-amend (u ∷ usage) id day other count =
    ground (arith, count_of-amend usage id day other count)

count_of-append :
    (usage : List Usage) (row : Usage) (day other : ℕ)
    → any (counts_for row.api_key_id row.day) usage ≡ false
    → row.day ≡ day
    → count_of (keep (λ u. u.day == day) (usage ++ row ∷ [])) other
      ≡ count_of (keep (λ u. u.day == day) usage) other
        + (if other == row.api_key_id then row.count else 0)
unfolding count_of
count_of-append [] row day other fresh same = ground arith
count_of-append (u ∷ usage) row day other fresh same =
    ground (arith, count_of-append usage row day other)

abbrev pub has_key : KeyTables → ℕ → Bool
has_key db id = any (λ k. k.id == id) db.api_keys

-- A request that is let through adds one to its own key's count of the day, and to no other's.
pub used-count_request :
    (m : Manager) (db : KeyTables) (id day other : ℕ)
    → has_key db id ≡ true
    → used (count_request m db id day) other day
      ≡ used db other day + (if other == id then 1 else 0)
unfolding count_request record_usage usage_today
used-count_request m db id day other there = elim (Bool-cases (any (counts_for id day) db.usage)) [
  | inl known ↦ ground (arith, count_of-amend db.usage id day other 1)
  | inr fresh ↦ ground (
    arith,
    count_of-append db.usage (record { api_key_id = id; day = day; count = 1 }) day other fresh
        refl,
  )
]

pub find_by_hash-found :
    (db : KeyTables) (hash : String) (key : Key)
    → find_by_hash db hash ≡ ok key
    → Memᴰ key db.api_keys × (key.token_hash ≡ hash)
unfolding find_by_hash
find_by_hash-found db hash key e =
    let found : first (λ k. k.token_hash == hash) db.api_keys ≡ some key = ground arith in
    (
      first-Memᴰ _ db.api_keys key found,
      (beq_iff key.token_hash hash).0
          (first-holds (λ k. k.token_hash == hash) db.api_keys key found),
    )

pub is_null-none : (o : Option ℕ) → is_null o ≡ true → o ≡ none
is_null-none none h = refl
is_null-none (some t) h = absurd (cc)

pub Outcome-cases {ℓ} :
    {A : Type ℓ} (r : Outcome A) → ((a : A) × (r ≡ ok a)) ⊎ ((e : Failure) × (r ≡ err e))
Outcome-cases (ok a) = inl (a, refl)
Outcome-cases (err e) = inr (e, refl)

-- A key that anybody may use, or one of whose origins the request comes from.
abbrev pub IsFromAllowed : Manager → Request → Key → Type 0
IsFromAllowed m r key =
    (key.kind ≢ kind_public)
    ⊎ ((key.allowed_origins ≡ [])
        ⊎ ((allowed : String) × Memᴰ allowed key.allowed_origins
            × (m.strings.equal_fold allowed (origin_of m r) ≡ true)))

validate_origin-IsFromAllowed :
    (m : Manager) (r : Request) (key : Key) → validate_origin m r key ≡ true → IsFromAllowed m r key
unfolding validate_origin
validate_origin-IsFromAllowed m r key h = elim (Bool-cases (key.kind == kind_public)) [
  | inr e ↦ inl (text_ne key.kind kind_public e)
  | inl e ↦ elim (List-cases key.allowed_origins) [
    | inl none_listed ↦ inr (inl none_listed)
    | inr (o, os, listed) ↦
        let allowed : any (λ allowed. m.strings.equal_fold allowed (origin_of m r))
              key.allowed_origins
            ≡ true =
          ground arith in
        inr (inr (any-some _ key.allowed_origins allowed))
  ]
]

pub screen-served :
    (m : Manager) (db checked : KeyTables) (r : Request) (day : ℕ) (key : Key)
    → screen m db checked r day ≡ served key
    → (extract_token r ≢ "")
      × (find_by_hash db (m.hash_token (extract_token r)) ≡ ok key)
      × (key.revoked_at ≡ none)
      × (validate_origin m r key ≡ true)
      × (check_quota m checked key day ≡ true)
unfolding screen
screen-served m db checked r day key h =
    elim (Outcome-cases (find_by_hash db (m.hash_token (extract_token r)))) [
      | inr (e, found) ↦ absurd (ground arith)
      | inl (k, found) ↦
          let same : k ≡ key = ground arith in
          (
            text_ne (extract_token r) "" (ground arith),
            found ∙ ap ok same,
            ap (λ x. x.revoked_at) (sym same) ∙ is_null-none k.revoked_at (ground arith),
            ground arith,
            ground arith,
          )
    ]

pub check_quota-used :
    (m : Manager) (db : KeyTables) (key : Key) (day : ℕ)
    → check_quota m db key day ≡ true
    → (key.daily_quota ≤ℤ pos 0) ⊎ (pos (suc (used db key.id day)) ≤ℤ key.daily_quota)
unfolding check_quota
check_quota-used m db key day h = elim (Bool-cases (leb_ℤ key.daily_quota (pos 0))) [
  | inl e ↦ inl (ground arith)
  | inr e ↦ inr (ground arith)
]

authenticate-screen :
    (m : Manager) (found checked db : KeyTables) (r : Request) (day : ℕ) (key : Key)
    → (authenticate m found checked db r day).1 ≡ served key
    → (screen m found checked r day ≡ served key)
      × ((authenticate m found checked db r day).0 ≡ count_request m db key.id day)
unfolding authenticate
authenticate-screen m found checked db r day key h = ground arith

answer-counts :
    (m : Manager) (db : KeyTables) (day : ℕ) (reply : Reply)
    → let db' = (answer m db day reply).0 in
      ((key : Key) × (reply ≡ served key) × (db' ≡ count_request m db key.id day)) ⊎ (db' ≡ db)
answer-counts m db day (served key) = inl (key, refl, refl)
answer-counts m db day reply = inr refl

-- A handler's call is let through and counted, or leaves the tables as they were.
pub authenticate-counts :
    (m : Manager) (found checked db : KeyTables) (r : Request) (day : ℕ)
    → let db' = (authenticate m found checked db r day).0 in
      ((key : Key) × (screen m found checked r day ≡ served key)
        × (db' ≡ count_request m db key.id day))
      ⊎ (db' ≡ db)
unfolding authenticate
authenticate-counts m found checked db r day = answer-counts m db day (screen m found checked r day)

pub count_request-keys :
    (m : Manager) (db : KeyTables) (id day : ℕ)
    → let db' = count_request m db id day in
      (db'.api_keys ≡ db.api_keys) × (db'.next_key ≡ db.next_key)
unfolding count_request record_usage
count_request-keys m db id day = ground arith

-- A request is let through only with a token whose hash a key carries that is not revoked when it is
-- looked up; a browser key with a list of origins only from one of them; a key with a quota only if
-- the count of the day, when it is read, leaves room for one more. Its key's count, when it is
-- written, then grows by one, whatever other calls did between the three, if the key is still there.
-- Requests that overlap may all find room for the same one.
pub authenticate_guarded :
    (m : Manager) (found checked db : KeyTables) (r : Request) (day : ℕ) (key : Key)
    → (authenticate m found checked db r day).1 ≡ served key
    → has_key db key.id ≡ true
    → (extract_token r ≢ "")
      × Memᴰ key found.api_keys
      × (key.token_hash ≡ m.hash_token (extract_token r))
      × (key.revoked_at ≡ none)
      × IsFromAllowed m r key
      × ((key.daily_quota ≤ℤ pos 0) ⊎ (pos (suc (used checked key.id day)) ≤ℤ key.daily_quota))
      × (used (authenticate m found checked db r day).0 key.id day ≡ suc (used db key.id day))
authenticate_guarded m found checked db r day key h known =
    let (screened, counted) = authenticate-screen m found checked db r day key h in
    let (token, there, live, from, within) = screen-served m found checked r day key screened in
    let (listed, same) = find_by_hash-found found (m.hash_token (extract_token r)) key there in
    (
      token,
      listed,
      same,
      live,
      validate_origin-IsFromAllowed m r key from,
      check_quota-used m checked key day within,
      rw counted (ground (arith, used-count_request m db key.id day key.id known, beq_refl key.id)),
    )
