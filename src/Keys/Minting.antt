-- ===== src/Keys/Minting.antt =====
-- What every key of the table keeps, and the first use of a key that was just created.
use porte.Base.{
  ℕ, suc, ◌<◌, String, List, [], ◌∷◌, ◌++◌, Bool, true, false, ◌||◌, ◌≡◌, refl, sym, ◌∙◌, subst,
  ◌⊎◌, inl, inr, string_eq, nat_eq, ◌==◌, beq_iff, Bool-cases, All, arith, any, amend,
}
use porte.Base.{any-append}
use porte.Base.{All-mono, All-append, All-amend, any-amend}
use porte.Keys.Store.{
  Key, kind_secret, kind_public, KeyTables, ok, create, is_live, stamp, row_of, counts_for,
  add_count, record_usage,
}
use porte.Keys.Manager.{Manager, count_request, key_of, kind_of}
use porte.Keys.Serving.{has_key, authenticate-counts}
use porte.Keys.Revoking.{
  Call, creates, revokes, requests, Calls, here, next, handle_create-row, handle_revoke-rows,
}

-- Two keys that share neither id nor token hash.
abbrev pub clashes : Key → Key → Bool
clashes row k = k.id == row.id || k.token_hash == row.token_hash

abbrev pub IsApart : List Key → Type 0
IsApart [] = Unit
IsApart (k ∷ ks) = (any (clashes k) ks ≡ false) × IsApart ks

-- A key below the sequence, of one of the two kinds.
abbrev pub IsIssued : ℕ → Key → Type 0
IsIssued bound k = (k.id < bound) × ((k.kind ≡ kind_secret) ⊎ (k.kind ≡ kind_public))

abbrev pub IsSound : KeyTables → Type 0
IsSound db =
    All (IsIssued db.next_key) db.api_keys
    × IsApart db.api_keys
    × All (λ u. u.api_key_id < db.next_key) db.usage

IsApart-append :
    (ks : List Key) (k : Key) → IsApart ks → any (clashes k) ks ≡ false → IsApart (ks ++ k ∷ [])
IsApart-append [] k h e = (refl, tt)
IsApart-append (x ∷ ks) k (a, h) e = (
  ground (
    arith,
    any-append (clashes x) ks (k ∷ []),
    beq_iff k.id x.id,
    beq_iff x.id k.id,
    beq_iff k.token_hash x.token_hash,
    beq_iff x.token_hash k.token_hash,
  ),
  IsApart-append ks k h (ground arith),
)

IsApart-stamp :
    (q : Key → Bool) (now : ℕ) (ks : List Key) → IsApart ks → IsApart (amend q (stamp now) ks)
IsApart-stamp q now [] h = tt
IsApart-stamp q now (k ∷ ks) (a, h) = elim (Bool-cases (q k)) [
  | inl e ↦ rw e (any-amend (clashes k) q (stamp now) ks (λ x. refl) ∙ a, IsApart-stamp q now ks h)
  | inr e ↦ rw e (any-amend (clashes k) q (stamp now) ks (λ x. refl) ∙ a, IsApart-stamp q now ks h)
]

-- An id of the sequence and a fresh hash clash with nothing.
fresh-clashes :
    (ks : List Key) (k : Key) (bound : ℕ)
    → All (IsIssued bound) ks
    → k.id ≡ bound
    → any (λ x. x.token_hash == k.token_hash) ks ≡ false
    → any (clashes k) ks ≡ false
fresh-clashes [] k bound h e f = refl
fresh-clashes (x ∷ ks) k bound ((below, _), h) e f =
    ground (arith, fresh-clashes ks k bound h e, below)

create-IsSound :
    (db db' : KeyTables) (key made : Key)
    → (key.kind ≡ kind_secret) ⊎ (key.kind ≡ kind_public)
    → create db key ≡ ok (db', made)
    → IsSound db
    → IsSound db'
unfolding create
create-IsSound db db' key made kind e (issued, apart, counted) =
    let left : KeyTables = record db {
      api_keys = db.api_keys ++ row_of db key ∷ [];
      next_key = suc db.next_key;
    } in
    let same : left ≡ db' = ground arith in
    let fresh : any (λ k. k.token_hash == key.token_hash) db.api_keys ≡ false = ground arith in
    subst IsSound same (
      All-append (IsIssued (suc db.next_key)) db.api_keys (row_of db key)
          (All-mono (IsIssued db.next_key) _ db.api_keys (λ k (b, h). (omega arith, h)) issued)
          (omega arith, kind),
      IsApart-append db.api_keys (row_of db key) apart
          (fresh-clashes db.api_keys (row_of db key) db.next_key issued refl fresh),
      All-mono (λ u. u.api_key_id < db.next_key) _ db.usage (λ u b. omega arith) counted,
    )

has_key-below :
    (bound id : ℕ) (ks : List Key)
    → All (IsIssued bound) ks
    → any (λ k. k.id == id) ks ≡ true
    → id < bound
has_key-below bound id [] h e = absurd (cc)
has_key-below bound id (k ∷ ks) ((b, _), h) e = ground (arith, has_key-below bound id ks h)

-- Counting leaves the tables as they were, adds to a row of a known key, or adds a row for one.
count_request-usage :
    (m : Manager) (db : KeyTables) (id day : ℕ)
    → let db' = count_request m db id day in
      (db' ≡ db)
      ⊎ ((has_key db id ≡ true)
          × ((db' ≡ record db { usage = amend (counts_for id day) (add_count 1) db.usage })
              ⊎ (db' ≡ record db {
                usage = db.usage ++ record { api_key_id = id; day = day; count = 1 } ∷ [];
              })))
unfolding count_request record_usage
count_request-usage m db id day = elim (Bool-cases (has_key db id)) [
  | inr e ↦ inl (ground arith)
  | inl e ↦ elim (Bool-cases (any (counts_for id day) db.usage)) [
    | inl known ↦ inr (e, inl (ground arith))
    | inr new ↦ inr (e, inr (ground arith))
  ]
]

count_request-IsSound :
    (m : Manager) (db : KeyTables) (id day : ℕ) → IsSound db → IsSound (count_request m db id day)
count_request-IsSound m db id day (issued, apart, counted) =
    elim (count_request-usage m db id day) [
      | inl e ↦ subst IsSound (sym e) (issued, apart, counted)
      | inr (there, inl e) ↦
          subst IsSound (sym e) (
            issued,
            apart,
            All-amend _ (counts_for id day) (add_count 1) db.usage (λ u b. b) counted,
          )
      | inr (there, inr e) ↦ subst IsSound (sym e) (
        issued,
        apart,
        All-append _ db.usage (record { api_key_id = id; day = day; count = 1 }) counted
            (has_key-below db.next_key id db.api_keys issued there),
      )
    ]

kind_of-kinds :
    (m : Manager) (kind : String) → (kind_of m kind ≡ kind_secret) ⊎ (kind_of m kind ≡ kind_public)
kind_of-kinds m kind = ground arith

module _ (m : Manager) where
  Call-IsSound : {db db' : KeyTables} → Call m db db' → IsSound db → IsSound db'
  Call-IsSound {db} (creates req random now) h = elim (handle_create-row m db req random now) [
    | inl e ↦ rw e h
    | inr (wanted, token, e) ↦
        create-IsSound db _ (key_of m wanted token now) _ (kind_of-kinds m wanted.kind) e h
  ]
  Call-IsSound {db} (revokes id now) (issued, apart, counted) =
      elim (handle_revoke-rows m db id now) [
        | inl e ↦ rw e (issued, apart, counted)
        | inr (i, e) ↦ rw e (
          All-amend (IsIssued db.next_key) (is_live i) (stamp now) db.api_keys (λ k b. b) issued,
          IsApart-stamp (is_live i) now db.api_keys apart,
          counted,
        )
      ]
  Call-IsSound {db} (requests r day found checked) h =
      elim (authenticate-counts m found checked db r day) [
        | inl (key, _, e) ↦ rw e (count_request-IsSound m db key.id day h)
        | inr e ↦ rw e h
      ]

  -- Whatever handlers are called and in whichever order, tables in which no two keys share an id or a
  -- token hash, each key is a secret or a public one below the sequence, and usage is counted for such
  -- ids alone, stay so.
  pub Calls-IsSound : {db db' : KeyTables} → Calls m db db' → IsSound db → IsSound db'
  Calls-IsSound here h = h
  Calls-IsSound (next r s) h = Call-IsSound s (Calls-IsSound r h)
