-- ===== src/Keys/Revoking.antt =====
-- The handlers of a service over time, and a key that was revoked.
use porte.Base.{
  ℕ, String, [], ◌∷◌, Bool, false, Option, none, some, ◌≡◌, ◌≢◌, refl, ap, ◌∙◌, subst, ◌⊎◌, inl,
  inr, string_eq, nat_eq, ◌==◌, beq_iff, beq_refl, if◌then◌else◌, Bool-cases, Option-cases, arith,
  first, any, amend,
}
use porte.Base.{first-append}
use porte.Base.Int.{ℤ, pos}
use porte.Base.{first-amend_each}
use porte.Keys.Store.{
  Key, KeyTables, ok, is_null, create, find_by_hash, is_live, stamp, revoke_key, row_of,
}
use porte.Keys.Manager.{
  CreateRequest, Request, Manager, invalid_key, revoked, Token, extract_token, screen,
  handle_create, handle_revoke, authenticate, generate_token, key_of, kind_of,
}
use porte.Keys.Serving.{authenticate-counts, count_request-keys, Outcome-cases}

create-id :
    (db db' : KeyTables) (key made : Key)
    → create db key ≡ ok (db', made)
    → made ≡ record key { id = db.next_key }
unfolding create
create-id db db' key made e = ground arith

module _ (m : Manager) where
  -- One call of a handler that writes, whoever makes it.
  pub data Call (db : KeyTables) : KeyTables → Type 0 where
    creates :
        (req : Option CreateRequest) (random : Option String) (now : ℕ)
        → Call db (handle_create m db req random now).0
    revokes : (id : Option ℤ) (now : ℕ) → Call db (handle_revoke m db id now).0
    -- A request is counted, or turned away, whatever tables its checks have read before.
    requests :
        (r : Request) (day : ℕ) (found checked : KeyTables)
        → Call db (authenticate m found checked db r day).0

  pub data Calls (db : KeyTables) : KeyTables → Type 0 where
    here : Calls db db
    next : {db' db'' : KeyTables} → Calls db db' → Call db' db'' → Calls db db''

  -- What create leaves: the tables as they were, or one row more.
  pub handle_create-row :
      (db : KeyTables) (req : Option CreateRequest) (random : Option String) (now : ℕ)
      → let db' = (handle_create m db req random now).0 in
        (db' ≡ db)
        ⊎ ((wanted : CreateRequest) × (token : Token) × (create db (key_of m wanted token now)
              ≡ ok (db', record (key_of m wanted token now) { id = db.next_key })))
  unfolding handle_create
  handle_create-row db none random now = inl refl
  handle_create-row db (some wanted) none now = inl (ground arith)
  handle_create-row db (some wanted) (some random) now =
      elim (Bool-cases (m.strings.trim_space wanted.app == "")) [
        | inl blank ↦ inl (ground arith)
        | inr named ↦
            elim (Option-cases
              (generate_token m wanted.app (kind_of m wanted.kind) (some random))) [
                | inl e ↦ inl (ground arith)
                | inr (token, e) ↦ elim (Outcome-cases (create db (key_of m wanted token now))) [
                  | inr (f, made) ↦ inl (ground arith)
                  | inl ((db', key), made) ↦ inr (
                    wanted,
                    token,
                    ground (arith, create-id db db' (key_of m wanted token now) key made),
                  )
                ]
              ]
      ]

  -- What revoke leaves: the tables as they were, or the stamp on the live rows of the id.
  pub handle_revoke-rows :
      (db : KeyTables) (id : Option ℤ) (now : ℕ)
      → let db' = (handle_revoke m db id now).0 in
        (db' ≡ db)
        ⊎ ((i : ℤ) × (db' ≡ record db { api_keys = amend (is_live i) (stamp now) db.api_keys }))
  unfolding handle_revoke revoke_key
  handle_revoke-rows db none now = inl refl
  handle_revoke-rows db (some i) now = elim (Bool-cases (any (is_live i) db.api_keys)) [
    | inl e ↦ inr (i, ground arith)
    | inr e ↦ inl (ground arith)
  ]

  -- A request leaves the keys as they were.
  pub authenticate-keys :
      (found checked db : KeyTables) (r : Request) (day : ℕ)
      → let db' = (authenticate m found checked db r day).0 in
        (db'.api_keys ≡ db.api_keys) × (db'.next_key ≡ db.next_key)
  authenticate-keys found checked db r day = elim (authenticate-counts m found checked db r day) [
    | inl (key, _, e) ↦
        let (same, seq) = count_request-keys m db key.id day in
        (ap (λ x. x.api_keys) e ∙ same, ap (λ x. x.next_key) e ∙ seq)
    | inr e ↦ (ap (λ x. x.api_keys) e, ap (λ x. x.next_key) e)
  ]

  -- A row of the hash is there, and stamped.
  abbrev pub IsRevoked : String → KeyTables → Type 0
  IsRevoked hash db =
      (key : Key) × (find_by_hash db hash ≡ ok key) × (is_null key.revoked_at ≡ false)

  find_by_hash-amend :
      (db : KeyTables) (hash : String) (i : ℤ) (now : ℕ) (key : Key)
      → find_by_hash db hash ≡ ok key
      → find_by_hash (record db { api_keys = amend (is_live i) (stamp now) db.api_keys }) hash
        ≡ ok (if is_live i key then stamp now key else key)
  unfolding find_by_hash
  find_by_hash-amend db hash i now key e =
      let p : Key → Bool = λ k. k.token_hash == hash in
      ground (
        arith,
        first-amend_each p (is_live i) (stamp now) db.api_keys key (λ y. refl) (ground arith),
      )

  find_by_hash-keys :
      (db db' : KeyTables) (hash : String)
      → db'.api_keys ≡ db.api_keys
      → find_by_hash db' hash ≡ find_by_hash db hash
  unfolding find_by_hash
  find_by_hash-keys db db' hash e = rw e refl

  find_by_hash-create :
      (db db' : KeyTables) (key made old : Key) (hash : String)
      → create db key ≡ ok (db', made)
      → find_by_hash db hash ≡ ok old
      → find_by_hash db' hash ≡ ok old
  unfolding create find_by_hash
  find_by_hash-create db db' key made old hash e found =
      let p : Key → Bool = λ k. k.token_hash == hash in
      let kept : first p db.api_keys ≡ some old = ground arith in
      ground (arith, first-append p db.api_keys (row_of db key ∷ []))

  Call-IsRevoked :
      (hash : String) {db db' : KeyTables} → Call db db' → IsRevoked hash db → IsRevoked hash db'
  Call-IsRevoked hash {db} (creates req random now) (key, found, gone) =
      elim (handle_create-row db req random now) [
        | inl e ↦ rw e (key, found, gone)
        | inr (wanted, token, e) ↦
            (key, find_by_hash-create db _ (key_of m wanted token now) _ key hash e found, gone)
      ]
  Call-IsRevoked hash {db} (revokes id now) (key, found, gone) =
      elim (handle_revoke-rows db id now) [
        | inl e ↦ rw e (key, found, gone)
        | inr (i, e) ↦ rw e (_, find_by_hash-amend db hash i now key found, ground arith)
      ]
  Call-IsRevoked hash {db} (requests r day at at') (key, found, gone) =
      (key, find_by_hash-keys db _ hash (authenticate-keys at at' db r day).0 ∙ found, gone)

  Calls-IsRevoked :
      (hash : String) {db db' : KeyTables} → Calls db db' → IsRevoked hash db → IsRevoked hash db'
  Calls-IsRevoked hash here h = h
  Calls-IsRevoked hash (next r s) h = Call-IsRevoked hash s (Calls-IsRevoked hash r h)

  revoke-IsRevoked :
      (db db' : KeyTables) (key : Key) (hash : String) (now : ℕ)
      → find_by_hash db hash ≡ ok key
      → handle_revoke m db (some (pos key.id)) now ≡ (db', revoked)
      → IsRevoked hash db'
  unfolding handle_revoke revoke_key
  revoke-IsRevoked db db' key hash now found e =
      elim (Bool-cases (any (is_live (pos key.id)) db.api_keys)) [
        | inr f ↦ absurd (ground arith)
        | inl t ↦
            let stamped = record db {
              api_keys = amend (is_live (pos key.id)) (stamp now) db.api_keys;
            } in
            let same : stamped ≡ db' = ground arith in
            subst (IsRevoked hash) same (
              _,
              find_by_hash-amend db hash (pos key.id) now key found,
              ground (arith, beq_refl key.id),
            )
      ]

  -- A revoked key is refused for good: after the revocation answered, whatever keys are created,
  -- revoked and used, every request with its token, which is not empty, that looks its key up from then
  -- on is turned away, and nothing is counted for it.
  pub revoked_forever :
      (db db' db'' checked later : KeyTables) (key : Key) (now : ℕ) (r : Request) (day : ℕ)
      → find_by_hash db (m.hash_token (extract_token r)) ≡ ok key
      → handle_revoke m db (some (pos key.id)) now ≡ (db', revoked)
      → Calls db' db''
      → extract_token r ≢ ""
      → authenticate m db'' checked later r day ≡ (later, invalid_key)
  unfolding authenticate screen
  revoked_forever db db' db'' checked later key now r day found e calls token =
      let hash = m.hash_token (extract_token r) in
      let (row, there, gone) =
        Calls-IsRevoked hash calls (revoke-IsRevoked db db' key hash now found e) in
      ground (arith, beq_iff (extract_token r) "")
