-- ===== src/Pg/Sessions/Revoking.antt =====
-- The statements of the session store together, and a bound insert after Store.EraseIdentity.
use porte.Base.{
  ℕ, suc, String, List, [], ◌∷◌, ◌++◌, Bool, true, false, not, ◌&&◌, none, some, ◌≡◌, ◌≢◌, refl,
  subst, ◌↔◌, ◌⊎◌, inl, inr, Memᴰ, string_eq, nat_eq, ◌==◌, beq_iff, if◌then◌else◌, Bool-cases,
  Option-cases, All, keep, arith, first, any,
}
use porte.Pg.Tables.{StoredIdentity, Session, Tables, not_found, ok, err, of_provider, identity_of}
use porte.Base.{any-keep_not, any-first, any-first-some, first-append, keep-Memᴰ, Memᴰ-keep}
use porte.Pg.Sessions.{vouched, create, find, delete, is_login, delete_logins, without}
use porte.Pg.Erase.{erase_identity}

-- The session is vouched for by that identity of the user, or by a session of the user.
abbrev pub IsBoundTo : String → String → ℕ → Session → Type 0
IsBoundTo provider subject user s =
    (s.user_id ≡ user)
    × (((s.provider ≡ provider) × (s.subject ≡ subject) × (provider ≢ ""))
        ⊎ ((s.provider ≡ "") × (s.issued_by ≢ 0)))

-- The tables after a list of attempts to store a session; one that fails changes nothing.
unfoldable pub creates : Tables → List Session → Tables
creates db [] = db
creates db (s ∷ ss) = creates (elim (create db s) [ ok (db', _) ↦ db' | err _ ↦ db ]) ss

pub any-narrow :
    {A : Type 0} (p q : A → Bool) (xs : List A)
    → ((x : A) → p x ≡ true → q x ≡ true)
    → any q xs ≡ false
    → any p xs ≡ false
any-narrow p q [] h e = refl
any-narrow p q (x ∷ xs) h e = ground (arith, any-narrow p q xs h, h x)

create-unvouched :
    (db : Tables) (provider subject : String) (user : ℕ) (s : Session)
    → any (λ t. t.user_id == user) db.sessions ≡ false
    → any (of_provider provider subject) db.identities ≡ false
    → IsBoundTo provider subject user s
    → create db s ≡ err not_found
unfolding create
create-unvouched db provider subject user s hs hi (eu, inl (ep, es, ne)) =
    let gone : any (λ i. of_provider s.provider s.subject i && i.user_id == s.user_id) db.identities
        ≡ false =
      any-narrow _ (of_provider provider subject) db.identities (λ i k. ground arith) hi in
    ground (arith, beq_iff s.provider "")
create-unvouched db provider subject user s hs hi (eu, inr (ep, ne)) =
    let gone : any (λ t. t.id == s.issued_by && t.user_id == s.user_id) db.sessions ≡ false =
      any-narrow _ (λ t. t.user_id == user) db.sessions (λ t k. ground arith) hs in
    ground (arith, beq_iff s.provider "")

creates-unvouched :
    (db : Tables) (provider subject : String) (user : ℕ) (late : List Session)
    → any (λ t. t.user_id == user) db.sessions ≡ false
    → any (of_provider provider subject) db.identities ≡ false
    → All (IsBoundTo provider subject user) late
    → creates db late ≡ db
unfolding creates
creates-unvouched db provider subject user [] hs hi b = refl
creates-unvouched db provider subject user (s ∷ ss) hs hi b =
    rw (create-unvouched db provider subject user s hs hi b.0)
      (creates-unvouched db provider subject user ss hs hi b.1)

-- The tables once the person behind the identity row is erased.
abbrev pub erased : Tables → StoredIdentity → String → String → Tables
erased db i provider subject = record db {
  identities = keep (λ j. not (of_provider provider subject j)) db.identities;
  sessions = keep (λ s. not (s.user_id == i.user_id)) db.sessions;
  codes = if db.has_codes then keep (λ r. not (r.code.user_id == i.user_id)) db.codes else db.codes;
  links = if db.has_links then keep (λ r. not (r.link.user_id == i.user_id)) db.links else db.links;
}

pub erase_identity-eq :
    (db : Tables) (provider subject : String) (i : StoredIdentity)
    → identity_of db provider subject ≡ some i
    → erase_identity db provider subject ≡ ok (erased db i provider subject)
unfolding erase_identity
erase_identity-eq db provider subject i e = ground arith

-- An erased person stays out: erasing an identity that exists succeeds, its account has no session
-- afterwards, and no list of attempts to store sessions that are bound to that identity, or to a
-- session of that account, brings one back, whatever their order.
pub erase_identity-creates :
    (db : Tables) (provider subject : String) (i : StoredIdentity) (late : List Session)
    → identity_of db provider subject ≡ some i
    → All (IsBoundTo provider subject i.user_id) late
    → (db' : Tables) × (erase_identity db provider subject ≡ ok db')
      × (any (λ s. s.user_id == i.user_id) db'.sessions ≡ false)
      × (identity_of db' provider subject ≡ none)
      × (creates db' late ≡ db')
unfolding identity_of
erase_identity-creates db provider subject i late e b =
    let hs : any (λ s. s.user_id == i.user_id) (erased db i provider subject).sessions ≡ false =
      any-keep_not _ _ db.sessions (λ s k. ground arith) in
    let hi : any (of_provider provider subject) (erased db i provider subject).identities ≡ false =
      any-keep_not _ _ db.identities (λ j k. ground arith) in
    (
      erased db i provider subject,
      erase_identity-eq db provider subject i e,
      hs,
      any-first (of_provider provider subject) (erased db i provider subject).identities hi,
      creates-unvouched (erased db i provider subject) provider subject i.user_id late hs hi b,
    )

-- An insert that something vouches for, or that nothing has to, is stored: the new row is found
-- under its hash, without an expiry where the template has none, and every other hash reads as
-- before. The hash is new.
pub find-create :
    (db : Tables) (s : Session) (hash : String)
    → ((s.provider ≡ "") × (s.issued_by ≡ 0)) ⊎ (vouched db s ≡ true)
    → any (λ t. t.token_hash == s.token_hash) db.sessions ≡ false
    → (db' : Tables) × (create db s ≡ ok (db', record s { id = db.next_session }))
      × (find db' hash ≡ (
          if s.token_hash == hash
          then ok (record s { id = db.next_session; provider = ""; subject = ""; issued_by = 0 })
          else find db hash))
unfolding create find
find-create db s hash v fresh =
    let row : Session = record s {
      id = db.next_session;
      provider = "";
      subject = "";
      issued_by = 0;
    } in
    (
      record db { sessions = db.sessions ++ row ∷ []; next_session = suc db.next_session },
      ground (arith, beq_iff s.provider ""),
      elim (Bool-cases (s.token_hash == hash)) [
        | inl same ↦
            let missing : first (λ t. t.token_hash == hash) db.sessions ≡ none =
              subst (λ h. first (λ t. t.token_hash == h) db.sessions ≡ none)
                ((beq_iff s.token_hash hash).0 same)
                (any-first (λ t. t.token_hash == s.token_hash) db.sessions fresh) in
            ground (arith, first-append (λ t. t.token_hash == hash) db.sessions (row ∷ []))
        | inr other ↦ elim (Option-cases (first (λ t. t.token_hash == hash) db.sessions)) [
          | inl missing ↦
              ground (arith, first-append (λ t. t.token_hash == hash) db.sessions (row ∷ []))
          | inr (t, there) ↦
              ground (arith, first-append (λ t. t.token_hash == hash) db.sessions (row ∷ []))
        ]
      ],
    )

spared :
    (user except : ℕ) (s : Session)
    → is_login user except s ≡ false
    → (s.user_id ≢ user) ⊎ (s.label ≢ "") ⊎ ((except ≢ 0) × (s.id ≡ except))
spared user except s h = elim (Bool-cases (s.user_id == user)) [
  | inl mine ↦ elim (Bool-cases (s.label == "")) [
    | inl login ↦ inr (inr (ground arith, ground arith))
    | inr named ↦ inr (inl (ground (arith, beq_iff s.label "")))
  ]
  | inr other ↦ inl (ground arith)
]

spares :
    (user except : ℕ) (s : Session)
    → (s.user_id ≢ user) ⊎ (s.label ≢ "") ⊎ ((except ≢ 0) × (s.id ≡ except))
    → not (is_login user except s) ≡ true
spares user except s h = ground (arith, beq_iff s.label "")

-- A password change ends every other login and nothing else: afterwards the user holds the named
-- tokens and the spared session, each exactly as before, and no other user loses anything.
pub delete_logins_spares :
    (db : Tables) (user except : ℕ) (s : Session)
    → Memᴰ s (delete_logins db user except).sessions ↔ (
        Memᴰ s db.sessions
        × ((s.user_id ≢ user) ⊎ (s.label ≢ "") ⊎ ((except ≢ 0) × (s.id ≡ except))))
unfolding delete_logins
delete_logins_spares db user except s = (
  λ m.
      let (mem, t) = keep-Memᴰ (λ r. not (is_login user except r)) db.sessions m in
      (mem, spared user except s (ground arith)),
  λ (m, k). Memᴰ-keep (λ r. not (is_login user except r)) db.sessions m (spares user except s k),
)

find-keep-none :
    (rows : List Session) (hash : String)
    → elim (first (λ t. t.token_hash == hash) (keep (λ t. not (t.token_hash == hash)) rows)) [
      | none ↦ err not_found
      | some t ↦ ok t
    ]
      ≡ err not_found
find-keep-none rows hash =
    let gone : any (λ t. t.token_hash == hash) (keep (λ t. not (t.token_hash == hash)) rows)
        ≡ false =
      any-keep_not (λ t. t.token_hash == hash) (λ t. not (t.token_hash == hash)) rows
        (λ t h. ground arith) in
    ground (
      arith,
      any-first (λ t. t.token_hash == hash) (keep (λ t. not (t.token_hash == hash)) rows) gone,
    )

find-delete_held :
    (db : Tables) (hash : String) (s : Session)
    → find db hash ≡ ok s
    → delete db hash ≡ ok (without (λ t. t.token_hash == hash) db)
unfolding find delete
find-delete_held db hash s e = elim (Option-cases (first (λ t. t.token_hash == hash) db.sessions)) [
  | inl missing ↦ absurd (ground arith)
  | inr (t, held) ↦ ground (arith, any-first-some (λ r. r.token_hash == hash) db.sessions t held)
]

-- A deleted session is not found again.
pub find-delete :
    (db : Tables) (hash : String) (s : Session)
    → find db hash ≡ ok s
    → (db' : Tables) × (delete db hash ≡ ok db') × (find db' hash ≡ err not_found)
unfolding find delete
find-delete db hash s e = (
  without (λ t. t.token_hash == hash) db,
  find-delete_held db hash s e,
  find-keep-none db.sessions hash,
)
