-- ===== src/Pg/Identities/Accounts.antt =====
-- A local account and its password row: what the statements of pg/pg.go store, their reads find.
use porte.Base.{
  ℕ, String, List, [], ◌∷◌, ◌++◌, Bool, true, false, ◌&&◌, some, ◌≡◌, inl, inr, string_eq, nat_eq,
  ◌==◌, beq_iff, beq_refl, Bool-cases, Option-cases, arith, first, any, amend,
}
use porte.Base.{any-first, first-append, first-any}
use porte.Pg.Tables.{
  User, StoredIdentity, Tables, Failure, ok, err, of_provider, identity_of, user_by_email,
}
use porte.Pg.Identities.{
  provider_local, create_from_password, find_by_email, find, save, save_federated,
}

pub find_by_email-create_from_password :
    (db db' : Tables) (email name : String) (id : ℕ) (e : Failure)
    → find_by_email db email ≡ err e
    → create_from_password db email name ≡ ok (db', id)
    → find_by_email db' email ≡ ok id
unfolding find_by_email create_from_password user_by_email
find_by_email-create_from_password db db' email name id e missing made =
    elim (Option-cases (first (λ u. u.email == email) db.users)) [
      | inr (u, there) ↦ absurd (ground arith)
      | inl gone ↦
          let free = first-any (λ u. u.email == email) db.users gone in
          let row : User = record {
            id = db.next_user;
            email = email;
            email_verified = false;
            name = name;
            avatar_url = "";
            avatar_source = "";
            locale = "en";
          } in
          let written : db'.users ≡ db.users ++ row ∷ [] = ground arith in
          let there : first (λ u. u.email == email) (db.users ++ row ∷ []) ≡ some row =
            rw (first-append, gone) (ground (arith, beq_refl email)) in
          ground arith
    ]

pub save-users : (db db' : Tables) (i : StoredIdentity) → save db i ≡ ok db' → db'.users ≡ db.users
unfolding save save_federated
save-users db db' i e = ground arith

pub save-sessions :
    (db db' : Tables) (i : StoredIdentity) → save db i ≡ ok db' → db'.sessions ≡ db.sessions
unfolding save save_federated
save-sessions db db' i e = ground arith

first-amend_const :
    (p : StoredIdentity → Bool) (i : StoredIdentity) (rows : List StoredIdentity)
    → p i ≡ true
    → any p rows ≡ true
    → first p (amend p (λ r. i) rows) ≡ some i
first-amend_const p i [] h e = absurd (cc)
first-amend_const p i (r ∷ rows) h e = ground (arith, first-amend_const p i rows)

-- A password row is stored whatever the tables hold, and read back as it was stored.
pub find-save :
    (db : Tables) (i : StoredIdentity)
    → i.provider ≡ provider_local
    → (db' : Tables) × (save db i ≡ ok db') × (find db' provider_local i.subject ≡ ok i)
unfolding save find identity_of
find-save db i here = elim (Bool-cases (any (of_provider i.provider i.subject) db.identities)) [
  | inl held ↦
      let found =
        first-amend_const (of_provider i.provider i.subject) i db.identities
          (ground (arith, beq_refl i.provider, beq_refl i.subject)) held in
      (
        record db { identities = amend (of_provider i.provider i.subject) (λ r. i) db.identities },
        ground (arith, beq_iff i.provider provider_local),
        rw (← here) (ground arith),
      )
  | inr free ↦
      let missing = any-first (of_provider i.provider i.subject) db.identities free in
      let found : first (of_provider i.provider i.subject) (db.identities ++ i ∷ []) ≡ some i =
        rw (first-append, missing) (ground (arith, beq_refl i.provider, beq_refl i.subject)) in
      (
        record db { identities = db.identities ++ i ∷ [] },
        ground (arith, beq_iff i.provider provider_local),
        rw (← here) (ground arith),
      )
]

pub find-vouches :
    (db : Tables) (provider subject : String) (i : StoredIdentity)
    → find db provider subject ≡ ok i
    → any (λ j. of_provider provider subject j && j.user_id == i.user_id) db.identities ≡ true
unfolding find identity_of
find-vouches db provider subject i e = vouches db.identities i (ground arith)
  where
    vouches :
        (rows : List StoredIdentity) (i : StoredIdentity)
        → first (of_provider provider subject) rows ≡ some i
        → any (λ j. of_provider provider subject j && j.user_id == i.user_id) rows ≡ true
    vouches [] i e = absurd (cc)
    vouches (j ∷ rows) i e = ground (arith, vouches rows i)
