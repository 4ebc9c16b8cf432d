-- ===== src/Pg/Erase.antt =====
-- pg/erase.go: what remains of an erased person. The account's exclusive lock is taken around both
-- reads of the owner, so the retry of an identity that moved in between is the failure `moved` of
-- the locked part.
use porte.Base.{ℕ, String, not, none, some, string_eq, nat_eq, ◌==◌, if◌then◌else◌, keep}
use porte.Pg.Tables.{Tables, moved, Outcome, ok, err, of_provider, identity_of}

unfoldable pub erase_locked : Tables → ℕ → String → String → Outcome Tables
erase_locked db user provider subject = elim (identity_of db provider subject) [
  | none ↦ ok db
  | some i ↦
      if not (i.user_id == user)
      then err moved
      else ok (record db {
        identities = keep (λ j. not (of_provider provider subject j)) db.identities;
        sessions = keep (λ s. not (s.user_id == user)) db.sessions;
        codes =
            if db.has_codes then keep (λ r. not (r.code.user_id == user)) db.codes else db.codes;
        links =
            if db.has_links then keep (λ r. not (r.link.user_id == user)) db.links else db.links;
      })
]

unfoldable pub erase_identity : Tables → String → String → Outcome Tables
unfolding erase_locked
erase_identity db provider subject = elim (identity_of db provider subject) [
  | none ↦ ok db
  | some i ↦ erase_locked db i.user_id provider subject
]
