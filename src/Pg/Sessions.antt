-- ===== src/Pg/Sessions.antt =====
-- The sessions of pg/pg.go, inserted under the bindings of pg/bound.go. Counts of deleted rows are
-- left to the callers that log them.
pub mod Revoking
use porte.Base.{
  ℕ, zero, suc, ◌+◌, ◌-◌, ◌≤◌, ◌<◌, String, List, [], ◌∷◌, ◌++◌, Bool, true, false, not, ◌&&◌, ◌||◌,
  Option, none, some, ◌≡◌, ◌≢◌, refl, sym, ap, ◌∙◌, subst, ◌↔◌, ◌⊎◌, inl, inr, Memᴰ, string_eq,
  nat_eq, ◌==◌, beq_iff, beq_refl, ltb, leb, if◌then◌else◌, Bool-cases, Option-cases, length, All,
  keep, tally, map, arith, tests, first, any, amend,
}
use porte.Pg.Tables.{
  User, TokenSet, StoredIdentity, Session, LoginCode, CodeRow, MagicLink, LinkRow, Tables, Failure,
  not_found, code_consumed, duplicate, Outcome, ok, err, ◌>>=◌, of_provider, identity_of, is_null,
}

-- The SELECT EXISTS of a binding: the identity, or the issuing session, still belongs to the user.
unfoldable pub vouched : Tables → Session → Bool
vouched db s =
    if not (s.provider == "")
    then any (λ i. of_provider s.provider s.subject i && i.user_id == s.user_id) db.identities
    else any (λ t. t.id == s.issued_by && t.user_id == s.user_id) db.sessions

-- An insert that runs at once when nothing vouches, else only while what vouches exists.
unfoldable pub while_bound {ℓ} : {A : Type ℓ} → Tables → Session → (Tables → Outcome A) → Outcome A
unfolding vouched
while_bound db s insert =
    if s.provider == "" && s.issued_by == 0
    then insert db
    else if not (vouched db s)
    then err not_found
    else insert db

abbrev insert_row : Session → Tables → Outcome (Tables × Session)
insert_row s db =
    if any (λ t. t.token_hash == s.token_hash) db.sessions
    then err duplicate
    else ok (
      record db { sessions = db.sessions ++ row ∷ []; next_session = suc db.next_session },
      record s { id = db.next_session },
    )
  where
    row : Session
    row = record s { id = db.next_session; provider = ""; subject = ""; issued_by = 0 }

unfoldable pub create : Tables → Session → Outcome (Tables × Session)
unfolding while_bound
create db s = while_bound db s (insert_row s)

unfoldable pub find : Tables → String → Outcome Session
find db hash = elim (first (λ s. s.token_hash == hash) db.sessions) [
  | none ↦ err not_found
  | some s ↦ ok s
]

-- One minute, in nanoseconds.
abbrev pub minute : ℕ
minute = 60000000000

unfoldable pub touch : Tables → String → ℕ → Tables
touch db hash at = record db {
  sessions =
      amend (λ s. s.token_hash == hash && ltb (s.last_used_at + minute) at)
        (λ s. record s { last_used_at = at }) db.sessions;
}

abbrev pub without : (Session → Bool) → Tables → Tables
without p db = record db { sessions = keep (λ s. not (p s)) db.sessions }

-- A delete that must hit a row.
abbrev require_one : (Session → Bool) → Tables → Outcome Tables
require_one p db = if any p db.sessions then ok (without p db) else err not_found

unfoldable pub delete : Tables → String → Outcome Tables
delete db hash = require_one (λ s. s.token_hash == hash) db

unfoldable pub delete_by_user : Tables → ℕ → Tables
delete_by_user db user = without (λ s. s.user_id == user) db

abbrev pub is_login : ℕ → ℕ → Session → Bool
is_login user except s =
    s.user_id == user && (s.label == "" && (except == 0 || not (s.id == except)))

unfoldable pub delete_logins : Tables → ℕ → ℕ → Tables
delete_logins db user except = without (is_login user except) db

unfoldable pub delete_by_id : Tables → ℕ → ℕ → Outcome Tables
delete_by_id db user session = require_one (λ s. s.id == session && s.user_id == user) db

-- The count is that of the rows affected.
unfoldable pub delete_expired : Tables → ℕ → Tables × ℕ
delete_expired db now = (
  without (λ s. not (s.expires_at == 0) && ltb s.expires_at now) db,
  tally (λ s. not (s.expires_at == 0) && ltb s.expires_at now) db.sessions,
)
