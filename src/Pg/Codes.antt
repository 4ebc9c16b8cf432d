-- ===== src/Pg/Codes.antt =====
-- The one-time login codes of pg/pg.go.
pub mod Exchange
use porte.Base.{
  ℕ, zero, suc, ◌+◌, ◌-◌, ◌≤◌, ◌<◌, String, List, [], ◌∷◌, ◌++◌, Bool, true, false, not, ◌&&◌, ◌||◌,
  Option, none, some, ◌≡◌, ◌≢◌, refl, sym, ap, ◌∙◌, subst, ◌↔◌, ◌⊎◌, inl, inr, Memᴰ, string_eq,
  nat_eq, ◌==◌, beq_iff, beq_refl, ltb, leb, if◌then◌else◌, Bool-cases, Option-cases, length, All,
  keep, tally, map, arith, tests, first, any, amend,
}
use porte.Pg.Tables.{
  User, TokenSet, StoredIdentity, Session, LoginCode, CodeRow, MagicLink, LinkRow, Tables, Failure,
  not_found, code_consumed, duplicate, Outcome, ok, err, ◌>>=◌, of_provider, identity_of, is_null,
}
use porte.Pg.Sessions.{while_bound}

-- The session template whose binding a code is checked under.
abbrev pub binding : LoginCode → Session
binding c = record {
  id = 0;
  token_hash = "";
  user_id = c.user_id;
  label = "";
  created_at = 0;
  last_used_at = 0;
  expires_at = 0;
  provider = c.provider;
  subject = c.subject;
  issued_by = 0;
}

abbrev insert_code : LoginCode → Tables → Outcome Tables
insert_code c db =
    if any (λ r. r.code.code_hash == c.code_hash) db.codes
    then err duplicate
    else ok (record db { codes = db.codes ++ row ∷ [] })
  where
    row : CodeRow
    row = record {
      code = if c.provider == "" then record c { subject = "" } else c;
      consumed_at = none;
    }

unfoldable pub create : Tables → LoginCode → Outcome Tables
unfolding while_bound
create db c = while_bound db (binding c) (insert_code c)

-- A code that was spent, or one that never was.
unfoldable pub why_it_failed : Tables → String → Failure
why_it_failed db hash = elim (first (λ r. r.code.code_hash == hash) db.codes) [
  | none ↦ not_found
  | some row ↦ if is_null row.consumed_at then not_found else code_consumed
]

abbrev pub unspent : String → CodeRow → Bool
unspent hash r = r.code.code_hash == hash && is_null r.consumed_at

unfoldable pub consume : Tables → String → ℕ → Outcome (Tables × LoginCode)
unfolding why_it_failed
consume db hash now = elim (first (unspent hash) db.codes) [
  | none ↦ err (why_it_failed db hash)
  | some row ↦ ok (
    record db { codes = amend (unspent hash) (λ r. record r { consumed_at = some now }) db.codes },
    row.code,
  )
]

-- The count is that of the rows affected.
unfoldable pub delete_expired : Tables → ℕ → Tables × ℕ
delete_expired db now = (
  record db { codes = keep (λ r. not (ltb r.code.expires_at now)) db.codes },
  tally (λ r. ltb r.code.expires_at now) db.codes,
)
