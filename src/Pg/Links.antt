-- ===== src/Pg/Links.antt =====
-- pg/magiclink.go: the links of porte/magiclink, one transaction each.
pub mod Spending
use porte.Base.{
  ℕ, zero, suc, ◌+◌, ◌-◌, ◌≤◌, ◌<◌, String, List, [], ◌∷◌, ◌++◌, Bool, true, false, not, ◌&&◌, ◌||◌,
  Option, none, some, ◌≡◌, ◌≢◌, refl, sym, ap, ◌∙◌, subst, ◌↔◌, ◌⊎◌, inl, inr, Memᴰ, string_eq,
  nat_eq, ◌==◌, beq_iff, beq_refl, ltb, leb, if◌then◌else◌, Bool-cases, Option-cases, length, All,
  keep, tally, map, arith, tests, first, any, amend,
}
use porte.Pg.Tables.{
  User, TokenSet, StoredIdentity, Session, LoginCode, CodeRow, MagicLink, LinkRow, Tables, Failure,
  not_found, code_consumed, duplicate, Outcome, ok, err, ◌>>=◌, of_provider, identity_of, is_null,
}

-- porte.LinkKey
pub record LinkKey : Type 0 where
  pub user_id : ℕ
  pub ip : String

abbrev pub live_of : ℕ → LinkRow → Bool
live_of user r = r.link.user_id == user && is_null r.consumed_at

-- The user's older unconsumed links end, and the new one is inserted.
unfoldable pub create : Tables → MagicLink → Outcome Tables
create db link =
    if any (λ r. r.link.token_hash == link.token_hash) db.links
    then err duplicate
    else ok (record db {
      links =
          amend (live_of link.user_id) (λ r. record r { consumed_at = some link.created_at })
            db.links
          ++ record { link = link; consumed_at = none } ∷ [];
    })

abbrev pub spendable : String → ℕ → LinkRow → Bool
spendable hash now r =
    r.link.token_hash == hash && (is_null r.consumed_at && ltb now r.link.expires_at)

-- The conditional UPDATE … RETURNING user_id.
unfoldable pub consume : Tables → String → ℕ → Outcome (Tables × ℕ)
consume db hash now = elim (first (spendable hash now) db.links) [
  | none ↦ err not_found
  | some row ↦ ok (
    record db {
      links = amend (spendable hash now) (λ r. record r { consumed_at = some now }) db.links;
    },
    row.link.user_id,
  )
]

-- The four statements of CountSince; a zero key matches nothing.
unfoldable pub count_since : Tables → LinkKey → ℕ → ℕ
count_since db key since =
    if not (key.user_id == 0) && not (key.ip == "")
    then tally
        (λ r. r.link.user_id == key.user_id && (r.link.ip == key.ip && leb since r.link.created_at))
        db.links
    else if not (key.user_id == 0)
    then tally (λ r. r.link.user_id == key.user_id && leb since r.link.created_at) db.links
    else if not (key.ip == "")
    then tally (λ r. r.link.ip == key.ip && (not (r.link.ip == "") && leb since r.link.created_at))
        db.links
    else 0

-- The count is that of the rows affected.
unfoldable pub delete_expired : Tables → ℕ → Tables × ℕ
delete_expired db cutoff = (
  record db { links = keep (λ r. not (ltb r.link.expires_at cutoff)) db.links },
  tally (λ r. ltb r.link.expires_at cutoff) db.links,
)
