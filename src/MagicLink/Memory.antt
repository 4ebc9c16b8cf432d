-- ===== src/MagicLink/Memory.antt =====
-- magiclink/magiclinktest/memory.go: the reference store that an adopting app compares its own with.
-- Its mutex makes every method one step. A row's zero stamp is 0, Go's zero time.
pub mod Rows
pub mod Keyed
pub mod Refinement
mod Tests
use porte.Base.{
  ℕ, zero, suc, ◌+◌, ◌-◌, ◌/◌, ◌≤◌, ◌<◌, String, List, [], ◌∷◌, ◌++◌, Bool, true, false, not, ◌&&◌,
  ◌||◌, Option, none, some, ◌≡◌, ◌≢◌, refl, sym, ap, ◌∙◌, subst, ◌↔◌, ◌⊎◌, inl, inr, Memᴰ,
  string_eq, nat_eq, ◌==◌, beq_iff, beq_refl, ltb, leb, if◌then◌else◌, Bool-cases, Option-cases,
  length, All, keep, tally, map, arith, tests, first, any, amend,
}
use porte.Pg.Tables.{MagicLink, not_found, Outcome, ok, err}
use porte.Pg.Links.{LinkKey}

pub record Row : Type 0 where
  pub link : MagicLink
  pub consumed_at : ℕ

pub record Memory : Type 0 where
  pub rows : List Row

unfoldable pub new_memory : Memory
new_memory = record { rows = [] }

unfoldable pub create : Memory → MagicLink → Memory
create m link = record {
  rows =
      amend (λ r. r.link.user_id == link.user_id && r.consumed_at == 0)
        (λ r. record r { consumed_at = link.created_at }) m.rows
      ++ record { link = link; consumed_at = 0 } ∷ [];
}

abbrev pub is_spendable : String → ℕ → Row → Bool
is_spendable hash now r =
    r.link.token_hash == hash && (r.consumed_at == 0 && ltb now r.link.expires_at)

-- The loop of Consume, which stops at the first row that can be spent.
unfoldable pub spend : String → ℕ → List Row → Option (List Row × ℕ)
spend hash now [] = none
spend hash now (r ∷ rows) =
    let rest = spend hash now rows in
    if is_spendable hash now r
    then some (record r { consumed_at = now } ∷ rows, r.link.user_id)
    else elim rest [ none ↦ none | some (rows', user) ↦ some (r ∷ rows', user) ]

unfoldable pub consume : Memory → String → ℕ → Outcome (Memory × ℕ)
unfolding spend
consume m hash now = elim (spend hash now m.rows) [
  | none ↦ err not_found
  | some (rows, user) ↦ ok (record { rows = rows }, user)
]

abbrev pub matches : LinkKey → Row → Bool
matches key r =
    (key.user_id == 0 || r.link.user_id == key.user_id) && (key.ip == "" || r.link.ip == key.ip)

unfoldable pub count_since : Memory → LinkKey → ℕ → ℕ
count_since m key since =
    if key.user_id == 0 && key.ip == ""
    then 0
    else tally (λ r. matches key r && not (ltb r.link.created_at since)) m.rows

-- The loop of DeleteExpired: the rows kept so far, and how many were removed.
abbrev pub sweep : ℕ → List Row → ℕ → List Row → List Row × ℕ
sweep cutoff kept removed [] = (kept, removed)
sweep cutoff kept removed (r ∷ rows) =
    let expired = ltb r.link.expires_at cutoff in
    sweep cutoff (if expired then kept else kept ++ r ∷ [])
      (if expired then suc removed else removed) rows

unfoldable pub delete_expired : Memory → ℕ → Memory × ℕ
delete_expired m cutoff =
    let (kept, removed) = sweep cutoff [] 0 m.rows in (record { rows = kept }, removed)
