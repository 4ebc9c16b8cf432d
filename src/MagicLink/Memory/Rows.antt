-- ===== src/MagicLink/Memory/Rows.antt =====
-- The rows of the reference store beside those of porte/pg: a list of them is shown to the database,
-- and what each store writes to it.
use porte.Base.{
  ℕ, String, List, [], ◌∷◌, ◌++◌, Bool, false, not, ◌&&◌, none, some, ◌≡◌, ◌≢◌, refl, ap, subst,
  ◌⊎◌, inl, inr, string_eq, nat_eq, ◌==◌, beq_iff, ltb, leb, if◌then◌else◌, Bool-cases, keep, tally,
  map, arith, first, any, amend,
}
use porte.Pg.Tables.{LinkRow, Tables}
use porte.Pg.Links
use porte.Pg.Links.{LinkKey, live_of, spendable}
use porte.MagicLink.Memory.{Row, Memory, is_spendable, spend, matches, count_since}

-- A row of the reference store as the database holds it.
abbrev pub shown : Row → LinkRow
shown r = record {
  link = r.link;
  consumed_at = if r.consumed_at == 0 then none else some r.consumed_at;
}

-- No two rows share a hash.
abbrev pub IsKeyed : List Row → Type 0
IsKeyed [] = Unit {0}
IsKeyed (r ∷ rows) = (any (λ t. t.link.token_hash == r.link.token_hash) rows ≡ false) × IsKeyed rows

pub map-append {ℓ κ} :
    {A : Type ℓ} {B : Type κ} (f : A → B) (xs ys : List A) → map f (xs ++ ys) ≡ map f xs ++ map f ys
map-append f [] ys = refl
map-append f (x ∷ xs) ys = ap (λ l. f x ∷ l) (map-append f xs ys)

pub shown-amend_live :
    (user at : ℕ) (rows : List Row)
    → at ≢ 0
    → map shown (
        amend
          (λ r. r.link.user_id == user && r.consumed_at == 0)
          (λ r. record r { consumed_at = at })
          rows)
      ≡ amend (live_of user) (λ r. record r { consumed_at = some at }) (map shown rows)
shown-amend_live user at [] ne = refl
shown-amend_live user at (r ∷ rows) ne = ground (arith, shown-amend_live user at rows ne)

pub shown-any :
    (hash : String) (rows : List Row)
    → any (λ r. r.link.token_hash == hash) (map shown rows)
      ≡ any (λ r. r.link.token_hash == hash) rows
shown-any hash [] = refl
shown-any hash (r ∷ rows) = ground (arith, shown-any hash rows)

pub shown-keep :
    (cutoff : ℕ) (rows : List Row)
    → map shown (keep (λ r. not (ltb r.link.expires_at cutoff)) rows)
      ≡ keep (λ r. not (ltb r.link.expires_at cutoff)) (map shown rows)
shown-keep cutoff [] = refl
shown-keep cutoff (r ∷ rows) = ground (arith, shown-keep cutoff rows)

pub other_rows :
    (hash : String) (now : ℕ) (rows : List Row)
    → any (λ r. r.link.token_hash == hash) rows ≡ false
    → amend (spendable hash now) (λ r. record r { consumed_at = some now }) (map shown rows)
      ≡ map shown rows
other_rows hash now [] h = refl
other_rows hash now (r ∷ rows) h = ground (arith, other_rows hash now rows)

pub spendable-shown :
    (hash : String) (now : ℕ) (r : Row) → spendable hash now (shown r) ≡ is_spendable hash now r
spendable-shown hash now r = ground arith

-- Both stores spend the same row, or none.
unfoldable pub Spends : String → ℕ → List Row → Type 0
Spends hash now rows =
    ((first (spendable hash now) (map shown rows) ≡ none) × (spend hash now rows ≡ none))
    ⊎ ((r : Row) × (first (spendable hash now) (map shown rows) ≡ some (shown r))
        × ((rows' : List Row) × (spend hash now rows ≡ some (rows', r.link.user_id))
            × (map shown rows'
                ≡ amend (spendable hash now) (λ t. record t { consumed_at = some now })
                    (map shown rows))))

pub spend-Spends :
    (hash : String) (now : ℕ) (rows : List Row) → now ≢ 0 → IsKeyed rows → Spends hash now rows
unfolding Spends spend
spend-Spends hash now [] ne keyed = inl (refl, refl)
spend-Spends hash now (r ∷ rows) ne (alone, keyed) =
    let same = spendable-shown hash now r in
    elim (Bool-cases (is_spendable hash now r)) [
      | inl here ↦
          let mine : r.link.token_hash ≡ hash = ground (arith, beq_iff r.link.token_hash hash) in
          let rest =
            other_rows hash now rows
              (subst (λ h. any (λ t. t.link.token_hash == h) rows ≡ false) mine alone) in
          inr (r, ground arith, (record r { consumed_at = now } ∷ rows, ground arith, ground arith))
      | inr there ↦ elim (spend-Spends hash now rows ne keyed) [
        | inl (missing, unspent) ↦ inl (ground arith, ground arith)
        | inr (t, found, (rows', spent, shown_rows)) ↦
            inr (t, ground arith, (r ∷ rows', ground arith, ground arith))
      ]
    ]

pub tally-shown :
    (p : LinkRow → Bool) (q : Row → Bool) (rows : List Row)
    → ((r : Row) → p (shown r) ≡ q r)
    → tally p (map shown rows) ≡ tally q rows
tally-shown p q [] h = refl
tally-shown p q (r ∷ rows) h = ground (arith, tally-shown p q rows h, h r)

pub count_since-shown :
    (db : Tables) (m : Memory) (key : LinkKey) (since : ℕ)
    → db.links ≡ map shown m.rows
    → Links.count_since db key since ≡ count_since m key since
unfolding Links.count_since count_since
count_since-shown db m key since e = rw e (elim (Bool-cases (key.user_id == 0)) [
  | inl anyone ↦ elim (Bool-cases (key.ip == "")) [
    | inl anywhere ↦ ground arith
    | inr ip ↦ ground (
      arith,
      beq_iff key.ip "",
      tally-shown
          (λ r. r.link.ip == key.ip && (not (r.link.ip == "") && leb since r.link.created_at))
          (λ r. matches key r && not (ltb r.link.created_at since)) m.rows
          (λ r. ground (arith, beq_iff r.link.ip key.ip, beq_iff r.link.ip "", beq_iff key.ip "")),
    )
  ]
  | inr user ↦ elim (Bool-cases (key.ip == "")) [
    | inl anywhere ↦ ground (
      arith,
      tally-shown (λ r. r.link.user_id == key.user_id && leb since r.link.created_at)
          (λ r. matches key r && not (ltb r.link.created_at since)) m.rows (λ r. ground arith),
    )
    | inr ip ↦ ground (
      arith,
      tally-shown
          (λ r.
            r.link.user_id == key.user_id && (r.link.ip == key.ip && leb since r.link.created_at))
          (λ r. matches key r && not (ltb r.link.created_at since)) m.rows (λ r. ground arith),
    )
  ]
])
