-- ===== src/Pg/Links/Spending.antt =====
-- MagicLinkStore.Create and Consume over sequences of transactions on the links.
use porte.Base.{
  ℕ, ◌≤◌, ◌<◌, String, List, [], ◌∷◌, ◌++◌, Bool, false, not, none, some, ◌≡◌, ◌≢◌, refl, inl, inr,
  string_eq, nat_eq, ◌==◌, beq_iff, beq_refl, ltb, Option-cases, All, keep, tally, arith, first,
  any, amend,
}
use porte.Pg.Tables.{MagicLink, LinkRow, Tables, not_found, Outcome, ok, err}
use porte.Base.{tally-append, any-first, any-append, first-append}
use porte.Pg.Links.{live_of, spendable, create, consume, delete_expired}

-- One transaction on the links; a create that fails changes nothing.
pub data Op : Type 0 where
  creates : MagicLink → Op
  consumes : String → ℕ → Op
  sweeps : ℕ → Op

abbrev pub after : Tables → Outcome Tables → Tables
after db (ok db') = db'
after db (err e) = db

abbrev pub after_pair : Tables → Outcome (Tables × ℕ) → Tables
after_pair db (ok (db', user)) = db'
after_pair db (err e) = db

unfoldable pub run_op : Tables → Op → Tables
run_op db (creates link) = after db (create db link)
run_op db (consumes hash now) = after_pair db (consume db hash now)
run_op db (sweeps cutoff) = (delete_expired db cutoff).0

unfoldable pub run : Tables → List Op → Tables
run db [] = db
run db (op ∷ ops) = run (run_op db op) ops

-- No create of the list stores a link under the hash.
abbrev pub IsOther : String → Op → Type 0
IsOther hash (creates link) = link.token_hash ≢ hash
IsOther hash (consumes h now) = Unit {0}
IsOther hash (sweeps cutoff) = Unit {0}

abbrev pub IsDead : String → ℕ → Tables → Type 0
IsDead hash t db = any (spendable hash t) db.links ≡ false

amend_dead :
    (hash : String) (t at : ℕ) (p : LinkRow → Bool) (rows : List LinkRow)
    → any (spendable hash t) rows ≡ false
    → any (spendable hash t) (amend p (λ r. record r { consumed_at = some at }) rows) ≡ false
amend_dead hash t at p [] h = refl
amend_dead hash t at p (r ∷ rows) h = ground (arith, amend_dead hash t at p rows)

keep_dead :
    (p q : LinkRow → Bool) (rows : List LinkRow) → any p rows ≡ false → any p (keep q rows) ≡ false
keep_dead p q [] h = refl
keep_dead p q (r ∷ rows) h = ground (arith, keep_dead p q rows)

run_op-IsDead :
    (hash : String) (t : ℕ) (db : Tables) (op : Op)
    → IsOther hash op
    → IsDead hash t db
    → IsDead hash t (run_op db op)
unfolding run_op create consume delete_expired
run_op-IsDead hash t db (creates link) o h = ground (
  arith,
  any-append (spendable hash t)
      (amend (live_of link.user_id) (λ r. record r { consumed_at = some link.created_at }) db.links)
      (record { link = link; consumed_at = none } ∷ []),
  amend_dead hash t link.created_at (live_of link.user_id) db.links h,
  beq_iff link.token_hash hash,
)
run_op-IsDead hash t db (consumes other now) o h =
    elim (Option-cases (first (spendable other now) db.links)) [
      | inl e ↦ ground arith
      | inr (r, e) ↦ ground (arith, amend_dead hash t now (spendable other now) db.links h)
    ]
run_op-IsDead hash t db (sweeps cutoff) o h =
    keep_dead (spendable hash t) (λ r. not (ltb r.link.expires_at cutoff)) db.links h

run-IsDead :
    (hash : String) (t : ℕ) (db : Tables) (ops : List Op)
    → All (IsOther hash) ops
    → IsDead hash t db
    → IsDead hash t (run db ops)
unfolding run
run-IsDead hash t db [] o h = h
run-IsDead hash t db (op ∷ ops) o h =
    run-IsDead hash t (run_op db op) ops o.1 (run_op-IsDead hash t db op o.0 h)

amend_spent :
    (hash : String) (now : ℕ) (rows : List LinkRow)
    → any
        (spendable hash now)
        (amend (spendable hash now) (λ r. record r { consumed_at = some now }) rows)
      ≡ false
amend_spent hash now [] = refl
amend_spent hash now (r ∷ rows) = ground (arith, amend_spent hash now rows)

later_dead :
    (hash : String) (t t' : ℕ) (rows : List LinkRow)
    → t ≤ t'
    → any (spendable hash t) rows ≡ false
    → any (spendable hash t') rows ≡ false
later_dead hash t t' [] le h = refl
later_dead hash t t' (r ∷ rows) le h = ground (arith, later_dead hash t t' rows le)

pub consume-IsDead :
    (db db' : Tables) (hash : String) (user now : ℕ)
    → consume db hash now ≡ ok (db', user)
    → IsDead hash now db'
unfolding consume
consume-IsDead db db' hash user now e = elim (Option-cases (first (spendable hash now) db.links)) [
  | inl missing ↦ absurd (ground arith)
  | inr (r, found) ↦ ground (arith, amend_spent hash now db.links)
]

pub run_dead :
    (db : Tables) (hash : String) (now later : ℕ) (ops : List Op)
    → IsDead hash now db
    → All (IsOther hash) ops
    → now ≤ later
    → consume (run db ops) hash later ≡ err not_found
unfolding consume
run_dead db hash now later ops spent o le =
    let gone : any (spendable hash later) (run db ops).links ≡ false =
      later_dead hash now later (run db ops).links le (run-IsDead hash now db ops o spent) in
    ground (arith, any-first (spendable hash later) (run db ops).links gone)

-- A link is spent at most once: after a consume that succeeds, and any transactions on the links
-- that store no link under the same hash, a consume of it at that time or later finds nothing.
pub consume_once :
    (db db' : Tables) (hash : String) (user now later : ℕ) (ops : List Op)
    → consume db hash now ≡ ok (db', user)
    → All (IsOther hash) ops
    → now ≤ later
    → consume (run db' ops) hash later ≡ err not_found
consume_once db db' hash user now later ops e o le =
    run_dead db' hash now later ops (consume-IsDead db db' hash user now e) o le

ended :
    (user at : ℕ) (rows : List LinkRow)
    → tally (live_of user) (amend (live_of user) (λ r. record r { consumed_at = some at }) rows) ≡ 0
ended user at [] = refl
ended user at (r ∷ rows) = ground (arith, ended user at rows)

amend_fresh :
    (hash : String) (now at : ℕ) (p : LinkRow → Bool) (rows : List LinkRow)
    → any (λ r. r.link.token_hash == hash) rows ≡ false
    → first (spendable hash now) (amend p (λ r. record r { consumed_at = some at }) rows) ≡ none
amend_fresh hash now at p [] h = refl
amend_fresh hash now at p (r ∷ rows) h = ground (arith, amend_fresh hash now at p rows)

-- The transactions on the links leave the sessions alone.
pub create-sessions :
    (db db' : Tables) (link : MagicLink) → create db link ≡ ok db' → db'.sessions ≡ db.sessions
unfolding create
create-sessions db db' link e = ground arith

pub consume-sessions :
    (db db' : Tables) (hash : String) (user now : ℕ)
    → consume db hash now ≡ ok (db', user)
    → db'.sessions ≡ db.sessions
unfolding consume
consume-sessions db db' hash user now e = ground arith

-- Storing a link under a new hash succeeds and leaves its user exactly one unconsumed link, and a
-- consume of the new link before it expires answers its user.
pub create_supersedes :
    (db : Tables) (link : MagicLink) (now : ℕ)
    → any (λ r. r.link.token_hash == link.token_hash) db.links ≡ false
    → (db' : Tables) × (create db link ≡ ok db')
      × (tally (live_of link.user_id) db'.links ≡ 1)
      × (now < link.expires_at
          → (db'' : Tables) × (consume db' link.token_hash now ≡ ok (db'', link.user_id)))
unfolding create consume
create_supersedes db link now fresh =
    let older =
      amend (live_of link.user_id) (λ r. record r { consumed_at = some link.created_at })
        db.links in
    let row : LinkRow = record { link = link; consumed_at = none } in
    let db' : Tables = record db { links = older ++ row ∷ [] } in
    (
      db',
      ground arith,
      ground (
        arith,
        tally-append (live_of link.user_id) older (row ∷ []),
        ended link.user_id link.created_at db.links,
      ),
      λ open_still. (
        record db' {
          links =
              amend (spendable link.token_hash now) (λ r. record r { consumed_at = some now })
                db'.links;
        },
        ground (
          arith,
          first-append (spendable link.token_hash now) older (row ∷ []),
          amend_fresh link.token_hash now link.created_at (live_of link.user_id) db.links fresh,
          beq_refl link.token_hash,
        ),
      ),
    )
