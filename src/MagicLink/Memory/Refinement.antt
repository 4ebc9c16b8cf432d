-- ===== src/MagicLink/Memory/Refinement.antt =====
-- The links of porte/pg against the reference store, call by call.
use porte.Base.{
  ℕ, suc, ◌+◌, ◌++◌, Bool-cases, keep, tally, ltb, not, String, List, [], ◌∷◌, false, ◌&&◌, none,
  some, ◌≡◌, ◌≢◌, refl, sym, ap, ◌∙◌, subst, inl, inr, string_eq, nat_eq, ◌==◌, map, arith, first,
  any, amend,
}
use mathlib.Core.List.{append-nil, append_assoc}
use porte.Pg.Tables.{MagicLink, Tables, Outcome, ok, err}
use porte.Pg.Links
use porte.Pg.Links.{LinkKey, live_of, spendable}
use porte.MagicLink.Memory.{Row, Memory, create, consume, count_since, sweep, delete_expired}
use porte.MagicLink.Memory.Rows.{
  shown, IsKeyed, Spends, map-append, shown-amend_live, shown-any, shown-keep, tally-shown,
  spend-Spends, count_since-shown,
}
use porte.MagicLink.Memory.Keyed.{
  any-amend_hash, amend-IsKeyed, snoc-IsKeyed, keep-IsKeyed, spend-IsKeyed,
}

pub data Call : Type 0 where
  creates : MagicLink → Call
  consumes : String → ℕ → Call
  counts : LinkKey → ℕ → Call
  sweeps : ℕ → Call

-- What a caller sees of a call.
pub data Seen : Type 0 where
  nothing : Seen
  answered : Outcome ℕ → Seen
  counted : ℕ → Seen

abbrev pub pg_step : Tables → Call → Tables × Seen
pg_step db (creates link) = elim (Links.create db link) [
  | ok db' ↦ (db', nothing)
  | err e ↦ (db, answered (err e))
]
pg_step db (consumes hash now) = elim (Links.consume db hash now) [
  | ok (db', user) ↦ (db', answered (ok user))
  | err e ↦ (db, answered (err e))
]
pg_step db (counts key since) = (db, counted (Links.count_since db key since))
pg_step db (sweeps cutoff) =
    let (db', removed) = Links.delete_expired db cutoff in (db', counted removed)

abbrev pub memory_step : Memory → Call → Memory × Seen
memory_step m (creates link) = (create m link, nothing)
memory_step m (consumes hash now) = elim (consume m hash now) [
  | ok (m', user) ↦ (m', answered (ok user))
  | err e ↦ (m, answered (err e))
]
memory_step m (counts key since) = (m, counted (count_since m key since))
memory_step m (sweeps cutoff) = let (m', removed) = delete_expired m cutoff in (m', counted removed)

unfoldable pub pg_run : Tables → List Call → List Seen
pg_run db [] = []
pg_run db (c ∷ calls) = (pg_step db c).1 ∷ pg_run (pg_step db c).0 calls

unfoldable pub memory_run : Memory → List Call → List Seen
memory_run m [] = []
memory_run m (c ∷ calls) = (memory_step m c).1 ∷ memory_run (memory_step m c).0 calls

-- Clock readings are not Go's zero time, and a stored hash is new when it is stored.
abbrev pub IsFair : Memory → Call → Type 0
IsFair m (creates link) =
    (any (λ r. r.link.token_hash == link.token_hash) m.rows ≡ false) × (link.created_at ≢ 0)
IsFair m (consumes hash now) = now ≢ 0
IsFair m (counts key since) = Unit {0}
IsFair m (sweeps cutoff) = Unit {0}

abbrev pub IsFairRun : Memory → List Call → Type 0
IsFairRun m [] = Unit {0}
IsFairRun m (c ∷ calls) = IsFair m c × IsFairRun (memory_step m c).0 calls

-- The database shows the rows of the reference store, whose hashes differ.
abbrev pub Shows : Tables → Memory → Type 0
Shows db m = (db.links ≡ map shown m.rows) × IsKeyed m.rows

-- The loop keeps the rows that have not expired, after those it kept before, and counts the others.
sweep_all :
    (cutoff : ℕ) (kept : List Row) (removed : ℕ) (rows : List Row)
    → ((sweep cutoff kept removed rows).0
        ≡ kept ++ keep (λ r. not (ltb r.link.expires_at cutoff)) rows)
      × ((sweep cutoff kept removed rows).1
          ≡ removed + tally (λ r. ltb r.link.expires_at cutoff) rows)
sweep_all cutoff kept removed [] = (sym (append-nil kept), omega arith)
sweep_all cutoff kept removed (r ∷ rows) = elim (Bool-cases (ltb r.link.expires_at cutoff)) [
  | inl gone ↦ let (a, b) = sweep_all cutoff kept (suc removed) rows in (ground arith, ground arith)
  | inr stays ↦
      let (a, b) = sweep_all cutoff (kept ++ r ∷ []) removed rows in
      let split =
        append_assoc kept (r ∷ []) (keep (λ r. not (ltb r.link.expires_at cutoff)) rows) in
      (ground arith, ground arith)
]

step-Shows :
    (db : Tables) (m : Memory) (c : Call)
    → Shows db m
    → IsFair m c
    → ((pg_step db c).1 ≡ (memory_step m c).1) × Shows (pg_step db c).0 (memory_step m c).0
unfolding Links.create Links.consume Links.delete_expired create consume delete_expired Spends
step-Shows db m (creates link) (e, k) (new, stamped) =
    let free : any (λ r. r.link.token_hash == link.token_hash) db.links ≡ false =
      rw e (shown-any link.token_hash m.rows ∙ new) in
    let older = shown-amend_live link.user_id link.created_at m.rows stamped in
    let row : Row = record { link = link; consumed_at = 0 } in
    let live =
      amend (λ r. r.link.user_id == link.user_id && r.consumed_at == 0)
        (λ r. record r { consumed_at = link.created_at }) m.rows in
    let shape = map-append shown live (row ∷ []) in
    (
      ground arith,
      (
        ground arith,
        snoc-IsKeyed link live
            (any-amend_hash link.token_hash link.created_at
                (λ r. r.link.user_id == link.user_id && r.consumed_at == 0) m.rows
              ∙ new)
            (amend-IsKeyed link.created_at
              (λ r. r.link.user_id == link.user_id && r.consumed_at == 0) m.rows k),
      ),
    )
step-Shows db m (consumes hash now) (e, k) fair = elim (spend-Spends hash now m.rows fair k) [
  | inl (missing, unspent) ↦
      let none_left : first (spendable hash now) db.links ≡ none = rw e missing in
      let same : (memory_step m (consumes hash now)).0.rows ≡ m.rows = ground arith in
      (ground arith, (ground arith, subst IsKeyed (sym same) k))
  | inr (r, found, (rows', spent, written)) ↦
      let there : first (spendable hash now) db.links ≡ some (shown r) = rw e found in
      let left : (memory_step m (consumes hash now)).0.rows ≡ rows' = ground arith in
      (
        ground arith,
        (
          ground arith,
          subst IsKeyed (sym left) (spend-IsKeyed hash now m.rows rows' r.link.user_id spent k),
        ),
      )
]
step-Shows db m (counts key since) (e, k) fair =
    (ap counted (count_since-shown db m key since e), (e, k))
step-Shows db m (sweeps cutoff) (e, k) fair =
    let (kept, removed) = sweep_all cutoff [] 0 m.rows in
    let gone =
      tally-shown (λ r. ltb r.link.expires_at cutoff) (λ r. ltb r.link.expires_at cutoff) m.rows
        (λ r. refl) in
    (
      ap counted
          (ap (tally (λ r. ltb r.link.expires_at cutoff)) e ∙ gone ∙ sym (removed ∙ omega arith)),
      (
        rw e (sym (shown-keep cutoff m.rows)) ∙ ap (map shown) (sym kept),
        subst IsKeyed (sym kept) (keep-IsKeyed _ m.rows k),
      ),
    )

-- The links of the database are a faithful MagicLinkStore: over any sequence of calls, a caller sees
-- what the reference store answers, if both start with the same rows, the clock never reads Go's zero
-- time, and a stored hash is new.
pub pg_run-memory_run :
    (db : Tables) (m : Memory) (calls : List Call)
    → Shows db m
    → IsFairRun m calls
    → pg_run db calls ≡ memory_run m calls
unfolding pg_run memory_run
pg_run-memory_run db m [] s fair = refl
pg_run-memory_run db m (c ∷ calls) s (fair, rest) =
    let (same, s') = step-Shows db m c s fair in
    ap (λ seen. seen ∷ pg_run (pg_step db c).0 calls) same
    ∙ ap (λ l. (memory_step m c).1 ∷ l)
        (pg_run-memory_run (pg_step db c).0 (memory_step m c).0 calls s' rest)
