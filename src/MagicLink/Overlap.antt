-- ===== src/MagicLink/Overlap.antt =====
-- Requests that overlap: a request reads the clock once, counts the account's links, then the source's,
-- and then stores its link, each in a transaction of its own, and the steps of other requests, the
-- consumes and the sweeps fall between them.
use porte.Base.{
  ℕ, suc, ◌+◌, ◌≤◌, String, List, [], ◌∷◌, ◌++◌, Bool, Option, none, some, ◌≡◌, refl, ap, string_eq,
  nat_eq, if◌then◌else◌, length, All, tally, arith,
}
use porte.Pg.Tables.{Tables}
use porte.Pg.Links.Spending.{Op, run_op}
use porte.MagicLink.Kit.{Kit, request}

-- One call of Request under way: what the tables were when it counted.
pub record Pending : Type 0 where
  pub email : String
  pub ip : String
  pub random : Option String
  pub at : ℕ
  pub by_user : Tables
  pub by_ip : Option Tables

pub record Running : Type 0 where
  pub db : Tables
  pub clock : ℕ
  pub pending : List Pending

-- At most `slots` requests are between their first count and their end at a time.
module _ (k : Kit) (slots : ℕ) where
  pub data Step (s : Running) : Running → Type 0 where
    ticks : (now : ℕ) → s.clock ≤ now → Step s (record s { clock = now })
    begins :
        (email ip : String) (random : Option String)
        → suc (length s.pending) ≤ slots
        → Step s (record s {
          pending =
              record {
                email = email;
                ip = ip;
                random = random;
                at = s.clock;
                by_user = s.db;
                by_ip = none;
              }
              ∷ s.pending;
        })
    counts :
        (before after : List Pending) (p : Pending)
        → s.pending ≡ before ++ p ∷ after
        → p.by_ip ≡ none
        → Step s (record s { pending = before ++ record p { by_ip = some s.db } ∷ after })
    ends :
        (before after : List Pending) (p : Pending) (by_ip : Tables)
        → s.pending ≡ before ++ p ∷ after
        → p.by_ip ≡ some by_ip
        → Step s (record s {
          db = (request k p.email p.ip p.random p.at p.by_user by_ip s.db).db;
          pending = before ++ after;
        })
    consumes :
        (hash : String) (now : ℕ) → Step s (record s { db = run_op s.db (Op.consumes hash now) })
    sweeps : (cutoff : ℕ) → Step s (record s { db = run_op s.db (Op.sweeps cutoff) })

  pub data Steps (s : Running) : Running → Type 0 where
    here : Steps s s
    next : {t u : Running} → Steps s t → Step t u → Steps s u

pub tally-length : (p : Pending → Bool) (ps : List Pending) → tally p ps ≤ length ps
tally-length p [] = omega arith
tally-length p (x ∷ ps) = ground (arith, tally-length p ps)

pub length-split :
    (before after : List Pending) (p : Pending)
    → length (before ++ p ∷ after) ≡ suc (length (before ++ after))
length-split [] after p = refl
length-split (x ∷ before) after p = ap suc (length-split before after p)

pub tally-split :
    (w : Pending → Bool) (before after : List Pending) (p : Pending)
    → tally w (before ++ p ∷ after) ≡ (if w p then 1 else 0) + tally w (before ++ after)
tally-split w [] after p = ground arith
tally-split w (x ∷ before) after p = ground (arith, tally-split w before after p)

pub All-split :
    (P : Pending → Type 0) (before after : List Pending) (p : Pending)
    → All P (before ++ p ∷ after)
    → P p × All P (before ++ after)
All-split P [] after p h = h
All-split P (x ∷ before) after p (b, h) =
    let (own, rest) = All-split P before after p h in (own, (b, rest))

pub All-insert :
    (P : Pending → Type 0) (before after : List Pending) (p : Pending)
    → P p
    → All P (before ++ after)
    → All P (before ++ p ∷ after)
All-insert P [] after p own h = (own, h)
All-insert P (x ∷ before) after p own (b, h) = (b, All-insert P before after p own h)
