-- ===== src/MagicLink/Counting.antt =====
-- What Kit.Request counts and what it stores.
use porte.Base.{
  ℕ, ◌+◌, ◌-◌, ◌≤◌, String, List, [], ◌∷◌, ◌++◌, Bool, true, not, ◌&&◌, Option, none, some, ◌≡◌,
  ◌≢◌, refl, subst, ◌⊎◌, inl, inr, string_eq, nat_eq, ◌==◌, beq_iff, leb, ltb, if◌then◌else◌,
  Bool-cases, Option-cases, tally, arith, any, first, keep, amend,
}
use porte.Base.{tally-append}
use porte.Pg.Tables.{MagicLink, LinkRow, Tables, Outcome}
use porte.Pg.Linking.Matching.{Outcome-cases}
use porte.Pg.Links
use porte.Pg.Links.{live_of, spendable, count_since}
use porte.Pg.Links.Spending.{Op, run_op}
use porte.MagicLink.Kit.{
  Kit, Target, Refusal, Reply, done, failed, rate_window, lookup, within_limits, issue, link_for,
  answer_target, request,
}

-- The links of the rows that pass the test and were created since.
abbrev pub recent : (MagicLink → Bool) → ℕ → LinkRow → Bool
recent mine since r = mine r.link && leb since r.link.created_at

pub recent-amend :
    (mine : MagicLink → Bool) (since at : ℕ) (p : LinkRow → Bool) (rows : List LinkRow)
    → tally (recent mine since) (amend p (λ r. record r { consumed_at = some at }) rows)
      ≡ tally (recent mine since) rows
recent-amend mine since at p [] = refl
recent-amend mine since at p (r ∷ rows) = ground (arith, recent-amend mine since at p rows)

pub recent_later :
    (mine : MagicLink → Bool) (since since' : ℕ) (rows : List LinkRow)
    → since ≤ since'
    → tally (recent mine since') rows ≤ tally (recent mine since) rows
recent_later mine since since' [] le = omega arith
recent_later mine since since' (r ∷ rows) le =
    ground (arith, recent_later mine since since' rows le)

-- A stored link counts once where it is counted, and nothing else changes the count.
recent-create :
    (mine : MagicLink → Bool) (since : ℕ) (db db' : Tables) (link : MagicLink)
    → Links.create db link ≡ Outcome.ok db'
    → tally (recent mine since) db'.links
      ≡ tally (recent mine since) db.links
        + (if mine link && leb since link.created_at then 1 else 0)
unfolding Links.create
recent-create mine since db db' link e =
    let older =
      amend (live_of link.user_id) (λ r. record r { consumed_at = some link.created_at })
        db.links in
    elim (Bool-cases (any (λ r. r.link.token_hash == link.token_hash) db.links)) [
      | inl taken ↦ absurd (ground arith)
      | inr free ↦
          let stored : db'.links ≡ older ++ record { link = link; consumed_at = none } ∷ [] =
            ground arith in
          rw (stored, tally-append)
            (ground
              (arith, recent-amend mine since link.created_at (live_of link.user_id) db.links))
    ]

pub count_since-recent :
    (db : Tables) (user since : ℕ)
    → user ≢ 0
    → count_since db (record { user_id = user; ip = "" }) since
      ≡ tally (recent (λ l. l.user_id == user) since) db.links
unfolding count_since
count_since-recent db user since ne = ground arith

tally-cong :
    (p q : LinkRow → Bool) (rows : List LinkRow)
    → ((r : LinkRow) → p r ≡ q r)
    → tally p rows ≡ tally q rows
tally-cong p q [] h = refl
tally-cong p q (r ∷ rows) h = ground (arith, tally-cong p q rows h, h r)

pub count_since-recent_ip :
    (db : Tables) (ip : String) (since : ℕ)
    → ip ≢ ""
    → count_since db (record { user_id = 0; ip = ip }) since
      ≡ tally (recent (λ l. l.ip == ip && not (l.ip == "")) since) db.links
unfolding count_since
count_since-recent_ip db ip since ne =
    let same =
      tally-cong (λ r. r.link.ip == ip && (not (r.link.ip == "") && leb since r.link.created_at))
        (recent (λ l. l.ip == ip && not (l.ip == "")) since) db.links (λ r. ground arith) in
    ground (arith, beq_iff ip "")

Reply-cases {ℓ} :
    {A : Type ℓ} (r : Reply A) → ((a : A) × (r ≡ done a)) ⊎ ((e : Refusal) × (r ≡ failed e))
Reply-cases (done a) = inl (a, refl)
Reply-cases (failed e) = inr (e, refl)

keep-recent :
    (q : LinkRow → Bool) (mine : MagicLink → Bool) (since : ℕ) (rows : List LinkRow)
    → tally (recent mine since) (keep q rows) ≤ tally (recent mine since) rows
keep-recent q mine since [] = omega arith
keep-recent q mine since (r ∷ rows) = ground (arith, keep-recent q mine since rows)

-- A consume and a sweep add no link.
pub consumes-recent :
    (mine : MagicLink → Bool) (since : ℕ) (db : Tables) (hash : String) (now : ℕ)
    → tally (recent mine since) (run_op db (Op.consumes hash now)).links
      ≤ tally (recent mine since) db.links
unfolding run_op Links.consume
consumes-recent mine since db hash now = elim (Option-cases (first (spendable hash now) db.links)) [
  | inl e ↦ ground arith
  | inr (r, e) ↦ ground (arith, recent-amend mine since now (spendable hash now) db.links)
]

pub sweeps-recent :
    (mine : MagicLink → Bool) (since : ℕ) (db : Tables) (cutoff : ℕ)
    → tally (recent mine since) (run_op db (Op.sweeps cutoff)).links
      ≤ tally (recent mine since) db.links
unfolding run_op Links.delete_expired
sweeps-recent mine since db cutoff =
    keep-recent (λ r. not (ltb r.link.expires_at cutoff)) mine since db.links

module _ (k : Kit) where
  answer_target-cases :
      (who : Target) (ip token : String) (now : ℕ) (by_user by_ip db : Tables)
      → ((answer_target k who ip token now by_user by_ip db).db ≡ db)
        ⊎ ((within_limits k who ip now by_user by_ip ≡ true)
            × (Links.create db (link_for k who ip token now)
                ≡ Outcome.ok (answer_target k who ip token now by_user by_ip db).db))
  unfolding answer_target issue
  answer_target-cases who ip token now by_user by_ip db = elim (Bool-cases who.found) [
    | inr stranger ↦ inl (ground arith)
    | inl known ↦ elim (Bool-cases (within_limits k who ip now by_user by_ip)) [
      | inr over ↦ inl (ground arith)
      | inl under ↦ elim (Outcome-cases (Links.create db (link_for k who ip token now))) [
        | inl (db', stored) ↦ inr (under, ground arith)
        | inr (e, refused) ↦ inl (ground arith)
      ]
    ]
  ]

  -- A request changes nothing, or stores one link within the limits.
  request-cases :
      (email ip : String) (random : Option String) (now : ℕ) (by_user by_ip db : Tables)
      → ((request k email ip random now by_user by_ip db).db ≡ db)
        ⊎ ((who : Target) × (token : String) × (within_limits k who ip now by_user by_ip ≡ true)
            × (Links.create db (link_for k who ip token now)
                ≡ Outcome.ok (request k email ip random now by_user by_ip db).db))
  unfolding request
  request-cases email ip random now by_user by_ip db = elim (Reply-cases (lookup k email)) [
    | inr (e, refused) ↦ inl (ground arith)
    | inl (who, looked_up) ↦ elim (Option-cases random) [
      | inl no_token ↦ inl (ground arith)
      | inr (token, drawn) ↦ elim (answer_target-cases who ip token now by_user by_ip db) [
        | inl same ↦ inl (ground arith)
        | inr (under, stored) ↦ inr (who, token, under, ground arith)
      ]
    ]
  ]

  -- Whether the counts that a request reads leave room for one more.
  abbrev pub room_user : ℕ → ℕ → Tables → Bool
  room_user user now by_user =
      ltb (count_since by_user (record { user_id = user; ip = "" }) (now - rate_window))
        k.max_per_email

  abbrev pub room_ip : String → ℕ → Tables → Bool
  room_ip ip now by_ip =
      ltb (count_since by_ip (record { user_id = 0; ip = ip }) (now - rate_window)) k.max_per_ip

  within_limits-user :
      (who : Target) (ip : String) (now : ℕ) (by_user by_ip : Tables)
      → within_limits k who ip now by_user by_ip ≡ true
      → room_user who.user_id now by_user ≡ true
  unfolding within_limits
  within_limits-user who ip now by_user by_ip h = ground arith

  within_limits-ip :
      (who : Target) (ip : String) (now : ℕ) (by_user by_ip : Tables)
      → within_limits k who ip now by_user by_ip ≡ true
      → room_ip ip now by_ip ≡ true
  unfolding within_limits
  within_limits-ip who ip now by_user by_ip h = ground arith

  -- A request adds one link at most, and none where its count left no room.
  pub request-room_user :
      (email ip : String) (random : Option String) (now user since : ℕ) (by_user by_ip db : Tables)
      → tally
          (recent (λ l. l.user_id == user) since)
          (request k email ip random now by_user by_ip db).db.links
        ≤ tally (recent (λ l. l.user_id == user) since) db.links
          + (if room_user user now by_user then 1 else 0)
  request-room_user email ip random now user since by_user by_ip db =
      let out = request k email ip random now by_user by_ip db in
      elim (request-cases email ip random now by_user by_ip db) [
        | inl same ↦ rw same (omega arith)
        | inr (who, token, under, stored) ↦
            let grown =
              recent-create (λ l. l.user_id == user) since db out.db (link_for k who ip token now)
                stored in
            elim (Bool-cases (who.user_id == user)) [
              | inr other ↦ ground arith
              | inl mine ↦
                  let same = (beq_iff who.user_id user).0 mine in
                  let room : room_user user now by_user ≡ true =
                    subst (λ u. room_user u now by_user ≡ true) same
                      (within_limits-user who ip now by_user by_ip under) in
                  ground arith
            ]
      ]

  pub request-room_ip :
      (email ip from_ip : String) (random : Option String) (now since : ℕ)
      (by_user by_ip db : Tables)
      → tally
          (recent (λ l. l.ip == from_ip && not (l.ip == "")) since)
          (request k email ip random now by_user by_ip db).db.links
        ≤ tally (recent (λ l. l.ip == from_ip && not (l.ip == "")) since) db.links
          + (if room_ip from_ip now by_ip then 1 else 0)
  request-room_ip email ip from_ip random now since by_user by_ip db =
      let out = request k email ip random now by_user by_ip db in
      elim (request-cases email ip random now by_user by_ip db) [
        | inl same ↦ rw same (omega arith)
        | inr (who, token, under, stored) ↦
            let grown =
              recent-create (λ l. l.ip == from_ip && not (l.ip == "")) since db out.db
                (link_for k who ip token now) stored in
            elim (Bool-cases (ip == from_ip)) [
              | inr other ↦ ground arith
              | inl mine ↦
                  let same = (beq_iff ip from_ip).0 mine in
                  let room : room_ip from_ip now by_ip ≡ true =
                    subst (λ t. room_ip t now by_ip ≡ true) same
                      (within_limits-ip who ip now by_user by_ip under) in
                  ground arith
            ]
      ]
