-- ===== src/MagicLink/Limits.antt =====
-- The rate limits of Kit.Request, over requests that overlap.
use porte.Base.{
  ℕ, suc, ◌+◌, ◌-◌, ◌≤◌, String, List, [], ◌∷◌, ◌++◌, Bool, false, not, ◌&&◌, Option, none, some,
  ◌≡◌, ◌≢◌, sym, ap, ◌∙◌, subst, string_eq, nat_eq, ◌==◌, length, All, tally, arith,
}
use porte.Pg.Tables.{Tables}
use porte.Pg.Links.{count_since}
use porte.MagicLink.Kit.{Kit, rate_window, request}
use porte.Pg.Links.Spending.{Op, run_op}
use porte.MagicLink.Overlap.{
  Pending, Running, ticks, begins, counts, ends, consumes, sweeps, Steps, here, next, tally-length,
  length-split, tally-split, All-split, All-insert,
}
use porte.MagicLink.Counting.{
  recent, recent_later, consumes-recent, sweeps-recent, count_since-recent, count_since-recent_ip,
  room_user, room_ip, request-room_user, request-room_ip,
}

All-later :
    (clock now : ℕ) (ps : List Pending)
    → clock ≤ now
    → All (λ p. p.at ≤ clock) ps
    → All (λ p. p.at ≤ now) ps
All-later clock now [] le h = tt
All-later clock now (p ∷ ps) le (b, h) = (omega arith, All-later clock now ps le h)

-- The tables of a count of the source, if it was made, leave room for one more.
abbrev room_counted : Kit → String → ℕ → Option Tables → Bool
room_counted k ip at none = false
room_counted k ip at (some by_ip) = room_ip k ip at by_ip

module _ (k : Kit) (slots user : ℕ) (ip : String) where
  abbrev by_account : ℕ → Tables → ℕ
  by_account at db = tally (recent (λ l. l.user_id == user) (at - rate_window)) db.links

  abbrev by_source : ℕ → Tables → ℕ
  by_source at db = tally (recent (λ l. l.ip == ip && not (l.ip == "")) (at - rate_window)) db.links

  abbrev may_add_user : Pending → Bool
  may_add_user p = room_user k user p.at p.by_user

  abbrev may_add_ip : Pending → Bool
  may_add_ip p = room_counted k ip p.at p.by_ip

  -- What is stored, and what may still be stored on the strength of a count.
  abbrev IsCapped : Running → Type 0
  IsCapped s =
      (suc (by_account s.clock s.db + tally may_add_user s.pending) ≤ k.max_per_email + slots)
      × (suc (by_source s.clock s.db + tally may_add_ip s.pending) ≤ k.max_per_ip + slots)
      × (length s.pending ≤ slots)
      × All (λ p. p.at ≤ s.clock) s.pending

  begins-IsCapped :
      (s : Running) (email from_ip : String) (random : Option String)
      → user ≢ 0
      → suc (length s.pending) ≤ slots
      → IsCapped s
      → IsCapped (record s {
        pending =
            record {
              email = email;
              ip = from_ip;
              random = random;
              at = s.clock;
              by_user = s.db;
              by_ip = none;
            }
            ∷ s.pending;
      })
  begins-IsCapped s email from_ip random ne room (a, b, c, d) =
      let counted = count_since-recent s.db user (s.clock - rate_window) ne in
      let few = tally-length may_add_user s.pending in
      (ground arith, ground arith, room, (omega arith, d))

  counts-IsCapped :
      (s : Running) (before after : List Pending) (p : Pending)
      → ip ≢ ""
      → s.pending ≡ before ++ p ∷ after
      → p.by_ip ≡ none
      → IsCapped s
      → IsCapped (record s { pending = before ++ record p { by_ip = some s.db } ∷ after })
  counts-IsCapped s before after p some_ip e first_read (a, b, c, d) =
      let q : Pending = record p { by_ip = some s.db } in
      let (early, others) =
        All-split (λ p. p.at ≤ s.clock) before after p (subst (All (λ p. p.at ≤ s.clock)) e d) in
      let users = tally-split may_add_user before after p in
      let users' = tally-split may_add_user before after q in
      let ips = tally-split may_add_ip before after p in
      let ips' = tally-split may_add_ip before after q in
      let size = length-split before after p in
      let size' = length-split before after q in
      let same_users = ap (tally may_add_user) e in
      let same_ips = ap (tally may_add_ip) e in
      let same_size = ap length e in
      let few = tally-length may_add_ip (before ++ after) in
      let counted = count_since-recent_ip s.db ip (p.at - rate_window) some_ip in
      let fewer =
        recent_later (λ l. l.ip == ip && not (l.ip == "")) (p.at - rate_window)
          (s.clock - rate_window) s.db.links (omega arith) in
      (
        ground arith,
        ground arith,
        ground arith,
        All-insert (λ p. p.at ≤ s.clock) before after q early others,
      )

  ends-IsCapped :
      (s : Running) (before after : List Pending) (p : Pending) (by_ip : Tables)
      → s.pending ≡ before ++ p ∷ after
      → p.by_ip ≡ some by_ip
      → IsCapped s
      → IsCapped (record s {
        db = (request k p.email p.ip p.random p.at p.by_user by_ip s.db).db;
        pending = before ++ after;
      })
  ends-IsCapped s before after p by_ip e read (a, b, c, d) =
      let (early, others) =
        All-split (λ p. p.at ≤ s.clock) before after p (subst (All (λ p. p.at ≤ s.clock)) e d) in
      let grown =
        request-room_user k p.email p.ip p.random p.at user (s.clock - rate_window) p.by_user by_ip
          s.db in
      let grown_ip =
        request-room_ip k p.email p.ip ip p.random p.at (s.clock - rate_window) p.by_user by_ip
          s.db in
      let users = ap (tally may_add_user) e ∙ tally-split may_add_user before after p in
      let ips = ap (tally may_add_ip) e ∙ tally-split may_add_ip before after p in
      let size = ap length e ∙ length-split before after p in
      let weight : may_add_ip p ≡ room_ip k ip p.at by_ip = ap (room_counted k ip p.at) read in
      (ground arith, ground arith, ground arith, others)

  ticks-IsCapped :
      (s : Running) (now : ℕ) → s.clock ≤ now → IsCapped s → IsCapped (record s { clock = now })
  ticks-IsCapped s now le (a, b, c, d) =
      let fewer =
        recent_later (λ l. l.user_id == user) (s.clock - rate_window) (now - rate_window) s.db.links
          (omega arith) in
      let fewer_ip =
        recent_later (λ l. l.ip == ip && not (l.ip == "")) (s.clock - rate_window)
          (now - rate_window) s.db.links (omega arith) in
      (omega arith, omega arith, c, All-later s.clock now s.pending le d)

  others-IsCapped :
      (s : Running) (db : Tables)
      → by_account s.clock db ≤ by_account s.clock s.db
      → by_source s.clock db ≤ by_source s.clock s.db
      → IsCapped s
      → IsCapped (record s { db = db })
  others-IsCapped s db fewer fewer_ip (a, b, c, d) = (omega arith, omega arith, c, d)

  Steps-IsCapped :
      {s t : Running} → user ≢ 0 → ip ≢ "" → Steps k slots s t → IsCapped s → IsCapped t
  Steps-IsCapped ne some_ip here h = h
  Steps-IsCapped ne some_ip (next {t} r (ticks now le)) h =
      ticks-IsCapped t now le (Steps-IsCapped ne some_ip r h)
  Steps-IsCapped ne some_ip (next {t} r (begins email from_ip random room)) h =
      begins-IsCapped t email from_ip random ne room (Steps-IsCapped ne some_ip r h)
  Steps-IsCapped ne some_ip (next {t} r (counts before after p e first_read)) h =
      counts-IsCapped t before after p some_ip e first_read (Steps-IsCapped ne some_ip r h)
  Steps-IsCapped ne some_ip (next {t} r (ends before after p by_ip e read)) h =
      ends-IsCapped t before after p by_ip e read (Steps-IsCapped ne some_ip r h)
  Steps-IsCapped ne some_ip (next {t} r (consumes hash now)) h =
      others-IsCapped t (run_op t.db (Op.consumes hash now))
        (consumes-recent (λ l. l.user_id == user) (t.clock - rate_window) t.db hash now)
        (consumes-recent (λ l. l.ip == ip && not (l.ip == "")) (t.clock - rate_window) t.db hash
          now)
        (Steps-IsCapped ne some_ip r h)
  Steps-IsCapped ne some_ip (next {t} r (sweeps cutoff)) h =
      others-IsCapped t (run_op t.db (Op.sweeps cutoff))
        (sweeps-recent (λ l. l.user_id == user) (t.clock - rate_window) t.db cutoff)
        (sweeps-recent (λ l. l.ip == ip && not (l.ip == "")) (t.clock - rate_window) t.db cutoff)
        (Steps-IsCapped ne some_ip r h)

  -- How far the mail form can be used to flood: whatever addresses are asked for, by whom and how
  -- often, and whatever links are consumed or swept meanwhile, with at most `slots` requests under way at a time, an account never has more links in the
  -- last hour than the limit per account plus slots - 1, and a source address no more than the limit
  -- per source plus slots - 1: the limits themselves for requests one after the other, and up to
  -- slots - 1 more where they overlap. No request is under way at the start, both counts are within
  -- their limits then, and the clock does not run backwards. The account's id is not 0, the source is
  -- known, slots is not 0.
  pub requests_capped :
      (s t : Running)
      → user ≢ 0
      → ip ≢ ""
      → Steps k slots s t
      → s.pending ≡ []
      → 1 ≤ slots
      → count_since s.db (record { user_id = user; ip = "" }) (s.clock - rate_window)
        ≤ k.max_per_email
      → count_since s.db (record { user_id = 0; ip = ip }) (s.clock - rate_window) ≤ k.max_per_ip
      → (suc (count_since t.db (record { user_id = user; ip = "" }) (t.clock - rate_window))
          ≤ k.max_per_email + slots)
        × (suc (count_since t.db (record { user_id = 0; ip = ip }) (t.clock - rate_window))
            ≤ k.max_per_ip + slots)
  requests_capped s t ne some_ip steps idle some_slot c d =
      let before = count_since-recent s.db user (s.clock - rate_window) ne in
      let before_ip = count_since-recent_ip s.db ip (s.clock - rate_window) some_ip in
      let users : tally may_add_user s.pending ≡ 0 = ap (tally may_add_user) idle in
      let ips : tally may_add_ip s.pending ≡ 0 = ap (tally may_add_ip) idle in
      let size : length s.pending ≡ 0 = ap length idle in
      let (e, f, _, _) =
        Steps-IsCapped ne some_ip steps (
          omega arith,
          omega arith,
          omega arith,
          subst (All (λ p. p.at ≤ s.clock)) (sym idle) tt,
        ) in
      let after = count_since-recent t.db user (t.clock - rate_window) ne in
      let after_ip = count_since-recent_ip t.db ip (t.clock - rate_window) some_ip in
      (omega arith, omega arith)
