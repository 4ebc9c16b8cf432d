-- ===== src/Keys/Quota/Bounding.antt =====
-- The bound that the quota is, over the steps of a day.
use porte.Base.{
  ℕ, suc, ◌+◌, ◌≤◌, ◌<◌, String, List, [], ◌∷◌, ◌++◌, true, false, Option, ◌≡◌, refl, ap, ◌∙◌,
  subst, inl, inr, string_eq, nat_eq, ◌==◌, beq_iff, if◌then◌else◌, Bool-cases, length, arith,
}
use porte.Base.{All-Memᴰ, tally-append}
use porte.Base.Int.{ℤ, pos}
use porte.Keys.Store.{Key, KeyTables, record_usage, usage_today}
use porte.Keys.Manager.{
  CreateRequest, Request, Manager, served, screen, count_request, handle_create, handle_revoke,
  key_of, extract_token,
}
use porte.Keys.Serving.{has_key, used, used-count_request, screen-served, find_by_hash-found}
use porte.Keys.Revoking.{handle_create-row, handle_revoke-rows}
use porte.Keys.Quota.{
  Running, Step, begins, counts, creates, revokes, Steps, here, next, HasQuota, count_in,
  count_in-length, create-usage, handle_create-HasQuota, handle_revoke-HasQuota,
  count_request-HasQuota, check_quota-below,
}

module _ (id quota : ℕ) where
  module _ (m : Manager) (day slots : ℕ) where
    -- Every request that was let in is counted or still to be counted.
    abbrev pub IsWithin : Running → Type 0
    IsWithin s =
        HasQuota id quota s.db
        × (count_in id s.let_in ≡ used s.db id day + count_in id s.pending)
        × (count_in id s.let_in < quota + slots)

    count_request-used :
        (db : KeyTables) (other : ℕ)
        → has_key db id ≡ true
        → used (count_request m db other day) id day
          ≡ used db id day + (if other == id then 1 else 0)
    unfolding count_request record_usage
    count_request-used db other there = elim (Bool-cases (has_key db other)) [
      | inl known ↦
          ground
            (arith, used-count_request m db other day id known, beq_iff id other, beq_iff other id)
      | inr unknown ↦
          let apart : (other == id) ≡ false = elim (Bool-cases (other == id)) [
            | inr e ↦ e
            | inl e ↦
                let both = subst (λ i. has_key db i ≡ false) ((beq_iff other id).0 e) unknown in
                absurd (ground arith)
          ] in
          let same : count_request m db other day ≡ db = ground arith in rw same (ground arith)
    ]

    handle_create-used :
        (db : KeyTables) (req : Option CreateRequest) (random : Option String) (now : ℕ)
        → used (handle_create m db req random now).0 id day ≡ used db id day
    unfolding usage_today
    handle_create-used db req random now = elim (handle_create-row m db req random now) [
      | inl e ↦ rw e refl
      | inr (wanted, token, e) ↦ rw (create-usage db _ (key_of m wanted token now) _ e) refl
    ]

    handle_revoke-used :
        (db : KeyTables) (i : Option ℤ) (now : ℕ)
        → used (handle_revoke m db i now).0 id day ≡ used db id day
    unfolding usage_today
    handle_revoke-used db i now = elim (handle_revoke-rows m db i now) [
      | inl e ↦ rw e refl
      | inr (j, e) ↦ rw e refl
    ]

    begins-IsWithin :
        (s : Running) (r : Request) (key : Key)
        → 0 < quota
        → screen m s.db s.db r day ≡ served key
        → suc (length s.pending) ≤ slots
        → IsWithin s
        → IsWithin (record s { pending = key.id ∷ s.pending; let_in = key.id ∷ s.let_in })
    begins-IsWithin s r key some_quota e room ((there, below, all), sums, bound) =
        elim (Bool-cases (key.id == id)) [
          | inr other ↦ ((there, below, all), ground arith, ground arith)
          | inl own ↦
              let (_, found, _, _, checked) = screen-served m s.db s.db r day key e in
              let (member, _) =
                find_by_hash-found s.db (m.hash_token (extract_token r)) key found in
              let same : key.id ≡ id = (beq_iff key.id id).0 own in
              let limit : key.daily_quota ≡ pos quota =
                All-Memᴰ (λ k. k.id ≡ id → k.daily_quota ≡ pos quota) s.db.api_keys all member
                  same in
              let left : used s.db id day < quota =
                subst (λ i. used s.db i day < quota) same
                  (check_quota-below id quota m s.db key day limit some_quota checked) in
              let few = count_in-length id s.pending in
              ((there, below, all), ground arith, ground arith)
        ]

    counts-IsWithin :
        (s : Running) (before after : List ℕ) (other : ℕ)
        → s.pending ≡ before ++ other ∷ after
        → IsWithin s
        → IsWithin (record s { db = count_request m s.db other day; pending = before ++ after })
    counts-IsWithin s before after other e (h, sums, bound) =
        let split : count_in id s.pending ≡ count_in id before + count_in id (other ∷ after) =
          ap (count_in id) e ∙ tally-append (λ x. x == id) before (other ∷ after) in
        let rest = tally-append (λ x. x == id) before after in
        let counted = count_request-used s.db other h.0 in
        (count_request-HasQuota id quota m s.db other day h, ground arith, bound)

    Step-IsWithin : {s t : Running} → 0 < quota → Step m day slots s t → IsWithin s → IsWithin t
    Step-IsWithin {s} p (begins r key e room) h = begins-IsWithin s r key p e room h
    Step-IsWithin {s} p (counts before after other e) h = counts-IsWithin s before after other e h
    Step-IsWithin {s} p (creates req random now) (h, sums, bound) = (
      handle_create-HasQuota id quota m s.db req random now h,
      rw (handle_create-used s.db req random now) sums,
      bound,
    )
    Step-IsWithin {s} p (revokes i now) (h, sums, bound) = (
      handle_revoke-HasQuota id quota m s.db i now h,
      rw (handle_revoke-used s.db i now) sums,
      bound,
    )

    Steps-IsWithin : {s t : Running} → 0 < quota → Steps m day slots s t → IsWithin s → IsWithin t
    Steps-IsWithin p here h = h
    Steps-IsWithin p (next r s) h = Step-IsWithin p s (Steps-IsWithin p r h)

    -- On a day that starts with nothing counted and no request under way, and with at most `slots`
    -- requests between their check and their count at a time, a key with a quota above 0 is let in
    -- fewer than quota + slots times, whatever else is created, revoked and used meanwhile: never above
    -- the quota for requests one after the other, and by at most slots - 1 too often where they overlap.
    pub quota_holds :
        (s t : Running)
        → Steps m day slots s t
        → HasQuota id quota s.db
        → 0 < quota
        → used s.db id day ≡ 0
        → s.pending ≡ []
        → s.let_in ≡ []
        → count_in id t.let_in < quota + slots
    quota_holds s t steps h p unused idle nobody =
        (Steps-IsWithin p steps (h, rw (unused, idle, nobody) refl, rw nobody (omega arith))).2
