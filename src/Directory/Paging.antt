-- ===== src/Directory/Paging.antt =====
-- The pages of a poll come to an end.
use porte.Base.{
  ℕ, zero, suc, ◌+◌, ◌-◌, ◌≤◌, ◌<◌, List, [], ◌∷◌, some, ◌≡◌, ◌∙◌, ◌⊎◌, inl, inr, string_eq, nat_eq,
  if◌then◌else◌, Bool-cases, Option-cases, All, arith,
}
use porte.Directory.Deletions.{
  Deleted, Deletions, World, PollResult, list_failed, save_failed, same_instant, with_fault,
  microsecond, last_time, next_page, persist, handle_all, drain,
}

-- Every time that is listed is at most the horizon.
abbrev pub IsBefore : ℕ → List Deleted → Type 0
IsBefore horizon list = All (λ p. p.deleted_at ≤ horizon) list

last_time_bounded :
    (horizon last : ℕ) (list : List Deleted)
    → last ≤ horizon
    → IsBefore horizon list
    → last_time last list ≤ horizon
last_time_bounded horizon last [] h bounded = h
last_time_bounded horizon last (p ∷ list) h (first_one, bounded) =
    last_time_bounded horizon p.deleted_at list first_one bounded

next_page_grows :
    (horizon : ℕ) (list : List Deleted) (at next : ℕ)
    → IsBefore horizon list
    → (next_page list at).0 ≡ some next
    → (at < next) × (next ≤ horizon)
unfolding next_page
next_page_grows horizon list at next bounded h =
    let last = last_time_bounded horizon 0 list (ground arith) bounded in
    let made : next ≡ last_time 0 list - microsecond = ground arith in (ground arith, ground arith)

module _ (w : World) where
  -- A page is the last, or the walk goes on at a later time.
  drain_step :
      (fuel horizon at : ℕ) (d : Deletions) (r : PollResult)
      → ((t : ℕ) (list : List Deleted) → w.lists t ≡ some list → IsBefore horizon list)
      → ((out : Deletions × PollResult) × (drain w (suc fuel) d at r ≡ some out))
        ⊎ ((next : ℕ) × ((d' : Deletions) × ((r' : PollResult) × ((at < next) × (next ≤ horizon))
                × (drain w (suc fuel) d at r ≡ drain w fuel d' next r'))))
  unfolding drain
  drain_step fuel horizon at d r bounded = elim (Option-cases (w.lists at)) [
    | inl failed ↦ inl ((d, with_fault w r list_failed), ground arith)
    | inr (list, answered) ↦
        let d' = (handle_all w d list r).0 in
        let r' = (handle_all w d list r).1 in
        let d'' = (persist w d').0 in
        elim (Bool-cases (persist w d').1) [
          | inr unsaved ↦ inl ((d'', with_fault w r' save_failed), ground arith)
          | inl saved ↦ elim (Option-cases (next_page list at).0) [
            | inl last_page ↦ inl (
              (d'', if (next_page list at).1 then with_fault w r' same_instant else r'),
              ground arith,
            )
            | inr (next, there) ↦ inr (
              next,
              (
                d'',
                (
                  r',
                  next_page_grows horizon list at next (bounded at list answered) there,
                  ground arith,
                ),
              ),
            )
          ]
        ]
  ]

  -- The walk over the pages ends: whatever the callbacks and the saves do, each page but the last starts
  -- later than the one before it, so that one page more than there are nanoseconds from the cursor to
  -- the latest entry that Registre can list is enough. The latest entry is no later than the horizon.
  pub drain_ends :
      (fuel horizon at : ℕ) (d : Deletions) (r : PollResult)
      → ((t : ℕ) (list : List Deleted) → w.lists t ≡ some list → IsBefore horizon list)
      → horizon ≤ at + fuel
      → (out : Deletions × PollResult) × (drain w (suc fuel) d at r ≡ some out)
  drain_ends zero horizon at d r bounded enough = elim (drain_step zero horizon at d r bounded) [
    | inl ended ↦ ended
    | inr (next, (d', (r', (later, in_range), same))) ↦ absurd (ground arith)
  ]
  drain_ends (suc fuel) horizon at d r bounded enough =
      elim (drain_step (suc fuel) horizon at d r bounded) [
        | inl ended ↦ ended
        | inr (next, (d', (r', (later, in_range), same))) ↦
            let (out, ends) = drain_ends fuel horizon next d' r' bounded (ground arith) in
            (out, same ∙ ends)
      ]
