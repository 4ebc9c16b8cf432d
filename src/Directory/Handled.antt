-- ===== src/Directory/Handled.antt =====
-- How often a person is erased.
use porte.Base.{
  ℕ, zero, suc, ◌+◌, ◌-◌, ◌≤◌, String, List, [], ◌∷◌, ◌++◌, Bool, true, false, not, ◌&&◌, none,
  some, ◌≡◌, ◌≢◌, sym, ap, ◌∙◌, ◌⊎◌, inl, inr, string_eq, nat_eq, ◌==◌, beq_iff, beq_refl, ltb,
  if◌then◌else◌, Bool-cases, Option-cases, length, keep, tally, arith, any,
}
use porte.Base.{tally-append}
use porte.Directory.Deletions.{
  Deleted, DeletionState, Deletions, World, Fault, PollResult, deletion_retention, overlap, is_done,
  mark, or_empty, since, nothing_yet, cursor_after, load, persist, handle, noted, handle_all, drain,
  next_page, advance, poll,
}

-- The subject was handled within the time that Registre lists it, and so is skipped.
abbrev pub fresh : String → ℕ → DeletionState → Bool
fresh subject now s =
    any (λ d. d.0 == subject && not (ltb (deletion_retention + overlap) (now - d.1))) s.done

abbrev pub erased : String → Deletions → ℕ
erased subject d = tally (λ c. c.0 == subject && c.1) d.calls

-- How many erasures of the subject there were, and may still be while the state stays in memory.
abbrev potential : String → ℕ → Deletions → DeletionState → ℕ
potential subject now d s = erased subject d + (if fresh subject now s then 0 else 1)

fresh_done :
    (subject : String) (now : ℕ) (rows : List (String × ℕ))
    → any (λ d. d.0 == subject && not (ltb (deletion_retention + overlap) (now - d.1))) rows ≡ true
    → any (λ d. d.0 == subject) rows ≡ true
fresh_done subject now [] h = absurd (ground arith)
fresh_done subject now (r ∷ rows) h = ground (arith, fresh_done subject now rows)

fresh_kept :
    (subject person : String) (now : ℕ) (rows : List (String × ℕ))
    → subject ≢ person
    → any (λ d. d.0 == subject && not (ltb (deletion_retention + overlap) (now - d.1))) rows ≡ true
    → any
        (λ d. d.0 == subject && not (ltb (deletion_retention + overlap) (now - d.1)))
        (keep
          (λ d. not (ltb (deletion_retention + overlap) (now - d.1)))
          (keep (λ d. not (d.0 == person)) rows))
      ≡ true
fresh_kept subject person now [] ne h = absurd (ground arith)
fresh_kept subject person now ((name, at) ∷ rows) ne h =
    ground (arith, fresh_kept subject person now rows ne, beq_iff name subject, beq_iff name person)

mark-fresh :
    (subject person : String) (now : ℕ) (s : DeletionState)
    → (subject ≡ person) ⊎ (fresh subject now s ≡ true)
    → fresh subject now (mark s person now) ≡ true
unfolding mark
mark-fresh subject person now s h = elim (Bool-cases (person == subject)) [
  | inl same ↦ ground arith
  | inr other ↦
      ground (arith, fresh_kept subject person now s.done, beq_iff person subject, beq_refl subject)
]

module _ (w : World) where
  marked_down :
      (subject person : String) (d : Deletions) (s : DeletionState)
      → is_done s person ≡ false
      → potential subject w.now
          (record d { calls = d.calls ++ (person, true) ∷ []; state = some (mark s person w.now) })
          (mark s person w.now)
        ≤ potential subject w.now d s
  marked_down subject person d s new =
      let one = tally-append (λ c. c.0 == subject && c.1) d.calls ((person, true) ∷ []) in
      elim (Bool-cases (person == subject)) [
        | inl same ↦
            let me : subject ≡ person = sym ((beq_iff person subject).0 same) in
            let now_fresh = mark-fresh subject person w.now s (inl me) in
            let was_not : fresh subject w.now s ≡ false =
              ground (arith, fresh_done subject w.now s.done) in
            ground arith
        | inr other ↦ elim (Bool-cases (fresh subject w.now s)) [
          | inl was ↦ let still = mark-fresh subject person w.now s (inr was) in ground arith
          | inr was_not ↦ ground arith
        ]
      ]

  load_state :
      (d d' : Deletions) (s : DeletionState)
      → load w d ≡ some (d', s)
      → (d'.state ≡ some s) × (d'.calls ≡ d.calls)
  unfolding load
  load_state d d' s h = elim (Option-cases d.state) [
    | inr (kept, there) ↦ (ground arith, ground arith)
    | inl missing ↦ (ground arith, ground arith)
  ]

  -- One person leaves the state in memory and does not add to what may still be erased.
  handle-potential :
      (subject person : String) (d : Deletions) (s : DeletionState)
      → d.state ≡ some s
      → let d' = (handle w d person).0 in
        (s' : DeletionState) × (d'.state ≡ some s')
        × (potential subject w.now d' s' ≤ potential subject w.now d s)
  unfolding handle load
  handle-potential subject person d s there = elim (Bool-cases (is_done s person)) [
    | inl skipped ↦
        let same : (handle w d person).0 ≡ d = ground arith in
        (s, ap (λ e. e.state) same ∙ there, rw same (ground arith))
    | inr new ↦ elim (Bool-cases (w.erases (length d.calls) person)) [
      | inr failed ↦
          let made : (handle w d person).0 ≡ record d { calls = d.calls ++ (person, false) ∷ [] } =
            ground arith in
          (
            s,
            ap (λ e. e.state) made ∙ there,
            rw made (
                ground (
                  arith,
                  tally-append (λ c. c.0 == subject && c.1) d.calls ((person, false) ∷ []),
                )),
          )
      | inl erased_now ↦
          let made : (handle w d person).0 ≡ record d {
            calls = d.calls ++ (person, true) ∷ [];
            state = some (mark s person w.now);
          } =
            ground arith in
          (
            mark s person w.now,
            ap (λ e. e.state) made,
            rw made (marked_down subject person d s new),
          )
    ]
  ]

  handle_all-potential :
      (subject : String) (list : List Deleted) (d : Deletions) (s : DeletionState) (r : PollResult)
      → d.state ≡ some s
      → let d' = (handle_all w d list r).0 in
        (s' : DeletionState) × (d'.state ≡ some s')
        × (potential subject w.now d' s' ≤ potential subject w.now d s)
  unfolding handle_all
  handle_all-potential subject [] d s r there = (s, there, ground arith)
  handle_all-potential subject (p ∷ list) d s r there =
      let (s', there', less) = handle-potential subject p.subject d s there in
      let d' = (handle w d p.subject).0 in
      let (s'', there'', less') =
        handle_all-potential subject list d' s' (noted w p (handle w d p.subject).1 r) there' in
      (s'', there'', ground arith)

  persist-calls : (d : Deletions) → (persist w d).0.calls ≡ d.calls
  unfolding persist
  persist-calls d = ground arith

  persist-state : (d : Deletions) → (persist w d).1 ≡ true → (persist w d).0.state ≡ d.state
  unfolding persist
  persist-state d h = ground arith

  drain-erased :
      (subject : String) (fuel at : ℕ) (d d' : Deletions) (s : DeletionState) (r r' : PollResult)
      → d.state ≡ some s
      → drain w fuel d at r ≡ some (d', r')
      → erased subject d' ≤ potential subject w.now d s
  unfolding drain
  drain-erased subject zero at d d' s r r' there h = absurd (cc)
  drain-erased subject (suc fuel) at d d' s r r' there h = elim (Option-cases (w.lists at)) [
    | inl failed ↦ let same : d ≡ d' = ground arith in rw (← same) (ground arith)
    | inr (list, answered) ↦
        let mid = (handle_all w d list r).0 in
        let mid_result = (handle_all w d list r).1 in
        let kept = (persist w mid).0 in
        let (s', there', less) = handle_all-potential subject list d s r there in
        let same_calls = persist-calls mid in
        let counted : erased subject kept ≡ erased subject mid =
          ap (tally (λ c. c.0 == subject && c.1)) same_calls in
        elim (Bool-cases (persist w mid).1) [
          | inr unsaved ↦ let same : kept ≡ d' = ground arith in rw (← same) (ground arith)
          | inl saved ↦ elim (Option-cases (next_page list at).0) [
            | inl last_page ↦ let same : kept ≡ d' = ground arith in rw (← same) (ground arith)
            | inr (next, page) ↦
                let goes_on : drain w fuel kept next mid_result ≡ some (d', r') = ground arith in
                let rest =
                  drain-erased subject fuel next kept d' s' mid_result r'
                    (persist-state mid saved ∙ there') goes_on in
                ground arith
          ]
        ]
  ]

  advance-calls : (d : Deletions) (r : PollResult) → (advance w d r).0.calls ≡ d.calls
  unfolding advance
  advance-calls d r = elim (Option-cases d.state) [
    | inl missing ↦ ground arith
    | inr (s, there) ↦
        let moved = record s { cursor = cursor_after r.handled r.failed } in
        ground (arith, persist-calls (record d { state = some moved }))
  ]

  -- The state that a poll starts from: the one in memory, else the stored one.
  abbrev pub started : Deletions → DeletionState
  started d = elim d.state [ some s ↦ s | none ↦ or_empty d.stored ]

  load-started : (d d' : Deletions) (s : DeletionState) → load w d ≡ some (d', s) → s ≡ started d
  unfolding load
  load-started d d' s h = elim (Option-cases d.state) [
    | inr (kept, there) ↦ ground arith
    | inl missing ↦ ground arith
  ]

  -- A person is erased once: a poll, over all its pages and however often they list the subject,
  -- erases them at most once, and not at all if the state it starts from has handled them within the
  -- time that Registre lists an erasure.
  pub poll_once :
      (subject : String) (fuel : ℕ) (d d' : Deletions) (errs : List Fault)
      → poll w fuel d ≡ some (d', errs)
      → erased subject d' ≤ erased subject d + (if fresh subject w.now (started d) then 0 else 1)
  unfolding poll
  poll_once subject fuel d d' errs h = elim (Option-cases (load w d)) [
    | inl failed ↦ let same : d ≡ d' = ground arith in rw (← same) (ground arith)
    | inr ((loaded, s), there) ↦
        let (in_memory, same_calls) = load_state d loaded s there in
        let start = load-started d loaded s there in
        elim (Option-cases (drain w fuel loaded (since s w.now) nothing_yet)) [
          | inl spent ↦ absurd (ground arith)
          | inr ((drained, r), walked) ↦
              let same : (advance w drained r).0 ≡ d' = ground arith in
              let calls : d'.calls ≡ drained.calls =
                ap (λ x. x.calls) (sym same) ∙ advance-calls drained r in
              let bound =
                drain-erased subject fuel (since s w.now) loaded drained s nothing_yet r in_memory
                  walked in
              rw (calls, ← start, ← same_calls) bound
        ]
  ]
