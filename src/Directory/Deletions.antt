-- ===== src/Directory/Deletions.antt =====
-- directory/deletions_poll.go, directory/deletions_state.go and the handling of directory/deletions.go.
-- What the world answers is an argument: the lists that the directory serves, whether the erasure of a
-- subject and a save succeed, and the clock reading of the call. The JSON of the state reads back as it
-- was written. Go's zero time is 0.
use porte.Base.{
  ℕ, zero, suc, ◌+◌, ◌-◌, String, List, [], ◌∷◌, ◌++◌, Bool, true, false, not, ◌&&◌, ◌||◌, Option,
  none, some, string_eq, nat_eq, ◌==◌, ltb, if◌then◌else◌, length, keep, any,
}

pub record Deleted : Type 0 where
  pub subject : String
  pub deleted_at : ℕ

pub record DeletionState : Type 0 where
  pub cursor : ℕ
  pub done : List (String × ℕ)

-- The state in memory, once it is loaded; what the app's StateStore holds, once something was saved;
-- and the calls of OnPersonDeleted and Erase so far, each with whether both succeeded.
pub record Deletions : Type 0 where
  pub state : Option DeletionState
  pub stored : Option DeletionState
  pub calls : List (String × Bool)

-- Registre's answer to a list call at a cursor, none when the call fails; whether the callbacks for a
-- subject succeed after so many of them were made; whether the load, and a save after so many callbacks,
-- succeed; and the time.
pub record World : Type 0 where
  pub lists : ℕ → Option (List Deleted)
  pub erases : ℕ → String → Bool
  pub loads : Bool
  pub saves : ℕ → Bool
  pub now : ℕ

pub data Fault : Type 0 where
  load_failed erase_failed list_failed save_failed same_instant : Fault

-- 60 days.
abbrev pub deletion_retention : ℕ
deletion_retention = 5184000000000000

abbrev pub overlap : ℕ
overlap = 60000000000

abbrev pub list_limit : ℕ
list_limit = 1000

abbrev pub microsecond : ℕ
microsecond = 1000

abbrev pub empty_state : DeletionState
empty_state = record { cursor = 0; done = [] }

abbrev pub or_empty : Option DeletionState → DeletionState
or_empty none = empty_state
or_empty (some s) = s

abbrev pub since : DeletionState → ℕ → ℕ
since s now = if s.cursor == 0 then now - deletion_retention else s.cursor - overlap

abbrev pub is_done : DeletionState → String → Bool
is_done s subject = any (λ d. d.0 == subject) s.done

-- The map's entry is set, and what Registre no longer lists is forgotten.
unfoldable pub mark : DeletionState → String → ℕ → DeletionState
mark s subject now = record s {
  done =
      keep (λ d. not (ltb (deletion_retention + overlap) (now - d.1)))
        ((subject, now) ∷ keep (λ d. not (d.0 == subject)) s.done);
}

-- The newest handled time strictly before the earliest failure; 0 when there is none.
unfoldable pub cursor_after : List ℕ → ℕ → ℕ
cursor_after handled failed = from 0 handled
  where
    from : ℕ → List ℕ → ℕ
    from cursor [] = cursor
    from cursor (at ∷ rest) =
        from (if (failed == 0 || ltb at failed) && ltb cursor at then at else cursor) rest

pub record PollResult : Type 0 where
  pub handled : List ℕ
  pub failed : ℕ
  pub errs : List Fault

abbrev pub nothing_yet : PollResult
nothing_yet = record { handled = []; failed = 0; errs = [] }

unfoldable pub fail : PollResult → ℕ → Fault → PollResult
fail r at e = record r {
  errs = r.errs ++ e ∷ [];
  failed = if r.failed == 0 || ltb at r.failed then at else r.failed;
}

-- The time of the list's last entry.
abbrev pub last_time : ℕ → List Deleted → ℕ
last_time last [] = last
last_time last (p ∷ rest) = last_time p.deleted_at rest

-- Where the next page starts, none when this was the last; and whether the rest cannot be reached.
unfoldable pub next_page : List Deleted → ℕ → Option ℕ × Bool
next_page list at =
    if ltb (length list) list_limit
    then (none, false)
    else (let next = last_time 0 list - microsecond in
        if not (ltb at next) then (none, true) else (some next, false))

module _ (w : World) where
  -- The state is read once: none is an error of the load.
  unfoldable pub load : Deletions → Option (Deletions × DeletionState)
  load d = elim d.state [
    | some s ↦ some (d, s)
    | none ↦
        if not w.loads
        then none
        else some (record d { state = some (or_empty d.stored) }, or_empty d.stored)
  ]

  -- A failed save forgets the copy in memory.
  unfoldable pub persist : Deletions → Deletions × Bool
  persist d =
      if w.saves (length d.calls)
      then (record d { stored = d.state }, true)
      else (record d { state = none }, false)

  abbrev pub erase : Deletions → DeletionState → String → Deletions × Bool
  erase d s subject =
      let succeeds = w.erases (length d.calls) subject in
      (
        record d {
          calls = d.calls ++ (subject, succeeds) ∷ [];
          state = if succeeds then some (mark s subject w.now) else d.state;
        },
        succeeds,
      )

  -- One person, unless they were handled already; the fault of a failure.
  unfoldable pub handle : Deletions → String → Deletions × Option Fault
  unfolding load
  handle d subject = elim (load d) [
    | none ↦ (d, some load_failed)
    | some (d', s) ↦
        if is_done s subject
        then (d', none)
        else (let (d'', succeeds) = erase d' s subject in
            (d'', if succeeds then none else some erase_failed))
  ]

  abbrev pub noted : Deleted → Option Fault → PollResult → PollResult
  noted p (some e) r = fail r p.deleted_at e
  noted p none r = record r { handled = r.handled ++ p.deleted_at ∷ [] }

  unfoldable pub handle_all : Deletions → List Deleted → PollResult → Deletions × PollResult
  unfolding handle fail
  handle_all d [] r = (d, r)
  handle_all d (p ∷ list) r =
      let (d', fault) = handle d p.subject in handle_all d' list (noted p fault r)

  abbrev pub with_fault : PollResult → Fault → PollResult
  with_fault r e = record r { errs = r.errs ++ e ∷ [] }

  -- The walk over the pages; none is out of fuel.
  unfoldable pub drain : ℕ → Deletions → ℕ → PollResult → Option (Deletions × PollResult)
  unfolding handle_all persist next_page
  drain zero d at r = none
  drain (suc fuel) d at r = elim (w.lists at) [
    | none ↦ some (d, with_fault r list_failed)
    | some list ↦
        let (d', r') = handle_all d list r in
        let (d'', saved) = persist d' in
        if not saved
        then some (d'', with_fault r' save_failed)
        else (let (page, stuck) = next_page list at in
            elim page [
              | none ↦ some (d'', if stuck then with_fault r' same_instant else r')
              | some next ↦ drain fuel d'' next r'
            ])
  ]

  -- The cursor moves once the pages are drained.
  unfoldable pub advance : Deletions → PollResult → Deletions × List Fault
  unfolding cursor_after persist
  advance d r = elim d.state [
    | none ↦ (d, r.errs)
    | some s ↦
        let cursor = cursor_after r.handled r.failed in
        if not (ltb s.cursor cursor)
        then (d, r.errs)
        else (let (d', saved) =
              persist (record d { state = some (record s { cursor = cursor }) }) in
            (d', if saved then r.errs else r.errs ++ save_failed ∷ []))
  ]

  unfoldable pub poll : ℕ → Deletions → Option (Deletions × List Fault)
  unfolding load drain advance
  poll fuel d = elim (load d) [
    | none ↦ some (d, load_failed ∷ [])
    | some (d', s) ↦ elim (drain fuel d' (since s w.now) nothing_yet) [
      | none ↦ none
      | some (d'', r) ↦ some (advance d'' r)
    ]
  ]
