-- ===== src/Directory/Tests.antt =====
-- Runs of the deletion poll at concrete inputs.
use porte.Base.{
  ℕ, ◌+◌, ◌≤◌, List, [], ◌∷◌, true, false, none, some, ◌≡◌, refl, subst, string_eq, nat_eq, ◌==◌,
  arith,
}
use porte.Directory.Deletions.{
  Deleted, DeletionState, Deletions, World, PollResult, erase_failed, empty_state, mark,
  cursor_after, fail, nothing_yet, next_page, load, persist, handle, handle_all, drain, advance,
  poll,
}
use porte.Directory.Handled.{erased, poll_once}
use porte.Directory.Paging.{IsBefore, drain_ends}

-- One minute and one nanosecond into the clock, as a state's cursor.
abbrev cursor : ℕ
cursor = 60000000001

-- The person ada is listed twice, and bob's erasure fails.
abbrev page : List Deleted
page =
    record { subject = "ada"; deleted_at = 60000000005 }
    ∷ record { subject = "bob"; deleted_at = 60000000007 }
    ∷ record { subject = "ada"; deleted_at = 60000000009 }
    ∷ []

abbrev world : World
world = record {
  lists = λ at. some page;
  erases = λ n subject. subject == "ada";
  loads = true;
  saves = λ n. true;
  now = 70000000000;
}

abbrev start : Deletions
start = record { state = none; stored = some (record empty_state { cursor = cursor }); calls = [] }

-- The cursor stops before bob.
abbrev after_poll : Deletions
after_poll =
    let s : DeletionState = record { cursor = 60000000005; done = ("ada", 70000000000) ∷ [] } in
    record { state = some s; stored = some s; calls = ("ada", true) ∷ ("bob", false) ∷ [] }

polled : poll world 1 start ≡ some (after_poll, erase_failed ∷ [])
unfolding poll load drain handle_all handle mark fail next_page advance cursor_after persist
polled = refl

poll_once_example : erased "ada" after_poll ≤ erased "ada" start + 1
unfolding poll load drain handle_all handle mark fail next_page advance cursor_after persist
poll_once_example = poll_once world "ada" 1 start after_poll (erase_failed ∷ []) refl

page-IsBefore : IsBefore 60000000010 page
page-IsBefore = (ground arith, (ground arith, (ground arith, tt)))

drain_ends_example :
    (out : Deletions × PollResult) × (drain world 11 start 60000000000 nothing_yet ≡ some out)
drain_ends_example =
    drain_ends world 10 60000000010 60000000000 start nothing_yet
      (λ t list e. subst (IsBefore 60000000010) {x = page} (ground arith) page-IsBefore)
      (ground arith)
