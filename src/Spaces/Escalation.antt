-- ===== src/Spaces/Escalation.antt =====
-- Member screens as steps: an app resolves the actor's scope in a space, asks AssignableOver with
-- the role of the member's own row (or AssignableBy where there is no row), and writes the row.
-- The write is the reference store's Seed; the space of the scope is the space of the row.
use porte.Base.{String, true, ◌≡◌, ◌≢◌, inl, inr, string_eq, nat_eq, Bool-cases, arith}
use porte.Spaces.Model.{Role, Membership, Scope, not_member, ok, err}
use porte.Spaces.Ladder.{Ladder, valid, at_least}
use porte.Spaces.Ladder.Order.{at_least_trans}
use porte.Spaces.Guard.{ladder_of, resolve, assignable_by, assignable_over}
use porte.Spaces.Guard.Access.{resolve_iff}
use porte.Spaces.Guard.Assigning.{assignable_over_iff, assignable_by-at_least}
use porte.Spaces.Memory.{Memory, seed, membership, has_key}
use porte.Spaces.Memory.Rows.{find_row-seed_rows}
use porte.Spaces.Memory.Listing.{guard_over}

abbrev pub row_of : String → String → Role → Membership
row_of space user role = record { space_id = space; user_id = user; role = role }

module _ (l : Ladder) (space : String) where
  -- One use of a member screen of the space.
  pub data Assigns : Memory → Memory → Type 0 where
    change :
        {m : Memory} (actor user : String) (scope : Scope) (current : Membership) (target : Role)
        → space ≢ ""
        → resolve (guard_over l m) actor space ≡ ok scope
        → membership m space user ≡ ok current
        → assignable_over (guard_over l m) scope current.role target ≡ true
        → Assigns m (seed m (row_of space user target))
    invite :
        {m : Memory} (actor user : String) (scope : Scope) (target : Role)
        → space ≢ ""
        → resolve (guard_over l m) actor space ≡ ok scope
        → membership m space user ≡ err not_member
        → assignable_by (guard_over l m) scope target ≡ true
        → Assigns m (seed m (row_of space user target))

  pub data Screens (m : Memory) : Memory → Type 0 where
    here : Screens m m
    next : {n o : Memory} → Screens m n → Assigns n o → Screens m o

  -- Nobody in the space with a ranked role outranks `cap`.
  abbrev pub IsCapped : Role → Memory → Type 0
  IsCapped cap m =
      (user : String) (row : Membership)
      → membership m space user ≡ ok row
      → valid (ladder_of (guard_over l m)) row.role ≡ true
      → at_least (ladder_of (guard_over l m)) cap row.role ≡ true

  -- Writing a role that the cap ranks at least as high as keeps the cap.
  seed-IsCapped :
      (cap : Role) (m : Memory) (user : String) (target : Role)
      → IsCapped cap m
      → at_least (ladder_of (guard_over l m)) cap target ≡ true
      → IsCapped cap (seed m (row_of space user target))
  unfolding membership seed ladder_of
  seed-IsCapped cap m user target h t other row e v =
      elim (Bool-cases (has_key space other (row_of space user target))) [
        | inl same ↦
            ground (arith, find_row-seed_rows (row_of space user target) space other m.members)
        | inr differs ↦
            h other row
              (ground (arith, find_row-seed_rows (row_of space user target) space other m.members))
              v
      ]

  actor-capped :
      (cap : Role) (m : Memory) (actor : String) (scope : Scope)
      → IsCapped cap m
      → space ≢ ""
      → resolve (guard_over l m) actor space ≡ ok scope
      → at_least (ladder_of (guard_over l m)) cap scope.role ≡ true
  actor-capped cap m actor scope h hs e =
      let ((_, _, found), v, _) = (resolve_iff (guard_over l m) actor space scope hs).0 e in
      h actor (row_of space actor scope.role) found v

  Assigns-IsCapped : (cap : Role) {m n : Memory} → Assigns m n → IsCapped cap m → IsCapped cap n
  Assigns-IsCapped cap (change {m} actor user scope current target hs e _ a) h =
      seed-IsCapped cap m user target h (
        at_least_trans _ cap scope.role target (actor-capped cap m actor scope h hs e)
          ((assignable_over_iff (guard_over l m) scope current.role target).0 a).3)
  Assigns-IsCapped cap (invite {m} actor user scope target hs e _ a) h =
      seed-IsCapped cap m user target h (
        at_least_trans _ cap scope.role target (actor-capped cap m actor scope h hs e)
          (assignable_by-at_least (guard_over l m) scope target a))

  -- No chain of role changes and invitations in a space, by whoever may make them, brings anybody
  -- in it above a rank that nobody in it outranked before.
  pub Screens-IsCapped : (cap : Role) {m n : Memory} → Screens m n → IsCapped cap m → IsCapped cap n
  Screens-IsCapped cap here h = h
  Screens-IsCapped cap (next r s) h = Assigns-IsCapped cap s (Screens-IsCapped cap r h)
