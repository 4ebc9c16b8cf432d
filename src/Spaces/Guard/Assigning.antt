-- ===== src/Spaces/Guard/Assigning.antt =====
-- What a scope lets its holder grant, spaces/assign.go.
use porte.Base.{true, ◌≡◌, ◌≢◌, ◌↔◌, string_eq, nat_eq, beq_iff, arith}
use porte.Spaces.Model.{Role, Scope}
use porte.Spaces.Ladder.{at_least}
use porte.Spaces.Ladder.Order.{at_least-valid}
use porte.Spaces.Guard.{Guard, ladder_of, assignable_by, assignable_over}

-- A scope grants a change of an existing member's role exactly when a guard resolved it, it
-- carries a space, and its role ranks at least as high as both the role that is taken away and the
-- role that is granted. A scope written by hand, an unresolved one, grants nothing.
pub assignable_over_iff :
    (g : Guard) (actor : Scope) (current target : Role)
    → (assignable_over g actor current target ≡ true) ↔ (
        (actor.is_resolved ≡ true)
        × (actor.space_id ≢ "")
        × (at_least (ladder_of g) actor.role current ≡ true)
        × (at_least (ladder_of g) actor.role target ≡ true))
unfolding assignable_over
assignable_over_iff g actor current target = (there, back)
  where
    there :
        assignable_over g actor current target ≡ true
        → (actor.is_resolved ≡ true)
          × (actor.space_id ≢ "")
          × (at_least (ladder_of g) actor.role current ≡ true)
          × (at_least (ladder_of g) actor.role target ≡ true)
    there h = (ground arith, ground (arith, beq_iff actor.space_id ""), ground arith, ground arith)

    back :
        (actor.is_resolved ≡ true)
          × (actor.space_id ≢ "")
          × (at_least (ladder_of g) actor.role current ≡ true)
          × (at_least (ladder_of g) actor.role target ≡ true)
        → assignable_over g actor current target ≡ true
    back (r, s, c, t) =
        ground (arith, beq_iff actor.space_id "", at_least-valid (ladder_of g) actor.role current c)

pub assignable_by-at_least :
    (g : Guard) (actor : Scope) (target : Role)
    → assignable_by g actor target ≡ true
    → at_least (ladder_of g) actor.role target ≡ true
unfolding assignable_by
assignable_by-at_least g actor target h = ground arith
