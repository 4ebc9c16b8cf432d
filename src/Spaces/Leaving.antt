-- ===== src/Spaces/Leaving.antt =====
-- CanLeave over the reference store: what remains after the caller's row is gone.
use porte.Base.{
  ℕ, ◌+◌, String, List, [], ◌∷◌, Bool, true, not, ◌&&◌, ◌≡◌, string_eq, nat_eq, ◌==◌, beq_iff,
  beq_refl, if◌then◌else◌, tally, arith,
}
use porte.Spaces.Model.{Role, Membership, sole_owner, Result, ok, err}
use porte.Spaces.Ladder.{Ladder, valid, top}
use porte.Spaces.Guard.{ladder_of, can_leave}
use porte.Spaces.Guard.Access.{IsMember, IsMember-resolve}
use porte.Spaces.Memory.{Memory, membership, find_row, count_role}
use porte.Spaces.Memory.Rows.{IsKeyed}
use porte.Spaces.Memory.Listing.{guard_over}

abbrev pub holds : String → Role → Membership → Bool
holds space role row = row.space_id == space && row.role == role

-- The rows of the space at that role that belong to somebody else.
abbrev pub held_by_others : String → String → Role → List Membership → ℕ
held_by_others space user role = tally (λ row. holds space role row && not (row.user_id == user))

abbrev own : Role → Result Membership → ℕ
own role (ok row) = if row.role == role then 1 else 0
own role (err e) = 0

-- With one row for a pair of ids, the user's own row counts once.
tally-others :
    (space user : String) (role : Role) (rows : List Membership)
    → IsKeyed rows
    → tally (holds space role) rows
      ≡ held_by_others space user role rows + own role (find_row space user rows)
unfolding find_row
tally-others space user role [] k = omega arith
tally-others space user role (row ∷ rows) k = ground (
  arith,
  tally-others space user role rows k.1,
  beq_iff row.space_id space,
  beq_iff row.user_id user,
)

-- CanLeave answers for a member with a ranked role: anybody below the top may leave, and a holder
-- of the top role may leave exactly when somebody else in the space holds it too.
pub can_leave_outcome :
    (l : Ladder) (m : Memory) (user space : String) (role : Role)
    → IsKeyed m.members
    → IsMember (guard_over l m) user space role
    → valid (ladder_of (guard_over l m)) role ≡ true
    → let first = top (ladder_of (guard_over l m)) in
      can_leave (guard_over l m) user space ≡ (
        if not (role == first)
        then ok tt
        else if held_by_others space user first m.members == 0
        then err sole_owner
        else ok tt)
unfolding can_leave count_role membership
can_leave_outcome l m user space role k mem v = ground (
  arith,
  IsMember-resolve (guard_over l m) user space role mem v,
  beq_iff space "",
  beq_refl role,
  tally-others space user (top (ladder_of (guard_over l m))) m.members k,
)
