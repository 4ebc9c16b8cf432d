-- ===== src/Spaces/Guard.antt =====
-- spaces/guard.go and spaces/assign.go. The zero Scope that Go returns beside an error is left out.
pub mod Access
pub mod Assigning
use porte.Base.{
  ℕ, zero, suc, ◌+◌, ◌-◌, ◌≤◌, ◌<◌, String, List, [], ◌∷◌, ◌++◌, Bool, true, false, not, ◌&&◌, ◌||◌,
  Option, none, some, ◌≡◌, ◌≢◌, refl, sym, ap, ◌∙◌, subst, ◌↔◌, ◌⊎◌, inl, inr, Memᴰ, string_eq,
  nat_eq, ◌==◌, beq_iff, beq_refl, ltb, leb, if◌then◌else◌, Bool-cases, Option-cases, length, All,
  keep, tally, map, arith, tests,
}
use porte.Spaces.Model.{
  Role, Membership, Scope, resolved, personal, Refusal, not_member, forbidden, sole_owner,
  unknown_role, Result, ok, err, ◌>>=◌, ◌>>◌, unless, Store,
}
use porte.Spaces.Ladder.{Ladder, configured, default_ladder, valid, at_least, top}

pub record Guard : Type 0 where
  pub store : Store
  pub ladder : Ladder

unfoldable pub ladder_of : Guard → Ladder
ladder_of g = if not (configured g.ladder) then default_ladder else g.ladder

abbrev pub personal_scope : String → Scope
personal_scope user = record { user_id = user; space_id = ""; role = ""; is_resolved = true }

abbrev pub space_scope : String → String → Role → Scope
space_scope user space role = record {
  user_id = user;
  space_id = space;
  role = role;
  is_resolved = true;
}

-- The part of Resolve behind the two tests for an empty id.
unfoldable pub resolve_space : Guard → String → String → Result Scope
resolve_space g user space = do
  member ← g.store.membership space user
  unless (member.space_id == space && member.user_id == user) not_member
  unless (valid (ladder_of g) member.role) unknown_role
  ok (space_scope user space member.role)

unfoldable pub resolve : Guard → String → String → Result Scope
unfolding resolve_space
resolve g user space =
    if user == ""
    then err not_member
    else if space == ""
    then ok (personal_scope user)
    else resolve_space g user space

unfoldable pub require : Guard → String → String → Role → Result Scope
require g user space min = do
  unless (valid (ladder_of g) min) unknown_role
  unless (not (space == "")) not_member
  scope ← resolve g user space
  unless (at_least (ladder_of g) scope.role min) forbidden
  ok scope

-- The part of CanLeave behind the test of the caller's rank.
unfoldable pub peers : Guard → String → Result (Unit {0})
peers g space = do
  owners ← g.store.count_role space (top (ladder_of g))
  unless (not (leb owners 1)) sole_owner

unfoldable pub can_leave : Guard → String → String → Result (Unit {0})
unfolding peers
can_leave g user space = do
  unless (not (space == "")) not_member
  scope ← resolve g user space
  if not (scope.role == top (ladder_of g)) then ok tt else peers g space

unfoldable pub spaces : Guard → String → Result (List Membership)
spaces g user = do
  unless (not (user == "")) not_member
  all ← g.store.memberships user
  ok (
      keep
        (λ member.
          member.user_id == user
          && (not (member.space_id == "") && valid (ladder_of g) member.role))
        all)

unfoldable pub assignable_by : Guard → Scope → Role → Bool
assignable_by g actor target =
    if not (resolved actor) || personal actor
    then false
    else at_least (ladder_of g) actor.role target

unfoldable pub assignable_over : Guard → Scope → Role → Role → Bool
unfolding assignable_by
assignable_over g actor current target =
    if not (valid (ladder_of g) current)
    then false
    else assignable_by g actor current && assignable_by g actor target
