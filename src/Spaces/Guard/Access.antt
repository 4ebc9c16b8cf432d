-- ===== src/Spaces/Guard/Access.antt =====
-- What it takes to get a scope out of Resolve and Require, whatever the store answers.
use porte.Base.{
  String, true, not, ◌≡◌, ◌≢◌, refl, sym, ap, ◌∙◌, ◌↔◌, ◌⊎◌, inl, inr, string_eq, nat_eq, beq_iff,
  beq_refl, if◌then◌else◌, arith,
}
use porte.Spaces.Model.{
  Role, Membership, Scope, Refusal, not_member, forbidden, unknown_role, Result, ok, err,
}
use porte.Spaces.Ladder.{valid, at_least}
use porte.Spaces.Ladder.Order.{at_least-valid, at_least_trans}
use porte.Spaces.Guard.{Guard, ladder_of, space_scope, resolve_space, resolve, require}

-- The store holds the user's row in the space, with both ids and that role.
abbrev pub IsMember : Guard → String → String → Role → Type 0
IsMember g user space role =
    (user ≢ "")
    × (space ≢ "")
    × (g.store.membership space user
        ≡ ok (record { space_id = space; user_id = user; role = role }))

resolve_space-of_row :
    (g : Guard) (user space : String) (row : Membership) {scope : Scope}
    → g.store.membership space user ≡ ok row
    → resolve_space g user space ≡ ok scope
    → (row.space_id ≡ space)
      × (row.user_id ≡ user)
      × (valid (ladder_of g) row.role ≡ true)
      × (scope ≡ space_scope user space row.role)
unfolding resolve_space
resolve_space-of_row g user space row e h =
    ground (arith, beq_iff row.space_id space, beq_iff row.user_id user)

Result-cases {ℓ} :
    {A : Type ℓ} (r : Result A) → ((a : A) × (r ≡ ok a)) ⊎ ((e : Refusal) × (r ≡ err e))
Result-cases (ok a) = inl (a, refl)
Result-cases (err e) = inr (e, refl)

resolve_space_row :
    (g : Guard) (user space : String) {scope : Scope}
    → resolve_space g user space ≡ ok scope
    → (row : Membership) × (g.store.membership space user ≡ ok row)
unfolding resolve_space
resolve_space_row g user space h = elim (Result-cases (g.store.membership space user)) [
  | inl (row, e) ↦ (row, e)
  | inr (x, e) ↦ absurd (ground arith)
]

resolve-eq-resolve_space :
    (g : Guard) (user space : String) {scope : Scope}
    → space ≢ ""
    → resolve g user space ≡ ok scope
    → (user ≢ "") × (resolve_space g user space ≡ ok scope)
unfolding resolve
resolve-eq-resolve_space g user space hs h =
    (ground (arith, beq_iff user ""), ground (arith, beq_iff user "", beq_iff space ""))

resolve-IsMember :
    (g : Guard) (user space : String) (scope : Scope)
    → space ≢ ""
    → resolve g user space ≡ ok scope
    → IsMember g user space scope.role
      × (valid (ladder_of g) scope.role ≡ true)
      × (scope ≡ space_scope user space scope.role)
resolve-IsMember g user space scope hs h =
    let (hu, h') = resolve-eq-resolve_space g user space hs h in
    let (row, e) = resolve_space_row g user space h' in
    let (es, eu, v, eq) = resolve_space-of_row g user space row e h' in
    ((hu, hs, ground arith), ground arith, ground arith)

pub IsMember-resolve :
    (g : Guard) (user space : String) (role : Role)
    → IsMember g user space role
    → valid (ladder_of g) role ≡ true
    → resolve g user space ≡ ok (space_scope user space role)
unfolding resolve
IsMember-resolve g user space role (hu, hs, e) v =
    ground (arith, beq_iff user "", beq_iff space "", beq_refl user, beq_refl space)

-- A scope that carries a space comes out of Resolve exactly for a member: both ids are non-empty,
-- the store's row carries both of them, and the role of the row, which the scope takes, is ranked.
pub resolve_iff :
    (g : Guard) (user space : String) (scope : Scope)
    → space ≢ ""
    → (resolve g user space ≡ ok scope) ↔ (
        IsMember g user space scope.role
        × (valid (ladder_of g) scope.role ≡ true)
        × (scope ≡ space_scope user space scope.role))
resolve_iff g user space scope hs = (
  resolve-IsMember g user space scope hs,
  λ h. IsMember-resolve g user space scope.role h.0 h.1 ∙ ap ok (sym h.2),
)

require-inv :
    (g : Guard) (user space : String) (min : Role) {scope : Scope}
    → require g user space min ≡ ok scope
    → (space ≢ "")
      × (resolve g user space ≡ ok scope)
      × (at_least (ladder_of g) scope.role min ≡ true)
unfolding require
require-inv g user space min h = elim (Result-cases (resolve g user space)) [
  | inl (s, e) ↦ (ground (arith, beq_iff space ""), ground arith, ground arith)
  | inr (x, e) ↦ absurd (ground arith)
]

require-intro :
    (g : Guard) (user space : String) (min : Role) (scope : Scope)
    → space ≢ ""
    → resolve g user space ≡ ok scope
    → at_least (ladder_of g) scope.role min ≡ true
    → require g user space min ≡ ok scope
unfolding require
require-intro g user space min scope hs e a =
    ground (arith, beq_iff space "", at_least-valid (ladder_of g) scope.role min a)

-- Require lets a caller through exactly as a member of the space, never into personal scope, whose
-- role in the store's row ranks at least as high as the minimum; the scope is built from the
-- arguments and that role.
pub require_iff :
    (g : Guard) (user space : String) (min : Role) (scope : Scope)
    → (require g user space min ≡ ok scope) ↔ (
        IsMember g user space scope.role
        × (at_least (ladder_of g) scope.role min ≡ true)
        × (scope ≡ space_scope user space scope.role))
require_iff g user space min scope = (there, back)
  where
    there :
        require g user space min ≡ ok scope
        → IsMember g user space scope.role
          × (at_least (ladder_of g) scope.role min ≡ true)
          × (scope ≡ space_scope user space scope.role)
    there h =
        let (hs, e, a) = require-inv g user space min h in
        let (m, v, eq) = resolve-IsMember g user space scope hs e in (m, a, eq)

    back :
        IsMember g user space scope.role
          × (at_least (ladder_of g) scope.role min ≡ true)
          × (scope ≡ space_scope user space scope.role)
        → require g user space min ≡ ok scope
    back (m, a, eq) =
        require-intro g user space min scope m.1
          (IsMember-resolve g user space scope.role m
              (at_least-valid (ladder_of g) scope.role min a).0
            ∙ ap ok (sym eq))
          a

-- A caller who meets a minimum meets every minimum that it ranks at least as high as, with the
-- same scope.
pub require_mono :
    (g : Guard) (user space : String) (min lower : Role) (scope : Scope)
    → require g user space min ≡ ok scope
    → at_least (ladder_of g) min lower ≡ true
    → require g user space lower ≡ ok scope
require_mono g user space min lower scope h k =
    let (m, a, eq) = (require_iff g user space min scope).0 h in
    (require_iff g user space lower scope).1
      (m, at_least_trans (ladder_of g) scope.role min lower a k, eq)

-- For a member, the refusals in the order of the checks: an unranked minimum, then an unranked
-- role in the row, both unknown_role, then a rank below the minimum, forbidden.
pub require_outcome :
    (g : Guard) (user space : String) (min role : Role)
    → IsMember g user space role
    → require g user space min ≡ (
        if not (valid (ladder_of g) min)
        then err unknown_role
        else if not (valid (ladder_of g) role)
        then err unknown_role
        else if at_least (ladder_of g) role min
        then ok (space_scope user space role)
        else err forbidden)
unfolding require resolve resolve_space
require_outcome g user space min role (hu, hs, e) =
    ground (arith, beq_iff user "", beq_iff space "", beq_refl user, beq_refl space)

-- Without a row for both ids nobody gets in: an empty user, an empty space, a store that answers
-- not_member, and a row that carries another user or another space are all refused as not_member,
-- whatever minimum is asked for, as long as the ladder ranks it.
pub require_outsider :
    (g : Guard) (user space : String) (min : Role)
    → valid (ladder_of g) min ≡ true
    → (user ≡ "")
      ⊎ (space ≡ "")
      ⊎ (g.store.membership space user ≡ err not_member)
      ⊎ ((row : Membership) × (g.store.membership space user ≡ ok row)
          × ((row.space_id ≢ space) ⊎ (row.user_id ≢ user)))
    → require g user space min ≡ err not_member
unfolding require resolve resolve_space
require_outsider g user space min v (inl e) = ground (arith, beq_iff user "", beq_iff space "")
require_outsider g user space min v (inr (inl e)) =
    ground (arith, beq_iff user "", beq_iff space "")
require_outsider g user space min v (inr (inr (inl e))) =
    ground (arith, beq_iff user "", beq_iff space "")
require_outsider g user space min v (inr (inr (inr (row, e, d)))) =
    ground (
      arith,
      beq_iff user "",
      beq_iff space "",
      beq_iff row.space_id space,
      beq_iff row.user_id user,
    )
