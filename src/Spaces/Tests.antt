-- ===== src/Spaces/Tests.antt =====
-- Runs of the spaces package at concrete inputs.
use porte.Base.{
  String, List, [], ◌∷◌, true, false, not, ◌&&◌, ◌≡◌, ◌≢◌, refl, ◌↔◌, inl, inr, Memᴰ, string_eq,
  nat_eq, ◌==◌, if◌then◌else◌, arith,
}
use porte.Base.{text_ne}
use porte.Spaces.Model.{Role, Membership, not_member, sole_owner, forbidden, unknown_role, ok, err}
use porte.Spaces.Ladder.{
  zero_ladder, default_ladder, valid, at_least, top, new_ladder, contains, index, above,
}
use porte.Spaces.Ladder.Building.{top-at_least, at_least-new_ladder, valid-new_ladder}
use porte.Spaces.Ladder.Order.{at_least_linear}
use porte.Spaces.Guard.{
  Guard, resolve, require, can_leave, spaces, space_scope, ladder_of, assignable_over,
}
use porte.Spaces.Guard.Access.{
  IsMember, resolve_iff, require_iff, require_mono, require_outcome, require_outsider,
}
use porte.Spaces.Guard.Assigning.{assignable_over_iff}
use porte.Spaces.Memory.{Memory, seed, membership, memberships, count_role, find_row}
use porte.Spaces.Memory.Rows.{membership-seed, IsKeyed}
use porte.Spaces.Memory.Listing.{guard_over, spaces-resolve}
use porte.Spaces.Escalation.{row_of, Screens, change, here, next, IsCapped, Screens-IsCapped}
use porte.Spaces.Leaving.{can_leave_outcome}

abbrev no_role : Role
no_role = ""

abbrev atelier : String
atelier = "atelier"

abbrev crew : List Membership
crew =
    row_of "atelier" "ada" "owner"
    ∷ row_of "atelier" "bob" "admin"
    ∷ row_of "labo" "bob" "member"
    ∷ []

abbrev table : Memory
table = record { members = crew }

abbrev guard : Guard
guard = guard_over zero_ladder table

crew-IsKeyed : IsKeyed crew
unfolding find_row
crew-IsKeyed = (refl, (refl, (refl, tt)))

bob-IsMember : IsMember guard "bob" "atelier" "admin"
unfolding membership
bob-IsMember = (text_ne "bob" "" refl, text_ne "atelier" "" refl, refl)

admin_valid : valid (ladder_of guard) "admin" ≡ true
unfolding valid contains ladder_of default_ladder
admin_valid = refl

admin_below : at_least (ladder_of guard) "admin" "owner" ≡ false
unfolding at_least index ladder_of default_ladder
admin_below = refl

bob_admin : require guard "bob" "atelier" "admin" ≡ ok (space_scope "bob" "atelier" "admin")
unfolding require resolve valid contains ladder_of default_ladder membership at_least index
bob_admin = refl

at_least_linear_run : at_least default_ladder "owner" "member" ≡ true
unfolding at_least index default_ladder
at_least_linear_run = (at_least_linear default_ladder "owner" "admin" "member").1 refl refl

top-at_least_run :
    at_least (new_ladder ("a" ∷ "b" ∷ "a" ∷ [])) (top (new_ladder ("a" ∷ "b" ∷ "a" ∷ []))) "a"
    ≡ true
unfolding valid new_ladder contains
top-at_least_run = top-at_least ("a" ∷ "b" ∷ "a" ∷ []) "a" refl

at_least-new_ladder_run :
    at_least (new_ladder ("a" ∷ "" ∷ "b" ∷ "a" ∷ [])) "b" "a"
    ≡ above (index ("a" ∷ "" ∷ "b" ∷ "a" ∷ []) "b") (index ("a" ∷ "" ∷ "b" ∷ "a" ∷ []) "a")
at_least-new_ladder_run =
    at_least-new_ladder ("a" ∷ "" ∷ "b" ∷ "a" ∷ []) "b" "a" (text_ne "b" "" refl)
      (text_ne "a" "" refl)

valid-new_ladder_example :
    valid (new_ladder ("a" ∷ "" ∷ [])) no_role
    ≡ (not (no_role == no_role) && contains ("a" ∷ "" ∷ []) no_role)
valid-new_ladder_example = valid-new_ladder ("a" ∷ "" ∷ []) no_role

require_iff_run :
    (require guard "bob" "atelier" "admin" ≡ ok (space_scope "bob" "atelier" "admin")) ↔ (
      IsMember guard "bob" "atelier" "admin"
      × (at_least (ladder_of guard) "admin" "admin" ≡ true)
      × (space_scope "bob" "atelier" "admin" ≡ space_scope "bob" "atelier" "admin"))
require_iff_run = require_iff guard "bob" "atelier" "admin" (space_scope "bob" "atelier" "admin")

require_mono_run : require guard "bob" "atelier" "member" ≡ ok (space_scope "bob" "atelier" "admin")
unfolding at_least index ladder_of default_ladder
require_mono_run =
    require_mono guard "bob" "atelier" "admin" "member" (space_scope "bob" "atelier" "admin")
      bob_admin refl

require_outcome_run : require guard "bob" "atelier" "owner" ≡ (
    if not (valid (ladder_of guard) "owner")
    then err unknown_role
    else if not (valid (ladder_of guard) "admin")
    then err unknown_role
    else if at_least (ladder_of guard) "admin" "owner"
    then ok (space_scope "bob" "atelier" "admin")
    else err forbidden)
require_outcome_run = require_outcome guard "bob" "atelier" "owner" "admin" bob-IsMember

require_outsider_run : require guard "ada" "labo" "admin" ≡ err not_member
unfolding membership
require_outsider_run =
    require_outsider guard "ada" "labo" "admin" admin_valid (inr (inr (inl refl)))

assignable_over_iff_run :
    (assignable_over guard (space_scope "bob" "atelier" "admin") "owner" "member" ≡ true) ↔ (
      (true ≡ true)
      × (atelier ≢ "")
      × (at_least (ladder_of guard) "admin" "owner" ≡ true)
      × (at_least (ladder_of guard) "admin" "member" ≡ true))
assignable_over_iff_run =
    assignable_over_iff guard (space_scope "bob" "atelier" "admin") "owner" "member"

resolve_iff_example : (resolve guard "bob" "atelier" ≡ ok (space_scope "bob" "atelier" "admin")) ↔ (
    IsMember guard "bob" "atelier" "admin"
    × (valid (ladder_of guard) "admin" ≡ true)
    × (space_scope "bob" "atelier" "admin" ≡ space_scope "bob" "atelier" "admin"))
resolve_iff_example =
    resolve_iff guard "bob" "atelier" (space_scope "bob" "atelier" "admin")
      (text_ne "atelier" "" refl)

membership-seed_run :
    IsKeyed (seed table (row_of "atelier" "bob" "owner")).members
    × (membership (seed table (row_of "atelier" "bob" "owner")) "atelier" "bob"
        ≡ ok (row_of "atelier" "bob" "owner"))
membership-seed_run =
    membership-seed table (row_of "atelier" "bob" "owner") "atelier" "bob" crew-IsKeyed

spaces-resolve_example :
    Memᴰ
      (row_of "labo" "bob" "member")
      (row_of "atelier" "bob" "admin" ∷ row_of "labo" "bob" "member" ∷ [])
    ↔ ((row_of "labo" "bob" "member").user_id ≡ "bob")
      × ((row_of "labo" "bob" "member").space_id ≢ "")
      × (resolve guard "bob" "labo" ≡ ok (space_scope "bob" "labo" "member"))
unfolding spaces memberships valid contains ladder_of default_ladder
spaces-resolve_example =
    spaces-resolve zero_ladder table "bob"
      (row_of "atelier" "bob" "admin" ∷ row_of "labo" "bob" "member" ∷ [])
      (row_of "labo" "bob" "member") crew-IsKeyed refl

can_leave_outcome_example : can_leave guard "bob" "atelier" ≡ ok tt
unfolding top default_ladder ladder_of
can_leave_outcome_example =
    can_leave_outcome zero_ladder table "bob" "atelier" "admin" crew-IsKeyed bob-IsMember
      admin_valid

-- The only owner is refused.
sole_owner_refused : can_leave guard "ada" "atelier" ≡ err sole_owner
unfolding can_leave resolve membership count_role top default_ladder ladder_of valid contains
sole_owner_refused = refl

-- Bob, an admin, makes an invented member of the labo's; nobody in the atelier gets above owner.
promoted : Screens zero_ladder "labo" table (seed table (row_of "labo" "bob" "member"))
unfolding resolve membership valid contains ladder_of default_ladder assignable_over at_least index
promoted = next here (
    change "bob" "bob" (space_scope "bob" "labo" "member") (row_of "labo" "bob" "member") "member"
      (text_ne "labo" "" refl) refl refl refl)

find_row_cases :
    (user : String) (row : Membership)
    → find_row "labo" user crew ≡ ok row
    → row ≡ row_of "labo" "bob" "member"
unfolding find_row
find_row_cases user row h = ground arith

Screens-IsCapped_example :
    IsCapped zero_ladder "labo" "member" (seed table (row_of "labo" "bob" "member"))
unfolding membership at_least index ladder_of default_ladder
Screens-IsCapped_example =
    Screens-IsCapped zero_ladder "labo" "member" promoted
      λ user row found v. rw (find_row_cases user row found)
