-- ===== src/Spaces/Memory.antt =====
-- spaces/spacestest/memory.go, the reference store: the rows in the order of their first seeding.
pub mod Rows
pub mod Listing
use porte.Base.{
  ℕ, zero, suc, ◌+◌, ◌-◌, ◌≤◌, ◌<◌, String, List, [], ◌∷◌, ◌++◌, Bool, true, false, not, ◌&&◌, ◌||◌,
  Option, none, some, ◌≡◌, ◌≢◌, refl, sym, ap, ◌∙◌, subst, ◌↔◌, ◌⊎◌, inl, inr, Memᴰ, string_eq,
  nat_eq, ◌==◌, beq_iff, beq_refl, ltb, leb, if◌then◌else◌, Bool-cases, Option-cases, length, All,
  keep, tally, map, arith, tests,
}
use porte.Spaces.Model.{Role, Membership, not_member, Result, ok, err, Store}

pub record Memory : Type 0 where
  pub members : List Membership

abbrev pub new_memory : Memory
new_memory = record { members = [] }

abbrev pub has_key : String → String → Membership → Bool
has_key space user row = row.space_id == space && row.user_id == user

-- The loop of Seed: the row with the same ids is replaced, or the new one goes to the end.
unfoldable pub seed_rows : Membership → List Membership → List Membership
seed_rows member [] = member ∷ []
seed_rows member (row ∷ rows) =
    if has_key member.space_id member.user_id row
    then member ∷ rows
    else row ∷ seed_rows member rows

unfoldable pub seed : Memory → Membership → Memory
unfolding seed_rows
seed m member = record { members = seed_rows member m.members }

-- The loop of Membership.
unfoldable pub find_row : String → String → List Membership → Result Membership
find_row space user [] = err not_member
find_row space user (row ∷ rows) =
    if has_key space user row then ok row else find_row space user rows

unfoldable pub membership : Memory → String → String → Result Membership
unfolding find_row
membership m space user = find_row space user m.members

unfoldable pub memberships : Memory → String → Result (List Membership)
memberships m user = ok (keep (λ row. row.user_id == user) m.members)

unfoldable pub count_role : Memory → String → Role → Result ℕ
count_role m space role = ok (tally (λ row. row.space_id == space && row.role == role) m.members)

abbrev pub as_store : Memory → Store
as_store m = record {
  membership = membership m;
  memberships = memberships m;
  count_role = count_role m;
}
