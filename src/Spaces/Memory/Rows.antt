-- ===== src/Spaces/Memory/Rows.antt =====
-- The rows of the reference store: one for a pair of ids, and what a lookup finds after a seed.
use porte.Base.{
  String, List, [], ◌∷◌, ◌≡◌, refl, ◌⊎◌, inl, inr, Memᴰ, string_eq, nat_eq, beq_iff, beq_refl,
  if◌then◌else◌, Bool-cases, arith,
}
use porte.Spaces.Model.{Membership, not_member, ok, err}
use porte.Spaces.Memory.{Memory, has_key, seed_rows, seed, find_row, membership}

-- No two rows carry the same ids.
abbrev pub IsKeyed : List Membership → Type 0
IsKeyed [] = Unit
IsKeyed (row ∷ rows) = (find_row row.space_id row.user_id rows ≡ err not_member) × IsKeyed rows

pub find_row-seed_rows :
    (member : Membership) (space user : String) (rows : List Membership)
    → find_row space user (seed_rows member rows)
      ≡ (if has_key space user member then ok member else find_row space user rows)
unfolding find_row seed_rows
find_row-seed_rows member space user [] = ground arith
find_row-seed_rows member space user (row ∷ rows) = ground (
  arith,
  find_row-seed_rows member space user rows,
  beq_iff row.space_id space,
  beq_iff row.user_id user,
  beq_iff member.space_id space,
  beq_iff member.user_id user,
  beq_iff row.space_id member.space_id,
  beq_iff row.user_id member.user_id,
)

seed_rows-IsKeyed :
    (member : Membership) (rows : List Membership) → IsKeyed rows → IsKeyed (seed_rows member rows)
unfolding find_row seed_rows
seed_rows-IsKeyed member [] k = (refl, tt)
seed_rows-IsKeyed member (row ∷ rows) k =
    elim (Bool-cases (has_key member.space_id member.user_id row)) [
      | inl e ↦ rw e (
        ground (arith, beq_iff row.space_id member.space_id, beq_iff row.user_id member.user_id),
        k.1,
      )
      | inr e ↦ rw e (
        ground (
          arith,
          find_row-seed_rows member row.space_id row.user_id rows,
          beq_iff member.space_id row.space_id,
          beq_iff member.user_id row.user_id,
          beq_iff row.space_id member.space_id,
          beq_iff row.user_id member.user_id,
        ),
        seed_rows-IsKeyed member rows k.1,
      )
    ]

-- Seeding keeps one row for a pair of ids, and afterwards a lookup finds the seeded row at its ids
-- and what it found before at any others.
pub membership-seed :
    (m : Memory) (member : Membership) (space user : String)
    → IsKeyed m.members
    → IsKeyed (seed m member).members
      × (membership (seed m member) space user
          ≡ (if has_key space user member then ok member else membership m space user))
unfolding seed membership
membership-seed m member space user k =
    (seed_rows-IsKeyed member m.members k, find_row-seed_rows member space user m.members)

-- A lookup answers a row that is there and carries the ids that were asked for.
pub find_row-ids :
    (space user : String) (rows : List Membership) (row : Membership)
    → find_row space user rows ≡ ok row
    → (row.space_id ≡ space) × (row.user_id ≡ user)
unfolding find_row
find_row-ids space user [] row h = absurd (cc)
find_row-ids space user (r ∷ rows) row h =
    ground
      (arith, beq_iff r.space_id space, beq_iff r.user_id user, find_row-ids space user rows row)

pub find_row-Memᴰ :
    (space user : String) (rows : List Membership) (row : Membership)
    → find_row space user rows ≡ ok row
    → Memᴰ row rows
unfolding find_row
find_row-Memᴰ space user [] row h = absurd (cc)
find_row-Memᴰ space user (r ∷ rows) row h = elim (Bool-cases (has_key space user r)) [
  | inl e ↦ Memᴰ.head (ground arith)
  | inr e ↦ Memᴰ.tail (find_row-Memᴰ space user rows row (ground arith))
]

pub Memᴰ-find_row :
    (rows : List Membership) (row : Membership)
    → IsKeyed rows
    → Memᴰ row rows
    → find_row row.space_id row.user_id rows ≡ ok row
unfolding find_row
Memᴰ-find_row [] row k m = elim m [ ]
Memᴰ-find_row (r ∷ rows) row k (Memᴰ.head e) =
    ground (arith, beq_refl r.space_id, beq_refl r.user_id)
Memᴰ-find_row (r ∷ rows) row k (Memᴰ.tail m) = ground (
  arith,
  Memᴰ-find_row rows row k.1 m,
  beq_iff r.space_id row.space_id,
  beq_iff r.user_id row.user_id,
)

pub find_row-ok-or-err :
    (space user : String) (rows : List Membership)
    → (find_row space user rows ≡ err not_member)
      ⊎ ((row : Membership) × (find_row space user rows ≡ ok row))
unfolding find_row
find_row-ok-or-err space user [] = inl refl
find_row-ok-or-err space user (r ∷ rows) = elim (Bool-cases (has_key space user r)) [
  | inl e ↦ inr (r, rw e)
  | inr e ↦ rw e (find_row-ok-or-err space user rows)
]
