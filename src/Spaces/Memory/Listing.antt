-- ===== src/Spaces/Memory/Listing.antt =====
-- The list for a space switcher, Guard.Spaces, over the reference store.
use porte.Base.{
  String, List, Bool, true, not, ◌&&◌, ◌≡◌, ◌≢◌, ap, ◌∙◌, ◌↔◌, Memᴰ, string_eq, nat_eq, ◌==◌,
  beq_iff, keep, arith,
}
use porte.Base.{keep-Memᴰ, Memᴰ-keep}
use porte.Spaces.Model.{Membership, ok}
use porte.Spaces.Ladder.{Ladder, valid}
use porte.Spaces.Guard.{Guard, ladder_of, resolve, spaces, space_scope}
use porte.Spaces.Guard.Access.{IsMember-resolve, resolve_iff}
use porte.Spaces.Memory.{Memory, as_store, find_row, membership, memberships}
use porte.Spaces.Memory.Rows.{IsKeyed, find_row-Memᴰ, Memᴰ-find_row}

-- A guard over the rows of `m`.
abbrev pub guard_over : Ladder → Memory → Guard
guard_over l m = record { store = as_store m; ladder = l }

abbrev listed : Ladder → Memory → String → Membership → Bool
listed l m user row =
    row.user_id == user && (not (row.space_id == "") && valid (ladder_of (guard_over l m)) row.role)

spaces-eq-keep :
    (l : Ladder) (m : Memory) (user : String) (rows : List Membership)
    → spaces (guard_over l m) user ≡ ok rows
    → (user ≢ "") × (rows ≡ keep (listed l m user) (keep (λ row. row.user_id == user) m.members))
unfolding spaces memberships
spaces-eq-keep l m user rows h = (ground (arith, beq_iff user ""), ground arith)

listed-resolve :
    (l : Ladder) (m : Memory) (user : String) (row : Membership)
    → IsKeyed m.members
    → user ≢ ""
    → Memᴰ row m.members
    → listed l m user row ≡ true
    → (row.user_id ≡ user)
      × (row.space_id ≢ "")
      × (resolve (guard_over l m) user row.space_id ≡ ok (space_scope user row.space_id row.role))
unfolding membership
listed-resolve l m user row k hu mem t =
    let eu : row.user_id ≡ user = (beq_iff row.user_id user).0 (ground arith) in
    let es : row.space_id ≢ "" = ground (arith, beq_iff row.space_id "") in
    let found : find_row row.space_id user m.members ≡ ok row =
      rw (← eu) (Memᴰ-find_row m.members row k mem) in
    (
      eu,
      es,
      IsMember-resolve (guard_over l m) user row.space_id row.role
          (hu, es, found ∙ ap ok (ground arith)) (ground arith),
    )

resolve-listed :
    (l : Ladder) (m : Memory) (user : String) (row : Membership)
    → row.user_id ≡ user
    → row.space_id ≢ ""
    → resolve (guard_over l m) user row.space_id ≡ ok (space_scope user row.space_id row.role)
    → Memᴰ row m.members × (listed l m user row ≡ true)
unfolding membership
resolve-listed l m user row eu es e =
    let ((hu, hs, found), v, _) =
      (resolve_iff (guard_over l m) user row.space_id (space_scope user row.space_id row.role) es).0
        e in
    (
      find_row-Memᴰ row.space_id user m.members row (found ∙ ap ok (ground arith)),
      ground (arith, beq_iff row.user_id user, beq_iff row.space_id ""),
    )

-- The switcher shows exactly what Resolve lets the user into: over a store with one row for a pair
-- of ids, a row stands in the list exactly when it is the user's, it names a space, and Resolve
-- answers that space with the role of the row.
pub spaces-resolve :
    (l : Ladder) (m : Memory) (user : String) (rows : List Membership) (row : Membership)
    → IsKeyed m.members
    → spaces (guard_over l m) user ≡ ok rows
    → Memᴰ row rows ↔ (
        (row.user_id ≡ user)
        × (row.space_id ≢ "")
        × (resolve (guard_over l m) user row.space_id
            ≡ ok (space_scope user row.space_id row.role)))
spaces-resolve l m user rows row k h =
    let mine : Membership → Bool = λ r. r.user_id == user in
    let (hu, e) = spaces-eq-keep l m user rows h in
    (
      λ mem.
          let (inner, t) = keep-Memᴰ (listed l m user) (keep mine m.members) (rw e at mem) in
          listed-resolve l m user row k hu (keep-Memᴰ mine m.members inner).0 t,
      λ (eu, es, r).
          let (mem, t) = resolve-listed l m user row eu es r in
          rw e (
            Memᴰ-keep (listed l m user) (keep mine m.members)
              (Memᴰ-keep mine m.members mem ((beq_iff row.user_id user).1 eu)) t),
    )
