-- ===== src/Spaces/Model.antt =====
-- spaces/spaces.go, spaces/errors.go and spaces/store.go: roles, rows, scopes, refusals and the
-- store that an app implements. A Go pair (value, error) is a `Result`; a store's own errors,
-- which the package passes on, are `Refusal.failed`.
use porte.Base.{string_eq, String, ℕ, List, Bool, true, false, ◌&&◌, ◌==◌}

abbrev pub Role : Type 0
Role = String

abbrev pub role_owner : Role
role_owner = "owner"

abbrev pub role_admin : Role
role_admin = "admin"

abbrev pub role_member : Role
role_member = "member"

pub record Membership : Type 0 where
  pub space_id : String
  pub user_id : String
  pub role : Role

pub record Scope : Type 0 where
  pub user_id : String
  pub space_id : String
  pub role : Role
  pub is_resolved : Bool

abbrev pub resolved : Scope → Bool
resolved s = s.is_resolved

abbrev pub personal : Scope → Bool
personal s = s.is_resolved && s.space_id == ""

pub data Refusal : Type 0 where
  not_member forbidden sole_owner unknown_role : Refusal
  failed : String → Refusal

pub data Result {ℓ} (A : Type ℓ) : Type ℓ where
  ok : A → Result A
  err : Refusal → Result A

-- `if err != nil { return err }` between two steps.
infixl 5 ◌>>=◌
abbrev pub ◌>>=◌ {ℓ κ} : {A : Type ℓ} {B : Type κ} → Result A → (A → Result B) → Result B
err refusal >>= next = err refusal
ok value >>= next = next value

infixl 5 ◌>>◌
abbrev pub ◌>>◌ {ℓ} : {B : Type ℓ} → Result (Unit {0}) → Result B → Result B
err refusal >> next = err refusal
ok done >> next = next

-- An early return: `e` unless the test holds.
abbrev pub unless : Bool → Refusal → Result (Unit {0})
unless true e = ok tt
unless false e = err e

-- The app's membership table, as one request reads it.
pub record Store : Type 0 where
  pub membership : String → String → Result Membership
  pub memberships : String → Result (List Membership)
  pub count_role : String → Role → Result ℕ
