-- ===== src/Spaces/Ladder.antt =====
-- spaces/ladder.go. `slices.Index` answers an `Option` here, with `none` for its -1.
pub mod Order
pub mod Building
use porte.Base.{
  ℕ, zero, suc, String, List, [], ◌∷◌, ◌++◌, Bool, true, false, not, ◌&&◌, ◌||◌, Option, none, some,
  string_eq, ◌==◌, leb, if◌then◌else◌,
}
use porte.Spaces.Model.{Role, role_owner, role_admin, role_member}

pub record Ladder : Type 0 where
  pub ascending : List Role
  pub built : Bool

-- slices.Contains
unfoldable pub contains : List Role → Role → Bool
contains [] r = false
contains (x ∷ xs) r = x == r || contains xs r

-- slices.Index
unfoldable pub index : List Role → Role → Option ℕ
index [] r = none
index (x ∷ xs) r =
    if x == r then some 0 else elim (index xs r) [ none ↦ none | some n ↦ some (suc n) ]

-- The loop of NewLadder, over the roles still to come.
unfoldable pub collect : List Role → List Role → List Role
unfolding contains
collect order [] = order
collect order (r ∷ rs) =
    collect (if not (r == "") && not (contains order r) then order ++ r ∷ [] else order) rs

unfoldable pub new_ladder : List Role → Ladder
unfolding collect
new_ladder roles = record { ascending = collect [] roles; built = true }

abbrev pub zero_ladder : Ladder
zero_ladder = record { ascending = []; built = false }

unfoldable pub default_ladder : Ladder
unfolding new_ladder
default_ladder = new_ladder (role_member ∷ role_admin ∷ role_owner ∷ [])

abbrev pub configured : Ladder → Bool
configured l = l.built

unfoldable pub valid : Ladder → Role → Bool
valid l r = contains l.ascending r

-- Both indices are found, and the first is not below the second.
unfoldable pub above : Option ℕ → Option ℕ → Bool
above (some held) (some floor) = leb floor held
above (some held) none = false
above none _ = false

unfoldable pub at_least : Ladder → Role → Role → Bool
unfolding above
at_least l have min = above (index l.ascending have) (index l.ascending min)

unfoldable pub last_or_empty : List Role → Role
last_or_empty [] = ""
last_or_empty (x ∷ []) = x
last_or_empty (x ∷ y ∷ ys) = last_or_empty (y ∷ ys)

unfoldable pub top : Ladder → Role
unfolding last_or_empty
top l = last_or_empty l.ascending
