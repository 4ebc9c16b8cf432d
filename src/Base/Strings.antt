-- ===== src/Base/Strings.antt =====
-- The functions of Go's `strings` package that the program's text handling rests on, whose Unicode
-- tables are not modelled: a parameter of what uses them. Split is read as it is documented.
use Prim.Native.Nat.{ℕ}
use Prim.Native.Char.{code}
use Prim.Native.String.{String}
use mathlib.Core.List.{List, [], ◌∷◌}
use porte.Base.Tests.{if◌then◌else◌}
use porte.Base.Text.{◌==◌, nat_eq}
use mathlib.Core.Bool.{Bool}
use mathlib.Core.Option.{Option, none, some}
use mathlib.Core.Path.{◌≡◌, refl}
use native.Mathlib.Omega.{arith}

pub record GoStrings : Type 0 where
  pub to_lower : String → String
  pub trim_space : String → String
  pub append : String → String → String
  pub equal_fold : String → String → Bool

-- strings.Split at one character.
unfoldable pub split_at : ℕ → String → String × List String
split_at c String.[] = (String.[], [])
split_at c (String.◌∷◌ x s) =
    let (part, parts) = split_at c s in
    if code x == c then (String.[], part ∷ parts) else (String.◌∷◌ x part, parts)

-- Go's `+` on strings.
unfoldable pub append : String → String → String
append String.[] t = t
append (String.◌∷◌ x s) t = String.◌∷◌ x (append s t)

-- strings.CutPrefix, which is HasPrefix with TrimPrefix: what follows the prefix, none where the text
-- does not start with it.
unfoldable pub cut_prefix : String → String → Option String
cut_prefix String.[] s = some s
cut_prefix (String.◌∷◌ c p) String.[] = none
cut_prefix (String.◌∷◌ c p) (String.◌∷◌ x s) =
    let rest = cut_prefix p s in if code c == code x then rest else none

pub cut_prefix-append : (p s : String) → cut_prefix p (append p s) ≡ some s
unfolding cut_prefix append
cut_prefix-append String.[] s = refl
cut_prefix-append (String.◌∷◌ c p) s = ground (arith, cut_prefix-append p s)
