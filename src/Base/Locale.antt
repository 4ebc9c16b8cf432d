-- ===== src/Base/Locale.antt =====
-- locale.go: the language of a BCP 47 tag.
use Prim.Native.Nat.{ℕ}
use Prim.Native.Char.{code}
use Prim.Native.String.{String}
use mathlib.Core.Bool.{◌||◌}
use porte.Base.Tests.{if◌then◌else◌}
use porte.Base.Text.{◌==◌, string_eq, nat_eq}
use porte.Base.Strings.{GoStrings}

-- strings.Cut at one character, the part before it.
unfoldable pub cut_before : ℕ → String → String
cut_before c String.[] = String.[]
cut_before c (String.◌∷◌ x s) = if code x == c then String.[] else String.◌∷◌ x (cut_before c s)

abbrev pub default_locale : String
default_locale = "en"

module _ (go : GoStrings) where
  unfoldable pub normalize_locale : String → String
  unfolding cut_before
  normalize_locale tag =
      let primary = cut_before b'_' (cut_before b'-' (go.to_lower (go.trim_space tag))) in
      if primary == "fr" || primary == "en" || primary == "es" || primary == "de"
      then primary
      else default_locale
