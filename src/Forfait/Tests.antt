-- ===== src/Forfait/Tests.antt =====
-- Runs of the entitlement store at concrete inputs.
use Prim.Native.Char.{code}
use porte.Base.{text_ne, subst, ◌≢◌, Option, Bool, zero, suc, ap, true, ltb, leb, ◌&&◌}
use porte.Base.{
  ℕ, String, [], ◌∷◌, false, none, some, ◌≡◌, refl, ◌↔◌, ◌⊎◌, string_eq, nat_eq, ◌==◌,
  if◌then◌else◌, arith,
}
use porte.Base.Assoc.{lookup, insert}
use porte.Base.Int.{ℤ, pos, negsuc, ◌≤ℤ◌, pos_part, neg_part, half_range}
use porte.Base.Strings.{split_at}
use porte.Forfait.Store.{
  key_matches, Kind, Feature, Scope, Snapshot, Store, Libraries, unlimited, decode, index,
  index_scopes, new_store, reset, resolve, ceiling, allowed, check, apply, accepts,
  starts_as_integer,
}
use porte.Forfait.Persist.{Exported, Documents, export, import}
use porte.Forfait.Restoring.{IsFaithful, IsReadBack, import-export}
use porte.Forfait.Checking.{check_exact, applies, applies_newest}

abbrev lib : Libraries
lib = record {
  trim_space = λ s. s;
  unmarshal = λ s. if s == "5" then some (pos 5) else if s == "-1" then some (negsuc 0) else none;
}

abbrev mailboxes : Feature
mailboxes = record { key = "courrier.mailboxes"; kind = Kind.limit; fallback = "5" }

abbrev boot : Store
boot = record {
  features = ("courrier.mailboxes", mailboxes) ∷ [];
  defaults = ("courrier.mailboxes", record { enabled = false; limit = pos 5 }) ∷ [];
  version = pos 0;
  revision = pos 0;
  spaces = [];
  people = [];
}

boot_new : new_store lib (mailboxes ∷ mailboxes ∷ []) ≡ boot
unfolding new_store decode lookup insert key_matches split_at
boot_new = refl

abbrev snapshot : ℕ → String → Snapshot
snapshot revision raw = record {
  version = pos 1;
  revision = pos revision;
  spaces = ("atelier", ("courrier.mailboxes", raw) ∷ []) ∷ [];
  people = [];
}

abbrev atelier : Scope
atelier = record { space_id = "atelier"; subject = "" }

abbrev synced : Store
synced = record boot {
  spaces = ("atelier", ("courrier.mailboxes", record { enabled = false; limit = pos 5 }) ∷ []) ∷ [];
  version = pos 1;
  revision = pos 2;
}

-- Before a snapshot everything is allowed, afterwards the plan is.
fails_open : ceiling boot atelier "courrier.mailboxes" ≡ unlimited
unfolding ceiling resolve lookup
fails_open = refl

five : ceiling synced atelier "courrier.mailboxes" ≡ pos 5
unfolding ceiling resolve lookup
five = refl

after_reset : ceiling (reset synced) atelier "courrier.mailboxes" ≡ unlimited
unfolding ceiling reset resolve lookup
after_reset = refl

abbrev one : ℕ
one = 1

check_exact_example : (check synced atelier "courrier.mailboxes" (pos 4) (pos 1) ≡ allowed) ↔ (
    (one ≡ 0)
    ⊎ (ceiling synced atelier "courrier.mailboxes" ≡ unlimited)
    ⊎ (pos 5 ≤ℤ ceiling synced atelier "courrier.mailboxes"))
unfolding ceiling resolve lookup
check_exact_example =
    check_exact synced atelier "courrier.mailboxes" 4 1 (omega arith) (omega arith)
      (omega arith, omega arith) (omega arith)

applies_newest_run :
    applies lib boot (snapshot 1 "-1" ∷ snapshot 2 "5" ∷ snapshot 1 "-1" ∷ []) ≡ synced
unfolding index_scopes index decode lookup insert
applies_newest_run =
    applies_newest lib boot (snapshot 2 "5") (snapshot 1 "-1" ∷ []) (snapshot 1 "-1" ∷ []) refl refl
      (refl, tt) (refl, tt)

-- Integers in unary, for numbers of a 64-bit range.
ones : ℕ → String
ones zero = ""
ones (suc n) = String.◌∷◌ "1" (ones n)

count : String → ℕ
count String.[] = 0
count (String.◌∷◌ c s) = suc (count s)

count-ones : (n : ℕ) → count (ones n) ≡ n
unfolding count ones
count-ones zero = refl
count-ones (suc n) = ap suc (count-ones n)

format_unary : ℤ → String
format_unary (pos n) = String.◌∷◌ "0" (ones n)
format_unary (negsuc n) = String.◌∷◌ "-" (ones n)

parse_unary : String → ℤ
parse_unary String.[] = pos 0
parse_unary (String.◌∷◌ c s) = if code c == b'-' then negsuc (count s) else pos (count s)

in_range : ℤ → Bool
in_range n = ltb (pos_part n) half_range && leb (neg_part n) half_range

abbrev unary : Libraries
unary = record {
  trim_space = λ s. s;
  unmarshal = λ s. if in_range (parse_unary s) then some (parse_unary s) else none;
}

abbrev saved : Exported
saved = record {
  document_version = pos 1;
  snapshot_version = pos 1;
  entitlements_revision = pos 2;
  spaces = ("atelier", ("courrier.mailboxes", "0111") ∷ []) ∷ [];
  people = [];
}

-- One document.
abbrev documents : Documents
documents = record {
  encode_document = λ d. some "{}";
  decode_document = λ b. some (saved, true);
  format_int = format_unary;
}

parse_unary-format_unary : (n : ℤ) → parse_unary (format_unary n) ≡ n
unfolding parse_unary format_unary
parse_unary-format_unary (pos n) = ap pos (count-ones n)
parse_unary-format_unary (negsuc n) = ap negsuc (count-ones n)

starts-format_unary : (n : ℤ) → starts_as_integer (format_unary n) ≡ true
unfolding format_unary
starts-format_unary (pos n) = refl
starts-format_unary (negsuc n) = refl

unary-IsFaithful : IsFaithful unary documents
unfolding in_range
unary-IsFaithful = record {
  trims = λ n. refl;
  trims_bool = (refl, refl);
  starts = starts-format_unary;
  reads = λ n range. ground (arith, parse_unary-format_unary n);
  in_range = λ raw n e. ground arith;
}

or_blank : Option String → String
or_blank none = ""
or_blank (some s) = s

saved-IsReadBack : IsReadBack unary documents saved
unfolding or_blank
saved-IsReadBack b e = (refl, subst (λ s. s ≢ "") (ap or_blank e) (text_ne "{}" "" refl))

import-export_example :
    import unary documents boot "{}" ≡ (apply unary boot (snapshot 2 "0111"), none)
unfolding apply accepts index_scopes insert index decode lookup in_range parse_unary count
    format_unary ones export
import-export_example =
    import-export unary documents unary-IsFaithful boot (snapshot 2 "0111") "{}" refl refl refl
      saved-IsReadBack refl refl
