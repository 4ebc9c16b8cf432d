-- ===== src/Forfait/Store.antt =====
-- forfait/store.go, decode.go and recovery.go. A call of the Store is one function of its state, as
-- the lock makes it. JSON integers are a parameter, and the warnings are left out.
use porte.Base.{
  ℕ, String, List, [], ◌∷◌, Bool, true, false, not, ◌&&◌, ◌||◌, Option, none, some, string_eq,
  nat_eq, ◌==◌, ltb, leb, if◌then◌else◌, length,
}
use Prim.Native.Char.{code}
use porte.Base.Strings.{split_at}
use porte.Base.Assoc.{lookup, insert}
use porte.Base.Int.{ℤ, pos, negsuc, ◌-ℤ◌, leb_ℤ, ltb_ℤ, beq_ℤ, wrap64}

pub data Kind : Type 0 where
  bool limit : Kind

pub record Feature : Type 0 where
  pub key : String
  pub kind : Kind
  pub fallback : String

pub record Scope : Type 0 where
  pub space_id : String
  pub subject : String

-- One resolved entitlement.
pub record Value : Type 0 where
  pub enabled : Bool
  pub limit : ℤ

abbrev pub zero_value : Value
zero_value = record { enabled = false; limit = pos 0 }

abbrev pub unlimited : ℤ
unlimited = negsuc 0

-- What the package takes from Go's libraries: bytes.TrimSpace and json.Unmarshal into an int64.
pub record Libraries : Type 0 where
  pub trim_space : String → String
  pub unmarshal : String → Option ℤ

abbrev pub Entitlements : Type 0
Entitlements = List (String × String)

abbrev pub Values : Type 0
Values = List (String × Value)

-- The part of directory.Snapshot that the store reads.
pub record Snapshot : Type 0 where
  pub version : ℤ
  pub revision : ℤ
  pub spaces : List (String × Entitlements)
  pub people : List (String × Entitlements)

pub record Store : Type 0 where
  pub features : List (String × Feature)
  pub defaults : Values
  pub version : ℤ
  pub revision : ℤ
  pub spaces : List (String × Values)
  pub people : List (String × Values)

abbrev pub starts_as_integer : String → Bool
starts_as_integer String.[] = false
starts_as_integer (String.◌∷◌ c s) = code c == b'-' || (leb b'0' (code c) && leb (code c) b'9')

abbrev is_key_char : ℕ → Bool
is_key_char c = leb b'a' c && leb c b'z' || (leb b'0' c && leb c b'9' || c == b'_')

abbrev all_key_chars : String → Bool
all_key_chars String.[] = true
all_key_chars (String.◌∷◌ c s) = is_key_char (code c) && all_key_chars s

abbrev key_parts : String → List String → Bool
key_parts a (b ∷ []) = not (a == "") && (all_key_chars a && (not (b == "") && all_key_chars b))
key_parts a _ = false

-- The pattern ^[a-z0-9_]+\.[a-z0-9_]+$: two words of its class around the only dot.
unfoldable pub key_matches : String → Bool
unfolding split_at
key_matches key = let (part, parts) = split_at b'.' key in key_parts part parts

abbrev pub same_kind : Kind → Kind → Bool
same_kind bool bool = true
same_kind limit limit = true
same_kind _ _ = false

unfoldable pub accepts : Store → ℤ → ℤ → Bool
accepts s version revision =
    if leb_ℤ revision (pos 0) || ltb_ℤ revision s.revision
    then false
    else if ltb_ℤ s.revision revision
    then true
    else beq_ℤ version (pos 0) || leb_ℤ s.version version

module _ (lib : Libraries) where
  unfoldable pub decode : Kind → String → Option Value
  decode bool raw =
      let trimmed = lib.trim_space raw in
      if trimmed == "true" || trimmed == "false"
      then some (record { enabled = trimmed == "true"; limit = pos 0 })
      else none
  decode limit raw =
      if starts_as_integer (lib.trim_space raw)
      then elim (lib.unmarshal (lib.trim_space raw)) [
        | none ↦ none
        | some n ↦ if ltb_ℤ n unlimited then none else some (record { enabled = false; limit = n })
      ]
      else none

  abbrev pub index_each : List (String × Feature) → Entitlements → Values
  index_each features [] = []
  index_each features ((key, raw) ∷ rest) =
      let resolved = index_each features rest in
      elim (lookup features key) [
        | none ↦ resolved
        | some feature ↦ elim (decode feature.kind raw) [
          | none ↦ resolved
          | some v ↦ (key, v) ∷ resolved
        ]
      ]

  -- Entitlements have distinct keys, as the map of a JSON object has.
  unfoldable pub index : List (String × Feature) → Entitlements → Values
  index features entitlements =
      if ltb 200 (length entitlements) then [] else index_each features entitlements

  abbrev pub declare : Store → List Feature → Store
  declare s [] = s
  declare s (f ∷ rest) = elim (lookup s.features f.key) [
    | some seen ↦ declare s rest
    | none ↦
        if not (key_matches f.key)
        then declare s rest
        else declare
            (record s {
              features = insert s.features f.key f;
              defaults =
                  insert s.defaults f.key
                    (elim (decode f.kind f.fallback) [ none ↦ zero_value | some v ↦ v ]);
            })
            rest
  ]

  unfoldable pub new_store : List Feature → Store
  new_store features =
      declare
        (record {
          features = [];
          defaults = [];
          version = pos 0;
          revision = pos 0;
          spaces = [];
          people = [];
        })
        features

  -- The scopes with an id, each value filtered; a later one of the same id wins.
  unfoldable pub index_scopes :
      List (String × Feature)
      → List (String × Entitlements)
      → List (String × Values)
      → List (String × Values)
  unfolding index
  index_scopes features [] resolved = resolved
  index_scopes features ((id, entitlements) ∷ rest) resolved =
      index_scopes features rest
        (if id == "" then resolved else insert resolved id (index features entitlements))

  unfoldable pub apply : Store → Snapshot → Store
  unfolding accepts
  apply s snap =
      if accepts s snap.version snap.revision
      then record s {
        spaces = index_scopes s.features snap.spaces [];
        people = index_scopes s.features snap.people [];
        version = snap.version;
        revision = snap.revision;
      }
      else s

unfoldable pub reset : Store → Store
reset s = record s { spaces = []; people = []; version = pos 0; revision = pos 0 }

abbrev held : List (String × Values) → String → Values
held scopes id = elim (lookup scopes id) [ none ↦ [] | some values ↦ values ]

abbrev or_zero : Option Value → Value
or_zero none = zero_value
or_zero (some v) = v

unfoldable pub resolve : Store → Scope → String → Kind → Value
resolve s sc key kind = elim (lookup s.features key) [
  | none ↦ zero_value
  | some feature ↦
      if not (same_kind feature.kind kind)
      then zero_value
      else if beq_ℤ s.revision (pos 0)
      then record { enabled = true; limit = unlimited }
      else elim (lookup
          (if sc.space_id == "" then held s.people sc.subject else held s.spaces sc.space_id) key) [
            | some v ↦ v
            | none ↦ or_zero (lookup s.defaults key)
          ]
]

unfoldable pub enabled : Store → Scope → String → Bool
unfolding resolve
enabled s sc key = (resolve s sc key bool).enabled

unfoldable pub ceiling : Store → Scope → String → ℤ
unfolding resolve
ceiling s sc key = (resolve s sc key limit).limit

-- ErrInvalidUsage, or the LimitError with its ceiling; its page is for display.
pub data Verdict : Type 0 where
  allowed invalid_usage : Verdict
  over : String → ℤ → Verdict

-- The subtraction is Go's, on 64 bits.
unfoldable pub check : Store → Scope → String → ℤ → ℤ → Verdict
check s sc key used adding =
    if ltb_ℤ used (pos 0) || ltb_ℤ adding (pos 0)
    then invalid_usage
    else let top = ceiling s sc key in
      if beq_ℤ adding (pos 0) || (beq_ℤ top unlimited || leb_ℤ used (wrap64 (top -ℤ adding)))
      then allowed
      else over key top
