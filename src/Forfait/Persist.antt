-- ===== src/Forfait/Persist.antt =====
-- forfait/persist.go: the applied state as a document, and its way back. The JSON of a document, and
-- the decimal of an integer are parameters.
use porte.Base.{
  ℕ, String, List, [], ◌∷◌, Bool, true, false, not, ◌||◌, Option, none, some, ◌⊎◌, inl, inr,
  string_eq, nat_eq, ◌==◌, ltb, if◌then◌else◌,
}
use Prim.Native.String.{len}
use porte.Base.Assoc.{lookup}
use porte.Base.Int.{ℤ, pos, ltb_ℤ, beq_ℤ}
use porte.Forfait.Store.{Kind, Feature, Value, Libraries, Entitlements, Values, Store, index}

pub record Exported : Type 0 where
  pub document_version : ℤ
  pub snapshot_version : ℤ
  pub entitlements_revision : ℤ
  pub spaces : List (String × Entitlements)
  pub people : List (String × Entitlements)

-- `decode_document` refuses unknown fields, and says whether the document ends the input.
pub record Documents : Type 0 where
  pub encode_document : Exported → Option String
  pub decode_document : String → Option (Exported × Bool)
  pub format_int : ℤ → String

pub data ImportError : Type 0 where
  too_large undecodable trailing_data wrong_version negative_version already_applied : ImportError

-- Four times directory.MaxSnapshotBytes.
abbrev pub max_export : ℕ
max_export = 33554432

abbrev pub export_version : ℤ
export_version = pos 1

abbrev is_bool : Kind → Bool
is_bool Kind.bool = true
is_bool Kind.limit = false

module _ (io : Documents) where
  abbrev pub encode_value : Kind → Value → String
  encode_value kind v =
      if is_bool kind then if v.enabled then "true" else "false" else io.format_int v.limit

  -- The kind of a key that is not declared is Go's zero one.
  abbrev kind_of : Option Feature → Kind
  kind_of none = Kind.bool
  kind_of (some f) = f.kind

  abbrev pub encode_values : List (String × Feature) → Values → Entitlements
  encode_values features [] = []
  encode_values features ((key, v) ∷ values) =
      (key, encode_value (kind_of (lookup features key)) v) ∷ encode_values features values

  abbrev pub encode_scopes :
      List (String × Feature) → List (String × Values) → List (String × Entitlements)
  encode_scopes features [] = []
  encode_scopes features ((id, values) ∷ scopes) =
      (id, encode_values features values) ∷ encode_scopes features scopes

  abbrev pub document_of : Store → Exported
  document_of s =
      let synced = ltb_ℤ (pos 0) s.revision in
      record {
        document_version = export_version;
        snapshot_version = s.version;
        entitlements_revision = s.revision;
        spaces = if synced then encode_scopes s.features s.spaces else [];
        people = if synced then encode_scopes s.features s.people else [];
      }

  unfoldable pub export : Store → Option String
  export s = io.encode_document (document_of s)

  unfoldable pub decode_export : String → Exported ⊎ ImportError
  decode_export b = if ltb max_export (len b) then inr too_large else elim (io.decode_document b) [
    | none ↦ inr undecodable
    | some (document, at_end) ↦
        if not at_end
        then inr trailing_data
        else if not (beq_ℤ document.document_version export_version)
        then inr wrong_version
        else if ltb_ℤ document.snapshot_version (pos 0)
            || ltb_ℤ document.entitlements_revision (pos 0)
        then inr negative_version
        else inl document
  ]

module _ (lib : Libraries) where
  abbrev pub restore_scopes :
      List (String × Feature) → List (String × Entitlements) → List (String × Values)
  restore_scopes features [] = []
  restore_scopes features ((id, entitlements) ∷ scopes) =
      (id, index lib features entitlements) ∷ restore_scopes features scopes

module _ (lib : Libraries) (io : Documents) where
  -- The store, and the error.
  unfoldable pub import : Store → String → Store × Option ImportError
  unfolding decode_export
  import s b = if lib.trim_space b == "" then (s, none) else elim (decode_export io b) [
    | inr e ↦ (s, some e)
    | inl document ↦
        if ltb_ℤ (pos 0) s.revision
        then (s, some already_applied)
        else if beq_ℤ document.entitlements_revision (pos 0)
        then (s, none)
        else (
          record s {
            spaces = restore_scopes lib s.features document.spaces;
            people = restore_scopes lib s.features document.people;
            version = document.snapshot_version;
            revision = document.entitlements_revision;
          },
          none,
        )
  ]
