-- ===== src/Forfait/Restoring.antt =====
-- A saved document restores the store.
use porte.Base.{
  suc, ◌≤◌, String, List, [], ◌∷◌, Bool, true, false, none, some, ◌≡◌, ◌≢◌, refl, sym, ap, ◌∙◌,
  subst, inl, inr, string_eq, nat_eq, ◌==◌, beq_iff, ltb, if◌then◌else◌, Bool-cases, Option-cases,
  length, All, arith,
}
use Prim.Native.String.{len}
use porte.Base.Assoc.{lookup, insert}
use porte.Base.Int.{ℤ, pos, ltb_ℤ, beq_ℤ, IsInt64, ◌≤ℤ◌}
use porte.Forfait.Store.{
  Kind, Feature, Value, Libraries, Entitlements, Values, Store, Snapshot, unlimited, decode, index,
  index_each, index_scopes, apply, accepts, starts_as_integer,
}
use porte.Forfait.Persist.{
  Exported, Documents, export_version, max_export, encode_value, encode_values, encode_scopes,
  restore_scopes, document_of, export, decode_export, import,
}

-- What the package relies on: the decimal of an integer reads back, and what a number token decodes to
-- is an int64.
pub record IsFaithful (lib : Libraries) (io : Documents) : Type 0 where
  pub trims : (n : ℤ) → lib.trim_space (io.format_int n) ≡ io.format_int n
  pub trims_bool : (lib.trim_space "true" ≡ "true") × (lib.trim_space "false" ≡ "false")
  pub starts : (n : ℤ) → starts_as_integer (io.format_int n) ≡ true
  pub reads : (n : ℤ) → IsInt64 n → lib.unmarshal (io.format_int n) ≡ some n
  pub in_range : (raw : String) (n : ℤ) → lib.unmarshal raw ≡ some n → IsInt64 n

-- A document that encodes to a text is read whole from it.
abbrev pub IsReadBack : Libraries → Documents → Exported → Type 0
IsReadBack lib io d =
    (b : String)
    → io.encode_document d ≡ some b
    → (io.decode_document b ≡ some (d, true)) × (lib.trim_space b ≢ "")

-- A value that `decode` can give for the kind.
abbrev pub IsValue : Kind → Value → Type 0
IsValue Kind.bool v = v.limit ≡ pos 0
IsValue Kind.limit v = (v.enabled ≡ false) × IsInt64 v.limit × (unlimited ≤ℤ v.limit)

-- Every entry is of a declared feature and of its kind.
abbrev pub AreValues : List (String × Feature) → Values → Type 0
AreValues features = All (λ e. (f : Feature) × (lookup features e.0 ≡ some f) × IsValue f.kind e.1)

abbrev pub AreScopes : List (String × Feature) → List (String × Values) → Type 0
AreScopes features = All (λ e. AreValues features e.1 × (length e.1 ≤ 200))

bool_value :
    (v : Value) (on : Bool)
    → v.enabled ≡ on
    → v.limit ≡ pos 0
    → record { enabled = on; limit = pos 0 } ≡ v
bool_value v on e h =
    sym (ap (λ b. record v { enabled = b }) e ∙ ap (λ l. record { enabled = on; limit = l }) h)

limit_value : (v : Value) → v.enabled ≡ false → record { enabled = false; limit = v.limit } ≡ v
limit_value v e = sym (ap (λ b. record v { enabled = b }) e)

module _ (lib : Libraries) (io : Documents) (faith : IsFaithful lib io) where
  decode_bool :
      (raw : String) (on : Bool) (word : String)
      → lib.trim_space raw ≡ word
      → word ≡ (if on then "true" else "false")
      → decode lib Kind.bool raw ≡ some (record { enabled = on; limit = pos 0 })
  unfolding decode
  decode_bool raw true word h e = rw (h, e) refl
  decode_bool raw false word h e = rw (h, e) refl

  decode-encode_value :
      (kind : Kind) (v : Value) → IsValue kind v → decode lib kind (encode_value io kind v) ≡ some v
  unfolding decode
  decode-encode_value Kind.bool v h = elim (Bool-cases v.enabled) [
    | inl on ↦
        let text : encode_value io Kind.bool v ≡ "true" = rw on refl in
        ap (decode lib Kind.bool) text
        ∙ decode_bool "true" true "true" faith.trims_bool.0 refl
        ∙ ap some (bool_value v true on h)
    | inr off ↦
        let text : encode_value io Kind.bool v ≡ "false" = rw off refl in
        ap (decode lib Kind.bool) text
        ∙ decode_bool "false" false "false" faith.trims_bool.1 refl
        ∙ ap some (bool_value v false off h)
  ]
  decode-encode_value Kind.limit v (off, range, least) = ground (
    arith,
    faith.trims v.limit,
    faith.starts v.limit,
    faith.reads v.limit range,
    limit_value v off,
  )

  decode-IsValue :
      (kind : Kind) (raw : String) (v : Value) → decode lib kind raw ≡ some v → IsValue kind v
  unfolding decode
  decode-IsValue Kind.bool raw v e = ground arith
  decode-IsValue Kind.limit raw v e = elim (Option-cases (lib.unmarshal (lib.trim_space raw))) [
    | inl e' ↦ absurd (ground arith)
    | inr (n, e') ↦
        let range = faith.in_range (lib.trim_space raw) n e' in
        let least : ltb_ℤ n unlimited ≡ false = ground arith in
        let same : record { enabled = false; limit = n } ≡ v = ground arith in
        subst (IsValue Kind.limit) same (refl, range, ground arith)
  ]

  index_each-encode_values :
      (features : List (String × Feature)) (values : Values)
      → AreValues features values
      → index_each lib features (encode_values io features values) ≡ values
  index_each-encode_values features [] h = refl
  index_each-encode_values features ((key, v) ∷ values) ((f, declared, good), h) =
      ground (arith, decode-encode_value f.kind v good, index_each-encode_values features values h)

  length-encode_values :
      (features : List (String × Feature)) (values : Values)
      → length (encode_values io features values) ≡ length values
  length-encode_values features [] = refl
  length-encode_values features (e ∷ values) = ap suc (length-encode_values features values)

  restore_scopes-encode_scopes :
      (features : List (String × Feature)) (scopes : List (String × Values))
      → AreScopes features scopes
      → restore_scopes lib features (encode_scopes io features scopes) ≡ scopes
  unfolding index
  restore_scopes-encode_scopes features [] h = refl
  restore_scopes-encode_scopes features ((id, values) ∷ scopes) ((good, few), h) =
      let short : ltb 200 (length (encode_values io features values)) ≡ false =
        rw (length-encode_values features values) (ground arith) in
      let same : index lib features (encode_values io features values) ≡ values =
        rw short (index_each-encode_values features values good) in
      ap (λ w. (id, w) ∷ restore_scopes lib features (encode_scopes io features scopes)) same
      ∙ ap (◌∷◌ (id, values)) (restore_scopes-encode_scopes features scopes h)

  -- What the store keeps from snapshots.
  index_each-AreValues :
      (features : List (String × Feature)) (entitlements : Entitlements)
      → AreValues features (index_each lib features entitlements)
        × (length (index_each lib features entitlements) ≤ length entitlements)
  index_each-AreValues features [] = (tt, omega arith)
  index_each-AreValues features ((key, raw) ∷ rest) =
      let (good, few) = index_each-AreValues features rest in
      elim (Option-cases (lookup features key)) [
        | inl e ↦ rw (index_each, e) (good, omega arith)
        | inr (f, e) ↦ elim (Option-cases (decode lib f.kind raw)) [
          | inl d ↦ rw (index_each, e, d) (good, omega arith)
          | inr (v, d) ↦
              rw (index_each, e, d) (((f, e, decode-IsValue f.kind raw v d), good), omega arith)
        ]
      ]

  index-AreValues :
      (features : List (String × Feature)) (entitlements : Entitlements)
      → AreValues features (index lib features entitlements)
        × (length (index lib features entitlements) ≤ 200)
  unfolding index
  index-AreValues features entitlements = elim (Bool-cases (ltb 200 (length entitlements))) [
    | inl many ↦ rw many (tt, omega arith)
    | inr few ↦
        let (good, short) = index_each-AreValues features entitlements in
        let all : length entitlements ≤ 200 = ground arith in rw few (good, omega arith)
  ]

  insert-AreScopes :
      (features : List (String × Feature)) (scopes : List (String × Values)) (id : String)
      (values : Values)
      → AreScopes features scopes
      → AreValues features values × (length values ≤ 200)
      → AreScopes features (insert scopes id values)
  unfolding insert
  insert-AreScopes features [] id values h good = (good, tt)
  insert-AreScopes features ((at, old) ∷ scopes) id values (kept, h) good =
      elim (Bool-cases (at == id)) [
        | inl e ↦ rw e (good, h)
        | inr e ↦ rw e (kept, insert-AreScopes features scopes id values h good)
      ]

  index_scopes-AreScopes :
      (features : List (String × Feature)) (given : List (String × Entitlements))
      (resolved : List (String × Values))
      → AreScopes features resolved
      → AreScopes features (index_scopes lib features given resolved)
  unfolding index_scopes
  index_scopes-AreScopes features [] resolved h = h
  index_scopes-AreScopes features ((id, entitlements) ∷ given) resolved h =
      elim (Bool-cases (id == "")) [
        | inl e ↦ rw e (index_scopes-AreScopes features given resolved h)
        | inr e ↦ rw e (
            index_scopes-AreScopes features given _ (
              insert-AreScopes features resolved id (index lib features entitlements) h
                (index-AreValues features entitlements)))
      ]

  -- What an accepted snapshot leaves of a store that had none.
  applied :
      (boot : Store) (snap : Snapshot)
      → boot.revision ≡ pos 0
      → accepts boot snap.version snap.revision ≡ true
      → let s = apply lib boot snap in
        AreScopes boot.features s.spaces
        × AreScopes boot.features s.people
        × (ltb_ℤ (pos 0) s.revision ≡ true)
        × (s.version ≡ snap.version)
        × (s ≡ record boot {
          spaces = s.spaces;
          people = s.people;
          version = s.version;
          revision = s.revision;
        })
  unfolding apply accepts
  applied boot snap idle accepted =
      let spaces = index_scopes lib boot.features snap.spaces [] in
      let people = index_scopes lib boot.features snap.people [] in
      let same : apply lib boot snap ≡ record boot {
        spaces = spaces;
        people = people;
        version = snap.version;
        revision = snap.revision;
      } =
        ground arith in
      let positive : ltb_ℤ (pos 0) snap.revision ≡ true = ground arith in
      rw same (
        index_scopes-AreScopes boot.features snap.spaces [] tt,
        index_scopes-AreScopes boot.features snap.people [] tt,
        positive,
        refl,
        refl,
      )

  decode_export-document :
      (b : String) (d : Exported)
      → ltb max_export (len b) ≡ false
      → io.decode_document b ≡ some (d, true)
      → d.document_version ≡ export_version
      → ltb_ℤ d.snapshot_version (pos 0) ≡ false
      → ltb_ℤ (pos 0) d.entitlements_revision ≡ true
      → decode_export io b ≡ inl d
  unfolding decode_export
  decode_export-document b d fits decoded current version revision =
      let below : ltb_ℤ d.entitlements_revision (pos 0) ≡ false = ground arith in
      let known : beq_ℤ d.document_version export_version ≡ true = rw current refl in ground arith

  import-decode_export :
      (boot : Store) (b : String) (d : Exported)
      → boot.revision ≡ pos 0
      → lib.trim_space b ≢ ""
      → decode_export io b ≡ inl d
      → ltb_ℤ (pos 0) d.entitlements_revision ≡ true
      → import lib io boot b ≡ (
        record boot {
          spaces = restore_scopes lib boot.features d.spaces;
          people = restore_scopes lib boot.features d.people;
          version = d.snapshot_version;
          revision = d.entitlements_revision;
        },
        none,
      )
  unfolding import
  import-decode_export boot b d idle text decoded positive =
      let fresh : ltb_ℤ (pos 0) boot.revision ≡ false = rw idle refl in
      let set : beq_ℤ d.entitlements_revision (pos 0) ≡ false = ground arith in
      ground (arith, beq_iff (lib.trim_space b) "")

  -- A document that was saved after a snapshot was applied brings the store back: imported at the next
  -- boot, under the same features, it leaves exactly the store that was exported. The document has to
  -- read back, to be within the size that an import reads, and the snapshot's version not negative.
  pub import-export :
      (boot : Store) (snap : Snapshot) (b : String)
      → boot.revision ≡ pos 0
      → accepts boot snap.version snap.revision ≡ true
      → ltb_ℤ snap.version (pos 0) ≡ false
      → IsReadBack lib io (document_of io (apply lib boot snap))
      → export io (apply lib boot snap) ≡ some b
      → ltb max_export (len b) ≡ false
      → import lib io boot b ≡ (apply lib boot snap, none)
  unfolding export
  import-export boot snap b idle accepted version reads saved fits =
      let s = apply lib boot snap in
      let (decoded, text) = reads b saved in
      let (spaces, people, positive, same, whole) = applied boot snap idle accepted in
      let document : Exported = document_of io s in
      let rebuilt : List (String × Values) → List (String × Values) → Store =
        λ x y. record boot { spaces = x; people = y; version = s.version; revision = s.revision } in
      let back : (scopes : List (String × Values))
          → ltb_ℤ (pos 0) s.revision ≡ true
          → s.features ≡ boot.features
          → AreScopes boot.features scopes
          → restore_scopes lib boot.features
              (if ltb_ℤ (pos 0) s.revision then encode_scopes io s.features scopes else [])
            ≡ scopes =
        λ scopes p f good.
          ap
            (λ c.
              restore_scopes lib boot.features
                (if c then encode_scopes io s.features scopes else []))
            p
          ∙ ap (λ g. restore_scopes lib boot.features (encode_scopes io g scopes)) f
          ∙ restore_scopes-encode_scopes boot.features scopes good in
      let spaces_back : restore_scopes lib boot.features document.spaces ≡ s.spaces =
        back s.spaces positive (ap (λ x. x.features) whole) spaces in
      let people_back : restore_scopes lib boot.features document.people ≡ s.people =
        back s.people positive (ap (λ x. x.features) whole) people in
      import-decode_export boot b document idle text
        (decode_export-document b document fits decoded refl
          (ap (λ v. ltb_ℤ v (pos 0)) same ∙ version) positive)
        positive
      ∙ ap (λ x. (rebuilt x (restore_scopes lib boot.features document.people), none)) spaces_back
      ∙ ap (λ x. (rebuilt s.spaces x, none)) people_back
      ∙ ap (λ x. (x, none)) (sym whole)
