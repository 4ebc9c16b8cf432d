-- ===== src/Pg/Linking/Sparing.antt =====
-- The sessions that a federated login leaves: a takeover ends some and no login adds one.
use porte.Base.{
  ℕ, not, ◌&&◌, ◌≡◌, ◌∙◌, subst, inl, inr, Memᴰ, string_eq, nat_eq, ◌==◌, Bool-cases, Option-cases,
  arith,
}
use porte.Base.{keep-Memᴰ}
use porte.Base.Strings.{GoStrings}
use porte.Pg.Tables.{Session, Tables, ok}
use porte.Pg.Linking.{
  Claims, purge, insert_user, existing_user, find_or_insert, update_user, refreshed,
  resolve_or_create, folded, upsert_from_oidc,
}
use porte.Pg.Linking.Matching.{Outcome-cases}

module _ (go : GoStrings) where
  insert_user-sessions : (db : Tables) (c : Claims) → (insert_user go db c).0.sessions ≡ db.sessions
  unfolding insert_user
  insert_user-sessions db c = ground arith

  find_or_insert-sessions :
      (db : Tables) (c : Claims) → (find_or_insert go db c).0.sessions ≡ db.sessions
  unfolding find_or_insert
  find_or_insert-sessions db c = elim (Option-cases (existing_user go db c)) [
    | inr (found, there) ↦ ground arith
    | inl missing ↦ ground (arith, insert_user-sessions db c)
  ]

  refreshed-sessions :
      (db db' : Tables) (id id' : ℕ) (c : Claims)
      → refreshed go db id c ≡ ok (db', id')
      → db'.sessions ≡ db.sessions
  unfolding update_user
  refreshed-sessions db db' id id' c h = ground arith

  resolve-Memᴰ :
      (db db' : Tables) (c : Claims) (id : ℕ) (s : Session)
      → resolve_or_create go db c ≡ ok (db', id)
      → Memᴰ s db'.sessions
      → Memᴰ s db.sessions
  unfolding resolve_or_create purge
  resolve-Memᴰ db db' c id s h mem =
      let mid = (find_or_insert go db c).0 in
      let found = (find_or_insert go db c).1 in
      let same = find_or_insert-sessions db c in
      elim (Bool-cases (found.inserted)) [
        | inl new ↦
            let left : db'.sessions ≡ mid.sessions = ground arith in
            subst (Memᴰ s) (left ∙ same) mem
        | inr old ↦ elim (Bool-cases (found.user_id == 0)) [
          | inl nobody ↦ absurd (ground arith)
          | inr somebody ↦ elim (Bool-cases (found.by_email && found.unverified)) [
            | inl squatted ↦
                let gone : refreshed go (purge mid found.user_id) found.user_id c ≡ ok (db', id) =
                  ground arith in
                let left =
                  refreshed-sessions (purge mid found.user_id) db' found.user_id id c gone in
                subst (Memᴰ s) same
                  (keep-Memᴰ (λ t. not (t.user_id == found.user_id)) mid.sessions
                    (subst (Memᴰ s) left mem)).0
            | inr kept ↦
                let stays : refreshed go mid found.user_id c ≡ ok (db', id) = ground arith in
                subst (Memᴰ s) (refreshed-sessions mid db' found.user_id id c stays ∙ same) mem
          ]
        ]
      ]

  pub upsert-Memᴰ :
      (db db' : Tables) (raw : Claims) (id : ℕ) (s : Session)
      → upsert_from_oidc go db raw ≡ ok (db', id)
      → Memᴰ s db'.sessions
      → Memᴰ s db.sessions
  unfolding upsert_from_oidc
  upsert-Memᴰ db db' raw id s h mem =
      elim (Outcome-cases (resolve_or_create go db (folded go raw))) [
        | inr (e, refused) ↦ absurd (ground arith)
        | inl ((mid, found), e) ↦
            let left : db'.sessions ≡ mid.sessions = ground arith in
            resolve-Memᴰ db mid (folded go raw) found s e (subst (Memᴰ s) left mem)
      ]
