-- ===== src/Local/Changing.antt =====
-- Kit.ChangePassword, and the sessions that outlive it.
use porte.Base.{
  ℕ, String, List, [], ◌∷◌, ◌++◌, not, ◌&&◌, Option, none, some, ◌≡◌, ◌≢◌, sym, ap, ◌∙◌, subst, ◌⊎◌,
  inl, inr, Memᴰ, string_eq, nat_eq, ◌==◌, Bool-cases, Option-cases, arith, any,
}
use mathlib.Core.List.Memᴰ
use porte.Base.{keep-Memᴰ, any-Memᴰ}
use porte.Pg.Tables.{Session, Tables, Outcome}
use porte.Pg.Linking.Matching.{Outcome-cases}
use porte.Pg.Identities
use porte.Pg.Identities.{provider_local}
use porte.Pg.Identities.Accounts.{save-sessions}
use porte.Pg.Sessions
use porte.Pg.Sessions.{while_bound}
use porte.Pg.Sessions.Revoking.{delete_logins_spares}
use porte.Session.Http.{Request}
use porte.Session.Manager.{Identity, issue_for, issue_cookie_for, stamped}
use porte.Local.Password.{hash_password}
use porte.Local.Kit.{
  Kit, ok, local_subject, local_session, sign_in, if_there, end_logins, change_password,
}

deleted_by_id :
    (db : Tables) (user id : ℕ) (s : Session)
    → Memᴰ s (if_there db (Sessions.delete_by_id db user id)).sessions
    → Memᴰ s db.sessions × ((s.id ≢ id) ⊎ (s.user_id ≢ user))
unfolding Sessions.delete_by_id
deleted_by_id db user id s m =
    elim (Bool-cases (any (λ t. t.id == id && t.user_id == user) db.sessions)) [
      | inl there ↦
          let (kept, other) =
            keep-Memᴰ (λ t. not (t.id == id && t.user_id == user)) db.sessions (rw there at m) in
          (kept, ground arith)
      | inr absent ↦
          let kept : Memᴰ s db.sessions = rw absent at m in
          let other = any-Memᴰ (λ t. t.id == id && t.user_id == user) db.sessions absent kept in
          (kept, ground arith)
    ]

ended :
    (id : ℕ) (caller : Option Identity) (db : Tables) (s : Session)
    → Memᴰ s (end_logins id caller db).sessions
    → Memᴰ s db.sessions × ((s.user_id ≢ id) ⊎ (s.label ≢ ""))
unfolding end_logins
ended id none db s m =
    let (kept, why) = (delete_logins_spares db id 0 s).0 m in (kept, ground arith)
ended id (some c) db s m = elim (Bool-cases (c.session_id == 0)) [
  | inl no_session ↦
      let (kept, why) = (delete_logins_spares db id c.session_id s).0 (rw no_session at m) in
      (kept, ground arith)
  | inr own ↦
      let (m', other) =
        deleted_by_id (Sessions.delete_logins db id c.session_id) id c.session_id s (rw own at m) in
      let (kept, why) = (delete_logins_spares db id c.session_id s).0 m' in (kept, ground arith)
]

-- A session row that a sign-in leaves was there before, or carries the new token's hash.
created :
    (db db' : Tables) (s row : Session) (made : Session)
    → Sessions.create db row ≡ Outcome.ok (db', made)
    → Memᴰ s db'.sessions
    → Memᴰ s db.sessions ⊎ (s.token_hash ≡ row.token_hash)
unfolding Sessions.create while_bound
created db db' s row made e m =
    let new : Session = record row {
      id = db.next_session;
      provider = "";
      subject = "";
      issued_by = 0;
    } in
    let written : db'.sessions ≡ db.sessions ++ new ∷ [] = ground arith in
    let m' : Memᴰ s (db.sessions ++ new ∷ []) = subst (Memᴰ s) written m in
    elim (Memᴰ.append_cases db.sessions m') [
      | inl old ↦ inl old
      | inr fresh ↦ inr (ap (λ t. t.token_hash) (Memᴰ.eq_of_singleton fresh))
    ]

module _ (k : Kit) where
  signed_in :
      {A : Type 0} (r : Request) (caller : Option Identity) (random : Option String) (id : ℕ)
      (answer : String → A) (now : ℕ) (db : Tables) (s : Session) (a : A)
      → (sign_in k r caller random id answer now db).answer ≡ ok a
      → Memᴰ s (sign_in k r caller random id answer now db).db.sessions
      → Memᴰ s db.sessions
        ⊎ ((token : String) × (answer token ≡ a)
            × (s.token_hash ≡ k.deps.sessions.hash_token token))
  unfolding sign_in issue_cookie_for issue_for stamped
  signed_in r caller none id answer now db s a e m = absurd (ground arith)
  signed_in r caller (some token) id answer now db s a e m =
      let row = stamped k.deps.sessions caller (local_session k id) token now in
      elim (Outcome-cases (Sessions.create db row)) [
        | inr (x, refused) ↦ absurd (ground arith)
        | inl ((db', made), stored) ↦
            let left : (sign_in k r caller (some token) id answer now db).db.sessions
                ≡ db'.sessions =
              ground arith in
            elim (created db db' s row made stored (subst (Memᴰ s) left m)) [
              | inl old ↦ inl old
              | inr new ↦ inr (token, ground arith, new)
            ]
      ]

  changed :
      (r : Request) (caller : Option Identity) (id : ℕ) (current next token : String)
      (salt : Option (List ℕ)) (random : Option String) (now : ℕ) (db : Tables)
      → (change_password k r caller id current next salt random now db).answer ≡ ok token
      → (db' : Tables) × (db'.sessions ≡ db.sessions)
        × (change_password k r caller id current next salt random now db
            ≡ sign_in k r caller random id (λ t. t) now (end_logins id caller db'))
  unfolding change_password
  changed r caller id current next token salt random now db done =
      elim (Outcome-cases (Identities.find db provider_local (local_subject k id))) [
        | inr (e, missing) ↦ absurd (ground arith)
        | inl (stored, found) ↦ elim (Option-cases (hash_password k.deps.crypto next salt)) [
          | inl no_salt ↦ absurd (ground arith)
          | inr (hash, hashed) ↦
              elim (Outcome-cases (Identities.save db (record stored { password_hash = hash }))) [
                | inr (e, refused) ↦ absurd (ground arith)
                | inl (db', saved) ↦ (
                  db',
                  save-sessions db db' (record stored { password_hash = hash }) saved,
                  ground arith,
                )
              ]
        ]
      ]

  -- A password change ends every login: after one that succeeds, a session of the tables carries the
  -- hash of the new token, or was there before and is another user's or a named token.
  pub change_password_ends :
      (r : Request) (caller : Option Identity) (id : ℕ) (current next token : String)
      (salt : Option (List ℕ)) (random : Option String) (now : ℕ) (db : Tables) (s : Session)
      → let out = change_password k r caller id current next salt random now db in
        out.answer ≡ ok token
        → Memᴰ s out.db.sessions
        → (s.token_hash ≡ k.deps.sessions.hash_token token)
          ⊎ (Memᴰ s db.sessions × ((s.user_id ≢ id) ⊎ (s.label ≢ "")))
  change_password_ends r caller id current next token salt random now db s done m =
      let (db', kept, same) = changed r caller id current next token salt random now db done in
      elim (signed_in {A = String} r caller random id (λ t. t) now (end_logins id caller db') s
        token (ap (λ d. d.answer) (sym same) ∙ done) (subst (λ d. Memᴰ s d.db.sessions) same m)) [
          | inr (t, is_token, new) ↦ inl (new ∙ ap k.deps.sessions.hash_token is_token)
          | inl old ↦
              let (there, why) = ended id caller db' s old in inr (subst (Memᴰ s) kept there, why)
        ]
