-- ===== src/Session/Issuing.antt =====
-- What Manager.IssueFor leaves of the tables.
use porte.Base.{
  ℕ, ◌+◌, String, [], ◌∷◌, ◌++◌, true, false, Option, none, some, ◌≡◌, ◌≢◌, refl, ap, ◌∙◌, subst,
  ◌⊎◌, inl, inr, Memᴰ, string_eq, nat_eq, ◌==◌, beq_iff, arith, any,
}
use mathlib.Core.List.Memᴰ
use porte.Pg.Tables.{Session, Tables, Outcome}
use porte.Pg.Linking.Matching.{Outcome-cases}
use porte.Pg.Sessions
use porte.Pg.Sessions.{while_bound, vouched}
use porte.Pg.Sessions.Revoking.{find-create}
use porte.Session.Manager.{Identity, Manager, ok, bind_to_caller, stamped, issue_for}
use porte.Session.Lifecycle.{stamped_login, issue_for-create}

module _ (m : Manager) where
  pub issue_for-tables :
      (caller : Option Identity) (random : Option String) (template : Session) (now : ℕ)
      (db : Tables)
      → let out = (issue_for m caller random template now db).0 in
        (out.users ≡ db.users) × (out.identities ≡ db.identities) × (out.codes ≡ db.codes)
  unfolding issue_for Sessions.create while_bound
  issue_for-tables caller none template now db = (refl, refl, refl)
  issue_for-tables caller (some token) template now db = (ground arith, ground arith, ground arith)

  stamped-user :
      (caller : Option Identity) (template : Session) (token : String) (now : ℕ)
      → ((stamped m caller template token now).user_id ≡ template.user_id)
        × ((stamped m caller template token now).token_hash ≡ m.hash_token token)
  unfolding stamped bind_to_caller
  stamped-user none template token now = (refl, refl)
  stamped-user (some c) template token now = (ground arith, refl)

  created_row :
      (db db' : Tables) (row s made : Session)
      → Sessions.create db row ≡ Outcome.ok (db', made)
      → Memᴰ s db'.sessions
      → Memᴰ s db.sessions ⊎ ((s.user_id ≡ row.user_id) × (s.token_hash ≡ row.token_hash))
  unfolding Sessions.create while_bound
  created_row db db' row s made stored mem =
      let stored_row : Session = record row {
        id = db.next_session;
        provider = "";
        subject = "";
        issued_by = 0;
      } in
      let shape : db'.sessions ≡ db.sessions ++ stored_row ∷ [] = ground arith in
      let mem' : Memᴰ s (db.sessions ++ stored_row ∷ []) = subst (Memᴰ s) shape mem in
      elim (Memᴰ.append_cases db.sessions mem') [
        | inl old ↦ inl old
        | inr new ↦
            let same = Memᴰ.eq_of_singleton new in
            inr (ap (λ t. t.user_id) same, ap (λ t. t.token_hash) same)
      ]

  -- Every session afterwards was there before, or is the template's user's with the new token's hash.
  pub issue_for-sessions :
      (caller : Option Identity) (random : Option String) (template s : Session) (now : ℕ)
      (db : Tables)
      → Memᴰ s (issue_for m caller random template now db).0.sessions
      → Memᴰ s db.sessions
        ⊎ ((token : String) × (random ≡ some token)
            × (s.user_id ≡ template.user_id)
            × (s.token_hash ≡ m.hash_token token))
  unfolding issue_for
  issue_for-sessions caller none template s now db mem = inl mem
  issue_for-sessions caller (some token) template s now db mem =
      let row = stamped m caller template token now in
      let (owner, hashed) = stamped-user caller template token now in
      elim (Outcome-cases (Sessions.create db row)) [
        | inr (e, refused) ↦
            let same : (issue_for m caller (some token) template now db).0 ≡ db = ground arith in
            inl (subst (λ t. Memᴰ s t.sessions) same mem)
        | inl ((db', made), stored) ↦
            let same : (issue_for m caller (some token) template now db).0 ≡ db' = ground arith in
            elim (created_row db db' row s made stored (subst (λ t. Memᴰ s t.sessions) same mem)) [
              | inl old ↦ inl old
              | inr (mine, its) ↦ inr (token, refl, mine ∙ owner, its ∙ hashed)
            ]
      ]

  -- A login that something vouches for is issued.
  pub issue_for-vouched :
      (caller : Option Identity) (template : Session) (token : String) (now : ℕ) (db : Tables)
      → template.label ≡ ""
      → vouched db template ≡ true
      → any (λ t. t.token_hash == m.hash_token token) db.sessions ≡ false
      → (s : Session) × ((issue_for m caller (some token) template now db).1 ≡ ok (token, s))
  unfolding vouched
  issue_for-vouched caller template token now db unnamed known fresh =
      let row : Session = record template {
        token_hash = m.hash_token token;
        created_at = now;
        last_used_at = now;
        expires_at = now + m.cfg.session_ttl;
      } in
      let (db', made, found) = find-create db row (m.hash_token token) (inr known) fresh in
      let made_row = record row { id = db.next_session } in
      (
        made_row,
        ap (λ p. p.1)
            (issue_for-create m caller template row made_row token now db db'
              (stamped_login m caller template token now unnamed) made),
      )

  -- A login whose identity is another's, or gone, is refused and stores nothing.
  pub issue_for-unvouched :
      (caller : Option Identity) (random : Option String) (template : Session) (now : ℕ)
      (db : Tables)
      → template.label ≡ ""
      → template.provider ≢ ""
      → vouched db template ≡ false
      → ((issue_for m caller random template now db).0 ≡ db)
        × ((token : String) (s : Session)
            → (issue_for m caller random template now db).1 ≢ ok (token, s))
  unfolding issue_for Sessions.create while_bound vouched stamped bind_to_caller
  issue_for-unvouched caller none template now db unnamed bound gone =
      (refl, λ token s e. absurd (cc))
  issue_for-unvouched none (some t) template now db unnamed bound gone = (
    ground (arith, beq_iff template.provider "", beq_iff template.label ""),
    λ token s e. ground (arith, beq_iff template.provider "", beq_iff template.label ""),
  )
  issue_for-unvouched (some c) (some t) template now db unnamed bound gone = (
    ground (arith, beq_iff template.provider "", beq_iff template.label ""),
    λ token s e. ground (arith, beq_iff template.provider "", beq_iff template.label ""),
  )
