-- ===== src/Local/Signing.antt =====
-- Kit.Register followed by Kit.Login.
use porte.Base.{
  ℕ, ◌+◌, String, List, true, false, ◌&&◌, Option, none, some, ◌≡◌, refl, sym, ap, ◌∙◌, subst, inl,
  inr, string_eq, nat_eq, ◌==◌, Option-cases, length, arith, any,
}
use porte.Pg.Tables.{StoredIdentity, Session, Tables, Failure, not_found, Outcome, of_provider}
use porte.Pg.Linking.Matching.{Outcome-cases}
use porte.Pg.Tables
use porte.Pg.Identities
use porte.Pg.Identities.{provider_local, find_by_email}
use porte.Pg.Identities.Accounts.{
  find_by_email-create_from_password, save-users, find-save, find-vouches,
}
use porte.Pg.Sessions
use porte.Pg.Sessions.{while_bound, vouched}
use porte.Pg.Sessions.Revoking.{find-create}
use porte.Session.Http.{Request}
use porte.Session.Manager.{Identity, issue_for, issue_cookie_for}
use porte.Session.Serving.{Answer-cases}
use porte.Session.Lifecycle.{stamped_login, issue_for-create}
use porte.Local.Password.{costs, key_length, hash_password, verify_password}
use porte.Local.Hashing.{IsScanned, IsReadable, verify_password-hash_password}
use porte.Local.Kit.{
  Kit, ok, normalize_email, local_subject, local_session, password_identity, sign_in, closed,
  create_account, register, verify, login,
}

module _ (k : Kit) where
  -- What a sign-in leaves of the tables but the sessions, and its answer once its row is vouched for.
  sign_in-tables :
      {A : Type 0} (r : Request) (caller : Option Identity) (random : Option String) (id : ℕ)
      (answer : String → A) (now : ℕ) (db : Tables)
      → ((sign_in k r caller random id answer now db).db.users ≡ db.users)
        × ((sign_in k r caller random id answer now db).db.identities ≡ db.identities)
  unfolding sign_in issue_cookie_for issue_for Sessions.create while_bound
  sign_in-tables r caller none id answer now db = (refl, refl)
  sign_in-tables r caller (some token) id answer now db = (ground arith, ground arith)

  sign_in_stored :
      {A : Type 0} (r : Request) (caller : Option Identity) (token : String) (id : ℕ)
      (answer : String → A) (now : ℕ) (db : Tables) (i : StoredIdentity)
      → Identities.find db provider_local (local_subject k id) ≡ Outcome.ok i
      → i.user_id ≡ id
      → any (λ t. t.token_hash == k.deps.sessions.hash_token token) db.sessions ≡ false
      → (sign_in k r caller (some token) id answer now db).answer ≡ ok (answer token)
  unfolding sign_in issue_cookie_for vouched
  sign_in_stored r caller token id answer now db i found owner fresh =
      let m = k.deps.sessions in
      let row : Session = record (local_session k id) {
        token_hash = m.hash_token token;
        created_at = now;
        last_used_at = now;
        expires_at = now + m.cfg.session_ttl;
      } in
      let known : vouched db row ≡ true =
        subst
          (λ u.
            any (λ j. of_provider provider_local (local_subject k id) j && j.user_id == u)
              db.identities
            ≡ true)
          owner (find-vouches db provider_local (local_subject k id) i found) in
      let (db', made, _) = find-create db row (m.hash_token token) (inr known) fresh in
      let stored =
        issue_for-create m caller (local_session k id) row (record row { id = db.next_session })
          token now db db' (stamped_login m caller (local_session k id) token now refl) made in
      ground arith

  sign_in-answer :
      {A : Type 0} (r : Request) (caller : Option Identity) (random : Option String) (id : ℕ)
      (answer : String → A) (now : ℕ) (db : Tables) (a : A)
      → (sign_in k r caller random id answer now db).answer ≡ ok a
      → (token : String) × (answer token ≡ a)
  unfolding sign_in issue_cookie_for
  sign_in-answer r caller random id answer now db a e =
      elim (Answer-cases (issue_for k.deps.sessions caller random (local_session k id) now db).1) [
        | inl ((token, s), issued) ↦ (token, ground arith)
        | inr (x, refused) ↦ absurd (ground arith)
      ]

  -- The account and the password row that the tables hold.
  abbrev Holds : String → ℕ → String → Tables → Type 0
  Holds address id hash db =
      (find_by_email db address ≡ Outcome.ok id)
      × (Identities.find db provider_local (local_subject k id)
          ≡ Outcome.ok (password_identity k id hash))

  sign_in-Holds :
      {A : Type 0} (r : Request) (caller : Option Identity) (random : Option String) (id : ℕ)
      (answer : String → A) (now : ℕ) (db : Tables) (address hash : String)
      → Holds address id hash db
      → Holds address id hash (sign_in k r caller random id answer now db).db
  unfolding Identities.find_by_email Identities.find Tables.user_by_email Tables.identity_of
  sign_in-Holds r caller random id answer now db address hash h =
      let (same_users, same_identities) = sign_in-tables r caller random id answer now db in
      (ground arith, ground arith)

  create_account-eq :
      (r : Request) (caller : Option Identity) (address name password : String)
      (salt : Option (List ℕ)) (random : Option String) (now : ℕ) (db db' db'' : Tables) (id : ℕ)
      (hash : String)
      → Identities.create_from_password db address (k.deps.sessions.strings.trim_space name)
        ≡ Outcome.ok (db', id)
      → hash_password k.deps.crypto password salt ≡ some hash
      → Identities.save db' (password_identity k id hash) ≡ Outcome.ok db''
      → create_account k r caller address name password salt random now db
        ≡ sign_in k r caller random id (λ token. (id, token)) now db''
  unfolding create_account
  create_account-eq r caller address name password salt random now db db' db'' id hash made hashed
        saved =
      ground arith

  saved-Holds :
      (address : String) (id : ℕ) (hash : String) (db db' : Tables)
      → find_by_email db address ≡ Outcome.ok id
      → Identities.save db (password_identity k id hash) ≡ Outcome.ok db'
      → Identities.find db' provider_local (local_subject k id)
        ≡ Outcome.ok (password_identity k id hash)
      → Holds address id hash db'
  unfolding Identities.find_by_email Tables.user_by_email
  saved-Holds address id hash db db' named saved found =
      let same = save-users db db' (password_identity k id hash) saved in (ground arith, found)

  create_account-Holds :
      (r : Request) (caller : Option Identity) (address name password : String)
      (salt : Option (List ℕ)) (random : Option String) (now : ℕ) (db : Tables) (id : ℕ)
      (token : String) (e : Failure)
      → find_by_email db address ≡ Outcome.err e
      → (create_account k r caller address name password salt random now db).answer ≡ ok (id, token)
      → (hash : String) × (hash_password k.deps.crypto password salt ≡ some hash)
        × Holds address id hash
            (create_account k r caller address name password salt random now db).db
  unfolding create_account
  create_account-Holds r caller address name password salt random now db id token e missing done =
      elim (Outcome-cases
        (Identities.create_from_password db address (k.deps.sessions.strings.trim_space name))) [
          | inr (x, refused) ↦ absurd (ground arith)
          | inl ((db', made_id), made) ↦
              elim (Option-cases (hash_password k.deps.crypto password salt)) [
                | inl no_salt ↦ absurd (ground arith)
                | inr (hash, hashed) ↦
                    let (db'', saved, found) =
                      find-save db' (password_identity k made_id hash) refl in
                    let same =
                      create_account-eq r caller address name password salt random now db db' db''
                        made_id hash made hashed saved in
                    let answered : (sign_in k r caller random made_id (λ t. (made_id, t)) now
                          db'').answer
                        ≡ ok (id, token) =
                      ap (λ d. d.answer) (sym same) ∙ done in
                    let (t, pair) =
                      sign_in-answer {A = ℕ × String} r caller random made_id (λ t. (made_id, t))
                        now db'' (id, token) answered in
                    let own : made_id ≡ id = ap (λ p. p.0) pair in
                    let held =
                      saved-Holds address made_id hash db' db''
                        (find_by_email-create_from_password db db' address
                          (k.deps.sessions.strings.trim_space name) made_id e missing made)
                        saved found in
                    let kept =
                      sign_in-Holds {A = ℕ × String} r caller random made_id (λ t. (made_id, t)) now
                        db'' address hash held in
                    (
                      hash,
                      hashed,
                      subst
                          (λ n.
                            Holds address n hash
                              (create_account k r caller address name password salt random now
                                db).db)
                          own (subst (λ d. Holds address made_id hash d.db) (sym same) kept),
                    )
              ]
        ]

  register-Holds :
      (r : Request) (caller : Option Identity) (raw name password : String) (salt : Option (List ℕ))
      (random : Option String) (now : ℕ) (db : Tables) (id : ℕ) (token : String)
      → (register k r caller raw name password salt random now db).answer ≡ ok (id, token)
      → (k.federated ≡ false)
        × ((address : String) × (normalize_email k raw ≡ some address)
            × ((hash : String) × (hash_password k.deps.crypto password salt ≡ some hash)
                × Holds address id hash
                    (register k r caller raw name password salt random now db).db))
  unfolding register
  register-Holds r caller raw name password salt random now db id token done =
      elim (Option-cases (normalize_email k raw)) [
        | inl bad ↦ absurd (ground arith)
        | inr (address, good) ↦ elim (Outcome-cases (find_by_email db address)) [
          | inl (x, taken) ↦ absurd (ground arith)
          | inr (e, free) ↦ elim (Option-cases (closed k db)) [
            | inr (x, shut) ↦ absurd (ground arith)
            | inl gate ↦
                let same : register k r caller raw name password salt random now db
                    ≡ create_account k r caller address name password salt random now db =
                  ground arith in
                let (hash, hashed, held) =
                  create_account-Holds r caller address name password salt random now db id token e
                    free (ap (λ d. d.answer) (sym same) ∙ done) in
                (
                  ground arith,
                  (
                    address,
                    good,
                    (hash, hashed, subst (λ d. Holds address id hash d.db) (sym same) held),
                  ),
                )
          ]
        ]
      ]

  verify-Holds :
      (raw address password hash : String) (id : ℕ) (db : Tables)
      → k.federated ≡ false
      → normalize_email k raw ≡ some address
      → Holds address id hash db
      → verify_password k.deps.crypto password hash ≡ true
      → verify k db raw password ≡ ok id
  unfolding verify
  verify-Holds raw address password hash id db open_kit good held right =
      let (named, found) = held in ground arith

  -- A registration gives an account that its password opens: after one that succeeds, every login with
  -- the same address and password signs in as the registered account. Argon2, base64 and the scanner
  -- read back what the hash was written from, and the hash of the new session's token is new.
  pub login-register :
      (r r' : Request) (caller caller' : Option Identity)
      (raw name password token session_token : String) (salt : List ℕ) (random : Option String)
      (now later : ℕ) (db : Tables) (id : ℕ)
      → IsScanned k.deps.crypto
      → IsReadable k.deps.crypto salt
      → IsReadable k.deps.crypto (k.deps.crypto.id_key password salt costs key_length)
      → length (k.deps.crypto.id_key password salt costs key_length) ≡ key_length
      → let out = register k r caller raw name password (some salt) random now db in
        out.answer ≡ ok (id, token)
        → any (λ s. s.token_hash == k.deps.sessions.hash_token session_token) out.db.sessions
          ≡ false
        → (login k r' caller' raw password (some session_token) later out.db).answer
          ≡ ok (id, session_token)
  unfolding login
  login-register r r' caller caller' raw name password token session_token salt random now later db
        id scanned readable key_readable sized done fresh =
      let out = register k r caller raw name password (some salt) random now db in
      let (open_kit, (address, good, (hash, hashed, held))) =
        register-Holds r caller raw name password (some salt) random now db id token done in
      let (written, made, right) =
        verify_password-hash_password k.deps.crypto password salt scanned readable key_readable
          sized in
      let same : written ≡ hash = ground arith in
      let verified =
        verify-Holds raw address password hash id out.db open_kit good held
          (subst (λ h. verify_password k.deps.crypto password h ≡ true) same right) in
      let opened =
        sign_in_stored {A = ℕ × String} r' caller' session_token id (λ t. (id, t)) later out.db
          (password_identity k id hash) held.1 refl fresh in
      ground arith
