-- ===== src/Session/Lifecycle.antt =====
-- From the issue of a session to its use and its end, over the cookie and the bearer transport.
use porte.Base.{
  ℕ, ◌+◌, ◌-◌, ◌≤◌, ◌<◌, String, List, [], ◌∷◌, ◌++◌, Bool, true, false, not, ◌&&◌, Option, none,
  some, ◌≡◌, ◌≢◌, refl, ◌∙◌, ◌⊎◌, inl, inr, string_eq, nat_eq, ◌==◌, beq_iff, beq_refl, Bool-cases,
  arith, any,
}
use porte.Base.{any-keep_not}
use porte.Base.Strings.{GoStrings}
use porte.Pg.Tables.{Session, Tables, Outcome}
use porte.Pg.Sessions
use porte.Pg.Sessions.{find, delete_by_id, while_bound, vouched}
use porte.Pg.Sessions.Revoking.{find-create}
use porte.Session.Http.{
  Request, Config, idle_timeout, credential, mutating, clear_cookie, read_cookie, first_cookie,
  cookie, cookie_name, set_cookie, set_session_cookie, secure, is_secure, host_session,
  session_cookie_name,
}
use porte.Session.Manager.{
  Identity, Manager, ok, err, unauthorized, jwt_applies, session_identity, admit, look_up,
  authenticate, bind_to_caller, stamped, issue_for, clear, handle_logout,
}
use porte.Session.Serving.{IsLive, IsLive-iff}

cookie_skip :
    (before rest : List (String × String)) (planted value name : String)
    → planted ≢ name
    → cookie (before ++ (planted, value) ∷ rest) name ≡ cookie (before ++ rest) name
unfolding cookie
cookie_skip [] rest planted value name ne = ground (arith, beq_iff planted name)
cookie_skip ((key, v) ∷ before) rest planted value name ne =
    ground (arith, cookie_skip before rest planted value name ne)

-- Over https, and unless the legacy name is accepted, a cookie under any name but the prefixed one
-- changes nothing, wherever it stands in the request: a sibling subdomain that plants one neither
-- signs a browser in nor out.
pub credential_planted :
    (go : GoStrings) (c : Config) (r : Request) (before rest : List (String × String))
    (planted value : String)
    → secure go c r ≡ true
    → c.accept_legacy_cookie ≡ false
    → planted ≢ host_session
    → credential go c (record r { cookies = before ++ (planted, value) ∷ rest })
      ≡ credential go c (record r { cookies = before ++ rest })
unfolding credential read_cookie first_cookie secure is_secure
credential_planted go c r before rest planted value s legacy ne =
    ground (arith, cookie_skip before rest planted value host_session ne)

cookie_first :
    (before rest : List (String × String)) (name value : String)
    → any (λ p. p.0 == name) before ≡ false
    → cookie (before ++ (name, value) ∷ rest) name ≡ some value
unfolding cookie
cookie_first [] rest name value h = ground (arith, beq_refl name)
cookie_first ((key, v) ∷ before) rest name value h =
    ground (arith, cookie_first before rest name value)

-- A browser that sends back the cookie of a sign-in presents its token: the name that is written is
-- the name that is read. Both requests are secure or neither is, and no other cookie of that name
-- stands before it.
pub credential-set_session_cookie :
    (go : GoStrings) (c : Config) (r r' : Request) (token : String)
    (before rest : List (String × String))
    → let set = set_session_cookie go c r token in
      token ≢ ""
      → secure go c r' ≡ secure go c r
      → any (λ p. p.0 == set.name) before ≡ false
      → r'.cookies ≡ before ++ (set.name, set.value) ∷ rest
      → credential go c r' ≡ (token, true)
unfolding credential read_cookie first_cookie set_session_cookie set_cookie cookie_name
credential-set_session_cookie go c r r' token before rest ne same free sent =
    elim (Bool-cases (secure go c r)) [
      | inl s ↦
          let there = cookie_first before rest host_session token (ground arith) in
          rw sent (ground (arith, beq_iff token ""))
      | inr s ↦
          let there = cookie_first before rest session_cookie_name token (ground arith) in
          rw sent (ground (arith, beq_iff token ""))
    ]

module _ (m : Manager) where
  admit_live :
      (r : Request) (from_cookie : Bool) (hash : String) (s : Session) (now : ℕ) (db : Tables)
      → IsLive m.cfg from_cookie s now
      → (admit m r from_cookie hash s now db).answer ≡ ok (session_identity m s)
  unfolding admit
  admit_live r from_cookie hash s now db live =
      let alive = (IsLive-iff m.cfg from_cookie s now).1 live in ground arith

  authenticate_live :
      (r : Request) (token : String) (from_cookie : Bool) (now : ℕ) (db : Tables) (s : Session)
      → credential m.strings m.cfg r ≡ (token, from_cookie)
      → token ≢ ""
      → (from_cookie ≡ false) ⊎ (mutating r ≡ false) ⊎ (r.csrf ≢ "")
      → jwt_applies m from_cookie token ≡ false
      → find db (m.hash_token token) ≡ Outcome.ok s
      → IsLive m.cfg from_cookie s now
      → (authenticate m r now db).answer ≡ ok (session_identity m s)
  unfolding authenticate look_up
  authenticate_live r token from_cookie now db s c ne guarded opaque found live =
      let let_in = admit_live r from_cookie (m.hash_token token) s now db live in
      rw c (ground (arith, beq_iff token "", beq_iff r.csrf ""))

  -- A template without a label is stamped with the clock and the configured lifetime, whoever calls.
  pub stamped_login :
      (caller : Option Identity) (template : Session) (token : String) (now : ℕ)
      → template.label ≡ ""
      → stamped m caller template token now ≡ record template {
        token_hash = m.hash_token token;
        created_at = now;
        last_used_at = now;
        expires_at = now + m.cfg.session_ttl;
      }
  unfolding stamped bind_to_caller
  stamped_login none template token now h = ground (arith, beq_iff template.label "")
  stamped_login (some c) template token now h = ground (arith, beq_iff template.label "")

  pub issue_for-create :
      (caller : Option Identity) (template row s : Session) (token : String) (now : ℕ)
      (db db' : Tables)
      → stamped m caller template token now ≡ row
      → Sessions.create db row ≡ Outcome.ok (db', s)
      → issue_for m caller (some token) template now db ≡ (db', ok (token, s))
  unfolding issue_for
  issue_for-create caller template row s token now db db' e made = ground arith

  -- A sign-in works: the session that IssueFor stores for a template without a label or a binding
  -- authenticates its user, on every request that presents the token before the session expires and,
  -- in a cookie, within the idle window. The token is not empty, its hash is new, a changing request
  -- with a cookie carries the CSRF header, and no attached verifier judges the token.
  pub authenticate-issue_for :
      (r : Request) (caller : Option Identity) (template : Session) (token : String)
      (from_cookie : Bool) (issued_at now : ℕ) (db : Tables)
      → template.label ≡ ""
      → template.provider ≡ ""
      → template.issued_by ≡ 0
      → any (λ t. t.token_hash == m.hash_token token) db.sessions ≡ false
      → token ≢ ""
      → credential m.strings m.cfg r ≡ (token, from_cookie)
      → (from_cookie ≡ false) ⊎ (mutating r ≡ false) ⊎ (r.csrf ≢ "")
      → jwt_applies m from_cookie token ≡ false
      → now ≤ issued_at + m.cfg.session_ttl
      → (from_cookie ≡ false)
        ⊎ (idle_timeout m.cfg ≡ 0)
        ⊎ (issued_at ≡ 0)
        ⊎ (now - issued_at < idle_timeout m.cfg)
      → (db' : Tables) × (s : Session) × (issue_for m caller (some token) template issued_at db
          ≡ (db', ok (token, s)))
        × (s.user_id ≡ template.user_id)
        × ((authenticate m r now db').answer ≡ ok (session_identity m s))
  authenticate-issue_for r caller template token from_cookie issued_at now db l p i fresh ne c g o e
        w =
      let row : Session = record template {
        token_hash = m.hash_token token;
        created_at = issued_at;
        last_used_at = issued_at;
        expires_at = issued_at + m.cfg.session_ttl;
      } in
      let (db', made, found) = find-create db row (m.hash_token token) (inl (p, i)) fresh in
      let kept : Session = record row {
        id = db.next_session;
        provider = "";
        subject = "";
        issued_by = 0;
      } in
      let there : find db' (m.hash_token token) ≡ Outcome.ok kept =
        found ∙ ground (arith, beq_refl (m.hash_token token)) in
      (
        db',
        record row { id = db.next_session },
        issue_for-create caller template row (record row { id = db.next_session }) token issued_at
            db db' (stamped_login caller template token issued_at l) made,
        refl,
        authenticate_live r token from_cookie now db' kept c ne g o there (inr e, w),
      )

  -- A named token dies with the session that mints it: IssueFor refuses one for a caller whose own
  -- session is gone by the time it is stored, as unauthorized, and stores nothing. The template has no
  -- other binding, and the caller asks for a token of their own.
  pub issue_for_revoked :
      (caller : Identity) (template : Session) (token : String) (now : ℕ) (db : Tables)
      → template.label ≢ ""
      → template.provider ≡ ""
      → template.issued_by ≡ 0
      → caller.user_id ≡ template.user_id
      → caller.session_id ≢ 0
      → any (λ s. s.id == caller.session_id && s.user_id == caller.user_id) db.sessions ≡ false
      → issue_for m (some caller) (some token) template now db ≡ (db, err unauthorized)
  unfolding issue_for stamped bind_to_caller Sessions.create while_bound vouched
  issue_for_revoked caller template token now db l p i u s gone =
      ground (arith, beq_iff template.label "", beq_iff template.provider "")

  -- Logging out works: a signed-in caller who presents no cookie, or the CSRF header with it, gets an
  -- ok, the session the request was answered for is gone, and the response expires the cookies.
  pub handle_logout_ends :
      (r : Request) (now : ℕ) (db : Tables) (identity : Identity)
      → (authenticate m r now db).answer ≡ ok identity
      → (read_cookie m.strings m.cfg r ≡ none) ⊎ (r.csrf ≢ "")
      → let out = handle_logout m r now db in
        (out.answer ≡ ok tt)
        × (any (λ s. s.id == identity.session_id && s.user_id == identity.user_id) out.db.sessions
            ≡ false)
        × (out.cookies ≡ (authenticate m r now db).cookies ++ clear_cookie m.strings m.cfg r)
  unfolding handle_logout clear delete_by_id
  handle_logout_ends r now db identity e g =
      let seen = authenticate m r now db in
      let gone =
        any-keep_not (λ s. s.id == identity.session_id && s.user_id == identity.user_id)
          (λ s. not (s.id == identity.session_id && s.user_id == identity.user_id)) seen.db.sessions
          (λ s h. ground arith) in
      (
        ground (arith, beq_iff r.csrf ""),
        ground (arith, beq_iff r.csrf ""),
        ground (arith, beq_iff r.csrf ""),
      )
