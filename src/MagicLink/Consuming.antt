-- ===== src/MagicLink/Consuming.antt =====
-- Kit.Request and Kit.Consume together, down to the session that a link opens.
use porte.Base.{
  ℕ, ◌+◌, ◌≤◌, ◌<◌, String, List, [], ◌∷◌, true, false, Option, none, some, ◌≡◌, refl, sym, ◌∙◌,
  subst, inl, inr, string_eq, nat_eq, ◌==◌, All, arith, any,
}
use porte.Pg.Tables.{Session, Tables, Outcome}
use porte.Pg.Linking.Matching.{Outcome-cases}
use porte.Pg.Sessions
use porte.Pg.Sessions.{while_bound}
use porte.Pg.Sessions.Revoking.{find-create}
use porte.Pg.Links
use porte.Pg.Links.{spendable}
use porte.Pg.Links.Spending.{
  Op, run, IsOther, IsDead, run_dead, consume-IsDead, create_supersedes, create-sessions,
  consume-sessions,
}
use porte.Session.Http.{Request}
use porte.Session.Manager.{Identity, Manager, issue_for, issue_cookie_for, stamped}
use porte.Session.Serving.{Answer-cases}
use porte.Session.Lifecycle.{stamped_login, issue_for-create}
use porte.MagicLink.Kit.{
  Kit, Target, done, failed, invalid_link, lookup, within_limits, issue, link_for, answer_target,
  request, allowed, template, sign_in, consume,
}

create-links :
    (db db' : Tables) (s s' : Session)
    → Sessions.create db s ≡ Outcome.ok (db', s')
    → db'.links ≡ db.links
unfolding Sessions.create while_bound
create-links db db' s s' e = ground arith

issue_for-links :
    (m : Manager) (caller : Option Identity) (random : Option String) (t : Session) (now : ℕ)
    (db : Tables)
    → (issue_for m caller random t now db).0.links ≡ db.links
unfolding issue_for
issue_for-links m caller none t now db = refl
issue_for-links m caller (some token) t now db =
    elim (Outcome-cases (Sessions.create db (stamped m caller t token now))) [
      | inl ((db', s), e) ↦
          let same = create-links db db' (stamped m caller t token now) s e in ground arith
      | inr (x, e) ↦ ground arith
    ]

module _ (k : Kit) where
  sign_in-links :
      (r : Request) (caller : Option Identity) (random : Option String) (id now : ℕ) (db : Tables)
      → (sign_in k r caller random id now db).db.links ≡ db.links
  unfolding sign_in issue_cookie_for
  sign_in-links r caller random id now db =
      let same = issue_for-links k.deps.sessions caller random (template id) now db in
      elim (Answer-cases (issue_for k.deps.sessions caller random (template id) now db).1) [
        | inl ((token, s), e) ↦ ground arith
        | inr (x, e) ↦ ground arith
      ]

  consume-links :
      (r : Request) (caller : Option Identity) (token : String) (random : Option String)
      (now signed_at user : ℕ) (db db' : Tables)
      → k.federated ≡ false
      → Links.consume db (k.deps.sessions.hash_token token) now ≡ Outcome.ok (db', user)
      → (consume k r caller token random now signed_at db).db.links ≡ db'.links
  unfolding consume allowed
  consume-links r caller token random now signed_at user db db' local spent =
      let same = sign_in-links r caller random user signed_at db' in ground arith

  -- A token opens one session at most: once the store has spent a link, whether the app then lets
  -- the user in, refuses them, or no session can be stored, every later consume of the token, after
  -- any transactions on the links that do not store its hash again, is refused as an invalid link
  -- and changes nothing. The kit is not federated.
  pub consume_spent :
      (r r' : Request) (caller caller' : Option Identity) (token : String)
      (random random' : Option String) (now signed_at later later_signed user : ℕ) (ops : List Op)
      (db db' : Tables)
      → k.federated ≡ false
      → Links.consume db (k.deps.sessions.hash_token token) now ≡ Outcome.ok (db', user)
      → All (IsOther (k.deps.sessions.hash_token token)) ops
      → now ≤ later
      → let first_use = consume k r caller token random now signed_at db in
        consume k r' caller' token random' later later_signed (run first_use.db ops)
        ≡ record { db = run first_use.db ops; cookies = []; answer = failed invalid_link }
  unfolding consume
  consume_spent r r' caller caller' token random random' now signed_at later later_signed user ops
        db db' local spent o le =
      let hash = k.deps.sessions.hash_token token in
      let used = consume k r caller token random now signed_at db in
      let dead : IsDead hash now used.db =
        subst (λ rows. any (spendable hash now) rows ≡ false)
          (sym (consume-links r caller token random now signed_at user db db' local spent))
          (consume-IsDead db db' hash user now spent) in
      let gone = run_dead used.db hash now later ops dead o le in ground arith

  -- The address of a stranger and that of an account get the same answer: whenever the lookup does
  -- not fail and the link's hash is new, Request answers ok; a stranger's request changes nothing
  -- and mails nobody.
  pub request_uniform :
      (email ip token : String) (now : ℕ) (by_user by_ip db : Tables) (who : Target)
      → lookup k email ≡ done who
      → any (λ r. r.link.token_hash == k.deps.sessions.hash_token token) db.links ≡ false
      → let asked = request k email ip (some token) now by_user by_ip db in
        (asked.answer ≡ done tt) × (who.found ≡ false → (asked.db ≡ db) × (asked.mails ≡ []))
  unfolding request answer_target issue Links.create
  request_uniform email ip token now by_user by_ip db who looked_up fresh =
      (ground arith, λ unknown. (ground arith, ground arith))

  sign_in_stored :
      (r : Request) (caller : Option Identity) (token : String) (id now : ℕ) (db : Tables)
      → any (λ t. t.token_hash == k.deps.sessions.hash_token token) db.sessions ≡ false
      → (sign_in k r caller (some token) id now db).answer ≡ done (id, token)
  unfolding sign_in issue_cookie_for
  sign_in_stored r caller token id now db fresh =
      let m = k.deps.sessions in
      let row : Session = record (template id) {
        token_hash = m.hash_token token;
        created_at = now;
        last_used_at = now;
        expires_at = now + m.cfg.session_ttl;
      } in
      let (db', made, _) = find-create db row (m.hash_token token) (inl (refl, refl)) fresh in
      let stored =
        issue_for-create m caller (template id) row (record row { id = db.next_session }) token now
          db db' (stamped_login m caller (template id) token now refl) made in
      ground arith

  -- The mail signs its reader in: a request for an account within the limits mails one link to the
  -- address that was looked up, and the consume of its token before the link expires answers the
  -- account and the token of a new session. The kit is not federated, the app still allows the
  -- account, and both hashes are new.
  pub consume-request :
      (email ip token session_token : String) (who : Target) (now at signed_at : ℕ)
      (by_user by_ip db : Tables) (r : Request) (caller : Option Identity)
      → k.federated ≡ false
      → lookup k email ≡ done who
      → who.found ≡ true
      → within_limits k who ip now by_user by_ip ≡ true
      → any (λ row. row.link.token_hash == k.deps.sessions.hash_token token) db.links ≡ false
      → any (λ s. s.token_hash == k.deps.sessions.hash_token session_token) db.sessions ≡ false
      → k.deps.allow who.user_id ≡ some true
      → at < now + k.ttl
      → let asked = request k email ip (some token) now by_user by_ip db in
        (asked.mails ≡ (who.email, k.deps.build_link token) ∷ [])
        × ((consume k r caller token (some session_token) at signed_at asked.db).answer
            ≡ done (who.user_id, session_token))
  unfolding request answer_target issue consume allowed
  consume-request email ip token session_token who now at signed_at by_user by_ip db r caller local
        looked_up known under fresh fresh_session eligible in_time =
      let link = link_for k who ip token now in
      let (db', stored, _, usable) = create_supersedes db link at fresh in
      let (db'', spent) = usable in_time in
      let kept : db''.sessions ≡ db.sessions =
        consume-sessions db' db'' link.token_hash who.user_id at spent
        ∙ create-sessions db db' link stored in
      let opened = sign_in_stored r caller session_token who.user_id signed_at db'' (
        subst
          (λ rows. any (λ s. s.token_hash == k.deps.sessions.hash_token session_token) rows ≡ false)
          (sym kept) fresh_session) in
      (ground arith, ground arith)
