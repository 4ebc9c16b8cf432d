-- ===== src/Oidc/Exchange/Once.antt =====
-- What an exchange of oidc/handlers.go opens.
use porte.Base.{
  ℕ, ◌≤◌, String, Option, some, ◌≡◌, ap, ◌∙◌, inl, inr, string_eq, nat_eq, ltb, Bool-cases,
  Option-cases, arith, first,
}
use porte.Pg.Tables.{Session, LoginCode, Tables, Outcome, code_consumed}
use porte.Pg.Linking.Matching.{Outcome-cases}
use porte.Pg.Codes
use porte.Pg.Codes.Exchange.{consume_replayed}
use porte.Session.Manager.{Identity, Answer, issue_for}
use porte.Session.Serving.{Answer-cases}
use porte.Session.Issuing.{issue_for-tables}
use porte.Oidc.Kit.{Kit}
use porte.Oidc.Callback.{unauthorized, issued, template}
use porte.Oidc.Exchange.{no_change, answer_session, lookup_of, code_expired, handle_exchange}

module _ (k : Kit) where
  answer_session-issued :
      (caller : Option Identity) (random : Option String) (bound : Session) (now : ℕ) (db : Tables)
      (user : ℕ) (token : String)
      → (answer_session k caller random bound now db).reply ≡ issued user token
      → (s : Session) × ((issue_for k.sessions caller random bound now db).1 ≡ Answer.ok (token, s))
        × (bound.user_id ≡ user)
  unfolding answer_session
  answer_session-issued caller random bound now db user token h =
      elim (Answer-cases (issue_for k.sessions caller random bound now db).1) [
        | inl ((t, s), made) ↦
            let same : t ≡ token = ground arith in
            let owner : bound.user_id ≡ user = ground arith in (s, ground arith, owner)
        | inr (e, refused) ↦ absurd (ground arith)
      ]

  answer_session-codes :
      (caller : Option Identity) (random : Option String) (bound : Session) (now : ℕ) (db : Tables)
      → (answer_session k caller random bound now db).db.codes ≡ db.codes
  unfolding answer_session
  answer_session-codes caller random bound now db =
      (issue_for-tables k.sessions caller random bound now db).2

  consume-codes :
      (db db' : Tables) (hash : String) (later : ℕ)
      → db'.codes ≡ db.codes
      → Codes.consume db hash later ≡ Outcome.err code_consumed
      → Codes.consume db' hash later ≡ Outcome.err code_consumed
  unfolding Codes.consume Codes.why_it_failed
  consume-codes db db' hash later same h =
      elim (Option-cases (first (Codes.unspent hash) db.codes)) [
        | inl none_left ↦ ground arith
        | inr (row, there) ↦ absurd (ground arith)
      ]

  -- What an exchange that answers a token found: a code that is not expired, spent by it.
  exchange_found :
      (code verifier : String) (caller : Option Identity) (random : Option String) (now : ℕ)
      (db : Tables) (user : ℕ) (token : String)
      → (handle_exchange k code verifier caller random now db).reply ≡ issued user token
      → (lookup : String) × (lookup_of k code verifier ≡ some lookup)
        × ((db' : Tables) × ((c : LoginCode) × (Codes.consume db (k.sessions.hash_token lookup) now
                ≡ Outcome.ok (db', c))
              × (now ≤ c.expires_at)
              × (handle_exchange k code verifier caller random now db
                  ≡ answer_session k caller random
                      (template c.user_id c.provider c.subject)
                      now
                      db')))
  unfolding handle_exchange code_expired
  exchange_found code verifier caller random now db user token h =
      elim (Option-cases (lookup_of k code verifier)) [
        | inl unfit ↦ absurd (ground arith)
        | inr (lookup, fit) ↦
            elim (Outcome-cases (Codes.consume db (k.sessions.hash_token lookup) now)) [
              | inr (e, missing) ↦ absurd (ground arith)
              | inl ((db', c), there) ↦ elim (Bool-cases (ltb c.expires_at now)) [
                | inl late ↦ absurd (ground arith)
                | inr in_time ↦ (lookup, fit, (db', (c, there, ground arith, ground arith)))
              ]
            ]
      ]

  -- A code opens one session at most: after an exchange that answers a token, every exchange of the
  -- same code and verifier is refused and changes nothing, whatever the time.
  pub exchange_replayed :
      (code verifier : String) (caller caller' : Option Identity) (random random' : Option String)
      (now later : ℕ) (db : Tables) (user : ℕ) (token : String)
      → let out = handle_exchange k code verifier caller random now db in
        out.reply ≡ issued user token
        → handle_exchange k code verifier caller' random' later out.db
          ≡ no_change out.db unauthorized
  unfolding handle_exchange
  exchange_replayed code verifier caller caller' random random' now later db user token h =
      let (lookup, fit, (db', (c, there, in_time, same))) =
        exchange_found code verifier caller random now db user token h in
      let out = handle_exchange k code verifier caller random now db in
      let kept : out.db.codes ≡ db'.codes =
        ap (λ a. a.db.codes) same
        ∙ answer_session-codes caller random (template c.user_id c.provider c.subject) now db' in
      let spent =
        consume-codes db' out.db (k.sessions.hash_token lookup) later kept
          (consume_replayed db db' (k.sessions.hash_token lookup) c now later there).1 in
      ground arith
