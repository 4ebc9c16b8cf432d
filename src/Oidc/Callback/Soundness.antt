-- ===== src/Oidc/Callback/Soundness.antt =====
-- What a callback of the provider needs before it opens anything.
use porte.Base.{
  ℕ, String, List, Option, none, some, ◌≡◌, ◌≢◌, refl, sym, ap, ◌∙◌, subst, ◌⊎◌, inl, inr, Memᴰ,
  string_eq, nat_eq, ◌==◌, beq_iff, Bool-cases, Option-cases, arith,
}
use porte.Pg.Tables.{TokenSet, Session, LoginCode, Tables, Outcome}
use porte.Pg.Linking.{Claims, upsert_from_oidc}
use porte.Pg.Linking.Matching.{Outcome-cases}
use porte.Pg.Linking.Sparing.{upsert-Memᴰ}
use porte.Pg.Identities
use porte.Pg.Identities.Accounts.{save-sessions}
use porte.Pg.Sessions.{while_bound}
use porte.Pg.Codes
use porte.Session.Http.{Request, SetCookie}
use porte.Session.Manager.{Identity, issue_for, issue_cookie_for}
use porte.Session.Issuing.{issue_for-sessions}
use porte.Oidc.Flow.{Flow, decode_flow, read_flow, clear_flow}
use porte.Oidc.Claims.{IdToken, Asserted}
use porte.Oidc.Kit.{Kit}
use porte.Oidc.Callback.{
  completed, complete_flow, sync_avatar, recorded, persist, template, finish, conclude,
  issue_login_code, issue_mobile_code, land, handle_callback,
}
use porte.Oidc.Callback.Answering.{Flowed-cases, IsAnswered, IsSaidBy, complete_flow-IsAnswered}

code-sessions :
    (db db' : Tables) (c : LoginCode)
    → Codes.create db c ≡ Outcome.ok db'
    → db'.sessions ≡ db.sessions
unfolding Codes.create while_bound
code-sessions db db' c h = ground arith

some-none {ℓ} : {A : Type ℓ} {x : A} → some x ≢ none
some-none e = absurd (cc)

some-user :
    (user : ℕ) (provider subject : String) (bound : Session)
    → some (template user provider subject) ≡ some bound
    → user ≡ bound.user_id
some-user user provider subject bound e = ground arith

module _ (k : Kit) where
  -- The account that an upsert of what the token says lands on.
  abbrev pub IsLanded : Tables → IdToken → ℕ → Type 0
  IsLanded db id user =
      (claims : Claims) × IsSaidBy k id claims
      × ((db' : Tables) × (upsert_from_oidc k.sessions.strings db claims ≡ Outcome.ok (db', user)))

  persist_sound :
      (id : IdToken) (a : Asserted) (tokens : TokenSet) (now : ℕ) (db : Tables) (s : Session)
      → (Memᴰ s (persist k a tokens now db).0.sessions → Memᴰ s db.sessions)
        × ((bound : Session)
            → (persist k a tokens now db).1 ≡ some bound
            → IsSaidBy k id a.claims
            → IsLanded db id bound.user_id)
  unfolding persist
  persist_sound id a tokens now db s =
      let claims = record (a.claims) { avatar_url = sync_avatar k a } in
      elim (Outcome-cases (upsert_from_oidc k.sessions.strings db claims)) [
        | inr (e, refused) ↦
            let same : (persist k a tokens now db).0 ≡ db = ground arith in
            let nothing : (persist k a tokens now db).1 ≡ none = ground arith in
            (
              λ mem. subst (λ t. Memᴰ s t.sessions) same mem,
              λ bound h p. absurd (some-none (sym h ∙ nothing)),
            )
        | inl ((db', user), landed) ↦
            elim (Outcome-cases (Identities.save db' (recorded k a tokens user now))) [
              | inr (e, refused) ↦
                  let same : (persist k a tokens now db).0 ≡ db' = ground arith in
                  let nothing : (persist k a tokens now db).1 ≡ none = ground arith in
                  (
                    λ mem.
                        upsert-Memᴰ k.sessions.strings db db' claims user s landed
                          (subst (λ t. Memᴰ s t.sessions) same mem),
                    λ bound h p. absurd (some-none (sym h ∙ nothing)),
                  )
              | inl (db'', saved) ↦
                  let same : (persist k a tokens now db).0 ≡ db'' = ground arith in
                  let made : (persist k a tokens now db).1
                      ≡ some (template user a.claims.provider a.claims.subject) =
                    ground arith in
                  (
                    λ mem. upsert-Memᴰ k.sessions.strings db db' claims user s landed (
                        subst (Memᴰ s) (save-sessions db' db'' (recorded k a tokens user now) saved)
                          (subst (λ t. Memᴰ s t.sessions) same mem)),
                    λ bound h p.
                        let owner =
                          some-user user a.claims.provider a.claims.subject bound (sym made ∙ h) in
                        (claims, p, (db', landed ∙ ap (λ u. Outcome.ok (db', u)) owner)),
                  )
            ]
      ]

  code_flow-sessions :
      (cookies : List SetCookie) (bound : Session) (flow : Flow) (random : Option String) (now : ℕ)
      (db : Tables)
      → ((issue_login_code k cookies bound flow random now db).db.sessions ≡ db.sessions)
        × ((issue_mobile_code k cookies bound flow random now db).db.sessions ≡ db.sessions)
  unfolding issue_login_code issue_mobile_code Codes.create while_bound
  code_flow-sessions cookies bound flow none now db = (refl, refl)
  code_flow-sessions cookies bound flow (some code) now db = (ground arith, ground arith)

  conclude-sessions :
      (r : Request) (cookies : List SetCookie) (caller : Option Identity) (flow : Flow)
      (bound : Session) (random : Option String) (now : ℕ) (db : Tables) (s : Session)
      → Memᴰ s (conclude k r cookies caller flow bound random now db).db.sessions
      → Memᴰ s db.sessions ⊎ (s.user_id ≡ bound.user_id)
  unfolding conclude land issue_cookie_for
  conclude-sessions r cookies caller flow bound random now db s mem =
      let (by_login, by_mobile) = code_flow-sessions cookies bound flow random now db in
      let out = conclude k r cookies caller flow bound random now db in
      elim (Bool-cases flow.is_cli) [
        | inl cli ↦
            let same : out.db.sessions ≡ db.sessions = ground arith in inl (subst (Memᴰ s) same mem)
        | inr no_cli ↦ elim (Bool-cases flow.is_mobile) [
          | inl mobile ↦
              let same : out.db.sessions ≡ db.sessions = ground arith in
              inl (subst (Memᴰ s) same mem)
          | inr browser ↦
              let same : out.db ≡ (issue_for k.sessions caller random bound now db).0 =
                ground arith in
              elim (issue_for-sessions k.sessions caller random bound s now db
                (subst (λ t. Memᴰ s t.sessions) same mem)) [
                  | inl old ↦ inl old
                  | inr (token, given, owner, hashed) ↦ inr owner
                ]
        ]
      ]

  finish-sessions :
      (r : Request) (cookies : List SetCookie) (caller : Option Identity) (flow : Flow)
      (random : Option String) (now : ℕ) (out : Tables × Option Session) (s : Session)
      → Memᴰ s (finish k r cookies caller flow random now out).db.sessions
      → Memᴰ s out.0.sessions
        ⊎ ((bound : Session) × (out.1 ≡ some bound) × (s.user_id ≡ bound.user_id))
  finish-sessions r cookies caller flow random now (db, none) s mem = inl mem
  finish-sessions r cookies caller flow random now (db, some bound) s mem =
      elim (conclude-sessions r cookies caller flow bound random now db s mem) [
        | inl old ↦ inl old
        | inr owner ↦ inr (bound, refl, owner)
      ]

  -- The flow that a request proves: the one in its cookie, under the state of its query.
  abbrev pub IsPending : Request → String → Flow → Type 0
  IsPending r state flow =
      (encoded : String) × (read_flow k.sessions.strings k.sessions.cfg r ≡ some encoded)
      × (decode_flow k.web encoded ≡ some flow)
      × (flow.state ≡ state)

  -- What a callback did to the sessions: nothing, or a flow that its request proves was completed.
  called_back :
      (r : Request) (state code : String) (caller : Option Identity) (random : Option String)
      (now : ℕ) (db : Tables)
      → let out = handle_callback k r state code caller random now db in
        (out.db ≡ db)
        ⊎ ((flow : Flow) × IsPending r state flow
            × ((a : Asserted) × ((tokens : TokenSet) × (complete_flow k code flow
                    ≡ completed a tokens)
                  × (out
                      ≡ finish k r
                          (clear_flow k.sessions.strings k.sessions.cfg r)
                          caller
                          flow
                          random
                          now
                          (persist k a tokens now db)))))
  unfolding handle_callback
  called_back r state code caller random now db =
      elim (Option-cases (read_flow k.sessions.strings k.sessions.cfg r)) [
        | inl missing ↦ inl (ground arith)
        | inr (encoded, sent) ↦ elim (Option-cases (decode_flow k.web encoded)) [
          | inl garbled ↦ inl (ground arith)
          | inr (flow, decoded) ↦ elim (Bool-cases (flow.state == state)) [
            | inr other ↦ inl (ground arith)
            | inl mine ↦ elim (Flowed-cases (complete_flow k code flow)) [
              | inr (why, failed) ↦ inl (ground arith)
              | inl (a, (tokens, complete)) ↦ inr (
                flow,
                (encoded, sent, decoded, (beq_iff flow.state state).0 mine),
                (a, (tokens, complete, ground arith)),
              )
            ]
          ]
        ]
      ]

  -- Nobody is signed in by somebody else's login: a session that a callback adds needs a cookie of
  -- this browser whose flow has the state of the query, a code that the provider exchanges under the
  -- flow's verifier, and a signed token with the flow's nonce; and its account is the one that the
  -- upsert lands on, of claims with that token's subject and address, verified only if the token's
  -- own claim of it is trusted.
  pub callback_sound :
      (r : Request) (state code : String) (caller : Option Identity) (random : Option String)
      (now : ℕ) (db : Tables) (s : Session)
      → Memᴰ s (handle_callback k r state code caller random now db).db.sessions
      → Memᴰ s db.sessions
        ⊎ ((flow : Flow) × IsPending r state flow
            × ((id : IdToken) × IsAnswered k code flow id × IsLanded db id s.user_id))
  callback_sound r state code caller random now db s mem =
      elim (called_back r state code caller random now db) [
        | inl same ↦ inl (subst (λ t. Memᴰ s t.sessions) same mem)
        | inr (flow, proven, (a, (tokens, complete, same))) ↦
            let (id, answered, said) = complete_flow-IsAnswered k code flow a tokens complete in
            let (kept, landed) = persist_sound id a tokens now db s in
            elim (finish-sessions r (clear_flow k.sessions.strings k.sessions.cfg r) caller flow
              random now (persist k a tokens now db) s
              (subst (λ d. Memᴰ s d.db.sessions) same mem)) [
                | inl old ↦ inl (kept old)
                | inr (bound, made, owner) ↦ inr (
                  flow,
                  proven,
                  (id, answered, subst (IsLanded db id) (sym owner) (landed bound made said)),
                )
              ]
      ]
