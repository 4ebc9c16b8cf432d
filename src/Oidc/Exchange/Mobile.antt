-- ===== src/Oidc/Exchange/Mobile.antt =====
-- The code of a mobile login, redeemed and intercepted.
use porte.Base.{
  ℕ, ◌+◌, ◌≤◌, String, List, [], ◌∷◌, ◌++◌, true, false, Option, none, some, ◌≡◌, ◌≢◌, refl, sym,
  ap, ◌∙◌, subst, ◌⊎◌, inl, inr, string_eq, nat_eq, ◌==◌, beq_iff, beq_refl, if◌then◌else◌,
  Bool-cases, Option-cases, arith, first, any, amend,
}
use porte.Base.{first-append, any-first, text_ne}
use porte.Base.Strings.{append}
use porte.Pg.Tables.{Session, LoginCode, CodeRow, Tables, Outcome, not_found}
use porte.Pg.Linking.Matching.{Outcome-cases}
use porte.Pg.Sessions.{while_bound, vouched}
use porte.Pg.Codes
use porte.Pg.Codes.{binding}
use porte.Session.Http.{SetCookie}
use porte.Session.Manager.{Identity}
use porte.Session.Issuing.{issue_for-vouched}
use porte.Oidc.Flow.{Flow}
use porte.Oidc.Kit.{Kit}
use porte.Oidc.Callback.{
  unauthorized, issued, to_mobile, template, bound_code, login_code, issue_mobile_code,
}
use porte.Oidc.Exchange.Texts.{size, bound_code-inj}
use porte.Oidc.Exchange.{no_change, answer_session, lookup_of, code_expired, handle_exchange}

-- The row that Codes.create stores.
abbrev stored_code : LoginCode → CodeRow
stored_code c = record {
  code = if c.provider == "" then record c { subject = "" } else c;
  consumed_at = none;
}

create-codes :
    (db db' : Tables) (c : LoginCode)
    → Codes.create db c ≡ Outcome.ok db'
    → (db'.codes ≡ db.codes ++ stored_code c ∷ [])
      × (db'.identities ≡ db.identities)
      × (db'.sessions ≡ db.sessions)
      × (any (λ r. r.code.code_hash == c.code_hash) db.codes ≡ false)
unfolding Codes.create while_bound
create-codes db db' c h = (ground arith, ground arith, ground arith, ground arith)

unspent-any :
    (rows : List CodeRow) (hash : String)
    → any (λ r. r.code.code_hash == hash) rows ≡ false
    → any (Codes.unspent hash) rows ≡ false
unspent-any [] hash h = refl
unspent-any (r ∷ rows) hash h = ground (arith, unspent-any rows hash)

-- A code that was just stored is there for its hash, and no other hash finds it.
found_code :
    (rows : List CodeRow) (c : LoginCode)
    → any (λ r. r.code.code_hash == c.code_hash) rows ≡ false
    → first (Codes.unspent c.code_hash) (rows ++ stored_code c ∷ []) ≡ some (stored_code c)
found_code rows c fresh = ground (
  arith,
  first-append (Codes.unspent c.code_hash) rows (stored_code c ∷ []),
  any-first (Codes.unspent c.code_hash) rows (unspent-any rows c.code_hash fresh),
  beq_refl c.code_hash,
)

consume-create :
    (db db' : Tables) (c : LoginCode) (now : ℕ)
    → Codes.create db c ≡ Outcome.ok db'
    → (db'' : Tables) × (Codes.consume db' c.code_hash now
        ≡ Outcome.ok (db'', (stored_code c).code))
      × (db''.identities ≡ db.identities)
      × (db''.sessions ≡ db.sessions)
unfolding Codes.consume
consume-create db db' c now h =
    let (shape, same_ids, same_sessions, fresh) = create-codes db db' c h in
    let there : first (Codes.unspent c.code_hash) db'.codes ≡ some (stored_code c) =
      ap (first (Codes.unspent c.code_hash)) shape ∙ found_code db.codes c fresh in
    (
      record db' {
        codes =
            amend (Codes.unspent c.code_hash) (λ r. record r { consumed_at = some now }) db'.codes;
      },
      ground arith,
      same_ids,
      same_sessions,
    )

consume-absent :
    (db db' : Tables) (c : LoginCode) (hash : String) (now : ℕ)
    → Codes.create db c ≡ Outcome.ok db'
    → c.code_hash ≢ hash
    → any (λ r. r.code.code_hash == hash) db.codes ≡ false
    → Codes.consume db' hash now ≡ Outcome.err not_found
unfolding Codes.consume Codes.why_it_failed
consume-absent db db' c hash now h ne fresh =
    let (shape, same_ids, same_sessions, new) = create-codes db db' c h in
    let unspent_none : first (Codes.unspent hash) db'.codes ≡ none =
      ap (first (Codes.unspent hash)) shape
      ∙ ground (
        arith,
        first-append (Codes.unspent hash) db.codes (stored_code c ∷ []),
        any-first (Codes.unspent hash) db.codes (unspent-any db.codes hash fresh),
        beq_iff c.code_hash hash,
      ) in
    let spent_none : first (λ r. r.code.code_hash == hash) db'.codes ≡ none =
      ap (first (λ r. r.code.code_hash == hash)) shape
      ∙ ground (
        arith,
        first-append (λ r. r.code.code_hash == hash) db.codes (stored_code c ∷ []),
        any-first (λ r. r.code.code_hash == hash) db.codes fresh,
        beq_iff c.code_hash hash,
      ) in
    ground arith

create-vouched :
    (db db' : Tables) (c : LoginCode)
    → Codes.create db c ≡ Outcome.ok db'
    → c.provider ≢ ""
    → vouched db (binding c) ≡ true
unfolding Codes.create while_bound vouched
create-vouched db db' c h ne = ground (arith, beq_iff c.provider "")

module _ (k : Kit) where
  -- What an exchange has to send to be answered for a mobile code: the code with the verifier of its
  -- challenge, or the code and the challenge in one text without a verifier.
  abbrev pub Unlocks : String → String → String → String → Type 0
  Unlocks code challenge sent verifier =
      ((sent ≡ code) × (k.web.s256 verifier ≡ challenge))
      ⊎ ((sent ≡ append code (append ":" challenge)) × (verifier ≡ ""))

  lookup_of-Unlocks :
      (code challenge sent verifier : String)
      → (verifier ≢ "" → size (k.web.s256 verifier) ≡ size challenge)
      → lookup_of k sent verifier ≡ some (bound_code code challenge)
      → Unlocks code challenge sent verifier
  unfolding lookup_of
  lookup_of-Unlocks code challenge sent verifier n fit = elim (Bool-cases (verifier == "")) [
    | inl none_sent ↦ inr (ground arith, (beq_iff verifier "").0 none_sent)
    | inr given ↦
        let theirs : bound_code sent (k.web.s256 verifier) ≡ bound_code code challenge =
          ground arith in
        inl (
          bound_code-inj sent code (k.web.s256 verifier) challenge (n (text_ne verifier "" given))
            theirs)
  ]

  abbrev stored_as : Session → String → String → ℕ → LoginCode
  stored_as bound code challenge now =
      login_code k (k.sessions.hash_token (bound_code code challenge)) bound now

  issued_code :
      (cookies : List SetCookie) (bound : Session) (flow : Flow) (code : String) (now : ℕ)
      (db : Tables)
      → (issue_mobile_code k cookies bound flow (some code) now db).reply
        ≡ to_mobile code flow.cli_state
      → Codes.create db (stored_as bound code flow.challenge now)
        ≡ Outcome.ok (issue_mobile_code k cookies bound flow (some code) now db).db
  unfolding issue_mobile_code
  issued_code cookies bound flow code now db h =
      elim (Outcome-cases (Codes.create db (stored_as bound code flow.challenge now))) [
        | inr (e, refused) ↦ absurd (ground arith)
        | inl (db', made) ↦ ground arith
      ]

  -- A mobile login signs in: the code that its redirect carries, redeemed in time with the verifier
  -- whose challenge the login sent, answers the fresh token, for the account of the login. The token's
  -- hash is new.
  pub exchange-issue_mobile_code :
      (cookies : List SetCookie) (bound : Session) (flow : Flow) (code verifier token : String)
      (caller : Option Identity) (now later : ℕ) (db : Tables)
      → code ≢ ""
      → verifier ≢ ""
      → lookup_of k code verifier ≡ some (bound_code code flow.challenge)
      → bound.provider ≢ ""
      → later ≤ now + k.cfg.login_code_ttl
      → any (λ s. s.token_hash == k.sessions.hash_token token) db.sessions ≡ false
      → let out = issue_mobile_code k cookies bound flow (some code) now db in
        out.reply ≡ to_mobile code flow.cli_state
        → (handle_exchange k code verifier caller (some token) later out.db).reply
          ≡ issued bound.user_id token
  unfolding handle_exchange code_expired answer_session vouched
  exchange-issue_mobile_code cookies bound flow code verifier token caller now later db given kept
        fit named in_time fresh sent =
      let c = stored_as bound code flow.challenge now in
      let out = issue_mobile_code k cookies bound flow (some code) now db in
      let made = issued_code cookies bound flow code now db sent in
      let (db'', there, same_ids, same_sessions) = consume-create db out.db c later made in
      let known = create-vouched db out.db c made named in
      let t : Session = template bound.user_id bound.provider bound.subject in
      let still : vouched db'' t ≡ true = ground arith in
      let (s, opened) = issue_for-vouched k.sessions caller t token later db'' refl still (
        subst (λ l. any (λ r. r.token_hash == k.sessions.hash_token token) l ≡ false)
          (sym same_sessions) fresh) in
      ground (arith, beq_iff code "", beq_iff bound.provider "")

  -- A code that is intercepted on its redirect is refused without its verifier, whatever text an
  -- exchange sends for it, save one: an exchange changes nothing and is refused unless it sends the
  -- code with the verifier whose challenge the login sent, or, with no verifier at all, the code, a
  -- colon and the challenge in one text, which whoever knows the public challenge can write. The text
  -- is not empty, a challenge of a verifier has the length of the login's, and what the exchange looks
  -- up does not collide with what is stored, for this code or an older one.
  pub exchange_intercepted :
      (cookies : List SetCookie) (bound : Session) (flow : Flow) (code sent verifier : String)
      (caller : Option Identity) (random : Option String) (now later : ℕ) (db : Tables)
      → sent ≢ ""
      → (verifier ≢ "" → size (k.web.s256 verifier) ≡ size flow.challenge)
      → let stored = bound_code code flow.challenge in
        ((lookup : String)
          → lookup_of k sent verifier ≡ some lookup
          → (k.sessions.hash_token stored ≡ k.sessions.hash_token lookup → stored ≡ lookup)
            × (any (λ r. r.code.code_hash == k.sessions.hash_token lookup) db.codes ≡ false))
        → let out = issue_mobile_code k cookies bound flow (some code) now db in
          out.reply ≡ to_mobile code flow.cli_state
          → Unlocks code flow.challenge sent verifier
            ⊎ (handle_exchange k sent verifier caller random later out.db
                ≡ no_change out.db unauthorized)
  unfolding handle_exchange
  exchange_intercepted cookies bound flow code sent verifier caller random now later db given n
        apart redirected =
      let c = stored_as bound code flow.challenge now in
      let out = issue_mobile_code k cookies bound flow (some code) now db in
      let made = issued_code cookies bound flow code now db redirected in
      elim (Option-cases (lookup_of k sent verifier)) [
        | inl unfit ↦ inr (ground (arith, beq_iff sent ""))
        | inr (lookup, fit) ↦ elim (Bool-cases (lookup == bound_code code flow.challenge)) [
          | inl same ↦ inl (
              lookup_of-Unlocks code flow.challenge sent verifier n
                (fit ∙ ap some ((beq_iff lookup (bound_code code flow.challenge)).0 same)))
          | inr other ↦
              let differ = text_ne lookup (bound_code code flow.challenge) other in
              let (no_collision, fresh) = apart lookup fit in
              let missing =
                consume-absent db out.db c (k.sessions.hash_token lookup) later made
                  (λ e. differ (sym (no_collision e))) fresh in
              inr (ground (arith, beq_iff sent ""))
        ]
      ]
