-- ===== src/Oidc/Exchange/Device.antt =====
-- The device exchange: whose session it opens, and what it leaves alone.
use porte.Base.{
  ℕ, String, Option, some, ◌≡◌, ◌≢◌, sym, ap, ◌∙◌, subst, ◌⊎◌, inl, inr, Memᴰ, string_eq, nat_eq,
  ◌==◌, beq_iff, Bool-cases, Option-cases, arith,
}
use porte.Pg.Tables.{StoredIdentity, Session, Tables, Outcome}
use porte.Pg.Linking.Matching.{Outcome-cases}
use porte.Pg.Identities
use porte.Session.Manager.{Identity, issue_for}
use porte.Session.Issuing.{issue_for-tables, issue_for-sessions}
use porte.Oidc.Kit.{Kit, TokenClaims}
use porte.Oidc.Callback.{template}
use porte.Oidc.Exchange.{verify_jwt, answer_session, handle_device_exchange}

-- The account that an access token names here: the provider's verifier accepts the token, and its
-- subject holds an identity of the account.
abbrev pub IsNamed : (String → Option TokenClaims) → String → Tables → String → ℕ → Type 0
IsNamed tokens issuer db raw user =
    (claims : TokenClaims) × (tokens raw ≡ some claims)
    × (claims.subject ≢ "")
    × (user ≢ 0)
    × ((i : StoredIdentity) × (Identities.find db issuer claims.subject ≡ Outcome.ok i)
        × (i.user_id ≡ user))

verify_jwt-IsNamed :
    (tokens : String → Option TokenClaims) (issuer : String) (db : Tables) (raw : String)
    (identity : Identity)
    → verify_jwt tokens issuer db raw ≡ some identity
    → IsNamed tokens issuer db raw identity.user_id
unfolding verify_jwt
verify_jwt-IsNamed tokens issuer db raw identity h = elim (Option-cases (tokens raw)) [
  | inl forged ↦ absurd (ground arith)
  | inr (claims, accepted) ↦ elim (Outcome-cases (Identities.find db issuer claims.subject)) [
    | inr (e, stranger) ↦ absurd (ground arith)
    | inl (i, found) ↦
        let owner : i.user_id ≡ identity.user_id = ground arith in
        (
          claims,
          accepted,
          ground (arith, beq_iff claims.subject ""),
          ground arith,
          (i, found, owner),
        )
  ]
]

module _ (k : Kit) where
  answer_session-tables :
      (caller : Option Identity) (random : Option String) (bound : Session) (now : ℕ) (db : Tables)
      → let out = (answer_session k caller random bound now db).db in
        (out.users ≡ db.users) × (out.identities ≡ db.identities)
  unfolding answer_session
  answer_session-tables caller random bound now db =
      let kept = issue_for-tables k.sessions caller random bound now db in (kept.0, kept.1)

  -- What a device exchange did: nothing, or it asked for a session of the account that the token names.
  exchanged :
      (raw : String) (caller : Option Identity) (random : Option String) (now : ℕ) (db : Tables)
      → ((handle_device_exchange k raw caller random now db).db ≡ db)
        ⊎ ((tokens : String → Option TokenClaims) × (k.cli_tokens ≡ some tokens)
            × ((bound : Session) × IsNamed tokens k.cfg.base.issuer db raw bound.user_id
                × ((handle_device_exchange k raw caller random now db).db
                    ≡ (issue_for k.sessions caller random bound now db).0)))
  unfolding handle_device_exchange answer_session
  exchanged raw caller random now db = elim (Option-cases k.cli_tokens) [
    | inl unset ↦ inl (ground arith)
    | inr (tokens, armed) ↦ elim (Bool-cases (raw == "")) [
      | inl blank ↦ inl (ground arith)
      | inr given ↦ elim (Option-cases (verify_jwt tokens k.cfg.base.issuer db raw)) [
        | inl refused ↦ inl (ground arith)
        | inr (identity, named) ↦ inr (
          tokens,
          armed,
          (
            template identity.user_id k.cfg.base.issuer identity.subject,
            verify_jwt-IsNamed tokens k.cfg.base.issuer db raw identity named,
            ground arith,
          ),
        )
      ]
    ]
  ]

  -- A device exchange creates no account and no identity, and a session that it adds is one of the
  -- account that already holds the verified token's subject.
  pub device_exchange_sound :
      (raw : String) (caller : Option Identity) (random : Option String) (now : ℕ) (db : Tables)
      (s : Session)
      → let out = (handle_device_exchange k raw caller random now db).db in
        Memᴰ s out.sessions
        → (out.users ≡ db.users)
          × (out.identities ≡ db.identities)
          × (Memᴰ s db.sessions
              ⊎ ((tokens : String → Option TokenClaims) × (k.cli_tokens ≡ some tokens)
                  × IsNamed tokens k.cfg.base.issuer db raw s.user_id))
  device_exchange_sound raw caller random now db s mem = elim (exchanged raw caller random now db) [
    | inl same ↦ (
      ap (λ t. t.users) same,
      ap (λ t. t.identities) same,
      inl (subst (λ t. Memᴰ s t.sessions) same mem),
    )
    | inr (tokens, armed, (bound, named, same)) ↦
        let kept = issue_for-tables k.sessions caller random bound now db in
        (
          ap (λ t. t.users) same ∙ kept.0,
          ap (λ t. t.identities) same ∙ kept.1,
          elim (issue_for-sessions k.sessions caller random bound s now db
              (subst (λ t. Memᴰ s t.sessions) same mem)) [
                | inl old ↦ inl old
                | inr (token, given, owner, hashed) ↦ inr (
                  tokens,
                  armed,
                  subst (IsNamed tokens k.cfg.base.issuer db raw) (sym owner) named,
                )
              ],
        )
  ]
