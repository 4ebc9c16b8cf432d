-- ===== src/Oidc/Callback/Answering.antt =====
-- What a completed flow proves: the provider's answer to its code.
use porte.Base.{
  String, some, subst, ◌≡◌, refl, ap, ◌∙◌, ◌⊎◌, inl, inr, string_eq, nat_eq, beq_iff, Option-cases,
  arith,
}
use porte.Pg.Tables.{TokenSet}
use porte.Pg.Linking.{Claims}
use porte.Oidc.Flow.{Flow}
use porte.Oidc.Claims.{
  IdToken, Asserted, RawClaims, email_trusted, normalize_email, claims_from_id_token, asserted_by,
  roles_claim, extra_claims,
}
use porte.Oidc.Kit.{Kit, Token}
use porte.Oidc.Callback.{Flowed, Trouble, completed, stopped, complete_flow}

pub Flowed-cases :
    (f : Flowed)
    → ((a : Asserted) × ((tokens : TokenSet) × (f ≡ completed a tokens)))
      ⊎ ((why : Trouble) × (f ≡ stopped why))
Flowed-cases (completed a tokens) = inl (a, (tokens, refl))
Flowed-cases (stopped why) = inr (why, refl)

module _ (k : Kit) where
  -- A token that the provider gave for this flow: for the code under the flow's verifier, signed, and
  -- with the flow's nonce.
  abbrev pub IsAnswered : String → Flow → IdToken → Type 0
  IsAnswered code flow id =
      (token : Token) × (k.provider.exchange code flow.verifier ≡ some token)
      × ((raw : String) × (token.id_token ≡ some raw)
          × (k.provider.verify raw ≡ some id)
          × (id.nonce ≡ flow.nonce))

  -- Claims that say what the token says: its subject, its address, and that the address is verified
  -- only if the token's claim of it is trusted.
  abbrev pub IsSaidBy : IdToken → Claims → Type 0
  IsSaidBy id claims =
      (claims.provider ≡ k.cfg.base.issuer)
      × (claims.subject ≡ id.subject)
      × ((raw : RawClaims) × (id.claims ≡ some raw)
          × (claims.email ≡ normalize_email k.sessions.strings raw.email)
          × (claims.email_verified ≡ email_trusted k.cfg.trust raw.email_verified))

  claims-IsSaidBy :
      (id : IdToken) (a : Asserted)
      → claims_from_id_token k.sessions.strings k.cfg.base.issuer k.cfg.trust id ≡ some a
      → IsSaidBy id a.claims
  unfolding claims_from_id_token asserted_by
  claims-IsSaidBy id a h = elim (Option-cases id.claims) [
    | inl unread ↦ absurd (ground arith)
    | inr (raw, there) ↦ elim (Option-cases (roles_claim k.cfg.trust id)) [
      | inl no_roles ↦ absurd (ground arith)
      | inr (roles, given) ↦
          elim (Option-cases (extra_claims k.cfg.trust.extra_claims id.all_claims)) [
            | inl no_extra ↦ absurd (ground arith)
            | inr (extra, taken) ↦
                let built : asserted_by k.sessions.strings k.cfg.base.issuer k.cfg.trust id raw
                      roles extra
                    ≡ a =
                  ground arith in
                subst (λ b. IsSaidBy id b.claims) built (refl, refl, (raw, there, refl, refl))
          ]
    ]
  ]

  pub complete_flow-IsAnswered :
      (code : String) (flow : Flow) (a : Asserted) (tokens : TokenSet)
      → complete_flow k code flow ≡ completed a tokens
      → (id : IdToken) × IsAnswered code flow id × IsSaidBy id a.claims
  unfolding complete_flow
  complete_flow-IsAnswered code flow a tokens h =
      elim (Option-cases (k.provider.exchange code flow.verifier)) [
        | inl refused ↦ absurd (ground arith)
        | inr (token, given) ↦ elim (Option-cases token.id_token) [
          | inl absent ↦ absurd (ground arith)
          | inr (raw, there) ↦ elim (Option-cases (k.provider.verify raw)) [
            | inl forged ↦ absurd (ground arith)
            | inr (id, verified) ↦
                elim (Option-cases
                  (claims_from_id_token k.sessions.strings k.cfg.base.issuer k.cfg.trust id)) [
                    | inl unread ↦ absurd (ground arith)
                    | inr (b, read) ↦
                        let same : b ≡ a = ground arith in
                        (
                          id,
                          (
                            token,
                            given,
                            (raw, there, verified, ground (arith, beq_iff id.nonce flow.nonce)),
                          ),
                          claims-IsSaidBy id a (read ∙ ap some same),
                        )
                  ]
          ]
        ]
      ]
