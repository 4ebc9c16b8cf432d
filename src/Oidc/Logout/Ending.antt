-- ===== src/Oidc/Logout/Ending.antt =====
-- What a back-channel logout ends.
use porte.Base.{
  ℕ, String, List, [], ◌∷◌, Bool, true, false, not, some, ◌≡◌, ◌≢◌, refl, sym, subst, ◌⊎◌, inl, inr,
  Memᴰ, string_eq, nat_eq, ◌==◌, beq_iff, Bool-cases, Option-cases, keep, arith, first, any,
}
use porte.Base.{Memᴰ-keep, any-keep_not}
use porte.Pg.Tables.{StoredIdentity, Session, Tables, Outcome}
use porte.Pg.Linking.Matching.{Outcome-cases}
use porte.Pg.Identities
use porte.Pg.Sessions
use porte.Session.Http.{Request, credential}
use porte.Session.Manager.{Identity, Answer, jwt_applies, authenticate}
use porte.Session.Serving.{authenticate_sound}
use porte.Oidc.Claims.{IdToken}
use porte.Oidc.Kit.{Kit}
use porte.Oidc.Callback.{logged_out}
use porte.Oidc.Logout.{
  backchannel_logout_event, logout_subject, verify_logout_token, handle_backchannel_logout,
}

first_fails {ℓ} :
    {A : Type ℓ} (p q : A → Bool) (xs : List A) (x : A)
    → first p xs ≡ some x
    → any q xs ≡ false
    → q x ≡ false
first_fails p q [] x e h = absurd (cc)
first_fails p q (y ∷ ys) x e h = ground (arith, first_fails p q ys x)

found-user :
    (db : Tables) (hash : String) (s : Session) (user : ℕ)
    → Sessions.find db hash ≡ Outcome.ok s
    → any (λ t. t.user_id == user) db.sessions ≡ false
    → s.user_id ≢ user
unfolding Sessions.find
found-user db hash s user found none_left =
    let there : first (λ t. t.token_hash == hash) db.sessions ≡ some s = ground arith in
    let other =
      first_fails (λ t. t.token_hash == hash) (λ t. t.user_id == user) db.sessions s there
        none_left in
    ground (arith, beq_iff s.user_id user)

logout_subject_sound :
    (id : IdToken) (subject : String)
    → logout_subject id ≡ some subject
    → (id.nonce ≡ "")
      × (id.subject ≡ subject)
      × ((events : List String) × (id.events ≡ some events)
          × (any (λ e. e == backchannel_logout_event) events ≡ true))
unfolding logout_subject
logout_subject_sound id subject h = elim (Option-cases id.events) [
  | inl unread ↦ absurd (ground arith)
  | inr (events, there) ↦
      (ground (arith, beq_iff id.nonce ""), ground arith, (events, there, ground arith))
]

module _ (k : Kit) where
  -- A logout token that the provider signed: without a nonce, with the event, for this account.
  abbrev pub IsOrdered : String → Tables → ℕ → Type 0
  IsOrdered raw db user =
      (id : IdToken) × (k.provider.verify raw ≡ some id)
      × (id.nonce ≡ "")
      × ((events : List String) × (id.events ≡ some events)
          × (any (λ e. e == backchannel_logout_event) events ≡ true))
      × ((i : StoredIdentity) × (Identities.find db k.cfg.base.issuer id.subject ≡ Outcome.ok i)
          × (i.user_id ≡ user))

  -- It leaves the sessions alone, or ends those of one account.
  ended_by :
      (raw : String) (db : Tables)
      → ((handle_backchannel_logout k raw db).db.sessions ≡ db.sessions)
        ⊎ ((user : ℕ) × IsOrdered raw db user
            × ((handle_backchannel_logout k raw db).db.sessions
                ≡ keep (λ t. not (t.user_id == user)) db.sessions))
  unfolding handle_backchannel_logout verify_logout_token Sessions.delete_by_user
  ended_by raw db = elim (Bool-cases (raw == "")) [
    | inl blank ↦ inl (ground arith)
    | inr given ↦ elim (Option-cases (k.provider.verify raw)) [
      | inl forged ↦ inl (ground arith)
      | inr (id, verified) ↦ elim (Option-cases (logout_subject id)) [
        | inl unfit ↦ inl (ground arith)
        | inr (subject, fit) ↦ elim (Outcome-cases (Identities.find db k.cfg.base.issuer subject)) [
          | inr (e, stranger) ↦ inl (ground arith)
          | inl (i, found) ↦
              let (no_nonce, named, has_event) = logout_subject_sound id subject fit in
              inr (
                i.user_id,
                (id, verified, no_nonce, has_event, (i, rw named found, refl)),
                ground arith,
              )
        ]
      ]
    ]
  ]

  -- A back-channel logout ends nobody else's session: a session that it does not leave behind belongs
  -- to the account whose identity a verified token names, one that carries the logout event and no
  -- nonce.
  pub backchannel_logout_sound :
      (raw : String) (db : Tables) (s : Session)
      → Memᴰ s db.sessions
      → Memᴰ s (handle_backchannel_logout k raw db).db.sessions ⊎ IsOrdered raw db s.user_id
  backchannel_logout_sound raw db s mem = elim (ended_by raw db) [
    | inl same ↦ inl (subst (Memᴰ s) (sym same) mem)
    | inr (user, ordered, left) ↦ elim (Bool-cases (s.user_id == user)) [
      | inl mine ↦ inr (subst (IsOrdered raw db) (sym ((beq_iff s.user_id user).0 mine)) ordered)
      | inr other ↦ inl (
          subst (Memᴰ s) (sym left)
            (Memᴰ-keep (λ t. not (t.user_id == user)) db.sessions mem (ground arith)))
    ]
  ]

  ends_all :
      (raw subject : String) (db : Tables) (i : StoredIdentity)
      → raw ≢ ""
      → verify_logout_token k raw ≡ some subject
      → Identities.find db k.cfg.base.issuer subject ≡ Outcome.ok i
      → ((handle_backchannel_logout k raw db).reply ≡ logged_out)
        × (any (λ t. t.user_id == i.user_id) (handle_backchannel_logout k raw db).db.sessions
            ≡ false)
  unfolding handle_backchannel_logout Sessions.delete_by_user
  ends_all raw subject db i ne ordered found =
      let gone =
        any-keep_not (λ t. t.user_id == i.user_id) (λ t. not (t.user_id == i.user_id)) db.sessions
          (λ t h. ground arith) in
      (ground (arith, beq_iff raw ""), ground (arith, beq_iff raw ""))

  -- A deactivation at the provider reaches the app: after a back-channel logout whose token names an
  -- identity stored here, no request is let through as its account by a stored session; what is let
  -- through is another account's session, or a bearer token that the attached verifier judges.
  pub backchannel_logout_ends :
      (raw subject : String) (db : Tables) (i : StoredIdentity) (r : Request) (now : ℕ)
      (identity : Identity)
      → raw ≢ ""
      → verify_logout_token k raw ≡ some subject
      → Identities.find db k.cfg.base.issuer subject ≡ Outcome.ok i
      → let out = handle_backchannel_logout k raw db in
        let m = k.sessions in
        let (token, from_cookie) = credential m.strings m.cfg r in
        (authenticate m r now out.db).answer ≡ Answer.ok identity
        → (out.reply ≡ logged_out)
          × ((jwt_applies m from_cookie token ≡ true)
              ⊎ ((s : Session) × (Sessions.find out.db (m.hash_token token) ≡ Outcome.ok s)
                  × (s.user_id ≢ i.user_id)))
  backchannel_logout_ends raw subject db i r now identity ne ordered found entered =
      let out = handle_backchannel_logout k raw db in
      let (answered, gone) = ends_all raw subject db i ne ordered found in
      elim ((authenticate_sound k.sessions r now out.db identity entered).1) [
        | inl (judged, accepted, allowed) ↦ (answered, inl judged)
        | inr (stored, (s, there, live, same)) ↦
            (answered, inr (s, there, found-user out.db _ s i.user_id there gone))
      ]
