-- ===== src/Session/Serving.antt =====
-- Which requests Manager.Authenticate lets through, and what it leaves behind.
use porte.Base.{
  ℕ, ◌-◌, ◌≤◌, ◌<◌, String, [], Bool, true, false, ◌||◌, some, ◌≡◌, ◌≢◌, refl, ap, ◌∙◌, subst, ◌↔◌,
  ◌⊎◌, inl, inr, string_eq, nat_eq, beq_iff, if◌then◌else◌, Bool-cases, Option-cases, arith,
}
use porte.Pg.Tables.{Session, Tables, Outcome, Failure, not_found}
use porte.Pg.Sessions.{find}
use porte.Pg.Sessions.Revoking.{find-delete}
use porte.Session.Http.{Request, Config, idle_timeout, credential, mutating, clear_cookie}
use porte.Session.Manager.{
  Identity, Manager, Denial, Answer, ok, err, unauthorized, jwt_applies, expired, idled_out,
  scope_allows, verify_bearer_jwt, session_identity, admit, look_up, authenticate_as, authenticate,
}

-- Past neither its expiry nor, in a cookie, the idle window.
abbrev pub IsLive : Config → Bool → Session → ℕ → Type 0
IsLive c from_cookie s now =
    ((s.expires_at ≡ 0) ⊎ (now ≤ s.expires_at))
    × ((from_cookie ≡ false)
        ⊎ (idle_timeout c ≡ 0)
        ⊎ (s.last_used_at ≡ 0)
        ⊎ (now - s.last_used_at < idle_timeout c))

live_expiry :
    (c : Config) (from_cookie : Bool) (s : Session) (now : ℕ)
    → (expired s now || idled_out c s from_cookie now) ≡ false
    → (s.expires_at ≡ 0) ⊎ (now ≤ s.expires_at)
unfolding expired
live_expiry c from_cookie s now h = ground arith

live_idle :
    (c : Config) (from_cookie : Bool) (s : Session) (now : ℕ)
    → (expired s now || idled_out c s from_cookie now) ≡ false
    → (from_cookie ≡ false)
      ⊎ (idle_timeout c ≡ 0)
      ⊎ (s.last_used_at ≡ 0)
      ⊎ (now - s.last_used_at < idle_timeout c)
unfolding expired idled_out
live_idle c from_cookie s now h = ground arith

pub IsLive-iff :
    (c : Config) (from_cookie : Bool) (s : Session) (now : ℕ)
    → ((expired s now || idled_out c s from_cookie now) ≡ false) ↔ IsLive c from_cookie s now
unfolding expired idled_out
IsLive-iff c from_cookie s now =
    (λ h. (live_expiry c from_cookie s now h, live_idle c from_cookie s now h), λ h. ground arith)

pub Answer-cases {ℓ} :
    {A : Type ℓ} (a : Answer A) → ((x : A) × (a ≡ ok x)) ⊎ ((e : Denial) × (a ≡ err e))
Answer-cases (ok x) = inl (x, refl)
Answer-cases (err e) = inr (e, refl)

Found-cases {ℓ} :
    {A : Type ℓ} (a : Outcome A)
    → ((x : A) × (a ≡ Outcome.ok x)) ⊎ ((e : Failure) × (a ≡ Outcome.err e))
Found-cases (Outcome.ok x) = inl (x, refl)
Found-cases (Outcome.err e) = inr (e, refl)

module _ (m : Manager) where
  -- The two ways in: a bearer JWT that the attached verifier accepts with a sufficient scope, or a
  -- stored session that is alive; a token that the verifier judges is never looked up.
  abbrev pub IsAdmitted : Request → String → Bool → ℕ → Tables → Identity → Type 0
  IsAdmitted r token from_cookie now db identity =
      ((jwt_applies m from_cookie token ≡ true)
        × ((verify : String → Answer Identity) × (m.jwt ≡ some verify)
            × (verify token ≡ ok identity))
        × (scope_allows m r identity.scopes ≡ true))
      ⊎ ((jwt_applies m from_cookie token ≡ false)
          × ((s : Session) × (find db (m.hash_token token) ≡ Outcome.ok s)
              × IsLive m.cfg from_cookie s now
              × (identity ≡ session_identity m s)))

  verify_sound :
      (r : Request) (token : String) (identity : Identity)
      → verify_bearer_jwt m r token ≡ ok identity
      → ((verify : String → Answer Identity) × (m.jwt ≡ some verify) × (verify token ≡ ok identity))
        × (scope_allows m r identity.scopes ≡ true)
  unfolding verify_bearer_jwt
  verify_sound r token identity h = elim (Option-cases m.jwt) [
    | inl absent ↦ absurd (ground arith)
    | inr (verify, attached) ↦ elim (Answer-cases (verify token)) [
      | inl (i, accepted) ↦
          let allowed : scope_allows m r i.scopes ≡ true = ground arith in
          let same : i ≡ identity = ground arith in
          (
            (verify, attached, accepted ∙ ap ok same),
            subst (λ j. scope_allows m r j.scopes ≡ true) same allowed,
          )
      | inr (e, rejected) ↦ absurd (ground arith)
    ]
  ]

  admit_sound :
      (r : Request) (from_cookie : Bool) (hash : String) (s : Session) (now : ℕ) (db : Tables)
      (identity : Identity)
      → (admit m r from_cookie hash s now db).answer ≡ ok identity
      → IsLive m.cfg from_cookie s now × (identity ≡ session_identity m s)
  unfolding admit
  admit_sound r from_cookie hash s now db identity h =
      elim (Bool-cases (expired s now || idled_out m.cfg s from_cookie now)) [
        | inl dead ↦ absurd (ground arith)
        | inr alive ↦ ((IsLive-iff m.cfg from_cookie s now).0 alive, ground arith)
      ]

  look_up_sound :
      (r : Request) (from_cookie : Bool) (token : String) (now : ℕ) (db : Tables)
      (identity : Identity)
      → (look_up m r from_cookie token now db).answer ≡ ok identity
      → (s : Session) × (find db (m.hash_token token) ≡ Outcome.ok s)
        × IsLive m.cfg from_cookie s now
        × (identity ≡ session_identity m s)
  unfolding look_up
  look_up_sound r from_cookie token now db identity h =
      elim (Found-cases (find db (m.hash_token token))) [
        | inl (s, found) ↦
            let (alive, same) =
              admit_sound r from_cookie (m.hash_token token) s now db identity (ground arith) in
            (s, found, alive, same)
        | inr (e, missing) ↦ absurd (ground arith)
      ]

  as_sound :
      (r : Request) (token : String) (from_cookie : Bool) (now : ℕ) (db : Tables)
      (identity : Identity)
      → (authenticate_as m r token from_cookie now db).answer ≡ ok identity
      → (from_cookie ≡ true → mutating r ≡ true → r.csrf ≢ "")
        × IsAdmitted r token from_cookie now db identity
  unfolding authenticate_as
  as_sound r token from_cookie now db identity h = (
    λ c w. ground (arith, beq_iff r.csrf ""),
    elim (Bool-cases (jwt_applies m from_cookie token)) [
      | inl applies ↦
          let (v, a) = verify_sound r token identity (ground arith) in inl (applies, v, a)
      | inr opaque ↦ inr (opaque, look_up_sound r from_cookie token now db identity (ground arith))
    ],
  )

  -- Whoever is let through presented a token; if a cookie carried it, a request that may change
  -- something also carried the CSRF header; and the token is a bearer JWT that the attached verifier
  -- accepts with a sufficient scope, or, if the verifier does not judge it, that of a stored session
  -- that is neither expired nor, in a cookie, idle for the whole window, whose user the answer
  -- names. A JWT that the verifier rejects has no second way in.
  pub authenticate_sound :
      (r : Request) (now : ℕ) (db : Tables) (identity : Identity)
      → (authenticate m r now db).answer ≡ ok identity
      → let (token, from_cookie) = credential m.strings m.cfg r in
        (from_cookie ≡ true → mutating r ≡ true → r.csrf ≢ "")
        × IsAdmitted r token from_cookie now db identity
  unfolding authenticate
  authenticate_sound r now db identity h =
      let (token, from_cookie) = credential m.strings m.cfg r in
      as_sound r token from_cookie now db identity h

  -- A stored session that is no longer alive is refused, and gone afterwards: the next lookup of its
  -- token finds nothing, and a cookie that carried it is expired.
  pub authenticate_dead :
      (r : Request) (token : String) (from_cookie : Bool) (now : ℕ) (db : Tables) (s : Session)
      → credential m.strings m.cfg r ≡ (token, from_cookie)
      → token ≢ ""
      → (from_cookie ≡ false) ⊎ (mutating r ≡ false) ⊎ (r.csrf ≢ "")
      → jwt_applies m from_cookie token ≡ false
      → find db (m.hash_token token) ≡ Outcome.ok s
      → ¬ IsLive m.cfg from_cookie s now
      → ((authenticate m r now db).answer ≡ err unauthorized)
        × (find (authenticate m r now db).db (m.hash_token token) ≡ Outcome.err not_found)
        × ((authenticate m r now db).cookies
            ≡ (if from_cookie then clear_cookie m.strings m.cfg r else []))
  unfolding authenticate look_up admit
  authenticate_dead r token from_cookie now db s c ne guarded opaque found dead =
      let (db', gone, missing) = find-delete db (m.hash_token token) s found in
      elim (Bool-cases (expired s now || idled_out m.cfg s from_cookie now)) [
        | inl over ↦ rw c (
          ground (arith, beq_iff token "", beq_iff r.csrf ""),
          ground (arith, beq_iff token "", beq_iff r.csrf ""),
          ground (arith, beq_iff token "", beq_iff r.csrf ""),
        )
        | inr alive ↦ absurd (dead ((IsLive-iff m.cfg from_cookie s now).0 alive))
      ]
