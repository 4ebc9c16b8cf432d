-- ===== src/Oidc/Jwt/Accepting.antt =====
-- What a token needs to be accepted.
use porte.Base.{
  ℕ, String, List, [], ◌∷◌, Bool, true, false, Option, some, ◌≡◌, refl, sym, ap, ◌∙◌, ◌⊎◌, inl, inr,
  string_eq, nat_eq, ◌==◌, beq_iff, Bool-cases, Option-cases, arith, any,
}
use porte.Base.Int.{pos, ◌+ℤ◌, ltb_ℤ}
use porte.Base.Strings.{split_at, append}
use porte.Oidc.Jwt.{
  Config, Header, Payload, Claims, Jwk, PublicKey, Codec, Verifier, Fault, Result, ok, err, leeway,
  held, is_stale, take_refetch_slot, fetch, after_fetch, key, verify_signature, unix,
  within_validity, claims_of, judge, verify_parts, verify,
}

Result-cases {ℓ} :
    {A : Type ℓ} (r : Result A) → ((x : A) × (r ≡ ok x)) ⊎ ((e : Fault) × (r ≡ err e))
Result-cases (ok x) = inl (x, refl)
Result-cases (err e) = inr (e, refl)

module _ (c : Codec) where
  -- A payload of the configured issuer for the configured audience, within its times.
  pub record IsFit (cfg : Config) (now : ℕ) (body : String) (claims : Claims) : Type 0 where
    pub raw : List ℕ
    pub payload : Payload
    pub decoded : c.decode body ≡ some raw
    pub parsed : c.payload raw ≡ some payload
    pub issuer : payload.issuer ≡ cfg.issuer
    pub audience : any (λ a. a == cfg.audience) payload.audience ≡ true
    pub unexpired : ltb_ℤ (unix c payload.expires_at +ℤ leeway) (pos now) ≡ false
    pub answered : claims_of c payload ≡ claims

  judge-IsFit :
      (cfg : Config) (now : ℕ) (body : String) (claims : Claims)
      → judge c cfg now body ≡ ok claims
      → IsFit cfg now body claims
  unfolding judge within_validity
  judge-IsFit cfg now body claims h = elim (Option-cases (c.decode body)) [
    | inl garbled ↦ absurd (ground arith)
    | inr (raw, decoded) ↦ elim (Option-cases (c.payload raw)) [
      | inl unparsed ↦ absurd (ground arith)
      | inr (p, parsed) ↦ record {
        raw = raw;
        payload = p;
        decoded = decoded;
        parsed = parsed;
        issuer = ground (arith, beq_iff p.issuer cfg.issuer);
        audience = ground arith;
        unexpired = ground arith;
        answered = ground arith;
      }
    ]
  ]

  -- A signature over the first two segments, with the algorithm that is accepted, by a key of the
  -- provider's set.
  pub record IsSigned (v : Verifier) (head body signature : String) : Type 0 where
    pub header : Header
    pub raw : List ℕ
    pub key : PublicKey
    pub bytes : List ℕ
    pub decoded : c.decode head ≡ some raw
    pub parsed : c.header raw ≡ some header
    pub algorithm : header.alg ≡ "RS256"
    pub published : held c v header.kid ≡ some key
    pub sealed : c.decode signature ≡ some bytes
    pub signed : c.is_signed key (append head (append "." body)) bytes ≡ true

  after_fetch-held :
      (out : Verifier × Bool) (kid : String) (k : PublicKey)
      → (after_fetch c out kid).1 ≡ ok k
      → held c (after_fetch c out kid).0 kid ≡ some k
  after_fetch-held (v, false) kid k h = absurd (ground arith)
  after_fetch-held (v, true) kid k h = elim (Option-cases (held c v kid)) [
    | inl missing ↦ absurd (ground arith)
    | inr (found, there) ↦ ground arith
  ]

  key-held :
      (v : Verifier) (kid : String) (answer : Option (List Jwk)) (now : ℕ) (k : PublicKey)
      → (key c v kid answer now).1 ≡ ok k
      → held c (key c v kid answer now).0 kid ≡ some k
  unfolding key
  key-held v kid answer now k h = elim (Bool-cases (is_stale v now)) [
    | inl stale ↦
        let same : key c v kid answer now ≡ after_fetch c (fetch c v answer now) kid =
          ground arith in
        ap (λ o. held c o.0 kid) same
        ∙ after_fetch-held (fetch c v answer now) kid k (ap (λ o. o.1) (sym same) ∙ h)
    | inr current ↦ elim (Option-cases (held c v kid)) [
      | inr (found, there) ↦
          let same : key c v kid answer now ≡ (v, ok found) = ground arith in
          let mine : found ≡ k = ground arith in
          ap (λ o. held c o.0 kid) same ∙ there ∙ ap some mine
      | inl missing ↦ elim (Bool-cases (take_refetch_slot v now).1) [
        | inr spent ↦ absurd (ground arith)
        | inl taken ↦
            let v' = (take_refetch_slot v now).0 in
            let same : key c v kid answer now ≡ after_fetch c (fetch c v' answer now) kid =
              ground arith in
            ap (λ o. held c o.0 kid) same
            ∙ after_fetch-held (fetch c v' answer now) kid k (ap (λ o. o.1) (sym same) ∙ h)
      ]
    ]
  ]

  verify_signature-IsSigned :
      (v : Verifier) (head body signature : String) (answer : Option (List Jwk)) (now : ℕ)
      → (verify_signature c v head body signature answer now).1 ≡ ok tt
      → IsSigned (verify_signature c v head body signature answer now).0 head body signature
  unfolding verify_signature
  verify_signature-IsSigned v head body signature answer now h =
      elim (Option-cases (c.decode head)) [
        | inl garbled ↦ absurd (ground arith)
        | inr (raw, decoded) ↦ elim (Option-cases (c.header raw)) [
          | inl unparsed ↦ absurd (ground arith)
          | inr (header, parsed) ↦ elim (Result-cases (key c v header.kid answer now).1) [
            | inr (e, no_key) ↦ absurd (ground arith)
            | inl (k, found) ↦ elim (Option-cases (c.decode signature)) [
              | inl unsealed ↦ absurd (ground arith)
              | inr (bytes, sealed) ↦
                  let same : (verify_signature c v head body signature answer now).0
                      ≡ (key c v header.kid answer now).0 =
                    ground arith in
                  record {
                    header = header;
                    raw = raw;
                    key = k;
                    bytes = bytes;
                    decoded = decoded;
                    parsed = parsed;
                    algorithm = ground (arith, beq_iff header.alg "RS256");
                    published =
                        ap (λ u. held c u header.kid) same
                        ∙ key-held v header.kid answer now k found;
                    sealed = sealed;
                    signed = ground arith;
                  }
            ]
          ]
        ]
      ]

  parts_sound :
      (v : Verifier) (head : String) (rest : List String) (answer : Option (List Jwk)) (now : ℕ)
      (claims : Claims)
      → (verify_parts c v head rest answer now).1 ≡ ok claims
      → (body : String) × ((signature : String) × (rest ≡ body ∷ signature ∷ [])
          × IsSigned (verify_parts c v head rest answer now).0 head body signature
          × IsFit v.cfg now body claims)
  parts_sound v head [] answer now claims h = absurd (ground arith)
  parts_sound v head (body ∷ []) answer now claims h = absurd (ground arith)
  parts_sound v head (body ∷ signature ∷ x ∷ more) answer now claims h = absurd (ground arith)
  parts_sound v head (body ∷ signature ∷ []) answer now claims h =
      elim (Result-cases (verify_signature c v head body signature answer now).1) [
        | inr (e, unsigned) ↦ absurd (ground arith)
        | inl (tt, signed) ↦ (
          body,
          (
            signature,
            refl,
            verify_signature-IsSigned v head body signature answer now signed,
            judge-IsFit v.cfg now body claims (ground arith),
          ),
        )
      ]

  -- A token is accepted only with three segments, the first two signed by a key of the provider's set
  -- under RS256, and a payload of the configured issuer, for the configured audience, that has not been
  -- expired for longer than the leeway; the answer is the payload's claims.
  pub verify_sound :
      (v : Verifier) (token : String) (answer : Option (List Jwk)) (now : ℕ) (claims : Claims)
      → let out = verify c v token answer now in
        let (head, rest) = split_at b'.' token in
        out.1 ≡ ok claims
        → (body : String) × ((signature : String) × (rest ≡ body ∷ signature ∷ [])
            × IsSigned out.0 head body signature
            × IsFit v.cfg now body claims)
  unfolding verify
  verify_sound v token answer now claims h =
      let (head, rest) = split_at b'.' token in parts_sound v head rest answer now claims h
