-- ===== src/Devicelogin/Origins.antt =====
-- The servers that a login trusts.
use porte.Base.{
  ℕ, String, Bool, true, false, Option, none, some, ◌≡◌, ◌≢◌, refl, subst, ◌⊎◌, inl, inr, string_eq,
  nat_eq, ◌==◌, beq_iff, Bool-cases, Option-cases, arith,
}
use porte.Devicelogin.Transport.{Doc, Fault, Result, ok, err, Url, require_secure_url}
use porte.Devicelogin.Discover.{
  Endpoints, Authorization, endpoints_from, discover, link, authorize, usable, authorization_of,
}
use porte.Devicelogin.Poll.{poll}
use porte.Devicelogin.Login.{
  Options, Session, World, with_defaults, post_exchange, exchange, session_of, mounted, redeem,
  approve, sign_in, begin, login,
}

Result-cases {ℓ} :
    {A : Type ℓ} (r : Result A) → ((x : A) × (r ≡ ok x)) ⊎ ((e : Fault) × (r ≡ err e))
Result-cases (ok x) = inl (x, refl)
Result-cases (err e) = inr (e, refl)

endpoints_from_secure :
    (parse : String → Option Url) (doc : Doc) (e : Endpoints)
    → endpoints_from parse doc ≡ ok e
    → (require_secure_url parse e.device_authorization ≡ true)
      × (require_secure_url parse e.token ≡ true)
unfolding endpoints_from
endpoints_from_secure parse doc e h = (ground arith, ground arith)

discover_secure :
    (parse : String → Option Url) (get : String → Option (ℕ × Option Doc)) (issuer : String)
    (e : Endpoints)
    → discover parse get issuer ≡ ok e
    → (require_secure_url parse issuer ≡ true)
      × (require_secure_url parse e.device_authorization ≡ true)
      × (require_secure_url parse e.token ≡ true)
unfolding discover
discover_secure parse get issuer e h = elim (Option-cases (get issuer)) [
  | inl silent ↦ absurd (ground arith)
  | inr ((status, none), answered) ↦ absurd (ground arith)
  | inr ((status, some doc), answered) ↦
      let listed : endpoints_from parse doc ≡ ok e = ground arith in
      let (device, token) = endpoints_from_secure parse doc e listed in
      (ground arith, device, token)
]

module _ (w : World) where
  mounted_secure :
      (origin mount : String) (b : Bool)
      → mounted w origin mount ≡ ok b
      → require_secure_url w.parse origin ≡ true
  unfolding mounted post_exchange
  mounted_secure origin mount b h = ground arith

  usable-link :
      (auth : Authorization)
      → usable w.parse auth ≡ none
      → require_secure_url w.parse (link auth) ≡ true
  unfolding link
  usable-link auth h = elim (Bool-cases (auth.verification_uri_complete == "")) [
    | inl bare ↦ ground arith
    | inr sent ↦ ground arith
  ]

  authorize_usable :
      (answer : Option (ℕ × Doc)) (auth : Authorization)
      → authorize w.parse answer ≡ ok auth
      → (require_secure_url w.parse auth.verification_uri ≡ true)
        × (require_secure_url w.parse (link auth) ≡ true)
        × (auth.device_code ≢ "")
        × (auth.user_code ≢ "")
  unfolding authorize
  authorize_usable none auth h = absurd (ground arith)
  authorize_usable (some (status, doc)) auth h =
      let same : authorization_of w.parse doc ≡ auth = ground arith in
      let fit : usable w.parse (authorization_of w.parse doc) ≡ none = ground arith in
      let fit' : usable w.parse auth ≡ none = subst (λ a. usable w.parse a ≡ none) same fit in
      (
        ground arith,
        usable-link auth fit',
        ground (arith, beq_iff auth.device_code ""),
        ground (arith, beq_iff auth.user_code ""),
      )

  -- What a login that ends in a session went through: the endpoints are those that the issuer's
  -- configuration lists, the codes those that the device endpoint answered, each address is a secure
  -- URL, the page that the user is sent to included, the provider approved the code, and the app
  -- answered the approved token with the session.
  pub record Trail (fuel now : ℕ) (o : Options) (session : Session) : Type 0 where
    pub endpoints : Endpoints
    pub auth : Authorization
    pub access_token : String
    pub found : discover w.parse w.configuration o.issuer ≡ ok endpoints
    pub granted :
        authorize w.parse (w.device endpoints.device_authorization o.client_id o.scope) ≡ ok auth
    pub app : require_secure_url w.parse o.app_origin ≡ true
    pub issuer : require_secure_url w.parse o.issuer ≡ true
    pub device : require_secure_url w.parse endpoints.device_authorization ≡ true
    pub token : require_secure_url w.parse endpoints.token ≡ true
    pub bare_page : require_secure_url w.parse auth.verification_uri ≡ true
    pub page : require_secure_url w.parse (link auth) ≡ true
    pub approved :
        poll fuel
          (w.rounds endpoints.token o.client_id auth.device_code)
          now
          auth.interval
          auth.expires_in
        ≡ some (ok access_token)
    pub redeemed : exchange w o.app_origin o.mount access_token ≡ ok session
    pub bearer : session.token ≢ ""

  exchange_bearer :
      (origin mount access_token : String) (session : Session)
      → exchange w origin mount access_token ≡ ok session
      → session.token ≢ ""
  unfolding exchange
  exchange_bearer origin mount access_token session h =
      elim (Result-cases (post_exchange w origin mount (some access_token))) [
        | inr (e, failed) ↦ absurd (ground arith)
        | inl ((status, doc), answered) ↦
            let same : session_of w status doc ≡ ok session = ground arith in
            ground (arith, beq_iff session.token "")
      ]

  redeemed_by :
      (o : Options) (polled : Option (Result String)) (session : Session)
      → redeem w o polled ≡ some (ok session)
      → (access_token : String) × (polled ≡ some (ok access_token))
        × (exchange w o.app_origin o.mount access_token ≡ ok session)
  redeemed_by o none session h = absurd (cc)
  redeemed_by o (some (err e)) session h = absurd (ground arith)
  redeemed_by o (some (ok access_token)) session h = (access_token, refl, ground arith)

  approved_by :
      (fuel now : ℕ) (o : Options) (e : Endpoints) (answer : Result Authorization)
      (session : Session)
      → approve w fuel now o e answer ≡ some (ok session)
      → (auth : Authorization) × (answer ≡ ok auth)
        × ((access_token : String) × (poll fuel
                (w.rounds e.token o.client_id auth.device_code)
                now
                auth.interval
                auth.expires_in
              ≡ some (ok access_token))
            × (exchange w o.app_origin o.mount access_token ≡ ok session))
  approved_by fuel now o e (err x) session h = absurd (ground arith)
  approved_by fuel now o e (ok auth) session h = (
    auth,
    refl,
    redeemed_by o
        (poll fuel (w.rounds e.token o.client_id auth.device_code) now auth.interval
          auth.expires_in)
        session h,
  )

  discovered_by :
      (fuel now : ℕ) (o : Options) (found : Result Endpoints) (session : Session)
      → sign_in w fuel now o found ≡ some (ok session)
      → (e : Endpoints) × (found ≡ ok e)
        × (approve w fuel now o e
              (authorize w.parse (w.device e.device_authorization o.client_id o.scope))
            ≡ some (ok session))
  discovered_by fuel now o (err x) session h = absurd (ground arith)
  discovered_by fuel now o (ok e) session h = (e, refl, h)

  begun_by :
      (fuel now : ℕ) (o : Options) (there : Result Bool) (session : Session)
      → begin w fuel now o there ≡ some (ok session)
      → (there ≡ ok true)
        × (sign_in w fuel now o (discover w.parse w.configuration o.issuer) ≡ some (ok session))
  begun_by fuel now o (err x) session h = absurd (ground arith)
  begun_by fuel now o (ok false) session h = absurd (ground arith)
  begun_by fuel now o (ok true) session h = (refl, h)

  -- A login that ends in a session, which is not empty, was given an app and an issuer whose
  -- addresses are https URLs, or http ones of this machine, and so are the two endpoints that the
  -- issuer's configuration lists and the page that the user is sent to, complete or bare; the provider
  -- approved the code and the app accepted its token. Redirects that a server answers with are not
  -- covered.
  pub login_sound :
      (fuel now : ℕ) (options : Options) (session : Session)
      → login w fuel now options ≡ some (ok session)
      → Trail fuel now (with_defaults options) session
  unfolding login
  login_sound fuel now options session h =
      let o = with_defaults options in
      let (there, rest) = begun_by fuel now o (mounted w o.app_origin o.mount) session h in
      let (e, found, rest') =
        discovered_by fuel now o (discover w.parse w.configuration o.issuer) session rest in
      let answer = authorize w.parse (w.device e.device_authorization o.client_id o.scope) in
      let (auth, granted, (access_token, approved, redeemed)) =
        approved_by fuel now o e answer session rest' in
      let (bare_page, page, _, _) =
        authorize_usable (w.device e.device_authorization o.client_id o.scope) auth granted in
      let (issuer, device, token) = discover_secure w.parse w.configuration o.issuer e found in
      record {
        endpoints = e;
        auth = auth;
        access_token = access_token;
        found = found;
        granted = granted;
        app = mounted_secure o.app_origin o.mount true there;
        issuer = issuer;
        device = device;
        token = token;
        bare_page = bare_page;
        page = page;
        approved = approved;
        redeemed = redeemed;
        bearer = exchange_bearer o.app_origin o.mount access_token session redeemed;
      }
