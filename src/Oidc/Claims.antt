-- ===== src/Oidc/Claims.antt =====
-- The claims of a verified token: claimsFromIDToken and its helpers in oidc/oidc.go, and
-- oidc/normalize.go. A value whose type the code asks for is one of the cases of Value.
use porte.Base.{
  String, List, [], ◌∷◌, Bool, true, false, not, ◌||◌, Option, none, some, string_eq, nat_eq, ◌==◌,
  if◌then◌else◌,
}
use porte.Base.Strings.{GoStrings}
use porte.Base.Locale.{normalize_locale}
use porte.Pg.Linking.{Claims}

pub data Value : Type 0 where
  flag : Bool → Value
  text : String → Value
  other : Value

pub record RawClaims : Type 0 where
  pub email : String
  pub email_verified : Value
  pub name : String
  pub preferred_username : String
  pub given_name : String
  pub family_name : String
  pub picture : String
  pub locale : Value

-- A token whose signature, issuer, audience and expiry go-oidc accepted, and what its Claims decodes:
-- none is an error of the decoding. The roles may be absent within a payload that decodes.
pub record IdToken : Type 0 where
  pub subject : String
  pub nonce : String
  pub claims : Option RawClaims
  pub roles : Option (Option (List String))
  pub all_claims : Option (List (String × String))
  pub events : Option (List String)

-- The settings of porte.Config that decide what a token is taken to say.
pub record Trust : Type 0 where
  pub claims_scope : String
  pub without_verified_claim : Bool
  pub extra_claims : List String

-- porte.Claims: what the store reads, and what it does not.
pub record Asserted : Type 0 where
  pub claims : Claims
  pub picture : String
  pub roles : List String
  pub extra : List (String × String)

-- Whether the address is verified, and whether the claim says anything.
unfoldable pub email_claim_asserted : Value → Bool × Bool
email_claim_asserted (flag b) = (b, true)
email_claim_asserted (text s) =
    if s == "true" || (s == "True" || (s == "TRUE" || s == "1"))
    then (true, true)
    else if s == "false" || (s == "False" || (s == "FALSE" || s == "0"))
    then (false, true)
    else (false, false)
email_claim_asserted other = (false, false)

unfoldable pub email_trusted : Trust → Value → Bool
unfolding email_claim_asserted
email_trusted t value =
    if (email_claim_asserted value).1
    then (email_claim_asserted value).0
    else t.without_verified_claim

abbrev pub locale_claim : GoStrings → Value → String
locale_claim go (text tag) = normalize_locale go tag
locale_claim go _ = ""

abbrev pub normalize_email : GoStrings → String → String
normalize_email go email = go.to_lower (go.trim_space email)

abbrev pub value_of : List (String × String) → String → Option String
value_of [] name = none
value_of ((key, value) ∷ rest) name = if key == name then some value else value_of rest name

-- The claims of these names that are there.
abbrev pub named_claims : List String → List (String × String) → List (String × String)
named_claims [] all_claims = []
named_claims (name ∷ names) all_claims = elim (value_of all_claims name) [
  | none ↦ named_claims names all_claims
  | some value ↦ (name, value) ∷ named_claims names all_claims
]

unfoldable pub extra_claims :
    List String → Option (List (String × String)) → Option (List (String × String))
extra_claims [] all_claims = some []
extra_claims (name ∷ names) none = none
extra_claims (name ∷ names) (some all_claims) = some (named_claims (name ∷ names) all_claims)

abbrev pub claims_enabled : Trust → Bool
claims_enabled t = not (t.claims_scope == "")

-- The roles claim, empty when roles are off; a granted scope without the claim is an error.
unfoldable pub roles_claim : Trust → IdToken → Option (List String)
roles_claim t id =
    if not (claims_enabled t)
    then some []
    else elim id.roles [ none ↦ none | some arrived ↦ arrived ]

unfoldable pub asserted_by :
    GoStrings
    → String
    → Trust
    → IdToken
    → RawClaims
    → List String
    → List (String × String)
    → Asserted
asserted_by go issuer t id raw roles extra = record {
  claims = record {
    provider = issuer;
    subject = id.subject;
    email = normalize_email go raw.email;
    email_verified = email_trusted t raw.email_verified;
    name = raw.name;
    preferred_username = raw.preferred_username;
    given_name = raw.given_name;
    family_name = raw.family_name;
    locale = locale_claim go raw.locale;
    avatar_url = "";
  };
  picture = raw.picture;
  roles = roles;
  extra = extra;
}

unfoldable pub claims_from_id_token : GoStrings → String → Trust → IdToken → Option Asserted
unfolding roles_claim extra_claims asserted_by
claims_from_id_token go issuer t id = elim id.claims [
  | none ↦ none
  | some raw ↦ elim (roles_claim t id) [
    | none ↦ none
    | some roles ↦ elim (extra_claims t.extra_claims id.all_claims) [
      | none ↦ none
      | some extra ↦ some (asserted_by go issuer t id raw roles extra)
    ]
  ]
]
