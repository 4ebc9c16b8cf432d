-- ===== src/Oidc/Jwt.antt =====
-- oidc/jwt/: the offline verifier of access tokens with its key cache. Base64, JSON and RSA are a
-- parameter, as is what a fetch of the key set answers. A time is in nanoseconds from the Unix epoch;
-- a claim's time is in seconds. The discovery of the key set's address is left out.
pub mod Accepting
pub mod Refetching
mod Tests
use porte.Base.{
  ℕ, zero, suc, ◌+◌, ◌-◌, ◌/◌, ◌≤◌, ◌<◌, String, List, [], ◌∷◌, ◌++◌, Bool, true, false, not, ◌&&◌,
  ◌||◌, Option, none, some, ◌≡◌, ◌≢◌, refl, sym, ap, ◌∙◌, subst, ◌↔◌, ◌⊎◌, inl, inr, Memᴰ,
  string_eq, nat_eq, ◌==◌, beq_iff, beq_refl, ltb, leb, if◌then◌else◌, Bool-cases, Option-cases,
  length, All, keep, tally, map, arith, tests, first, any, amend,
}
use porte.Base.{◌*◌}
use porte.Base.Int.{ℤ, pos, negsuc, ◌+ℤ◌, ltb_ℤ, beq_ℤ}
use porte.Base.Strings.{split_at, append}

pub record Config : Type 0 where
  pub issuer : String
  pub audience : String
  pub cache_ttl : ℕ

pub record Header : Type 0 where
  pub alg : String
  pub kid : String

pub record Payload : Type 0 where
  pub issuer : String
  pub audience : List String
  pub expires_at : ℤ
  pub not_before : ℤ
  pub issued_at : ℤ
  pub subject : String
  pub email : String
  pub name : String
  pub roles : List String
  pub scope : String
  pub actor : String

pub record Claims : Type 0 where
  pub subject : String
  pub email : String
  pub name : String
  pub roles : List String
  pub scopes : List String
  pub actor : String

pub record Jwk : Type 0 where
  pub kid : String
  pub n : String
  pub e : String

pub record PublicKey : Type 0 where
  pub modulus : ℕ
  pub exponent : ℕ

-- `decode` is unpadded base64url, `header` and `payload` JSON, `is_signed` PKCS #1 v1.5 over SHA-256,
-- and `fields` strings.Fields.
pub record Codec : Type 0 where
  pub decode : String → Option (List ℕ)
  pub header : List ℕ → Option Header
  pub payload : List ℕ → Option Payload
  pub is_signed : PublicKey → String → List ℕ → Bool
  pub fields : String → List String

-- `keys` is none before the first fetch, and `fetches` counts the requests for the key set.
pub record Verifier : Type 0 where
  pub cfg : Config
  pub keys : Option (List (String × PublicKey))
  pub fetched_at : ℕ
  pub refetched_at : Option ℕ
  pub fetches : ℕ

pub data Fault : Type 0 where
  not_three_segments bad_header bad_algorithm fetch_failed no_key bad_signature : Fault
  bad_payload other_issuer other_audience token_expired not_valid_yet issued_in_future : Fault

pub data Result {ℓ} (A : Type ℓ) : Type ℓ where
  ok : A → Result A
  err : Fault → Result A

-- One hour, and half a minute.
abbrev pub default_cache_ttl : ℕ
default_cache_ttl = 3600000000000

abbrev pub min_refetch_interval : ℕ
min_refetch_interval = 30000000000

abbrev pub leeway : ℤ
leeway = pos 30000000000

-- The number that bytes spell, the first the highest.
abbrev pub from_bytes : ℕ → List ℕ → ℕ
from_bytes acc [] = acc
from_bytes acc (b ∷ bytes) = from_bytes (acc * 256 + b) bytes

unfoldable pub rsa_key : Codec → Jwk → Option PublicKey
rsa_key c k = if k.kid == "" || (k.n == "" || k.e == "") then none else elim (c.decode k.n) [
  | none ↦ none
  | some [] ↦ none
  | some (b ∷ n) ↦ elim (c.decode k.e) [
    | none ↦ none
    | some [] ↦ none
    | some (x ∷ e) ↦
        if ltb 4 (length (x ∷ e)) || ltb (from_bytes 0 (x ∷ e)) 2
        then none
        else some (record { modulus = from_bytes 0 (b ∷ n); exponent = from_bytes 0 (x ∷ e) })
  ]
]

-- The key map of a set: a key that is unusable is skipped, and a later one wins.
unfoldable pub index_keys : Codec → List (String × PublicKey) → List Jwk → List (String × PublicKey)
unfolding rsa_key
index_keys c acc [] = acc
index_keys c acc (k ∷ set) =
    index_keys c (elim (rsa_key c k) [ none ↦ acc | some key ↦ (k.kid, key) ∷ acc ]) set

abbrev pub key_of : List (String × PublicKey) → String → Option PublicKey
key_of [] kid = none
key_of ((name, key) ∷ keys) kid = if name == kid then some key else key_of keys kid

abbrev pub ttl : Verifier → ℕ
ttl v = if v.cfg.cache_ttl == 0 then default_cache_ttl else v.cfg.cache_ttl

abbrev pub is_stale : Verifier → ℕ → Bool
is_stale v now = elim v.keys [ none ↦ true | some keys ↦ leb (ttl v) (now - v.fetched_at) ]

unfoldable pub take_refetch_slot : Verifier → ℕ → Verifier × Bool
take_refetch_slot v now = elim v.refetched_at [
  | some at ↦
      if ltb (now - at) min_refetch_interval
      then (v, false)
      else (record v { refetched_at = some now }, true)
  | none ↦ (record v { refetched_at = some now }, true)
]

module _ (c : Codec) where
  -- `answer` is the key set that the provider serves now, none when the request fails.
  unfoldable pub fetch : Verifier → Option (List Jwk) → ℕ → Verifier × Bool
  unfolding index_keys
  fetch v none now = (record v { fetches = suc v.fetches }, false)
  fetch v (some set) now = (
    record v { keys = some (index_keys c [] set); fetched_at = now; fetches = suc v.fetches },
    true,
  )

  abbrev pub held : Verifier → String → Option PublicKey
  held v kid = elim v.keys [ none ↦ none | some keys ↦ key_of keys kid ]

  abbrev or_no_key : Option PublicKey → Result PublicKey
  or_no_key none = err no_key
  or_no_key (some key) = ok key

  abbrev pub after_fetch : Verifier × Bool → String → Verifier × Result PublicKey
  after_fetch (v, false) kid = (v, err fetch_failed)
  after_fetch (v, true) kid = (v, or_no_key (held v kid))

  -- A key that is not held is asked for again, unless the set is fresh from this very call.
  unfoldable pub key : Verifier → String → Option (List Jwk) → ℕ → Verifier × Result PublicKey
  unfolding fetch take_refetch_slot
  key v kid answer now =
      if is_stale v now then after_fetch (fetch v answer now) kid else elim (held v kid) [
        | some k ↦ (v, ok k)
        | none ↦
            let (v', taken) = take_refetch_slot v now in
            if taken then after_fetch (fetch v' answer now) kid else (v', err no_key)
      ]

  unfoldable pub verify_signature :
      Verifier → String → String → String → Option (List Jwk) → ℕ → Verifier × Result (Unit {0})
  unfolding key
  verify_signature v head body signature answer now = elim (c.decode head) [
    | none ↦ (v, err bad_header)
    | some raw ↦ elim (c.header raw) [
      | none ↦ (v, err bad_header)
      | some header ↦
          if not (header.alg == "RS256")
          then (v, err bad_algorithm)
          else (let (v', found) = key v header.kid answer now in
              (
                v',
                elim found [
                  | err e ↦ err e
                  | ok k ↦ elim (c.decode signature) [
                    | none ↦ err bad_signature
                    | some bytes ↦
                        if c.is_signed k (append head (append "." body)) bytes
                        then ok tt
                        else err bad_signature
                  ]
                ],
              ))
    ]
  ]

  -- A claim's seconds in nanoseconds.
  abbrev pub unix : ℤ → ℤ
  unix (pos n) = pos (n * 1000000000)
  unix (negsuc n) = negsuc (suc n * 1000000000 - 1)

  unfoldable pub within_validity : ℕ → Payload → Option Fault
  within_validity now p =
      if ltb_ℤ (unix p.expires_at +ℤ leeway) (pos now)
      then some token_expired
      else if not (beq_ℤ p.not_before (pos 0)) && ltb_ℤ (pos now +ℤ leeway) (unix p.not_before)
      then some not_valid_yet
      else if not (beq_ℤ p.issued_at (pos 0)) && ltb_ℤ (pos now +ℤ leeway) (unix p.issued_at)
      then some issued_in_future
      else none

  abbrev pub claims_of : Payload → Claims
  claims_of p = record {
    subject = p.subject;
    email = p.email;
    name = p.name;
    roles = p.roles;
    scopes = c.fields p.scope;
    actor = p.actor;
  }

  -- The checks of a payload whose signature is good.
  unfoldable pub judge : Config → ℕ → String → Result Claims
  unfolding within_validity
  judge cfg now body = elim (c.decode body) [
    | none ↦ err bad_payload
    | some raw ↦ elim (c.payload raw) [
      | none ↦ err bad_payload
      | some p ↦
          if not (p.issuer == cfg.issuer)
          then err other_issuer
          else if not (any (λ a. a == cfg.audience) p.audience)
          then err other_audience
          else elim (within_validity now p) [ some e ↦ err e | none ↦ ok (claims_of p) ]
    ]
  ]

  abbrev pub verify_parts :
      Verifier → String → List String → Option (List Jwk) → ℕ → Verifier × Result Claims
  verify_parts v head (body ∷ signature ∷ []) answer now =
      let (v', signed) = verify_signature v head body signature answer now in
      (v', elim signed [ err e ↦ err e | ok u ↦ judge v.cfg now body ])
  verify_parts v head _ answer now = (v, err not_three_segments)

  unfoldable pub verify : Verifier → String → Option (List Jwk) → ℕ → Verifier × Result Claims
  unfolding verify_signature judge split_at
  verify v token answer now =
      let (head, rest) = split_at b'.' token in verify_parts v head rest answer now
