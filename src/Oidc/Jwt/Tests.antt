-- ===== src/Oidc/Jwt/Tests.antt =====
-- Runs of the verifier at concrete inputs.
use porte.Base.{
  ◌≤◌, String, List, [], ◌∷◌, ◌&&◌, none, some, ◌≡◌, refl, string_eq, nat_eq, ◌==◌, if◌then◌else◌,
  arith,
}
use porte.Base.Int.{pos, ◌+ℤ◌}
use porte.Base.Strings.{split_at, append}
use porte.Oidc.Jwt.{
  Payload, Claims, Jwk, Codec, Verifier, err, token_expired, rsa_key, index_keys, fetch, key,
  verify_signature, within_validity, judge, verify,
}
use porte.Oidc.Jwt.Accepting.{IsSigned, IsFit, verify_sound}
use porte.Oidc.Jwt.Refetching.{Lookup, lookups, IsCached, lookups_capped}

abbrev payload : Payload
payload = record {
  issuer = "https://id";
  audience = "app" ∷ [];
  expires_at = pos 100;
  not_before = pos 0;
  issued_at = pos 10;
  subject = "sub";
  email = "ada@app";
  name = "Ada";
  roles = [];
  scope = "";
  actor = "";
}

abbrev codec : Codec
codec = record {
  decode = λ s.
      if s == "h"
      then some (1 ∷ [])
      else if s == "p"
      then some (2 ∷ [])
      else if s == "s"
      then some (3 ∷ [])
      else if s == "n"
      then some (7 ∷ [])
      else if s == "AQAB"
      then some (1 ∷ 0 ∷ 1 ∷ [])
      else none;
  header = λ b. some (record { alg = "RS256"; kid = "k1" });
  payload = λ b. some payload;
  is_signed = λ k text bytes. k.exponent == 65537 && text == "h.p";
  fields = λ s. [];
}

abbrev set : List Jwk
set = record { kid = "k1"; n = "n"; e = "AQAB" } ∷ record { kid = "k2"; n = ""; e = "AQAB" } ∷ []

abbrev fresh : Verifier
fresh = record {
  cfg = record { issuer = "https://id"; audience = "app"; cache_ttl = 0 };
  keys = none;
  fetched_at = 0;
  refetched_at = none;
  fetches = 0;
}

abbrev claims : Claims
claims = record {
  subject = "sub";
  email = "ada@app";
  name = "Ada";
  roles = [];
  scopes = [];
  actor = "";
}

-- One hundred seconds and the leeway after the epoch, and one nanosecond more.
late : (verify codec fresh "h.p.s" (some set) 130000000001).1 ≡ err token_expired
unfolding verify verify_signature judge within_validity split_at key fetch index_keys rsa_key append
    ◌+ℤ◌
late = refl

verify_sound_example :
    let out = verify codec fresh "h.p.s" (some set) 130000000000 in
    (body : String) × ((signature : String) × ((split_at b'.' "h.p.s").1 ≡ body ∷ signature ∷ [])
      × IsSigned codec out.0 "h" body signature
      × IsFit codec fresh.cfg 130000000000 body claims)
unfolding verify verify_signature judge within_validity split_at key fetch index_keys rsa_key append
    ◌+ℤ◌
verify_sound_example = verify_sound codec fresh "h.p.s" (some set) 130000000000 claims refl

abbrev warm : Verifier
warm = record fresh { keys = some []; fetched_at = 1000; fetches = 1 }

abbrev flood : List Lookup
flood =
    record { kid = "x"; answer = none; now = 2000 }
    ∷ record { kid = "y"; answer = some set; now = 3000 }
    ∷ record { kid = "z"; answer = none; now = 4000 }
    ∷ []

warm-IsCached : IsCached codec 2000 warm
warm-IsCached = (([], refl), ground arith, ground arith)

lookups_capped_example : (lookups codec warm flood).fetches ≤ 2
lookups_capped_example = lookups_capped codec warm 2000 flood warm-IsCached (
  (ground arith, ground arith),
  ((ground arith, ground arith), ((ground arith, ground arith), tt)),
)
