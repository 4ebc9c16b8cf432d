-- ===== src/Oidc/Roles/Tests.antt =====
-- Runs of the role refresh and of the profile sync.
use porte.Base.{[], ◌∷◌, true, false, none, some, ◌≡◌, refl, string_eq, nat_eq, ◌==◌, arith}
use porte.Base.Int.{pos}
use porte.Base.Strings.{GoStrings, append}
use porte.Pg.Tables.{StoredIdentity, Tables}
use porte.Pg.Linking.{new_identity}
use porte.Pg.Identities.{save, save_federated}
use porte.Session.Manager.{Identity}
use porte.Oidc.Claims.{
  flag, other, claims_from_id_token, roles_claim, extra_claims, asserted_by, email_trusted,
  email_claim_asserted,
}
use porte.Oidc.Kit.{Kit}
use porte.Oidc.Roles.{
  fresh_roles, refresh_roles, attach, unauthorized, sync_with, handle_sync_profile,
}
use porte.Oidc.Roles.Throttled.{attach_throttled}

abbrev go : GoStrings
go = record { to_lower = λ s. s; trim_space = λ s. s; append = append; equal_fold = λ s t. s == t }

abbrev kit : Kit
kit = record {
  cfg = record {
    base = record {
      issuer = "https://id";
      redirect_url = "";
      success_url = "";
      session_ttl = 1000;
      session_idle_ttl = pos 100;
      accept_legacy_cookie = false;
      scope_prefix = "";
    };
    trust = record { claims_scope = "roles"; without_verified_claim = false; extra_claims = [] };
    claims_ttl = 50;
    login_code_ttl = 60;
    mobile_redirect = "";
    cli_audience = "";
    machine_audience = "";
  };
  sessions = record {
    strings = go;
    cfg = record {
      issuer = "https://id";
      redirect_url = "";
      success_url = "";
      session_ttl = 1000;
      session_idle_ttl = pos 100;
      accept_legacy_cookie = false;
      scope_prefix = "";
    };
    hash_token = λ s. s;
    jwt = none;
    claims = none;
  };
  provider = record {
    exchange = λ code v. none;
    renew = λ t. some (record {
      tokens = record { access_token = "a2"; refresh_token = "r2"; expiry = 9 };
      id_token = some "id";
    });
    verify = λ raw. some (record {
      subject = "sub";
      nonce = "";
      claims = some (record {
        email = "ada@app";
        email_verified = flag true;
        name = "Ada";
        preferred_username = "";
        given_name = "";
        family_name = "";
        picture = "";
        locale = other;
      });
      roles = some (some ("admin" ∷ []));
      all_claims = none;
      events = none;
    });
    user_info = λ t. some (record { subject = "somebody"; claims = none; all_claims = none });
  };
  web = record {
    encode = λ f. none;
    decode = λ s. none;
    decode_base64 = λ s. none;
    s256 = λ v. v;
    atoi = λ s. none;
    is_url = λ s. true;
  };
  avatars = none;
  cli_tokens = none;
}

abbrev stored : StoredIdentity
stored = record (new_identity 1 "https://id" "sub") {
  tokens = record { access_token = "a"; refresh_token = "r"; expiry = 1 };
  roles = "member" ∷ [];
  roles_synced_at = 10;
}

abbrev db : Tables
db = record {
  users = [];
  identities = stored ∷ [];
  sessions = [];
  codes = [];
  links = [];
  next_user = 2;
  next_session = 1;
  has_codes = true;
  has_links = true;
}

abbrev ada : Identity
ada = record { user_id = 1; session_id = 1; subject = ""; roles = []; scopes = []; actor = "" }

refreshed_roles : (attach kit ada 100 db).1.roles ≡ "admin" ∷ []
unfolding attach refresh_roles fresh_roles claims_from_id_token roles_claim extra_claims asserted_by
    save save_federated email_trusted email_claim_asserted
refreshed_roles = refl

attach_throttled_example : attach kit ada 149 (attach kit ada 100 db).0 ≡ attach kit ada 100 db
attach_throttled_example =
    attach_throttled kit ada 100 149 db stored refl refl refl (ground arith) (ground arith)
      (ground arith)

-- A userinfo response for another subject writes nothing.
other_subject : handle_sync_profile kit (some ada) "" 100 db ≡ (db, unauthorized)
unfolding handle_sync_profile sync_with
other_subject = refl
