-- ===== src/Keys/Tests.antt =====
-- Runs of porte/keys at concrete inputs.
use porte.Base.{
  suc, ◌+◌, ◌<◌, [], ◌∷◌, none, some, ◌≡◌, ◌≢◌, refl, ap, ◌⊎◌, Memᴰ, string_eq, nat_eq, ◌==◌, arith,
}
use porte.Base.{text_ne}
use porte.Base.Int.{pos, ◌≤ℤ◌}
use porte.Base.Strings.{GoStrings, append, cut_prefix}
use porte.Keys.Store.{Key, KeyTables, revoke_key, find_by_hash, record_usage, usage_today, count_of}
use porte.Keys.Manager.{
  CreateRequest, Request, Manager, served, revoked, invalid_key, bad_origin, over_quota,
  extract_token, handle_create, handle_revoke, origin_of, validate_origin, check_quota, screen,
  count_request, authenticate,
}
use porte.Keys.Serving.{used, IsFromAllowed, authenticate_guarded}
use porte.Keys.Revoking.{here, next, creates, requests, revoked_forever}
use porte.Keys.Minting.{IsSound, Calls-IsSound}
use porte.Keys.Quota
use porte.Keys.Quota.{Running, begins, counts, count_in}
use porte.Keys.Quota.Bounding.{quota_holds}

abbrev go : GoStrings
go = record { to_lower = λ s. s; trim_space = λ s. s; append = append; equal_fold = λ s t. s == t }

-- A URL is its host alone here.
abbrev manager : Manager
manager = record {
  strings = go;
  hash_token = λ s. append "#" s;
  parse_url = λ s. some ("https", s);
  service_prefix = "svc";
}

abbrev shop : CreateRequest
shop = record {
  app = "shop";
  kind = "public";
  allowed_origins = "https://shop" ∷ [];
  daily_quota = pos 1;
}

abbrev empty : KeyTables
empty = record { api_keys = []; usage = []; next_key = 1 }

abbrev shop_key : Key
shop_key = record {
  id = 1;
  app = "shop";
  kind = "public";
  prefix = "svc_pub_shop_abc";
  token_hash = "#svc_pub_shop_abcd";
  allowed_origins = "https://shop" ∷ [];
  daily_quota = pos 1;
  used_today = 0;
  created_at = 10;
  revoked_at = none;
}

abbrev stocked : KeyTables
stocked = record { api_keys = shop_key ∷ []; usage = []; next_key = 2 }

abbrev from_shop : Request
from_shop = record {
  authorization = "Bearer svc_pub_shop_abcd";
  key_param = "";
  origin = "";
  referer = "shop";
}

abbrev counted : KeyTables
counted = record stocked { usage = record { api_key_id = 1; day = 7; count = 1 } ∷ [] }

abbrev withdrawn : KeyTables
withdrawn = record counted { api_keys = record shop_key { revoked_at = some 20 } ∷ [] }

serve_run : authenticate manager stocked stocked stocked from_shop 7 ≡ (counted, served shop_key)
unfolding authenticate screen extract_token cut_prefix find_by_hash validate_origin origin_of
    check_quota usage_today count_of count_request record_usage append
serve_run = refl

-- The quota of one is used up on the day, and free on the next.
second_run : authenticate manager counted counted counted from_shop 7 ≡ (counted, over_quota)
unfolding authenticate screen extract_token cut_prefix find_by_hash validate_origin origin_of
    check_quota usage_today count_of count_request record_usage append
second_run = refl

tomorrow_run : (authenticate manager counted counted counted from_shop 8).1 ≡ served shop_key
unfolding authenticate screen extract_token cut_prefix find_by_hash validate_origin origin_of
    check_quota usage_today count_of count_request record_usage append
tomorrow_run = refl

elsewhere_run :
    authenticate manager stocked stocked stocked (record from_shop { origin = "https://other" }) 7
    ≡ (stocked, bad_origin)
unfolding authenticate screen extract_token cut_prefix find_by_hash validate_origin origin_of append
elsewhere_run = refl

revoke_run : handle_revoke manager counted (some (pos 1)) 20 ≡ (withdrawn, revoked)
unfolding handle_revoke revoke_key
revoke_run = refl

-- Counted after another request that overlaps: the quota of one is passed.
late_run : authenticate manager stocked stocked counted from_shop 7 ≡ (
  record counted { usage = record { api_key_id = 1; day = 7; count = 2 } ∷ [] },
  served shop_key,
)
unfolding authenticate screen extract_token cut_prefix find_by_hash validate_origin origin_of
    check_quota usage_today count_of count_request record_usage append
late_run = refl

authenticate_guarded_example :
    (extract_token from_shop ≢ "")
    × Memᴰ shop_key stocked.api_keys
    × (shop_key.token_hash ≡ manager.hash_token (extract_token from_shop))
    × (shop_key.revoked_at ≡ none)
    × IsFromAllowed manager from_shop shop_key
    × ((pos 1 ≤ℤ pos 0) ⊎ (pos (suc (used stocked 1 7)) ≤ℤ pos 1))
    × (used (authenticate manager stocked stocked counted from_shop 7).0 1 7
        ≡ suc (used counted 1 7))
authenticate_guarded_example =
    authenticate_guarded manager stocked stocked counted from_shop 7 shop_key
      (ap (λ a. a.1) late_run) refl

revoked_forever_example :
    authenticate manager
      (authenticate manager stocked stocked withdrawn from_shop 8).0
      counted
      withdrawn
      from_shop
      9
    ≡ (withdrawn, invalid_key)
unfolding extract_token cut_prefix find_by_hash append
revoked_forever_example =
    revoked_forever manager counted withdrawn _ counted withdrawn shop_key 20 from_shop 9 refl
      revoke_run (next here (requests from_shop 8 stocked stocked))
      (text_ne "svc_pub_shop_abcd" "" refl)

empty-IsSound : IsSound empty
empty-IsSound = (tt, tt, tt)

Calls-IsSound_example :
    IsSound
      (authenticate manager stocked counted
        (handle_create manager empty (some shop) (some "abcd") 10).0
        from_shop
        7).0
Calls-IsSound_example =
    Calls-IsSound manager
      (next (next here (creates (some shop) (some "abcd") 10))
        (requests from_shop 7 stocked counted))
      empty-IsSound

abbrev idle : Running
idle = record { db = stocked; pending = []; let_in = [] }

abbrev busy : Running
busy = record { db = stocked; pending = 1 ∷ 1 ∷ []; let_in = 1 ∷ 1 ∷ [] }

screen_run : screen manager stocked stocked from_shop 7 ≡ served shop_key
unfolding screen extract_token cut_prefix find_by_hash validate_origin origin_of check_quota
    usage_today count_of append
screen_run = refl

-- Two requests that overlap are both let in under a quota of one.
overlap_run : Quota.Steps manager 7 2 idle busy
overlap_run =
    Quota.next (Quota.next Quota.here (begins from_shop shop_key screen_run (omega arith)))
      (begins from_shop shop_key screen_run (omega arith))

quota_holds_example : count_in 1 busy.let_in < 1 + 2
unfolding usage_today count_of
quota_holds_example =
    quota_holds 1 1 manager 7 2 idle busy overlap_run (refl, omega arith, (λ e. refl, tt))
      (omega arith) refl refl refl
