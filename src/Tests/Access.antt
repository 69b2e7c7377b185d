-- ===== src/Tests/Access.antt =====
-- Tokens and downloads, at concrete inputs.
use tsuz_api_jcc.Base.{
  ℕ, zero, suc, ◌+◌, ◌≤◌, ◌<◌, String, Bool, true, false, Option, none, some, [], ◌∷◌, ◌≡◌, refl,
  arith, string_eq, nat_eq, option_eq, ltb, if◌then◌else◌, ==_refl,
}
use tsuz_api_jcc.Base.Dict
use tsuz_api_jcc.Base.Dict.{Dict, lookup-insert}
use tsuz_api_jcc.Base.Int.{pos}
use tsuz_api_jcc.Base.Result.{Result, ok, err}
use tsuz_api_jcc.Jcc.Json.{Json, Object, is_space}
use tsuz_api_jcc.Jcc.Scalars.{get}
use tsuz_api_jcc.Auth.{
  Redis, Settings, CurrentUser, TokenError, unauthorized, get_current_user, admitted, claims,
  required_string_claim, roles_claim, scope_claim, ensure_not_blacklisted, ensure_session_active,
  revoke_session, add_jti, require_scopes, require_any_scope, scopes, words, insufficient_scope,
}
use tsuz_api_jcc.Auth.Revocation.{get_current_user-revoked}
use tsuz_api_jcc.Sync.Fetch.{
  Attempt, response, http_error, network_error, http, exception, failed_after, verdict,
  is_retryable_status, settled, again, fetch_bytes, fetch_bytes-settled, fetch_bytes-exhausted,
}

-- A store that forgets no key: its values, and the keys with the times at which they expire.
abbrev Memory : Type 0
Memory = Dict String (String × Option ℕ)

abbrev is_live : ℕ → Option (String × Option ℕ) → Bool
is_live now none = false
is_live now (some (_, none)) = true
is_live now (some (_, some end)) = ltb now end

abbrev value_at : ℕ → Option (String × Option ℕ) → Option String
value_at now none = none
value_at now (some (v, none)) = some v
value_at now (some (v, some end)) = if ltb now end then some v else none

abbrev put : String → String → Option ℕ → Memory → Memory
put k v end r = Dict.insert k (v, end) r

get-put :
    (now : ℕ) (k v : String) (r : Memory) → value_at now (Dict.lookup k (put k v none r)) ≡ some v
get-put now k v r = rw (lookup-insert k k (v, none) r, ==_refl k) refl

live-put :
    (now later ttl : ℕ) (k v : String) (r : Memory)
    → now ≤ later
    → later < now + ttl
    → is_live later (Dict.lookup k (put k v (some (now + ttl)) r)) ≡ true
live-put now later ttl k v r p q =
    rw (lookup-insert k k (v, some (now + ttl)) r, ==_refl k) (ground arith)

abbrev redis : Redis Memory
redis = record {
  get_key = λ now k r. value_at now (Dict.lookup k r);
  exists = λ now k r. is_live now (Dict.lookup k r);
  set = λ k v r. put k v none r;
  setex = λ now k ttl v r. put k v (some (now + ttl)) r;
  get-set = get-put;
  exists-setex = live-put;
}

abbrev settings : Settings
settings = record { token_blacklist_prefix = "blacklist:"; session_prefix = "session:" }

abbrev decode : String → Result TokenError Object
decode _ = ok (
    ("sub", Json.str "u")
    ∷ ("sid", Json.str "s")
    ∷ ("jti", Json.str "j")
    ∷ ("scope", Json.str "read write")
    ∷ [])

abbrev alice : CurrentUser
alice = record { user_id = "u"; sid = "s"; jti = "j"; roles = []; scope = "read write" }

login : get_current_user redis settings decode 10 (some "token") [] ≡ ok alice
unfolding get_current_user admitted claims required_string_claim roles_claim scope_claim get
    ensure_not_blacklisted ensure_session_active Dict.lookup string_eq option_eq
login = refl

needs_read : require_scopes ("read" ∷ []) alice ≡ ok alice
unfolding require_scopes scopes words is_space string_eq
needs_read = refl

needs_admin : require_any_scope ("admin" ∷ []) alice ≡ err insufficient_scope
unfolding require_any_scope scopes words is_space string_eq
needs_admin = refl

get_current_user-revoked_example :
    (get_current_user redis settings decode 30 (some "token") (revoke_session redis settings "s" [])
      ≡ err unauthorized)
    × (get_current_user redis settings decode 30
          (some "token")
          (add_jti redis settings 20 "j" 60 [])
        ≡ err unauthorized)
get_current_user-revoked_example =
    get_current_user-revoked redis settings decode 10 "token" [] alice login 20 30 60 []
      (omega arith) (omega arith)

-- Busy twice, then lost, then there.
abbrev flaky : ℕ → Attempt
flaky zero = http_error 503
flaky (suc zero) = response 429 ""
flaky (suc (suc _)) = response 200 "data"

abbrev down : ℕ → Attempt
down _ = network_error "URLError"

flaky-0 : verdict (flaky 0) ≡ again (http 503)
unfolding verdict is_retryable_status nat_eq
flaky-0 = refl

flaky-1 : verdict (flaky 1) ≡ again (http 429)
unfolding verdict is_retryable_status nat_eq
flaky-1 = refl

flaky-2 : verdict (flaky 2) ≡ settled (ok "data")
unfolding verdict is_retryable_status nat_eq
flaky-2 = refl

down-all : (n : ℕ) → verdict (down n) ≡ again (exception "URLError")
unfolding verdict
down-all n = refl

fetch_bytes-settled_example :
    fetch_bytes flaky (pos 30) (pos 3) ≡ record { result = ok "data"; sleeps = 1 ∷ 2 ∷ [] }
fetch_bytes-settled_example =
    fetch_bytes-settled flaky 29 2 1 (ok "data") ((http 503, flaky-0), ((http 429, flaky-1), tt))
      flaky-2

fetch_bytes-exhausted_example :
    fetch_bytes down (pos 30) (pos 1)
    ≡ record { result = err (failed_after 2 (exception "URLError")); sleeps = 1 ∷ [] }
fetch_bytes-exhausted_example =
    fetch_bytes-exhausted down 29 1 (exception "URLError") ((exception "URLError", down-all 0), tt)
      (down-all 1)
