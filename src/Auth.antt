-- ===== src/Auth.antt =====
-- app/deps/auth.py, with app/services/blacklist_service.py and app/services/session_service.py: who a
-- request comes from and what it may do. Redis and the JWT library are parameters; times are seconds.
pub mod Revocation
use tsuz_api_jcc.Base.{
  ℕ, ◌+◌, ◌-◌, ◌≤◌, ◌<◌, max, String, ◌<>◌, Bool, true, false, not, Option, none, some, List, [],
  ◌∷◌, any, all, contains, ◌==◌, string_eq, option_eq, if◌then◌else◌, ◌≡◌,
}
use tsuz_api_jcc.Base.Result.{Result, ok, err, ◌>>=◌, ◌>>◌, guard}
use tsuz_api_jcc.Jcc.Json.{Json, Items, Object, is_space, is_empty}
use tsuz_api_jcc.Jcc.Scalars.{get}
use Prim.Native.Char.{Char, code}

-- The commands of Redis that the services use, at a time, with what Redis documents of them.
pub record Redis (R : Type 0) : Type 0 where
  pub get_key : ℕ → String → R → Option String
  pub exists : ℕ → String → R → Bool
  pub set : String → String → R → R
  pub setex : ℕ → String → ℕ → String → R → R
  pub get-set : (now : ℕ) (k v : String) (r : R) → get_key now k (set k v r) ≡ some v
  pub exists-setex :
      (now then_ ttl : ℕ) (k v : String) (r : R)
      → now ≤ then_
      → then_ < now + ttl
      → exists then_ k (setex now k ttl v r) ≡ true

pub data AuthError : Type 0 where
  unauthorized insufficient_scope insufficient_role : AuthError

-- What `jwt.decode` raises, and the `ValueError` of a key or a claim.
pub data TokenError : Type 0 where
  expired_token invalid_signature invalid_issuer invalid_audience invalid_token invalid_claims :
      TokenError

pub record CurrentUser : Type 0 where
  pub user_id : String
  pub sid : String
  pub jti : String
  pub roles : List String
  pub scope : String

-- The settings that the services read.
pub record Settings : Type 0 where
  pub token_blacklist_prefix : String
  pub session_prefix : String

-- `s.split()`
abbrev onto_word : Char → String → List String → List String
onto_word c String.[] words = String.◌∷◌ c String.[] ∷ words
onto_word c (String.◌∷◌ d _) [] = String.◌∷◌ c String.[] ∷ []
onto_word c (String.◌∷◌ d _) (w ∷ words) =
    if is_space (code d) then String.◌∷◌ c String.[] ∷ w ∷ words else String.◌∷◌ c w ∷ words

unfoldable pub words : String → List String
unfolding is_space
words String.[] = []
words (String.◌∷◌ c s) =
    let rest = words s in if is_space (code c) then rest else onto_word c s rest

-- `CurrentUser.scopes`
unfoldable pub scopes : CurrentUser → List String
scopes u = words u.scope

abbrev non_empty_string : Json → Result TokenError String
non_empty_string (Json.str s) = if is_empty s then err invalid_claims else ok s
non_empty_string _ = err invalid_claims

unfoldable pub required_string_claim : Object → String → Result TokenError String
unfolding get
required_string_claim payload claim = non_empty_string (get claim payload)

abbrev role_list : Items → Result TokenError (List String)
role_list Items.nil = ok []
role_list (Items.item role rest) = do r ← non_empty_string role; rs ← role_list rest; ok (r ∷ rs)

abbrev roles_of : Json → Result TokenError (List String)
roles_of Json.null = ok []
roles_of (Json.arr xs) = role_list xs
roles_of _ = err invalid_claims

unfoldable pub roles_claim : Object → Result TokenError (List String)
unfolding get
roles_claim payload = roles_of (get "roles" payload)

abbrev scope_of : Json → Result TokenError String
scope_of Json.null = ok ""
scope_of (Json.str s) = ok s
scope_of _ = err invalid_claims

unfoldable pub scope_claim : Object → Result TokenError String
unfolding get
scope_claim payload = scope_of (get "scope" payload)

unfoldable pub claims : Object → Result TokenError CurrentUser
claims payload = do
  user_id ← required_string_claim payload "sub"
  sid ← required_string_claim payload "sid"
  jti ← required_string_claim payload "jti"
  roles ← roles_claim payload
  scope ← scope_claim payload
  ok (record { user_id = user_id; sid = sid; jti = jti; roles = roles; scope = scope })

-- Each error of the token is the same answer 401.
abbrev pub unauthorized_unless {ℓ} : {A : Type ℓ} → Result TokenError A → Result AuthError A
unauthorized_unless (ok a) = ok a
unauthorized_unless (err _) = err unauthorized

module _ {R : Type 0} (redis : Redis R) (settings : Settings) where
  -- `BlacklistService.add_jti`: a token lasts in the blacklist until it expires.
  unfoldable pub add_jti : ℕ → String → ℕ → R → R
  add_jti now jti exp =
      redis.setex now (settings.token_blacklist_prefix <> jti) (max 1 (exp - now)) "1"

  unfoldable pub ensure_not_blacklisted : ℕ → String → R → Result TokenError (Unit {0})
  ensure_not_blacklisted now jti r =
      guard (not (redis.exists now (settings.token_blacklist_prefix <> jti) r)) invalid_claims

  -- `SessionService.revoke_session`
  unfoldable pub revoke_session : String → R → R
  revoke_session sid = redis.set (settings.session_prefix <> sid) "revoked"

  unfoldable pub ensure_session_active : ℕ → String → R → Result TokenError (Unit {0})
  unfolding option_eq
  ensure_session_active now sid r =
      guard (not (redis.get_key now (settings.session_prefix <> sid) r == some "revoked"))
        invalid_claims

  -- The checks behind a decoded token.
  unfoldable pub admitted : ℕ → CurrentUser → R → Result AuthError CurrentUser
  admitted now u r = do
    _ ← unauthorized_unless (ensure_not_blacklisted now u.jti r)
    _ ← unauthorized_unless (ensure_session_active now u.sid r)
    ok u

  -- `decode` is `jwt.decode` with the key, the algorithm, the issuer and the audience of the settings.
  unfoldable pub get_current_user :
      (String → Result TokenError Object) → ℕ → Option String → R → Result AuthError CurrentUser
  get_current_user decode now none r = err unauthorized
  get_current_user decode now (some token) r = do
    u ← unauthorized_unless (decode token >>= claims)
    admitted now u r

unfoldable pub require_scopes : List String → CurrentUser → Result AuthError CurrentUser
unfolding scopes
require_scopes required u =
    if all (contains (scopes u)) required then ok u else err insufficient_scope

unfoldable pub require_any_scope : List String → CurrentUser → Result AuthError CurrentUser
unfolding scopes
require_any_scope required u =
    if any (contains required) (scopes u) then ok u else err insufficient_scope

unfoldable pub require_role : String → CurrentUser → Result AuthError CurrentUser
require_role required u = if contains u.roles required then ok u else err insufficient_role

unfoldable pub require_any_role : List String → CurrentUser → Result AuthError CurrentUser
require_any_role required u =
    if any (contains required) u.roles then ok u else err insufficient_role
