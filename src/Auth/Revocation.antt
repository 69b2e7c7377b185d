-- ===== src/Auth/Revocation.antt =====
-- A token stops to be accepted when its session is revoked or its identifier is blacklisted.
use tsuz_api_jcc.Base.{
  ℕ, ◌+◌, ◌-◌, ◌≤◌, ◌<◌, max, String, ◌<>◌, some, string_eq, option_eq, ◌≡◌, refl, ◌∙◌, arith,
}
use tsuz_api_jcc.Base.Result.{Result, ok, err, ◌>>=◌, >>=-eq-ok}
use tsuz_api_jcc.Jcc.Json.{Object}
use tsuz_api_jcc.Auth.{
  Redis, unauthorized, TokenError, CurrentUser, Settings, claims, unauthorized_unless, add_jti,
  ensure_not_blacklisted, revoke_session, ensure_session_active, admitted, get_current_user,
}

module _ {R : Type 0} (redis : Redis R) (settings : Settings)
    (decode : String → Result TokenError Object) where
  -- The user that a token names, whatever Redis holds.
  token_user :
      (now : ℕ) (token : String) (r : R) (u : CurrentUser)
      → get_current_user redis settings decode now (some token) r ≡ ok u
      → unauthorized_unless (decode token >>= claims) ≡ ok u
  unfolding get_current_user admitted
  token_user now token r u h =
      let (v, fv, h₁) = >>=-eq-ok (unauthorized_unless (decode token >>= claims)) _ h in
      let (_, _, h₂) =
        >>=-eq-ok (unauthorized_unless (ensure_not_blacklisted redis settings now v.jti r)) _ h₁ in
      let (_, _, h₃) =
        >>=-eq-ok (unauthorized_unless (ensure_session_active redis settings now v.sid r)) _ h₂ in
      ground arith

  same_token :
      (now : ℕ) (token : String) (r : R) (u : CurrentUser)
      → unauthorized_unless (decode token >>= claims) ≡ ok u
      → get_current_user redis settings decode now (some token) r ≡ admitted redis settings now u r
  unfolding get_current_user
  same_token now token r u h = rw h refl

  revoked :
      (now : ℕ) (u : CurrentUser) (r : R)
      → admitted redis settings now u (revoke_session redis settings u.sid r) ≡ err unauthorized
  unfolding admitted revoke_session ensure_session_active ensure_not_blacklisted
  revoked now u r = ground (arith, redis.get-set now (settings.session_prefix <> u.sid) "revoked" r)

  blacklisted :
      (then_ now exp : ℕ) (u : CurrentUser) (r : R)
      → then_ ≤ now
      → now < max (then_ + 1) exp
      → admitted redis settings now u (add_jti redis settings then_ u.jti exp r) ≡ err unauthorized
  unfolding admitted add_jti ensure_not_blacklisted
  blacklisted then_ now exp u r p q =
      let e =
        redis.exists-setex then_ now (max 1 (exp - then_))
          (settings.token_blacklist_prefix <> u.jti) "1" r p (ground arith) in
      rw e refl

  -- A token that was accepted as a user is answered 401 at any time after that user's session is
  -- revoked, and, after the token's identifier is blacklisted with an expiry time, at any time
  -- before that expiry and in any case within a second.
  pub get_current_user-revoked :
      (now : ℕ) (token : String) (r : R) (u : CurrentUser)
      → get_current_user redis settings decode now (some token) r ≡ ok u
      → (then_ later exp : ℕ) (r' : R) → then_ ≤ later
      → later < max (then_ + 1) exp
      → (get_current_user redis settings decode later
            (some token)
            (revoke_session redis settings u.sid r')
          ≡ err unauthorized)
        × (get_current_user redis settings decode later
              (some token)
              (add_jti redis settings then_ u.jti exp r')
            ≡ err unauthorized)
  get_current_user-revoked now token r u h then_ later exp r' p q =
      let e = token_user now token r u h in
      (
        same_token later token (revoke_session redis settings u.sid r') u e ∙ revoked later u r',
        same_token later token (add_jti redis settings then_ u.jti exp r') u e
            ∙ blacklisted then_ later exp u r' p q,
      )
