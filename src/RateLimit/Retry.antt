-- ===== src/RateLimit/Retry.antt =====
-- What a refusal promises: the deque never exceeds the limit, and the hint is long enough within a millisecond.
use tsuz_api_jcc.Base.{
  ℕ, ◌+◌, ◌*◌, ◌≤◌, ◌<◌, String, List, [], ◌∷◌, ◌++◌, true, false, ◌≡◌, ltb, length, length-append,
  string_eq, arith,
}
use tsuz_api_jcc.Base.Dict.{lookup-insert}
use tsuz_api_jcc.RateLimit.Sliding.{is_allowed-check, hits_of-check, window-check}
use tsuz_api_jcc.RateLimit.{
  InProcessRateLimiter, RateLimitDecision, evict, hits_of, check, refuse, retry_after, decided,
  is_allowed,
}

-- No deque holds more than `limit` times.
pub record IsBounded (s : InProcessRateLimiter) : Type 0 where
  pub at_key : (k : String) → length (hits_of s k) ≤ s.limit

length-evict-le : (now window : ℕ) (xs : List ℕ) → length (evict now window xs) ≤ length xs
unfolding evict
length-evict-le now window [] = omega arith
length-evict-le now window (x ∷ xs) = ground (arith, length-evict-le now window xs)

-- Every check, admitted or refused, keeps every deque within the limit.
pub check-IsBounded :
    (now : ℕ) (key : String) (s : InProcessRateLimiter)
    → IsBounded s
    → IsBounded (check now key s).1
unfolding check hits_of
check-IsBounded now key s h = record {
  at_key = λ k.
      let left = evict now s.window (hits_of s key) in
      ground (
        arith,
        h.at_key k,
        h.at_key key,
        length-evict-le now s.window (hits_of s key),
        lookup-insert k key left s.hits,
        lookup-insert k key (left ++ now ∷ []) s.hits,
        length-append left (now ∷ []),
      );
}

-- The hint in nanoseconds, and a millisecond more.
abbrev pub wait : ℕ → ℕ
wait seconds = 1000000000 * seconds + 1000000

evict_later :
    (now window : ℕ) (h : ℕ) (hs : List ℕ)
    → length (evict (now + wait (retry_after now window h)) window (h ∷ hs)) ≤ length hs
unfolding evict retry_after
evict_later now window h hs =
    ground (arith, length-evict-le (now + wait (retry_after now window h)) window hs)

refuse_later :
    (now window limit : ℕ) (left : List ℕ) (d : RateLimitDecision)
    → length left ≤ limit
    → 0 < limit
    → refuse now window left ≡ decided d
    → length (evict (now + wait d.retry_after_seconds) window left) < limit
unfolding refuse
refuse_later now window limit [] d h p e = cc
refuse_later now window limit (t ∷ ts) d h p e =
    let r : d.retry_after_seconds ≡ retry_after now window t = ground arith in
    rw r (omega (arith, evict_later now window t ts))

check_refused :
    (now : ℕ) (key : String) (s : InProcessRateLimiter) (d : RateLimitDecision)
    → (check now key s).0 ≡ decided d
    → d.allowed ≡ false
    → let left = evict now s.window (hits_of s key) in
      (ltb (length left) s.limit ≡ false) × (refuse now s.window left ≡ decided d)
unfolding check
check_refused now key s d e f = ground arith

-- After a refusal, a request of the same key that waits the given number of seconds and one further
-- millisecond, which the rounding may lack, with no other request in between, is admitted; unless
-- the limit is 0.
pub retry_allowed :
    (now : ℕ) (key : String) (s : InProcessRateLimiter) (d : RateLimitDecision)
    → IsBounded s
    → 0 < s.limit
    → (check now key s).0 ≡ decided d
    → d.allowed ≡ false
    → is_allowed (check (now + wait d.retry_after_seconds) key (check now key s).1).0 ≡ true
retry_allowed now key s d h p e f =
    let left = evict now s.window (hits_of s key) in
    let later = now + wait d.retry_after_seconds in
    let (full, refused) = check_refused now key s d e f in
    let short =
      refuse_later now s.window s.limit left d
        (omega (arith, length-evict-le now s.window (hits_of s key), h.at_key key)) p refused in
    let (w, l) = window-check now key s in rw (is_allowed-check, w, l, hits_of-check) (ground arith)
