-- ===== src/Tests/Limits.antt =====
-- The rate limiter, at concrete inputs.
use tsuz_api_jcc.Base.{◌+◌, true, false, List, [], ◌∷◌, ◌≡◌, refl, string_eq, arith}
use tsuz_api_jcc.Base.Dict
use tsuz_api_jcc.Base.Int.{pos}
use tsuz_api_jcc.RateLimit.{
  InProcessRateLimiter, RateLimitDecision, init, check, hits_of, evict, refuse, retry_after,
  decided, is_allowed,
}
use tsuz_api_jcc.RateLimit.Sliding.{Request, answers, run, run-init}
use tsuz_api_jcc.RateLimit.Retry.{IsBounded, check-IsBounded, wait, retry_allowed}

-- Two requests a second.
abbrev requests : List Request
requests =
    (0, "a")
    ∷ (400000000, "a")
    ∷ (500000000, "b")
    ∷ (600000000, "a")
    ∷ (1000000000, "a")
    ∷ (1100000000, "a")
    ∷ []

run-requests :
    run (init (pos 2) (pos 1000000000)) requests ≡ true ∷ true ∷ true ∷ false ∷ true ∷ false ∷ []
unfolding run init check hits_of evict refuse retry_after Dict.lookup Dict.insert string_eq
run-requests = refl

run-init_example : run (init (pos 2) (pos 1000000000)) requests ≡ answers 2 1000000000 [] requests
run-init_example =
    run-init (pos 2) (pos 1000000000) requests
      (omega arith, (omega arith, (omega arith, (omega arith, (omega arith, (omega arith, tt))))))

abbrev full : InProcessRateLimiter
full = record { limit = 1; window = 1500000000; hits = ("a", 300000000 ∷ []) ∷ [] }

abbrev refusal : RateLimitDecision
refusal = record { allowed = false; retry_after_seconds = 2 }

full-IsBounded : IsBounded full
unfolding hits_of Dict.lookup
full-IsBounded = record { at_key = λ k. ground arith }

check-full : (check 400000000 "a" full).0 ≡ decided refusal
unfolding check hits_of evict refuse retry_after Dict.lookup string_eq
check-full = refl

check-IsBounded_example : IsBounded (check 400000000 "a" full).1
check-IsBounded_example = check-IsBounded 400000000 "a" full full-IsBounded

refusal-refused : refusal.allowed ≡ false
refusal-refused = refl

retry_allowed_example :
    is_allowed
      (check (400000000 + wait refusal.retry_after_seconds) "a" (check 400000000 "a" full).1).0
    ≡ true
retry_allowed_example =
    retry_allowed 400000000 "a" full refusal full-IsBounded (omega arith) check-full refusal-refused
