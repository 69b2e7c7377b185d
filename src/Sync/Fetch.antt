-- ===== src/Sync/Fetch.antt =====
-- `fetch_bytes` of scripts/sync_jcc_data.py: one GET with bounded retries.
use tsuz_api_jcc.Base.{
  ℕ, zero, suc, ◌+◌, ◌^◌, min, String, Bool, List, [], ◌∷◌, contains, ◌==◌, nat_eq, if◌then◌else◌,
  ◌≡◌, refl, arith,
}
use tsuz_api_jcc.Base.Int.{ℤ, pos, negsuc}
use tsuz_api_jcc.Base.Result.{Result, ok, err}

-- What an attempt to open and read the address comes to: a response with its status and body, an
-- `HTTPError` with its code, or a `TimeoutError`, `URLError` or `OSError` by its name.
pub data Attempt : Type 0 where
  response : ℕ → String → Attempt
  http_error : ℕ → Attempt
  network_error : String → Attempt

-- The last reason of a failure.
pub data Reason : Type 0 where
  unknown : Reason
  http : ℕ → Reason
  exception : String → Reason

pub data FetchError : Type 0 where
  bad_timeout bad_retries : FetchError
  returned : ℕ → FetchError
  failed_after : ℕ → Reason → FetchError

-- The outcome, and the pauses before the retries.
pub record Fetched : Type 0 where
  pub result : Result FetchError String
  pub sleeps : List ℕ

unfoldable pub is_retryable_status : ℕ → Bool
is_retryable_status = contains (408 ∷ 429 ∷ 500 ∷ 502 ∷ 503 ∷ 504 ∷ [])

-- What the body of the loop makes of an attempt: it ends the loop, or another attempt may follow.
pub data Verdict : Type 0 where
  settled : Result FetchError String → Verdict
  again : Reason → Verdict

abbrev pub of_status : ℕ → Verdict
of_status status =
    if is_retryable_status status then again (http status) else settled (err (returned status))

unfoldable pub verdict : Attempt → Verdict
unfolding is_retryable_status
verdict (response status body) = if status == 200 then settled (ok body) else of_status status
verdict (http_error status) = of_status status
verdict (network_error name) = again (exception name)

-- `min(2**attempt, 8)`
abbrev pub backoff : ℕ → ℕ
backoff attempt = min (2 ^ attempt) 8

abbrev pub after_pause : ℕ → Fetched → Fetched
after_pause pause f = record f { sleeps = pause ∷ f.sleeps }

-- The loop with `left` retries after this attempt.
unfoldable pub fetch_loop : (ℕ → Attempt) → ℕ → ℕ → Fetched
fetch_loop opener attempt zero = elim (verdict (opener attempt)) [
  | settled r ↦ record { result = r; sleeps = [] }
  | again why ↦ record { result = err (failed_after (attempt + 1) why); sleeps = [] }
]
fetch_loop opener attempt (suc left) =
    let rest = fetch_loop opener (suc attempt) left in
    elim (verdict (opener attempt)) [
      | settled r ↦ record { result = r; sleeps = [] }
      | again why ↦ after_pause (backoff attempt) rest
    ]

-- `opener n` is what the attempt `n` comes to.
unfoldable pub fetch_bytes : (ℕ → Attempt) → ℤ → ℤ → Fetched
unfolding fetch_loop verdict
fetch_bytes opener (negsuc _) retries = record { result = err bad_timeout; sleeps = [] }
fetch_bytes opener (pos zero) retries = record { result = err bad_timeout; sleeps = [] }
fetch_bytes opener (pos (suc _)) (negsuc _) = record { result = err bad_retries; sleeps = [] }
fetch_bytes opener (pos (suc _)) (pos retries) = fetch_loop opener 0 retries

-- The pauses after the attempts from `attempt` on, `n` of them.
abbrev pub backoffs : ℕ → ℕ → List ℕ
backoffs attempt zero = []
backoffs attempt (suc n) = backoff attempt ∷ backoffs (suc attempt) n

-- The attempts from `attempt` on, `n` of them, may all be retried.
abbrev pub AllAgain : (ℕ → Attempt) → ℕ → ℕ → Type 0
AllAgain opener attempt zero = Unit
AllAgain opener attempt (suc n) =
    ((why : Reason) × (verdict (opener attempt) ≡ again why)) × AllAgain opener (suc attempt) n

loop_settled :
    (opener : ℕ → Attempt) (attempt n more at_ left : ℕ) (r : Result FetchError String)
    → AllAgain opener attempt n
    → at_ ≡ attempt + n
    → left ≡ n + more
    → verdict (opener at_) ≡ settled r
    → fetch_loop opener attempt left ≡ record { result = r; sleeps = backoffs attempt n }
unfolding fetch_loop
loop_settled opener attempt zero more at_ zero r a i j h =
    let i' : at_ ≡ attempt = omega arith in let here = rw i' at h in rw (here, fetch_loop) refl
loop_settled opener attempt zero more at_ (suc left) r a i j h =
    let i' : at_ ≡ attempt = omega arith in let here = rw i' at h in rw (here, fetch_loop) refl
loop_settled opener attempt (suc n) more at_ zero r a i j h = absurd (omega arith)
loop_settled opener attempt (suc n) more at_ (suc left) r ((why, e), a) i j h =
    let rest =
      loop_settled opener (suc attempt) n more at_ left r a (omega arith) (omega arith) h in
    rw (e, rest, fetch_loop) refl

loop_exhausted :
    (opener : ℕ → Attempt) (attempt n at_ : ℕ) (why : Reason)
    → AllAgain opener attempt n
    → at_ ≡ attempt + n
    → verdict (opener at_) ≡ again why
    → fetch_loop opener attempt n
      ≡ record { result = err (failed_after (at_ + 1) why); sleeps = backoffs attempt n }
unfolding fetch_loop
loop_exhausted opener attempt zero at_ why a i h =
    let i' : at_ ≡ attempt = omega arith in let here = rw i' at h in rw (here, i', fetch_loop) refl
loop_exhausted opener attempt (suc n) at_ why ((first, e), a) i h =
    let rest = loop_exhausted opener (suc attempt) n at_ why a (omega arith) h in
    rw (e, rest, fetch_loop) refl

-- With a positive timeout, if an attempt within the `n + more` retries is the first that may not be
-- retried, its outcome is the result, after one pause of min(2 ^ i, 8) seconds for each attempt i
-- before it, and no later attempt matters.
pub fetch_bytes-settled :
    (opener : ℕ → Attempt) (timeout n more : ℕ) (r : Result FetchError String)
    → AllAgain opener 0 n
    → verdict (opener n) ≡ settled r
    → fetch_bytes opener (pos (suc timeout)) (pos (n + more))
      ≡ record { result = r; sleeps = backoffs 0 n }
unfolding fetch_bytes
fetch_bytes-settled opener timeout n more r a h =
    loop_settled opener 0 n more n (n + more) r a (omega arith) refl h

-- With a positive timeout, if all `n + 1` attempts may be retried, the result is the failure with
-- the reason of the last one, after a pause for each attempt but the last.
pub fetch_bytes-exhausted :
    (opener : ℕ → Attempt) (timeout n : ℕ) (why : Reason)
    → AllAgain opener 0 n
    → verdict (opener n) ≡ again why
    → fetch_bytes opener (pos (suc timeout)) (pos n)
      ≡ record { result = err (failed_after (n + 1) why); sleeps = backoffs 0 n }
unfolding fetch_bytes
fetch_bytes-exhausted opener timeout n why a h = loop_exhausted opener 0 n n why a (omega arith) h
