-- ===== src/RateLimit.antt =====
-- app/core/rate_limit.py: the in-process sliding-window limiter. Times are whole
-- nanoseconds, the resolution of the clock; the rounding of floating point is left out.
pub mod Window
pub mod Retry
pub mod Sliding
use tsuz_api_jcc.Base.{
  ℕ, ◌+◌, ◌-◌, ◌/◌, max, String, List, [], ◌∷◌, ◌++◌, Bool, true, false, Option, none, some, leb,
  length, if◌then◌else◌, string_eq,
}
use tsuz_api_jcc.Base.Dict
use tsuz_api_jcc.Base.Dict.{Dict}
use tsuz_api_jcc.Base.Int.{ℤ, pos_part}

pub record RateLimitDecision : Type 0 where
  pub allowed : Bool
  pub retry_after_seconds : ℕ

pub record InProcessRateLimiter : Type 0 where
  pub limit : ℕ
  pub window : ℕ
  pub hits : Dict String (List ℕ)

-- `__init__`; the window is at least one millisecond.
unfoldable pub init : ℤ → ℤ → InProcessRateLimiter
init limit window = record {
  limit = pos_part limit;
  window = max 1000000 (pos_part window);
  hits = [];
}

-- `while hits and hits[0] <= now - window: hits.popleft()`
unfoldable pub evict : ℕ → ℕ → List ℕ → List ℕ
evict now window [] = []
evict now window (h ∷ hs) =
    let rest = evict now window hs in if leb (h + window) now then rest else h ∷ hs

abbrev pub or_empty : Option (List ℕ) → List ℕ
or_empty none = []
or_empty (some l) = l

-- `self._hits[key]` of a defaultdict of deques.
unfoldable pub hits_of : InProcessRateLimiter → String → List ℕ
unfolding Dict.lookup
hits_of s key = or_empty (Dict.lookup key s.hits)

-- `max(1, int(hits[0] + window - now + 0.999))`, from nanoseconds to whole seconds.
unfoldable pub retry_after : ℕ → ℕ → ℕ → ℕ
retry_after now window h = max 1 ((h + window - now + 999000000) / 1000000000)

-- A decision, or the `IndexError` of `hits[0]` on an empty deque.
pub data Outcome : Type 0 where
  decided : RateLimitDecision → Outcome
  index_error : Outcome

-- The refusal, from what is left in the deque.
unfoldable pub refuse : ℕ → ℕ → List ℕ → Outcome
unfolding retry_after
refuse now window [] = index_error
refuse now window (h ∷ _) =
    decided (record { allowed = false; retry_after_seconds = retry_after now window h })

-- `check`, with the clock's reading as an argument. The lock makes it one atomic step.
unfoldable pub check : ℕ → String → InProcessRateLimiter → Outcome × InProcessRateLimiter
unfolding hits_of evict refuse Dict.insert
check now key s =
    let left = evict now s.window (hits_of s key) in
    if leb s.limit (length left)
    then (refuse now s.window left, record s { hits = Dict.insert key left s.hits })
    else (
      decided (record { allowed = true; retry_after_seconds = 0 }),
      record s { hits = Dict.insert key (left ++ now ∷ []) s.hits },
    )

abbrev pub is_allowed : Outcome → Bool
is_allowed (decided d) = d.allowed
is_allowed index_error = false
