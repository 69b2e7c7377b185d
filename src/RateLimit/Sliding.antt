-- ===== src/RateLimit/Sliding.antt =====
-- The limiter against an abstract sliding-window log of all admitted requests.
use mathlib.Core.Path.{ap₂}
use mathlib.Core.List.{append-nil}
use tsuz_api_jcc.Base.{
  ℕ, max, ◌+◌, ◌≤◌, ◌<◌, String, List, [], ◌∷◌, ◌++◌, Bool, ◌≡◌, refl, leb, ltb, length, keep, All,
  if◌then◌else◌, string_eq, ◌==◌, arith, ◌∙◌, Bool-cases, inl, inr,
}
use tsuz_api_jcc.Base.Dict.{lookup-insert}
use tsuz_api_jcc.Base.Int.{ℤ, pos_part}
use tsuz_api_jcc.RateLimit.{InProcessRateLimiter, init, evict, hits_of, check, refuse, is_allowed}
use tsuz_api_jcc.RateLimit.Window.{in_window, Ascending, evict-eq-keep, Ascending-evict}

-- A request: the clock's reading and the key.
abbrev pub Request : Type 0
Request = ℕ × String

-- When the requests of one key were admitted.
abbrev pub times : String → List Request → List ℕ
times k [] = []
times k ((t, j) ∷ log) = let rest = times k log in if k == j then t ∷ rest else rest

-- Fewer than `limit` requests of the key were admitted in the window that ends now.
abbrev pub admits : ℕ → ℕ → List Request → Request → Bool
admits limit window log (now, key) =
    ltb (length (keep (in_window now window) (times key log))) limit

-- The specification's answers to a sequence of requests, from the log of those admitted before.
pub answers : ℕ → ℕ → List Request → List Request → List Bool
answers limit window log [] = []
answers limit window log (r ∷ rs) =
    let admitted = admits limit window log r in
    admitted ∷ answers limit window (if admitted then log ++ r ∷ [] else log) rs

-- The limiter's answers to the same sequence.
unfoldable pub run : InProcessRateLimiter → List Request → List Bool
run s [] = []
run s ((now, key) ∷ rs) = is_allowed (check now key s).0 ∷ run (check now key s).1 rs

-- The clock never goes back.
abbrev pub ClockFrom : ℕ → List Request → Type 0
ClockFrom last [] = Unit
ClockFrom last ((now, key) ∷ rs) = (last ≤ now) × ClockFrom now rs

record Tracks (last : ℕ) (s : InProcessRateLimiter) (log : List Request) : Type 0 where
  same :
      (k : String) (now : ℕ)
      → last ≤ now
      → keep (in_window now s.window) (hits_of s k) ≡ keep (in_window now s.window) (times k log)
  ascending : (k : String) → Ascending 0 (hits_of s k)
  bounded : (k : String) → All (λ t. t ≤ last) (hits_of s k)
  positive : 0 < s.window

keep-keep :
    (now now' window : ℕ) (xs : List ℕ)
    → now ≤ now'
    → keep (in_window now' window) (keep (in_window now window) xs)
      ≡ keep (in_window now' window) xs
keep-keep now now' window [] h = refl
keep-keep now now' window (x ∷ xs) h = ground (arith, keep-keep now now' window xs)

keep-append {ℓ} :
    {A : Type ℓ} (p : A → Bool) (xs ys : List A) → keep p (xs ++ ys) ≡ keep p xs ++ keep p ys
keep-append p [] ys = refl
keep-append p (x ∷ xs) ys = ground (arith, keep-append p xs ys)

times-append :
    (k : String) (log : List Request) (now : ℕ) (key : String)
    → times k (log ++ (now, key) ∷ []) ≡ times k log ++ (if k == key then now ∷ [] else [])
times-append k [] now key = refl
times-append k ((t, j) ∷ log) now key = ground (arith, times-append k log now key)

Ascending-snoc :
    (lo last now : ℕ) (xs : List ℕ)
    → lo ≤ now
    → Ascending lo xs
    → All (λ t. t ≤ last) xs
    → last ≤ now
    → Ascending lo (xs ++ now ∷ [])
Ascending-snoc lo last now [] h a b c = (h, tt)
Ascending-snoc lo last now (x ∷ xs) h (p, q) (u, v) c =
    (p, Ascending-snoc x last now xs (omega arith) q v c)

All-le : (last now : ℕ) (xs : List ℕ) → last ≤ now → All (λ t. t ≤ last) xs → All (λ t. t ≤ now) xs
All-le last now [] h a = tt
All-le last now (x ∷ xs) h (p, q) = (omega arith, All-le last now xs h q)

All-snoc : (now : ℕ) (xs : List ℕ) → All (λ t. t ≤ now) xs → All (λ t. t ≤ now) (xs ++ now ∷ [])
All-snoc now [] a = (omega arith, tt)
All-snoc now (x ∷ xs) (p, q) = (p, All-snoc now xs q)

All-evict :
    (last now window : ℕ) (xs : List ℕ)
    → All (λ t. t ≤ last) xs
    → All (λ t. t ≤ last) (evict now window xs)
unfolding evict
All-evict last now window [] a = tt
All-evict last now window (x ∷ xs) (p, q) = elim (Bool-cases (leb (x + window) now)) [
  | inl old ↦ rw old (All-evict last now window xs q)
  | inr new ↦ rw new (p, q)
]

-- What `check` does to each deque, and when it admits.
pub hits_of-check :
    (now : ℕ) (key k : String) (s : InProcessRateLimiter)
    → let left = evict now s.window (hits_of s key) in
      hits_of (check now key s).1 k ≡ (
        if k == key
        then (if ltb (length left) s.limit then left ++ now ∷ [] else left)
        else hits_of s k)
unfolding check hits_of
hits_of-check now key k s =
    let left = evict now s.window (hits_of s key) in
    ground (arith, lookup-insert k key left s.hits, lookup-insert k key (left ++ now ∷ []) s.hits)

pub is_allowed-check :
    (now : ℕ) (key : String) (s : InProcessRateLimiter)
    → is_allowed (check now key s).0 ≡ ltb (length (evict now s.window (hits_of s key))) s.limit
unfolding check refuse
is_allowed-check now key s = ground arith

pub window-check :
    (now : ℕ) (key : String) (s : InProcessRateLimiter)
    → ((check now key s).1.window ≡ s.window) × ((check now key s).1.limit ≡ s.limit)
unfolding check
window-check now key s = ground arith

module _ (last now : ℕ) (key : String) (s : InProcessRateLimiter) (log : List Request)
    (h : Tracks last s log) (later : last ≤ now) where
  left : List ℕ
  left = evict now s.window (hits_of s key)

  left-eq : left ≡ keep (in_window now s.window) (times key log)
  unfolding left
  left-eq = evict-eq-keep now s.window 0 _ (h.ascending key) ∙ h.same key now later

  admits-check : is_allowed (check now key s).0 ≡ admits s.limit s.window log (now, key)
  unfolding left
  admits-check = is_allowed-check now key s ∙ rw left-eq

  next_log : List Request
  next_log = if admits s.limit s.window log (now, key) then log ++ (now, key) ∷ [] else log

  keep-left :
      (now' : ℕ)
      → now ≤ now'
      → keep (in_window now' s.window) left ≡ keep (in_window now' s.window) (times key log)
  keep-left now' p = rw left-eq (keep-keep now now' s.window (times key log) p)

  same-next :
      (k : String) (now' : ℕ)
      → now ≤ now'
      → keep (in_window now' s.window) (hits_of (check now key s).1 k)
        ≡ keep (in_window now' s.window) (times k next_log)
  unfolding left next_log
  same-next k now' p =
      let w = s.window in
      let fresh = keep (in_window now w) (times key log) in
      rw hits_of-check (
        rw left-eq (
          ground (
            arith,
            h.same k now' (omega arith),
            keep-keep now now' w (times key log) p,
            keep-append (in_window now' w) fresh (now ∷ []),
            keep-append (in_window now' w) (times k log) (now ∷ []),
            keep-append (in_window now' w) (times k log) [],
            append-nil (times k log),
            times-append k log now key,
          )))

  bounded-next : (k : String) → All (λ t. t ≤ now) (hits_of (check now key s).1 k)
  unfolding left
  bounded-next k =
      let a = All-evict last now s.window (hits_of s key) (h.bounded key) in
      let b = All-le last now (evict now s.window (hits_of s key)) later a in
      let c = All-snoc now (evict now s.window (hits_of s key)) b in
      let d = All-le last now (hits_of s k) later (h.bounded k) in rw hits_of-check (ground arith)

  Ascending-next : (k : String) → Ascending 0 (hits_of (check now key s).1 k)
  unfolding left
  Ascending-next k =
      let l = evict now s.window (hits_of s key) in
      let a = Ascending-evict now s.window 0 (hits_of s key) (h.ascending key) in
      let b = All-evict last now s.window (hits_of s key) (h.bounded key) in
      let c = Ascending-snoc 0 last now l (omega arith) a b later in
      let d = h.ascending k in rw hits_of-check (ground arith)

  Tracks-check : Tracks now (check now key s).1 next_log
  Tracks-check = record {
    same = rw (window-check now key s).0 same-next;
    ascending = Ascending-next;
    bounded = bounded-next;
    positive = rw (window-check now key s).0 h.positive;
  }

-- From a limiter that agrees with a log, the two give the same answers.
run-eq-answers :
    (last : ℕ) (s : InProcessRateLimiter) (log : List Request) (rs : List Request)
    → Tracks last s log
    → ClockFrom last rs
    → run s rs ≡ answers s.limit s.window log rs
unfolding run answers next_log
run-eq-answers last s log [] h c = refl
run-eq-answers last s log ((now, key) ∷ rs) h (later, c) =
    let first = admits-check last now key s log h later in
    let rest =
      run-eq-answers now (check now key s).1 (next_log last now key s log h later) rs
        (Tracks-check last now key s log h later) c in
    let (w, l) = window-check now key s in ap₂ ◌∷◌ first (rest ∙ rw (w, l))

Tracks-init : (limit window : ℤ) → Tracks 0 (init limit window) []
unfolding init hits_of
Tracks-init limit window = record {
  same = λ k now h. refl;
  ascending = λ k. tt;
  bounded = λ k. tt;
  positive = omega arith;
}

-- A new limiter, asked at times that never go back, admits a request exactly when fewer than
-- `limit` requests of its key were admitted in the window that ends at that time, whatever the
-- requests of other keys.
pub run-init :
    (limit window : ℤ) (rs : List Request)
    → ClockFrom 0 rs
    → run (init limit window) rs ≡ answers (pos_part limit) (max 1000000 (pos_part window)) [] rs
unfolding init
run-init limit window rs c = run-eq-answers 0 (init limit window) [] rs (Tracks-init limit window) c
