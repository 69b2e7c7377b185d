-- ===== src/RateLimit/Window.antt =====
-- The limiter's deque keeps just the admitted requests of the last window.
use tsuz_api_jcc.Base.{
  ℕ, ◌+◌, ◌≤◌, ◌<◌, List, [], ◌∷◌, Bool, ◌≡◌, refl, leb, ltb, keep, string_eq, arith, Bool-cases,
  inl, inr,
}
use tsuz_api_jcc.RateLimit.{evict}

-- Whether a request admitted at `t` still counts at `now`.
abbrev pub in_window : ℕ → ℕ → ℕ → Bool
in_window now window t = ltb now (t + window)

-- Times in the order in which a clock that never goes back gives them.
abbrev pub Ascending : ℕ → List ℕ → Type 0
Ascending lo [] = Unit
Ascending lo (x ∷ xs) = (lo ≤ x) × Ascending x xs

keep-fresh :
    (now window lo : ℕ) (xs : List ℕ)
    → Ascending lo xs
    → now < lo + window
    → keep (in_window now window) xs ≡ xs
keep-fresh now window lo [] a h = refl
keep-fresh now window lo (x ∷ xs) a h = ground (arith, keep-fresh now window x xs)

-- On ascending times the loop that stops at the first fresh one keeps all the fresh ones.
pub evict-eq-keep :
    (now window lo : ℕ) (xs : List ℕ)
    → Ascending lo xs
    → evict now window xs ≡ keep (in_window now window) xs
unfolding evict
evict-eq-keep now window lo [] a = refl
evict-eq-keep now window lo (x ∷ xs) a =
    ground (arith, keep-fresh now window x xs, evict-eq-keep now window x xs)

Ascending-weaken : (lo lo' : ℕ) (xs : List ℕ) → lo' ≤ lo → Ascending lo xs → Ascending lo' xs
Ascending-weaken lo lo' [] h a = tt
Ascending-weaken lo lo' (x ∷ xs) h (p, q) = (omega arith, q)

pub Ascending-evict :
    (now window lo : ℕ) (xs : List ℕ) → Ascending lo xs → Ascending lo (evict now window xs)
unfolding evict
Ascending-evict now window lo [] a = tt
Ascending-evict now window lo (x ∷ xs) (p, q) = elim (Bool-cases (leb (x + window) now)) [
  | inl old ↦
      let r = Ascending-weaken x lo (evict now window xs) p (Ascending-evict now window x xs q) in
      ground arith
  | inr new ↦ ground arith
]
