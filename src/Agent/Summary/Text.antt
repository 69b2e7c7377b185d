-- ===== src/Agent/Summary/Text.antt =====
-- Lengths of the texts that app/agent/summary.py puts together.
use Prim.Native.Char.{Char, code}
use tsuz_api_jcc.Base.{
  ℕ, zero, suc, ◌+◌, ◌-◌, ◌≤◌, String, ◌<>◌, List, [], ◌∷◌, ◌≡◌, refl, ap, Bool-cases, inl, inr,
  arith,
}
use tsuz_api_jcc.Jcc.Json.{strip_right, is_space, keep_char}
use tsuz_api_jcc.Base.Text.{str_length, str_length-append}
use tsuz_api_jcc.Agent.Summary.{str_take, join}

pub str_length-str_take : (n : ℕ) (s : String) → str_length (str_take n s) ≤ n
unfolding str_take
str_length-str_take zero s = omega arith
str_length-str_take (suc n) String.[] = omega arith
str_length-str_take (suc n) (String.◌∷◌ c s) = omega (arith, str_length-str_take n s)

keep_char_le : (c : Char) (s : String) → str_length (keep_char c s) ≤ suc (str_length s)
keep_char_le c String.[] = elim (Bool-cases (is_space (code c))) [
  | inl space ↦ rw space (omega arith)
  | inr no_space ↦ rw no_space (omega arith)
]
keep_char_le c (String.◌∷◌ d s) = omega arith

pub str_length-strip_right : (s : String) → str_length (strip_right s) ≤ str_length s
unfolding strip_right
str_length-strip_right String.[] = omega arith
str_length-strip_right (String.◌∷◌ c s) =
    omega (arith, keep_char_le c (strip_right s), str_length-strip_right s)

-- Each text takes its length and one character for what separates it.
unfoldable pub sizes : List String → ℕ
sizes [] = 0
sizes (s ∷ rest) = str_length s + 1 + sizes rest

pub str_length-join_lines : (fs : List String) → str_length (join "\n" fs) ≤ sizes fs - 1
unfolding join sizes
str_length-join_lines [] = omega arith
str_length-join_lines (s ∷ []) = omega arith
str_length-join_lines (s ∷ t ∷ rest) = omega (
  arith,
  str_length-append s ("\n" <> join "\n" (t ∷ rest)),
  str_length-append "\n" (join "\n" (t ∷ rest)),
  str_length-join_lines (t ∷ rest),
)

pub str_take_all : (n : ℕ) (s : String) → str_length s ≤ n → str_take n s ≡ s
unfolding str_take
str_take_all zero String.[] h = refl
str_take_all zero (String.◌∷◌ c s) h = absurd (omega arith)
str_take_all (suc n) String.[] h = refl
str_take_all (suc n) (String.◌∷◌ c s) h = ap (String.◌∷◌ c) (str_take_all n s (omega arith))
