-- ===== src/Jcc/Integer.antt =====
-- Python's `int` on a text, as app/agent/runtime.py reads event identifiers and app/jcc_data/snapshot_reader.py
-- revisions that `str` has written.
use Prim.Native.Char.{Char, code}
use mathlib.Core.Path.{subst}
use text.Mathlib.TextLemmas.{cons-append, nil-append}
use tsuz_api_jcc.Base.{
  ℕ, zero, suc, ◌+◌, ◌-◌, ◌*◌, ◌/◌, ◌%◌, ◌≤◌, ◌<◌, String, ◌<>◌, Bool, true, false, ◌&&◌, Option,
  none, some, List, [], ◌∷◌, leb, ltb, if◌then◌else◌, ◌≡◌, refl, ◌∙◌, ap, arith, Bool-cases, inl,
  inr,
}
use tsuz_api_jcc.Base.Int.{ℤ, pos, sub_ℕ}
use tsuz_api_jcc.Jcc.Json.{
  Builtins, strip, strip_left, strip_right, is_space, show_ℕ, show_digits, digit_text,
}
use tsuz_api_jcc.Jcc.Decimal.{codes}

-- What `int` sees in a character behind the sign.
pub data Mark : Type 0 where
  underscore other : Mark
  digit : ℕ → Mark

abbrev or_other : Option ℕ → Mark
or_other none = other
or_other (some d) = digit d

abbrev mark : Builtins → ℕ → Mark
mark py c =
    if leb 48 c && leb c 57
    then digit (c - 48)
    else if leb 95 c && leb c 95
    then underscore
    else or_other (py.other_digit c)

-- The digits of a number; an underscore stands between two of them. `due` holds where a digit must follow.
unfoldable pub read_digits : Builtins → Bool → ℕ → List ℕ → Option ℕ
read_digits py true acc [] = none
read_digits py false acc [] = some acc
read_digits py due acc (c ∷ s) = elim (mark py c) [
  | digit d ↦ read_digits py false (acc * 10 + d) s
  | underscore ↦ if due then none else read_digits py true acc s
  | other ↦ none
]

abbrev negated : Option ℕ → Option ℤ
negated none = none
negated (some n) = some (sub_ℕ 0 n)

abbrev positive : Option ℕ → Option ℤ
positive none = none
positive (some n) = some (pos n)

abbrev read_sign : Builtins → List ℕ → Option ℤ
read_sign py [] = none
read_sign py (c ∷ s) =
    if leb 45 c && leb c 45
    then negated (read_digits py true 0 s)
    else if leb 43 c && leb c 43
    then positive (read_digits py true 0 s)
    else positive (read_digits py true 0 (c ∷ s))

-- `int(s)`, or `none` for `ValueError`.
unfoldable pub parse_int : Builtins → String → Option ℤ
unfolding read_digits
parse_int py s = read_sign py (codes (strip s))

-- Decimal digits only.
unfoldable pub IsDigits : String → Type 0
IsDigits String.[] = Unit
IsDigits (String.◌∷◌ c s) = ((48 ≤ code c) × (code c ≤ 57)) × IsDigits s

one-append : (c : Char) (rest : String) → String.◌∷◌ c String.[] <> rest ≡ String.◌∷◌ c rest
one-append c rest = cons-append c String.[] rest ∙ ap (String.◌∷◌ c) (nil-append rest)

digit_text_lem :
    (d : ℕ)
    → d < 10
    → (rest : String) → (c : Char) × (code c ≡ 48 + d) × (digit_text d <> rest ≡ String.◌∷◌ c rest)
digit_text_lem zero h rest = ("0", refl, one-append "0" rest)
digit_text_lem (suc zero) h rest = ("1", refl, one-append "1" rest)
digit_text_lem (suc (suc zero)) h rest = ("2", refl, one-append "2" rest)
digit_text_lem (suc (suc (suc zero))) h rest = ("3", refl, one-append "3" rest)
digit_text_lem (suc (suc (suc (suc zero)))) h rest = ("4", refl, one-append "4" rest)
digit_text_lem (suc (suc (suc (suc (suc zero))))) h rest = ("5", refl, one-append "5" rest)
digit_text_lem (suc (suc (suc (suc (suc (suc zero)))))) h rest = ("6", refl, one-append "6" rest)
digit_text_lem (suc (suc (suc (suc (suc (suc (suc zero))))))) h rest =
    ("7", refl, one-append "7" rest)
digit_text_lem (suc (suc (suc (suc (suc (suc (suc (suc zero)))))))) h rest =
    ("8", refl, one-append "8" rest)
digit_text_lem (suc (suc (suc (suc (suc (suc (suc (suc (suc zero))))))))) h rest =
    ("9", refl, one-append "9" rest)
digit_text_lem (suc (suc (suc (suc (suc (suc (suc (suc (suc (suc n)))))))))) h rest =
    absurd (omega arith)

read_digit :
    (py : Builtins) (due : Bool) (acc d : ℕ)
    → d < 10
    → (rest : String)
    → read_digits py due acc (codes (digit_text d <> rest))
      ≡ read_digits py false (acc * 10 + d) (codes rest)
unfolding read_digits
read_digit py due acc d h rest =
    let (c, q, e) = digit_text_lem d h rest in rw (e) (ground (arith, q))

IsDigits-digit_text :
    (d : ℕ) → d < 10 → (rest : String) → IsDigits rest → IsDigits (digit_text d <> rest)
unfolding IsDigits
IsDigits-digit_text d h rest k =
    let (c, q, e) = digit_text_lem d h rest in rw (e) ((omega (arith, q), omega (arith, q)), k)

mod_lt : (n : ℕ) → n % 10 < 10
mod_lt n = omega arith

read-show_digits :
    (py : Builtins) (due : Bool) (fuel n : ℕ) (rest : String)
    → n < fuel
    → read_digits py due 0 (codes (show_digits fuel n rest)) ≡ read_digits py false n (codes rest)
unfolding show_digits
read-show_digits py due zero n rest h = absurd (omega arith)
read-show_digits py due (suc fuel) n rest h = ground (
  arith,
  read-show_digits py due fuel (n / 10) (digit_text (n % 10) <> rest),
  λ (d : n < 10). read_digit py due 0 n d rest,
  read_digit py false (n / 10) (n % 10) (mod_lt n) rest,
)

IsDigits-show_digits :
    (fuel n : ℕ) (rest : String) → IsDigits rest → IsDigits (show_digits fuel n rest)
unfolding show_digits
IsDigits-show_digits zero n rest k = k
IsDigits-show_digits (suc fuel) n rest k = ground (
  arith,
  λ (d : n < 10). IsDigits-digit_text n d rest k,
  IsDigits-digit_text (n % 10) (mod_lt n) rest k,
  IsDigits-show_digits fuel (n / 10) (digit_text (n % 10) <> rest),
)

digit_not_space : (c : ℕ) → (48 ≤ c) × (c ≤ 57) → is_space c ≡ false
unfolding is_space
digit_not_space c h = ground arith

strip_left_lem : (s : String) → IsDigits s → strip_left s ≡ s
unfolding strip_left IsDigits is_space
strip_left_lem String.[] k = refl
strip_left_lem (String.◌∷◌ c s) k = rw (digit_not_space (code c) k.0) refl

strip_right_lem : (s : String) → IsDigits s → strip_right s ≡ s
unfolding strip_right IsDigits is_space
strip_right_lem String.[] k = refl
strip_right_lem (String.◌∷◌ c String.[]) k = rw (digit_not_space (code c) k.0) refl
strip_right_lem (String.◌∷◌ c (String.◌∷◌ d s)) k = rw (strip_right_lem (String.◌∷◌ d s) k.1) refl

strip_lem : (s : String) → IsDigits s → strip s ≡ s
unfolding strip
strip_lem s k = ap strip_right (strip_left_lem s k) ∙ strip_right_lem s k

read_sign_lem :
    (py : Builtins) (n : ℕ) (s : String)
    → IsDigits s
    → read_digits py true 0 (codes s) ≡ some n
    → read_sign py (codes s) ≡ some (pos n)
unfolding IsDigits read_digits
read_sign_lem py n String.[] k h = cc
read_sign_lem py n (String.◌∷◌ c s) k h = ground (arith, k.0)

-- The text of a number is read back as the number.
pub parse_int-show_ℕ : (py : Builtins) (n : ℕ) → parse_int py (show_ℕ n) ≡ some (pos n)
unfolding parse_int show_ℕ IsDigits read_digits
parse_int-show_ℕ py n =
    let k = IsDigits-show_digits (suc n) n "" tt in
    rw (strip_lem _ k)
      (read_sign_lem py n _ k (read-show_digits py true (suc n) n "" (omega arith)))

first_digit :
    (fuel n : ℕ) (rest : String)
    → n < fuel
    → 1 ≤ n
    → (c : Char) × (s : String) × (show_digits fuel n rest ≡ String.◌∷◌ c s) × (49 ≤ code c)
unfolding show_digits
first_digit zero n rest h k = absurd (omega arith)
first_digit (suc fuel) n rest h k = elim (Bool-cases (ltb n 10)) [
  | inl short ↦
      let (c, q, e) = digit_text_lem n (ground (arith, short)) rest in
      (c, rest, rw short e, omega (arith, q, k))
  | inr long ↦
      let (c, s, e, l) =
        first_digit fuel (n / 10) (digit_text (n % 10) <> rest) (omega (arith, h))
          (ground (arith, long)) in
      (c, s, rw long e, l)
]

-- The text of a positive number: a digit that is not zero, then digits.
pub show_ℕ-IsDigits :
    (n : ℕ)
    → 1 ≤ n
    → (c : Char) × (s : String) × (show_ℕ n ≡ String.◌∷◌ c s)
      × (49 ≤ code c)
      × (code c ≤ 57)
      × IsDigits s
unfolding show_ℕ IsDigits
show_ℕ-IsDigits n h =
    let (c, s, e, l) = first_digit (suc n) n "" (omega arith) h in
    let k = subst IsDigits e (IsDigits-show_digits (suc n) n "" tt) in (c, s, e, l, k.0.1, k.1)
