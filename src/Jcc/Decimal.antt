-- ===== src/Jcc/Decimal.antt =====
-- `decimal.Decimal`, as far as the source uses it. The limits on exponents are not modelled.
use Prim.Native.Char.{code}
use tsuz_api_jcc.Base.{
  ℕ, suc, ◌+◌, ◌-◌, ◌*◌, ◌%◌, ◌/◌, ◌^◌, String, Bool, true, false, ◌&&◌, ◌||◌, not, Option, none,
  some, List, [], ◌∷◌, ◌++◌, map, keep, length, leb, if◌then◌else◌, reverse,
}
use tsuz_api_jcc.Base.Int.{ℤ, pos, negsuc, sub_ℕ}
use tsuz_api_jcc.Jcc.Json.{Builtins, is_space}

pub data Decimal : Type 0 where
  finite : Bool → ℕ → ℤ → Decimal
  infinite quiet_nan signaling_nan : Decimal

abbrev pub codes : String → List ℕ
codes String.[] = []
codes (String.◌∷◌ c s) = code c ∷ codes s

abbrev digit : ℕ → Option ℕ
digit c = if leb 48 c && leb c 57 then some (c - 48) else none

-- A digit of another script stands for its value.
abbrev to_ascii : Builtins → ℕ → ℕ
to_ascii py c = elim (py.other_digit c) [ none ↦ c | some d ↦ 48 + d ]

abbrev lower : ℕ → ℕ
lower c = if leb 65 c && leb c 90 then c + 32 else c

drop_spaces : List ℕ → List ℕ
drop_spaces [] = []
drop_spaces (c ∷ s) = let rest = drop_spaces s in if is_space c then rest else c ∷ s

-- White space at the ends and underscores go; letters are compared in lower case.
abbrev same_code : ℕ → ℕ → Bool
same_code a b = leb a b && leb b a

normalize : Builtins → String → List ℕ
unfolding drop_spaces is_space
normalize py s =
    keep (λ c. not (same_code c 95))
      (map (λ c. lower (to_ascii py c)) (reverse (drop_spaces (reverse (drop_spaces (codes s))))))

-- The value of a text of digits only.
digits_from : ℕ → List ℕ → Option ℕ
digits_from acc [] = some acc
digits_from acc (c ∷ s) = elim (digit c) [ none ↦ none | some d ↦ digits_from (acc * 10 + d) s ]

digits : List ℕ → Option ℕ
unfolding digits_from
digits [] = none
digits (c ∷ s) = digits_from 0 (c ∷ s)

-- The text before the first such character, and the text behind it.
split_at : ℕ → List ℕ → List ℕ × Option (List ℕ)
split_at x [] = ([], none)
split_at x (c ∷ s) =
    let (before, behind) = split_at x s in
    if same_code c x then ([], some s) else (c ∷ before, behind)

abbrev shift : ℤ → ℕ → ℤ
shift (pos e) k = sub_ℕ e k
shift (negsuc e) k = negsuc (e + k)

exponent : Option (List ℕ) → Option ℤ
unfolding digits
exponent none = some (pos 0)
exponent (some []) = none
exponent (some (c ∷ s)) =
    if same_code c 45
    then elim (digits s) [ none ↦ none | some e ↦ some (sub_ℕ 0 e) ]
    else if same_code c 43
    then elim (digits s) [ none ↦ none | some e ↦ some (pos e) ]
    else elim (digits (c ∷ s)) [ none ↦ none | some e ↦ some (pos e) ]

abbrev with_exponent : Bool → Option ℕ → Option ℤ → ℕ → Option Decimal
with_exponent neg none _ k = none
with_exponent neg (some d) none k = none
with_exponent neg (some d) (some e) k = some (finite neg d (shift e k))

mantissa : Bool → List ℕ × Option (List ℕ) → Option ℤ → Option Decimal
unfolding digits
mantissa neg (whole, none) e = with_exponent neg (digits whole) e 0
mantissa neg (whole, some fraction) e =
    with_exponent neg (digits (whole ++ fraction)) e (length fraction)

number : Bool → List ℕ → Option Decimal
unfolding split_at exponent mantissa
number neg s = let (m, e) = split_at 101 s in mantissa neg (split_at 46 m) (exponent e)

equal : List ℕ → List ℕ → Bool
equal [] [] = true
equal (a ∷ s) (b ∷ t) = same_code a b && equal s t
equal _ _ = false

starts : List ℕ → List ℕ → Option (List ℕ)
starts [] s = some s
starts (a ∷ p) [] = none
starts (a ∷ p) (b ∷ s) = let rest = starts p s in if same_code a b then rest else none

abbrev nan_payload : Decimal → Option (List ℕ) → Option Decimal
nan_payload v none = none
nan_payload v (some []) = some v
nan_payload v (some (c ∷ s)) = elim (digits (c ∷ s)) [ none ↦ none | some _ ↦ some v ]

abbrev or_else : Option Decimal → Option Decimal → Option Decimal
or_else none b = b
or_else (some a) b = some a

unsigned : Bool → List ℕ → Option Decimal
unfolding number equal starts digits
unsigned neg s =
    if equal s (codes "inf") || equal s (codes "infinity")
    then some infinite
    else or_else (nan_payload quiet_nan (starts (codes "nan") s))
        (or_else (nan_payload signaling_nan (starts (codes "snan") s)) (number neg s))

signed : List ℕ → Option Decimal
unfolding unsigned
signed [] = none
signed (c ∷ s) =
    if same_code c 45
    then unsigned true s
    else if same_code c 43
    then unsigned false s
    else unsigned false (c ∷ s)

-- `Decimal(s)`, or `none` for `InvalidOperation`.
unfoldable pub parse_decimal : Builtins → String → Option Decimal
unfolding normalize signed
parse_decimal py s = signed (normalize py s)

-- `d == d.to_integral_value()`, of a finite number.
unfoldable pub is_integral : ℕ → ℤ → Bool
is_integral d (pos e) = true
is_integral d (negsuc e) = leb (d % 10 ^ suc e) 0

-- The absolute value of `int(d)`, of a finite number that is integral.
unfoldable pub scaled : ℕ → ℤ → ℕ
scaled d (pos e) = d * 10 ^ e
scaled d (negsuc e) = d / 10 ^ suc e

abbrev pub with_sign : Bool → ℕ → ℤ
with_sign true n = sub_ℕ 0 n
with_sign false n = pos n
