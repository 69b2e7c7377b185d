-- ===== src/Base/Text.antt =====
-- Lengths and prefixes of texts.
use text.Mathlib.TextLemmas.{cons-append, nil-append}
use Prim.Native.Nat.{ℕ, suc, ◌+◌}
use Prim.Native.Char.{code}
use Prim.Native.String.{String, ◌++◌ as ◌<>◌}
use mathlib.Core.Path.{◌≡◌, refl}
use mathlib.Core.Option.{Option, none, some}
use native.Mathlib.Omega.{arith}
use tsuz_api_jcc.Base.Equality.{◌==◌, nat_eq, ==_refl, if◌then◌else◌}

-- The number of characters.
abbrev pub str_length : String → ℕ
str_length String.[] = 0
str_length (String.◌∷◌ _ s) = suc (str_length s)

pub str_length-append : (s t : String) → str_length (s <> t) ≡ str_length s + str_length t
str_length-append String.[] t = rw (nil-append t) (omega arith)
str_length-append (String.◌∷◌ c s) t = rw (cons-append c s t) (omega (arith, str_length-append s t))

-- The text behind a prefix, if it is one.
abbrev pub behind : String → String → Option String
behind String.[] s = some s
behind (String.◌∷◌ c p) String.[] = none
behind (String.◌∷◌ c p) (String.◌∷◌ d s) =
    let rest = behind p s in if code c == code d then rest else none

pub behind-append : (p s : String) → behind p (p <> s) ≡ some s
behind-append String.[] s = rw (nil-append s) refl
behind-append (String.◌∷◌ c p) s = rw (cons-append c p s, ==_refl (code c), behind-append p s) refl
