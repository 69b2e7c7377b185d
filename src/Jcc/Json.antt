-- ===== src/Jcc/Json.antt =====
-- What `json.loads` returns, and the built-ins of Python that the source applies to it.
use Prim.Native.Char.{Char, code}
use tsuz_api_jcc.Base.{
  ℕ, zero, suc, ◌/◌, ◌%◌, String, ◌<>◌, Bool, true, false, ◌&&◌, ◌||◌, Option, List, [], ◌∷◌, leb,
  ltb, if◌then◌else◌,
}
use tsuz_api_jcc.Base.Int.{ℤ, pos, negsuc}

-- A float stands as the text that `str` gives for it.
mutual
  pub data Json : Type 0 where
    null : Json
    bool : Bool → Json
    int : ℤ → Json
    float : String → Json
    str : String → Json
    arr : Items → Json
    obj : Fields → Json

  pub data Items : Type 0 where
    nil : Items
    item : Json → Items → Items

  pub data Fields : Type 0 where
    end : Fields
    field : String → Json → Fields → Fields

-- A `dict[str, Any]`, by its items in order.
abbrev pub Object : Type 0
Object = List (String × Json)

abbrev pub items : Fields → Object
items end = []
items (field k v fs) = (k, v) ∷ items fs

-- The tables of the interpreter's Unicode version, and the text of a list or a dict.
pub record Builtins : Type 0 where
  pub printable : ℕ → Bool
  pub other_digit : ℕ → Option ℕ
  pub repr : Json → String

abbrev pub digit_text : ℕ → String
digit_text zero = "0"
digit_text (suc zero) = "1"
digit_text (suc (suc zero)) = "2"
digit_text (suc (suc (suc zero))) = "3"
digit_text (suc (suc (suc (suc zero)))) = "4"
digit_text (suc (suc (suc (suc (suc zero))))) = "5"
digit_text (suc (suc (suc (suc (suc (suc zero)))))) = "6"
digit_text (suc (suc (suc (suc (suc (suc (suc zero))))))) = "7"
digit_text (suc (suc (suc (suc (suc (suc (suc (suc zero)))))))) = "8"
digit_text _ = "9"

-- The decimal digits before a text; more fuel than digits is given.
unfoldable pub show_digits : ℕ → ℕ → String → String
show_digits zero n rest = rest
show_digits (suc fuel) n rest =
    let more = show_digits fuel (n / 10) (digit_text (n % 10) <> rest) in
    if ltb n 10 then digit_text n <> rest else more

unfoldable pub show_ℕ : ℕ → String
unfolding show_digits
show_ℕ n = show_digits (suc n) n ""

abbrev pub show_ℤ : ℤ → String
show_ℤ (pos n) = show_ℕ n
show_ℤ (negsuc n) = "-" <> show_ℕ (suc n)

-- `str(value)`
unfoldable pub to_str : Builtins → Json → String
unfolding show_ℕ
to_str py null = "None"
to_str py (bool true) = "True"
to_str py (bool false) = "False"
to_str py (int i) = show_ℤ i
to_str py (float t) = t
to_str py (str s) = s
to_str py (arr xs) = py.repr (arr xs)
to_str py (obj fs) = py.repr (obj fs)

-- `s.isprintable()`
abbrev pub is_printable : Builtins → String → Bool
is_printable py String.[] = true
is_printable py (String.◌∷◌ c s) = py.printable (code c) && is_printable py s

abbrev pub is_empty : String → Bool
is_empty String.[] = true
is_empty (String.◌∷◌ _ _) = false

-- The characters that `strip` takes for white space.
unfoldable pub is_space : ℕ → Bool
is_space c =
    (leb 9 c && leb c 13)
    || (leb 28 c && leb c 32)
    || (leb 133 c && leb c 133)
    || (leb 160 c && leb c 160)
    || (leb 5760 c && leb c 5760)
    || (leb 8192 c && leb c 8202)
    || (leb 8232 c && leb c 8233)
    || (leb 8239 c && leb c 8239)
    || (leb 8287 c && leb c 8287)
    || (leb 12288 c && leb c 12288)

unfoldable pub strip_left : String → String
unfolding is_space
strip_left String.[] = ""
strip_left (String.◌∷◌ c s) =
    let rest = strip_left s in if is_space (code c) then rest else String.◌∷◌ c s

-- The character before a text, unless it is white space and the text is empty.
abbrev pub keep_char : Char → String → String
keep_char c String.[] = if is_space (code c) then "" else String.◌∷◌ c String.[]
keep_char c (String.◌∷◌ d s) = String.◌∷◌ c (String.◌∷◌ d s)

unfoldable pub strip_right : String → String
unfolding is_space
strip_right String.[] = ""
strip_right (String.◌∷◌ c s) = keep_char c (strip_right s)

-- `s.strip()`
unfoldable pub strip : String → String
unfolding strip_left strip_right
strip s = strip_right (strip_left s)

-- `re.split(r"[|｜]", s)`
unfoldable pub is_bar : ℕ → Bool
is_bar c = (leb 124 c && leb c 124) || (leb 65372 c && leb c 65372)

abbrev pub onto_first : Char → List String → List String
onto_first c [] = String.◌∷◌ c String.[] ∷ []
onto_first c (s ∷ rest) = String.◌∷◌ c s ∷ rest

unfoldable pub split_bars : String → List String
unfolding is_bar
split_bars String.[] = "" ∷ []
split_bars (String.◌∷◌ c s) =
    let rest = split_bars s in if is_bar (code c) then "" ∷ rest else onto_first c rest
