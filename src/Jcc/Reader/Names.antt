-- ===== src/Jcc/Reader/Names.antt =====
-- app/jcc_data/snapshot_reader.py and scripts/sync_jcc_data.py: the directory names of the revisions.
use Prim.Native.Char.{code}
use tsuz_api_jcc.Base.{
  ℕ, ◌≤◌, String, ◌<>◌, Bool, true, false, ◌&&◌, Option, none, some, leb, ◌==◌, string_eq, nat_eq,
  if◌then◌else◌, ◌≡◌, refl, sym, ap, arith, ==→≡, ==_refl, Bool-cases, inl, inr,
}
use tsuz_api_jcc.Base.Int.{ℤ, pos, negsuc}
use tsuz_api_jcc.Base.Result.{ok, err}
use tsuz_api_jcc.Base.Text.{behind, behind-append, str_length, str_length-append}
use tsuz_api_jcc.Jcc.Json.{Builtins, show_ℕ}
use tsuz_api_jcc.Jcc.Adapters.Data.{VersionSpec}
use tsuz_api_jcc.Jcc.Reader.{Read, invalid_directory, first_revision_directory, base_version}
use tsuz_api_jcc.Jcc.Integer.{parse_int, parse_int-show_ℕ, show_ℕ-IsDigits, IsDigits}

abbrev pub revision_prefix : VersionSpec → String
revision_prefix spec = base_version spec <> "-r"

-- The name that a revision's directory is given.
unfoldable pub directory_name : VersionSpec → ℕ → String
directory_name spec revision =
    if revision == 1 then base_version spec else revision_prefix spec <> show_ℕ revision

abbrev between : ℕ → ℕ → ℕ → Bool
between low high c = leb low c && leb c high

abbrev ascii_digits : String → Bool
ascii_digits String.[] = true
ascii_digits (String.◌∷◌ c s) = between 48 57 (code c) && ascii_digits s

-- A full match of `[1-9][0-9]*`
unfoldable pub is_revision : String → Bool
is_revision String.[] = false
is_revision (String.◌∷◌ c s) = between 49 57 (code c) && ascii_digits s

module _ (py : Builtins) where
  -- `int` of a match, which is no number below one.
  abbrev revision_of : Option ℤ → Read ℕ
  revision_of none = err invalid_directory
  revision_of (some (negsuc _)) = err invalid_directory
  revision_of (some (pos n)) = if n == 1 then err first_revision_directory else ok n

  abbrev matched : Option String → Read ℕ
  matched none = err invalid_directory
  matched (some s) = if is_revision s then revision_of (parse_int py s) else err invalid_directory

  -- `_directory_revision`
  unfoldable pub directory_revision : String → VersionSpec → Read ℕ
  unfolding is_revision
  directory_revision name spec =
      if name == base_version spec then ok 1 else matched (behind (revision_prefix spec) name)

ascii_digits_lem : (s : String) → IsDigits s → ascii_digits s ≡ true
unfolding IsDigits
ascii_digits_lem String.[] h = refl
ascii_digits_lem (String.◌∷◌ c s) h = ground (arith, h.0, ascii_digits_lem s h.1)

is_revision-show_ℕ : (n : ℕ) → 1 ≤ n → is_revision (show_ℕ n) ≡ true
unfolding is_revision
is_revision-show_ℕ n h =
    let (c, s, e, low, high, k) = show_ℕ-IsDigits n h in
    rw e (ground (arith, low, high, ascii_digits_lem s k))

-- A directory with a longer name is not the base directory.
longer : (s t u : String) → 1 ≤ str_length t → ((s <> t) <> u == s) ≡ false
longer s t u h = elim (Bool-cases ((s <> t) <> u == s)) [
  | inl same ↦ absurd (
      omega (
        arith,
        str_length-append (s <> t) u,
        str_length-append s t,
        ap str_length (==→≡ ((s <> t) <> u) s same),
        h,
      ))
  | inr other ↦ other
]

-- The name that a revision's directory is given is read back as that revision.
pub directory_revision-directory_name :
    (py : Builtins) (spec : VersionSpec) (n : ℕ)
    → 1 ≤ n
    → directory_revision py (directory_name spec n) spec ≡ ok n
unfolding directory_revision directory_name
directory_revision-directory_name py spec n h = elim (Bool-cases (n == 1)) [
  | inl one ↦ rw (one, ==_refl (base_version spec)) (ap ok (sym (==→≡ n 1 one)))
  | inr more ↦
      rw
        (
          more,
          longer (base_version spec) "-r" (show_ℕ n) (omega arith),
          behind-append (revision_prefix spec) (show_ℕ n),
          is_revision-show_ℕ n h,
          parse_int-show_ℕ py n,
          more,
        )
        refl
]
