-- ===== src/Base/Text.antt =====
-- `str::trim`, `str::is_empty` and comparison without case, on the native strings.
use Prim.Native.Nat.{ℕ, ◌+◌}
use Prim.Native.Char.{code}
use Prim.Native.String.{String}
use mathlib.Core.Path.{◌≡◌, refl}
use mathlib.Core.Logic.{◌↔◌}
use mathlib.Core.Bool.{Bool, true, false, ◌&&◌, ◌||◌}
use text.Mathlib.Text as Text
use text.Mathlib.TextEquality as TextEquality
use ethpayserver.Base.Tests.{leb, ◌==◌, ==_iff, if◌then◌else◌}

-- The code points with the property `White_Space`.
abbrev pub is_whitespace : ℕ → Bool
is_whitespace c =
    (leb 9 c && leb c 13)
    || c == 32
    || c == 0x85
    || c == 0xa0
    || c == 0x1680
    || (leb 0x2000 c && leb c 0x200a)
    || c == 0x2028
    || c == 0x2029
    || c == 0x202f
    || c == 0x205f
    || c == 0x3000

abbrev pub is_empty_str : String → Bool
is_empty_str String.[] = true
is_empty_str (String.◌∷◌ c s) = false

abbrev pub trim_start : String → String
trim_start String.[] = String.[]
trim_start (String.◌∷◌ c s) =
    let rest = trim_start s in if is_whitespace (code c) then rest else String.◌∷◌ c s

abbrev pub trim_end : String → String
trim_end String.[] = String.[]
trim_end (String.◌∷◌ c s) =
    let rest = trim_end s in
    if is_whitespace (code c) && is_empty_str rest then String.[] else String.◌∷◌ c rest

abbrev pub trim : String → String
trim s = trim_end (trim_start s)

abbrev lower : ℕ → ℕ
lower c = if leb b'A' c && leb c b'Z' then c + 32 else c

-- `eq_ignore_ascii_case`, and `LOWER(a) = LOWER(b)` on the hexadecimal texts of addresses.
abbrev pub eq_ignore_case : String → String → Bool
eq_ignore_case String.[] String.[] = true
eq_ignore_case (String.◌∷◌ c s) (String.◌∷◌ d t) =
    lower (code c) == lower (code d) && eq_ignore_case s t
eq_ignore_case (String.◌∷◌ c s) String.[] = false
eq_ignore_case String.[] (String.◌∷◌ d t) = false

pub eq_ignore_case_refl : (s : String) → eq_ignore_case s s ≡ true
eq_ignore_case_refl String.[] = refl
eq_ignore_case_refl (String.◌∷◌ c s) =
    rw ((==_iff (lower (code c)) (lower (code c))).1 refl, eq_ignore_case_refl s) refl

-- `==` on texts.
abbrev pub eq_str : String → String → Bool
eq_str s t = Text.◌==◌ s t

pub eq_str_iff : (s t : String) → (eq_str s t ≡ true) ↔ (s ≡ t)
eq_str_iff s t = TextEquality.eq_iff s t
